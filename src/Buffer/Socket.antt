-- ===== src/Buffer/Socket.antt =====
-- Buffer.cpp: `readFd` scatters one `readv` over the vector and the 64 KiB on the stack.
use netframe.Base.{
  ℕ, ◌+◌, ◌≤◌, ◌≡◌, refl, subst, List, ◌++◌, append_assoc, length, take, drop, ok, length-take,
  length-drop, take-append-drop, arith, leb, Bool-cases, inl, inr,
}
use netframe.Buffer.{
  Buffer, max_size, writable_bytes, append, add_size, extrabuf_size, failed, got, read_fd,
}
use netframe.Buffer.Contents.{IsValid, contents, copy_to_lem, overwrite, length-overwrite}
use netframe.Buffer.Ops.{Holds, written-Holds, append_lem}

-- The vector filled up to its end.
filled-Holds :
    (b : Buffer) (xs : List ℕ)
    → IsValid b
    → b.writer_index + length xs ≡ length b.bytes
    → let bytes = overwrite b.bytes b.writer_index xs in
      Holds (contents b ++ xs) (record b { bytes = bytes; writer_index = length bytes })
filled-Holds b xs v e =
    let end : add_size b.writer_index (length xs) ≡ length (overwrite b.bytes b.writer_index xs) =
      omega (arith, v.small, length-overwrite b.bytes b.writer_index xs (omega arith)) in
    rw (← end) (written-Holds b xs v (omega arith))

-- The call that fills the vector and appends the rest from the stack.
spilled_lem :
    (b : Buffer) (xs ys : List ℕ)
    → IsValid b
    → b.writer_index + length xs ≡ length b.bytes
    → length b.bytes + length ys ≤ max_size
    → let bytes = overwrite b.bytes b.writer_index xs in
      (c : Buffer) × (append (record b { bytes = bytes; writer_index = length bytes }) ys ≡ ok c)
      × Holds (contents b ++ (xs ++ ys)) c
spilled_lem b xs ys v e k =
    let bytes = overwrite b.bytes b.writer_index xs in
    let full = filled-Holds b xs v e in
    let (c, eq, holds, _) =
      append_lem (record b { bytes = bytes; writer_index = length bytes }) ys full.valid
        (omega (arith, length-overwrite b.bytes b.writer_index xs (omega arith))) in
    (
      c,
      eq,
      rw (← append_assoc (contents b) xs ys) (subst (λ zs. Holds (zs ++ ys) c) full.text holds),
    )

-- On a valid buffer, when `readv` took no more than fits the vector's free part and the 64 KiB on
-- the stack, and the vector cannot pass its longest size, `readFd` returns the count and a valid
-- buffer where all those bytes stand behind the readable ones, in order, also those that went to
-- the stack.
pub read_fd_lem :
    (b : Buffer) (chars : List ℕ)
    → IsValid b
    → length chars ≤ writable_bytes b + extrabuf_size
    → length b.bytes + length chars ≤ max_size
    → (c : Buffer) × (read_fd b (got chars) ≡ ok (got chars, c)) × Holds (contents b ++ chars) c
unfolding read_fd
read_fd_lem b chars v h k = elim (Bool-cases (leb (length chars) (writable_bytes b))) [
  | inl e ↦ (
    _,
    rw (e, copy_to_lem b.bytes b.writer_index chars (ground arith)) refl,
    written-Holds b chars v (ground arith),
  )
  | inr e ↦
      let w = writable_bytes b in
      let fills : b.writer_index + length (take w chars) ≡ length b.bytes =
        ground (arith, length-take w chars) in
      let (c, eq, holds) =
        spilled_lem b (take w chars) (drop w chars) v fills (omega (arith, length-drop w chars)) in
      (
        c,
        rw (e, copy_to_lem b.bytes b.writer_index (take w chars) (omega arith), eq) refl,
        subst (λ zs. Holds (contents b ++ zs) c) (take-append-drop w chars) holds,
      )
]

-- A failed `readv` saves its errno and leaves the buffer as it was.
pub read_fd_failed : (b : Buffer) (errno : ℕ) → read_fd b (failed errno) ≡ ok (failed errno, b)
unfolding read_fd
read_fd_failed b errno = refl
