-- ===== src/Buffer/Ops.antt =====
-- What the operations of Buffer.h do to the readable bytes: each one against a queue of bytes.
use netframe.Base.{
  ℕ, ◌+◌, ◌-◌, ◌≤◌, ◌<◌, ◌≡◌, refl, sym, ap, ap₂, subst, ◌∙◌, List, [], ◌++◌, length, take, drop,
  slice, drop-drop, drop-take, take-take, take_all, drop_all, take-append_exact, ok, err, assertion,
  arith, le→leb, lt→leb, Bool-cases, inl, inr, ltb,
}
use native.Mathlib.Nat.{le_refl}
use netframe.Buffer.{
  Buffer, max_size, readable_bytes, prependable_bytes, retrieve_all, retrieve, retrieve_as_string,
  retrieve_all_as_string, append, prepend, add_size, sub_size,
}
use netframe.Buffer.Contents.{
  IsValid, contents, copy_to_lem, copy_from_lem, overwrite, length-overwrite, slice-overwrite,
  drop-overwrite, length-contents,
}
use netframe.Buffer.Space.{ensure_writable_bytes_lem}

-- A valid buffer with these readable bytes.
pub record Holds (xs : List ℕ) (b : Buffer) : Type 0 where
  pub valid : IsValid b
  pub text : contents b ≡ xs

pub retrieve_all-Holds : (b : Buffer) → IsValid b → Holds [] (retrieve_all b)
retrieve_all-Holds b v = record {
  valid = record { front = v.front; ordered = omega arith; inside = v.front; small = v.small };
  text = refl;
}

-- Bytes written at the write index, with the index moved behind them.
pub written-Holds :
    (c : Buffer) (xs : List ℕ)
    → IsValid c
    → c.writer_index + length xs ≤ length c.bytes
    → Holds (contents c ++ xs) (record c {
      bytes = overwrite c.bytes c.writer_index xs;
      writer_index = add_size c.writer_index (length xs);
    })
written-Holds c xs v h = record {
  valid = record {
    front = omega (arith, len, v.front);
    ordered = omega (arith, v.ordered, v.inside, v.small);
    inside = omega (arith, len, v.small);
    small = omega (arith, len, v.small);
  };
  text =
      slice-overwrite c.bytes c.reader_index c.writer_index _ xs v.ordered v.inside
        (omega (arith, v.ordered, v.inside, v.small));
}
  where
    len : length (overwrite c.bytes c.writer_index xs) ≡ length c.bytes
    len = length-overwrite c.bytes c.writer_index xs h

-- On a valid buffer, where write index and bytes stay within the longest vector, `append` returns a
-- valid buffer whose readable bytes are the old ones followed by the new ones, whether it found the
-- room behind them, moved them to the front or grew the vector; it grows by at most the new bytes.
pub append_lem :
    (b : Buffer) (xs : List ℕ)
    → IsValid b
    → b.writer_index + length xs ≤ max_size
    → (c : Buffer) × (append b xs ≡ ok c)
      × Holds (contents b ++ xs) c
      × (length c.bytes ≤ length b.bytes + length xs)
unfolding append
append_lem b xs v k =
    let (c, eq, room) = ensure_writable_bytes_lem b (length xs) v k in
    (
      record c {
        bytes = overwrite c.bytes c.writer_index xs;
        writer_index = add_size c.writer_index (length xs);
      },
      rw (eq, copy_to_lem c.bytes c.writer_index xs room.fits) refl,
      rw (← room.same) (written-Holds c xs room.valid room.fits),
      omega (arith, room.growth, length-overwrite c.bytes c.writer_index xs room.fits),
    )

slice_cong : (xs : List ℕ) {i j n m : ℕ} → i ≡ j → n ≡ m → slice i n xs ≡ slice j m xs
slice_cong xs p q = ap₂ (λ i n. slice i n xs) p q

-- `retrieve` drops bytes from the front of a valid buffer that has them.
pub retrieve_lem :
    (b : Buffer) (n : ℕ)
    → IsValid b
    → n ≤ readable_bytes b
    → (c : Buffer) × (retrieve b n ≡ ok c) × Holds (drop n (contents b)) c
unfolding retrieve
retrieve_lem b n v h = elim (Bool-cases (ltb n (readable_bytes b))) [
  | inl e ↦ (
    record b { reader_index = add_size b.reader_index n },
    rw (le→leb n (readable_bytes b) h, e) refl,
    record {
      valid = record {
        front = v.front;
        ordered = ground arith;
        inside = v.inside;
        small = v.small;
      };
      text =
          rw
            (
              drop-take n (b.writer_index - b.reader_index) (drop b.reader_index b.bytes),
              drop-drop n b.reader_index b.bytes,
            )
            (slice_cong b.bytes (ground arith) (ground arith));
    },
  )
  | inr e ↦ (
    retrieve_all b,
    rw (le→leb n (readable_bytes b) h, e) refl,
    subst (λ ys. Holds ys (retrieve_all b))
        (sym (drop_all (contents b) n (ground (arith, length-contents b v))))
        (retrieve_all-Holds b v),
  )
]

-- More than there is fails the assertion.
pub retrieve_beyond : (b : Buffer) (n : ℕ) → readable_bytes b < n → retrieve b n ≡ err assertion
unfolding retrieve
retrieve_beyond b n h = rw (lt→leb n (readable_bytes b) h)

-- On a valid buffer with at least `n` readable bytes, `retrieveAsString(n)` returns the first `n`
-- of them and leaves a valid buffer with the others.
pub retrieve_as_string_lem :
    (b : Buffer) (n : ℕ)
    → IsValid b
    → n ≤ readable_bytes b
    → (c : Buffer) × (retrieve_as_string b n ≡ ok (take n (contents b), c))
      × Holds (drop n (contents b)) c
unfolding retrieve_as_string
retrieve_as_string_lem b n v h =
    let (c, eq, holds) = retrieve_lem b n v h in
    (
      c,
      rw (le→leb n (readable_bytes b) h, copy_from_lem b.bytes b.reader_index n (omega arith), eq)
          (ap (λ ys. ok (ys, c)) (sym (take-take n _ (drop b.reader_index b.bytes) (omega arith)))),
      holds,
    )

pub retrieve_all_as_string_lem :
    (b : Buffer)
    → IsValid b
    → (c : Buffer) × (retrieve_all_as_string b ≡ ok (contents b, c)) × Holds [] c
unfolding retrieve_all_as_string
retrieve_all_as_string_lem b v =
    let (c, eq, holds) = retrieve_as_string_lem b (readable_bytes b) v (le_refl _) in
    (
      c,
      eq ∙ ap (λ ys. ok (ys, c)) (take_all (contents b) _ (omega (arith, length-contents b v))),
      subst (λ ys. Holds ys c) (drop_all (contents b) _ (omega (arith, length-contents b v))) holds,
    )

-- On a valid buffer with room in front for the bytes, `prepend` returns a valid buffer whose
-- readable bytes are the new ones followed by the old ones.
pub prepend_lem :
    (b : Buffer) (xs : List ℕ)
    → IsValid b
    → length xs ≤ prependable_bytes b
    → (c : Buffer) × (prepend b xs ≡ ok c) × Holds (xs ++ contents b) c
unfolding prepend
prepend_lem b xs v h = (
  record b { bytes = overwrite b.bytes at xs; reader_index = sub_size b.reader_index (length xs) },
  rw (le→leb (length xs) (prependable_bytes b) h, start)
      (rw (copy_to_lem b.bytes at xs (omega arith)) refl),
  rw start prepended,
)
  where
    at : ℕ
    at = b.reader_index - length xs

    start : sub_size b.reader_index (length xs) ≡ at
    start = omega arith

    len : length (overwrite b.bytes at xs) ≡ length b.bytes
    len = length-overwrite b.bytes at xs (omega arith)

    prepended :
        Holds (xs ++ contents b) (record b { bytes = overwrite b.bytes at xs; reader_index = at })
    prepended = record {
      valid = record {
        front = omega (arith, len, v.front);
        ordered = omega (arith, v.ordered);
        inside = omega (arith, len, v.inside);
        small = omega (arith, len, v.small);
      };
      text = rw (drop-overwrite b.bytes at xs (omega arith)) (
          take-append_exact xs _ _ (b.writer_index - b.reader_index) (omega arith)
          ∙ ap (◌++◌ xs) (slice_cong b.bytes (omega arith) refl));
    }
