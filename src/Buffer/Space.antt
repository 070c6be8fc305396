-- ===== src/Buffer/Space.antt =====
-- Making room: `makeSpace` and `ensureWritableBytes` keep the readable bytes.
use netframe.Base.{
  ℕ, ◌+◌, ◌-◌, ◌≤◌, ◌<◌, ◌≡◌, refl, Bool, ◌∙◌, List, ◌++◌, length, take, slice, replicate,
  length-append, length-take, length-replicate, take_all, slice-append_le, ok, assert, arith,
  le→leb, lt→ltb, leb, Bool-cases, inl, inr, ltb, ◌>>◌,
}
use netframe.Buffer.{
  Buffer, max_size, k_cheap_prepend, writable_bytes, prependable_bytes, resize, make_space,
  ensure_writable_bytes, add_size,
}
use netframe.Buffer.Contents.{
  IsValid, contents, readable_lem, copy_to_lem, copy_from_lem, overwrite, length-overwrite,
  slice-overwrite, length-contents,
}

-- A buffer with the same readable bytes and room for `n` more.
pub record Room (b : Buffer) (n : ℕ) (c : Buffer) : Type 0 where
  pub valid : IsValid c
  pub same : contents c ≡ contents b
  pub fits : c.writer_index + n ≤ length c.bytes
  pub growth : length c.bytes ≤ length b.bytes + n

-- What `makeSpace` leaves when the vector has to grow.
abbrev grown : Buffer → ℕ → Buffer
grown b n = record b {
  bytes = take (b.writer_index + n) b.bytes ++ replicate (b.writer_index + n - length b.bytes) 0;
}

-- What it leaves when the bytes move to the front.
abbrev moved : Buffer → Buffer
moved b = record b {
  bytes = overwrite b.bytes k_cheap_prepend (contents b);
  reader_index = k_cheap_prepend;
  writer_index = k_cheap_prepend + (b.writer_index - b.reader_index);
}

resize_lem :
    (bytes : List ℕ) (n : ℕ)
    → n ≤ max_size
    → resize bytes n ≡ ok (take n bytes ++ replicate (n - length bytes) 0)
unfolding resize
resize_lem bytes n h = rw (le→leb _ _ h)

grown-Room :
    (b : Buffer) (n : ℕ)
    → IsValid b
    → length b.bytes < b.writer_index + n
    → b.writer_index + n ≤ max_size
    → Room b n (grown b n)
grown-Room b n v h k = record {
  valid = record {
    front = omega (arith, len, v.front);
    ordered = v.ordered;
    inside = omega (arith, len, v.inside);
    small = omega (arith, len);
  };
  same = rw (take_all b.bytes (b.writer_index + n) (omega arith)) same;
  fits = omega (arith, len);
  growth = omega (arith, len, v.inside);
}
  where
    len : length (grown b n).bytes ≡ b.writer_index + n
    len = omega (
      arith,
      length-append (take (b.writer_index + n) b.bytes)
          (replicate (b.writer_index + n - length b.bytes) 0),
      length-take (b.writer_index + n) b.bytes,
      length-replicate {A = ℕ} (b.writer_index + n - length b.bytes) 0,
    )

    same :
        slice b.reader_index
          (b.writer_index - b.reader_index)
          (b.bytes ++ replicate (b.writer_index + n - length b.bytes) 0)
        ≡ contents b
    same = slice-append_le b.reader_index _ b.bytes _ (omega arith)

moved-Room :
    (b : Buffer) (n : ℕ)
    → IsValid b
    → k_cheap_prepend < b.reader_index
    → b.writer_index + n + k_cheap_prepend ≤ length b.bytes + b.reader_index
    → Room b n (moved b)
moved-Room b n v h k = record {
  valid = record {
    front = omega (arith, len, v.front);
    ordered = omega arith;
    inside = omega (arith, len, v.inside);
    small = omega (arith, len, v.small);
  };
  same =
      slice-overwrite b.bytes k_cheap_prepend k_cheap_prepend _ (contents b) (omega arith)
        (omega arith) (omega (arith, readable));
  fits = omega (arith, len);
  growth = omega (arith, len, v.inside);
}
  where
    readable : length (contents b) ≡ b.writer_index - b.reader_index
    readable = length-contents b v ∙ readable_lem b v

    len : length (moved b).bytes ≡ length b.bytes
    len = length-overwrite b.bytes k_cheap_prepend (contents b) (omega (arith, readable))

-- `makeSpace` is asked for more than the writable bytes: it returns, with room for `n` bytes.
make_space_lem :
    (b : Buffer) (n : ℕ)
    → IsValid b
    → length b.bytes < b.writer_index + n
    → b.writer_index + n ≤ max_size
    → (c : Buffer) × (make_space b n ≡ ok c) × Room b n c
unfolding make_space
make_space_lem b n v h k = elim (Bool-cases full) [
  | inl yes' ↦ (
    grown b n,
    rw (yes', resize_lem b.bytes (add_size b.writer_index n) (omega arith)) (ground arith),
    grown-Room b n v h k,
  )
  | inr no' ↦ (
    moved b,
    rw
        (
          no',
          lt→ltb k_cheap_prepend b.reader_index (ground arith),
          readable_lem b v,
          copy_from_lem b.bytes b.reader_index (b.writer_index - b.reader_index) (omega arith),
          copy_to_lem b.bytes k_cheap_prepend (contents b) (ground (arith, readable)),
        )
        (ground arith),
    moved-Room b n v (ground arith) (ground arith),
  )
]
  where
    full : Bool
    full = ltb (add_size (writable_bytes b) (prependable_bytes b)) (add_size n k_cheap_prepend)

    readable : length (contents b) ≡ b.writer_index - b.reader_index
    readable = length-contents b v ∙ readable_lem b v

-- With the vector within its limits, `ensureWritableBytes(n)` returns, keeps the readable bytes and
-- leaves room for `n` more.
pub ensure_writable_bytes_lem :
    (b : Buffer) (n : ℕ)
    → IsValid b
    → b.writer_index + n ≤ max_size
    → (c : Buffer) × (ensure_writable_bytes b n ≡ ok c) × Room b n c
unfolding ensure_writable_bytes
ensure_writable_bytes_lem b n v k = elim (Bool-cases (ltb (writable_bytes b) n)) [
  | inl e ↦
      let (c, eq, room) = make_space_lem b n v (ground arith) k in
      (c, rw (e, eq) (enough c room), room)
  | inr e ↦
      let room : Room b n b = record {
        valid = v;
        same = refl;
        fits = ground arith;
        growth = omega arith;
      } in
      (b, rw e (enough b room), room)
]
  where
    enough : (c : Buffer) → Room b n c → (assert (leb n (writable_bytes c)) >> ok c) ≡ ok c
    enough c room = rw (
        le→leb n (writable_bytes c) (omega (arith, room.fits, room.valid.inside, room.valid.small)))
