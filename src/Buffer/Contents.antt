-- ===== src/Buffer/Contents.antt =====
-- The readable bytes of a Buffer, its invariant, and what each operation of Buffer.h does to them.
use netframe.Base.{
  ℕ, ◌+◌, ◌-◌, ◌≤◌, ◌≡◌, ap, ◌∙◌, List, ◌++◌, append-nil, length, take, drop, slice, length-append,
  length-take, length-drop, take-append_exact, drop-append_exact, drop-take-append, ok, arith,
  le→leb,
}
use netframe.Buffer.{
  Buffer, max_size, k_cheap_prepend, readable_bytes, writable_bytes, copy_to, copy_from,
}

pub record IsValid (b : Buffer) : Type 0 where
  pub front : k_cheap_prepend ≤ length b.bytes
  pub ordered : b.reader_index ≤ b.writer_index
  pub inside : b.writer_index ≤ length b.bytes
  pub small : length b.bytes ≤ max_size

abbrev pub contents : Buffer → List ℕ
contents b = slice b.reader_index (b.writer_index - b.reader_index) b.bytes

pub readable_lem : (b : Buffer) → IsValid b → readable_bytes b ≡ b.writer_index - b.reader_index
readable_lem b v = omega arith

pub writable_lem : (b : Buffer) → IsValid b → writable_bytes b ≡ length b.bytes - b.writer_index
writable_lem b v = omega arith

pub length-contents : (b : Buffer) → IsValid b → length (contents b) ≡ readable_bytes b
length-contents b v = omega (
  arith,
  length-take (b.writer_index - b.reader_index) (drop b.reader_index b.bytes),
  length-drop b.reader_index b.bytes,
)

-- The vector after a write in bounds.
abbrev pub overwrite : List ℕ → ℕ → List ℕ → List ℕ
overwrite bytes at xs = take at bytes ++ (xs ++ drop (at + length xs) bytes)

pub copy_to_lem :
    (bytes : List ℕ) (at : ℕ) (xs : List ℕ)
    → at + length xs ≤ length bytes
    → copy_to bytes at xs ≡ ok (overwrite bytes at xs)
unfolding copy_to
copy_to_lem bytes at xs h = rw (le→leb _ _ h)

pub copy_from_lem :
    (bytes : List ℕ) (at n : ℕ)
    → at + n ≤ length bytes
    → copy_from bytes at n ≡ ok (slice at n bytes)
unfolding copy_from
copy_from_lem bytes at n h = rw (le→leb _ _ h)

pub length-overwrite :
    (bytes : List ℕ) (at : ℕ) (xs : List ℕ)
    → at + length xs ≤ length bytes
    → length (overwrite bytes at xs) ≡ length bytes
length-overwrite bytes at xs h = omega (
  arith,
  length-append (take at bytes) (xs ++ drop (at + length xs) bytes),
  length-append xs (drop (at + length xs) bytes),
  length-take at bytes,
  length-drop (at + length xs) bytes,
)

-- Reading on from `i`, up to the end of what was written at `p`.
pub slice-overwrite :
    (bytes : List ℕ) (i p n : ℕ) (xs : List ℕ)
    → i ≤ p
    → p ≤ length bytes
    → n ≡ p - i + length xs
    → slice i n (overwrite bytes p xs) ≡ slice i (p - i) bytes ++ xs
slice-overwrite bytes i p n xs h k e =
    rw (drop-take-append i p bytes (xs ++ drop (p + length xs) bytes) h k) (
      take-append_exact (slice i (p - i) bytes) _ n (length xs)
        (omega (arith, length-take (p - i) (drop i bytes), length-drop i bytes))
      ∙ ap (◌++◌ (slice i (p - i) bytes))
          (take-append_exact xs _ (length xs) 0 (omega arith) ∙ append-nil xs))

-- What stands behind a write is still there.
pub drop-overwrite :
    (bytes : List ℕ) (p : ℕ) (xs : List ℕ)
    → p + length xs ≤ length bytes
    → drop p (overwrite bytes p xs) ≡ xs ++ drop (p + length xs) bytes
drop-overwrite bytes p xs h =
    drop-append_exact (take p bytes) _ p (omega (arith, length-take p bytes))
