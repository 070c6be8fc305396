-- ===== src/Buffer/Crlf.antt =====
-- Buffer.h: `findCRLF`, by `std::search` over the readable bytes.
use netframe.Base.{
  ℕ, zero, suc, ◌+◌, ◌-◌, ◌≤◌, ◌<◌, ◌≡◌, refl, ap, ◌∙◌, List, [], ◌∷◌, true, false, ◌&&◌, Option,
  none, some, length, get_elem?, slice, leb, ◌==◌, if◌then◌else◌, Result, ok, ◌>>◌, assert, arith,
  ◌⊎◌, inl, inr, Bool-cases,
}
use native.Mathlib.Decide.{dec_lt}
use netframe.Buffer.{Buffer, peek, begin_write}
use netframe.Buffer.Contents.{IsValid, contents, length-contents, readable_lem}

-- `std::search` for the bytes "\r\n": how many bytes stand before the first match, or all.
unfoldable pub search_crlf : List ℕ → ℕ
search_crlf [] = 0
search_crlf (x ∷ []) = 1
search_crlf (x ∷ y ∷ r) =
    let later = suc (search_crlf (y ∷ r)) in if (x == 13) && (y == 10) then 0 else later

-- `findCRLF()`.
unfoldable pub find_crlf : Buffer → Option ℕ
find_crlf b =
    let crlf = peek b + search_crlf (slice (peek b) (begin_write b - peek b) b.bytes) in
    if crlf == begin_write b then none else some crlf

-- `findCRLF(start)`.
unfoldable pub find_crlf_from : Buffer → ℕ → Result (Option ℕ)
find_crlf_from b start = do
  assert (leb (peek b) start)
  assert (leb start (begin_write b))
  let crlf = start + search_crlf (slice start (begin_write b - start) b.bytes)
  ok (if crlf == begin_write b then none else some crlf)

-- "\r\n" stands at this place.
abbrev pub CrlfAt : List ℕ → ℕ → Type 0
CrlfAt xs i = (get_elem? xs i ≡ some 13) × (get_elem? xs (suc i) ≡ some 10)

-- The first place, or the end and no place.
abbrev pub FirstCrlf : List ℕ → ℕ → Type 0
FirstCrlf xs i =
    ((j : ℕ) → j < i → ¬ CrlfAt xs j) × ((CrlfAt xs i × (i < length xs)) ⊎ (i ≡ length xs))

search_crlf-FirstCrlf : (xs : List ℕ) → FirstCrlf xs (search_crlf xs)
unfolding search_crlf
search_crlf-FirstCrlf [] = ((λ j h. absurd (omega arith)), inr refl)
search_crlf-FirstCrlf (x ∷ []) = (none_before, inr refl)
  where
    none_before : (j : ℕ) → j < 1 → ¬ CrlfAt (x ∷ []) j
    none_before zero h c = cc
    none_before (suc j) h c = absurd (omega arith)
search_crlf-FirstCrlf (x ∷ y ∷ r) =
    go (Bool-cases ((x == 13) && (y == 10))) (search_crlf-FirstCrlf (y ∷ r))
  where
    n : ℕ
    n = search_crlf (y ∷ r)

    go :
        (((x == 13) && (y == 10)) ≡ true) ⊎ (((x == 13) && (y == 10)) ≡ false)
        → FirstCrlf (y ∷ r) n
        → FirstCrlf (x ∷ y ∷ r) (if (x == 13) && (y == 10) then 0 else suc n)
    go (inl e) ih =
        rw e ((λ j h. absurd (omega arith)), inl ((ground arith, ground arith), omega arith))
    go (inr e) ih = rw e (before, after ih.1)
      where
        before : (j : ℕ) → j < suc n → ¬ CrlfAt (x ∷ y ∷ r) j
        before zero h c = ground arith
        before (suc j) h c = ih.0 j (omega arith) c

        after :
            (CrlfAt (y ∷ r) n × (n < length (y ∷ r))) ⊎ (n ≡ length (y ∷ r))
            → (CrlfAt (x ∷ y ∷ r) (suc n) × (suc n < length (x ∷ y ∷ r)))
              ⊎ (suc n ≡ length (x ∷ y ∷ r))
        after (inl (c, h)) = inl (c, omega arith)
        after (inr h) = inr (ap suc h)

get_elem?_beyond : (xs : List ℕ) (j : ℕ) → length xs ≤ j → get_elem? xs j ≡ none
get_elem?_beyond [] j h = refl
get_elem?_beyond (x ∷ xs) zero h = absurd (omega arith)
get_elem?_beyond (x ∷ xs) (suc j) h = get_elem?_beyond xs j (omega arith)

-- On a valid buffer `findCRLF` is NULL and no "\r\n" stands among the readable bytes, or it points
-- to the first one.
pub find_crlf_lem :
    (b : Buffer)
    → IsValid b
    → ((find_crlf b ≡ none) × ((j : ℕ) → ¬ CrlfAt (contents b) j))
      ⊎ ((n : ℕ) × (find_crlf b ≡ some (b.reader_index + n))
          × CrlfAt (contents b) n
          × ((j : ℕ) → j < n → ¬ CrlfAt (contents b) j))
unfolding find_crlf
find_crlf_lem b v = go (search_crlf-FirstCrlf (contents b))
  where
    n : ℕ
    n = search_crlf (contents b)

    len : length (contents b) ≡ b.writer_index - b.reader_index
    len = length-contents b v ∙ readable_lem b v

    nowhere :
        ((j : ℕ) → j < n → ¬ CrlfAt (contents b) j)
        → n ≡ length (contents b)
        → (j : ℕ) → ¬ CrlfAt (contents b) j
    nowhere before e j c = elim (dec_lt j n) [
      | yes h ↦ before j h c
      | no h ↦ cc (get_elem?_beyond (contents b) j (omega arith), c.0)
    ]

    go :
        FirstCrlf (contents b) n
        → ((find_crlf b ≡ none) × ((j : ℕ) → ¬ CrlfAt (contents b) j))
          ⊎ ((m : ℕ) × (find_crlf b ≡ some (b.reader_index + m))
              × CrlfAt (contents b) m
              × ((j : ℕ) → j < m → ¬ CrlfAt (contents b) j))
    go (before, inl (here, h)) = inr (n, ground (arith, len), here, before)
    go (before, inr e) = inl (ground (arith, len), nowhere before e)
