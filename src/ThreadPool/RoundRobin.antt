-- ===== src/ThreadPool/RoundRobin.antt =====
-- `getNextLoop` goes round the loops of the pool.
use netframe.Base.{
  ℕ, zero, suc, ◌+◌, ◌%◌, ◌<◌, ◌≡◌, refl, sym, ap, ap₂, ◌∙◌, false, List, [], ◌∷◌, some, length,
  get_elem?, leb, if◌then◌else◌, ok, ◌>>=◌, arith, Bool-cases, ◌⊎◌, inl, inr,
}
use native.Mathlib.Nat.{mod-eq_of_lt, mod-add-mod, mod_self, mod-mod, mod-lt}
use netframe.ThreadPool.{ThreadPool, is_empty, get_next_loop, get_next_loops}

-- The item at an index that is in range.
abbrev pub item : List ℕ → ℕ → ℕ
item [] i = 0
item (x ∷ xs) zero = x
item (x ∷ xs) (suc i) = item xs i

get_elem?-item : (xs : List ℕ) (i : ℕ) → i < length xs → get_elem? xs i ≡ some (item xs i)
get_elem?-item [] i h = absurd (omega arith)
get_elem?-item (x ∷ xs) zero h = refl
get_elem?-item (x ∷ xs) (suc i) h = get_elem?-item xs i (omega arith)

wrap_next : (i n : ℕ) → i < n → (if leb n (i + 1) then 0 else i + 1) ≡ (i + 1) % n
wrap_next i n h = elim (Bool-cases (leb n (i + 1))) [
  | inl e ↦ rw e (let full : i + 1 ≡ n = ground arith in rw full (sym (mod_self n)))
  | inr e ↦ rw e (sym (mod-eq_of_lt {n = i + 1} {m = n} (ground arith)))
]

-- One call gives the loop at `m_next` and moves on, round the end.
pub get_next_loop_lem :
    (p : ThreadPool)
    → p.next < length p.loops
    → get_next_loop p ≡ ok (item p.loops p.next, record p { next = (p.next + 1) % length p.loops })
unfolding get_next_loop
get_next_loop_lem p h =
    rw (nonempty p.loops h, get_elem?-item p.loops p.next h, wrap_next p.next (length p.loops) h)
      refl
  where
    nonempty : (xs : List ℕ) → p.next < length xs → is_empty xs ≡ false
    nonempty [] h = absurd (omega arith)
    nonempty (x ∷ xs) h = refl

-- The loops from index `i` on, round and round.
abbrev pub turns : List ℕ → ℕ → ℕ → List ℕ
turns xs i zero = []
turns xs i (suc k) = item xs (i % length xs) ∷ turns xs (i + 1) k

turns-mod : (xs : List ℕ) (i k : ℕ) → turns xs (i % length xs) k ≡ turns xs i k
turns-mod xs i zero = refl
turns-mod xs i (suc k) = ap₂ ◌∷◌ (ap (item xs) (mod-mod i (length xs))) (
    sym (turns-mod xs (i % length xs + 1) k)
    ∙ ap (λ n. turns xs n k) (mod-add-mod i (length xs) 1)
    ∙ turns-mod xs (i + 1) k)

-- From a valid position, `k` calls in a row return the loops in turn, starting with the one at
-- `m_next` and beginning again after the last, and leave `m_next` in range.
pub get_next_loops_lem :
    (k : ℕ) (p : ThreadPool)
    → p.next < length p.loops
    → get_next_loops k p
      ≡ ok (turns p.loops p.next k, record p { next = (p.next + k) % length p.loops })
unfolding get_next_loops
get_next_loops_lem zero p h =
    let n = length p.loops in
    let here : p.next ≡ (p.next + 0) % n =
      sym (mod-eq_of_lt {n = p.next + 0} {m = n} (omega arith) ∙ omega arith) in
    ap (λ i. ok ([], record p { next = i })) here
get_next_loops_lem (suc k) p h =
    let n = length p.loops in
    let p' = record p { next = (p.next + 1) % n } in
    let ih = get_next_loops_lem k p' (mod-lt (p.next + 1) (omega arith)) in
    let first : item p.loops p.next ≡ item p.loops (p.next % n) =
      ap (item p.loops) (sym (mod-eq_of_lt h)) in
    let last : ((p.next + 1) % n + k) % n ≡ (p.next + suc k) % n =
      mod-add-mod (p.next + 1) n k ∙ ap (λ i. i % n) {y = p.next + suc k} (omega arith) in
    rw (get_next_loop_lem p h) (
      ap (λ r. r >>= λ (q : List ℕ × ThreadPool). ok (item p.loops p.next ∷ q.0, q.1)) ih
      ∙ ap₂ (λ ls i. ok (ls, record p { next = i }))
          (ap₂ ◌∷◌ first (turns-mod p.loops (p.next + 1) k)) last)

-- No loops, or a position among them.
abbrev pub IsValid : ThreadPool → Type 0
IsValid p = (p.loops ≡ []) ⊎ (p.next < length p.loops)

-- `getNextLoop` returns from every valid pool, with the base loop if there are no others, and
-- leaves a valid pool with the same loops.
pub get_next_loop_total :
    (p : ThreadPool)
    → IsValid p
    → (loop : ℕ) × (q : ThreadPool) × (get_next_loop p ≡ ok (loop, q))
      × IsValid q
      × (q.loops ≡ p.loops)
get_next_loop_total p (inl e) = (p.base_loop, p, alone, inl e, refl)
  where
    alone : get_next_loop p ≡ ok (p.base_loop, p)
    alone = unfold get_next_loop in rw e refl
get_next_loop_total p (inr h) = (
  item p.loops p.next,
  record p { next = (p.next + 1) % length p.loops },
  get_next_loop_lem p h,
  inr (mod-lt (p.next + 1) (omega arith)),
  refl,
)
