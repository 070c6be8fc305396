-- ===== src/PollingServer/Order.antt =====
-- The table of counts of pollingserver.cpp, seen by its counts alone: the order of its entries is
-- forgotten, and with it that of the events that made them.
use mathlib.Core.Quot
use mathlib.Core.Quot.{Quot, Quot-set}
use mathlib.Core.Logic.{∥∥₁_elim}
use mathlib.Core.List.{Perm, Permᴰ}
use native.Mathlib.Nat.{ℕ_set}
use netframe.Base.{ℕ, ◌≡◌, refl, ap, ◌∙◌, List, [], ◌∷◌, arith}
use netframe.PollingServer.{Server, Event, lookup, or_zero, lt_model}
use netframe.PollingServer.Counts.{count_of, arrivals, lt_model_counts}

-- A text that has no entry counts as one that came never, as `operator[]` has it.
abbrev pub SameCounts : List (List ℕ × ℕ) → List (List ℕ × ℕ) → Type 0
SameCounts m n = (k : List ℕ) → or_zero (lookup k m) ≡ or_zero (lookup k n)

abbrev pub Table : Type 0
Table = Quot SameCounts

-- What the server knows of the texts.
abbrev pub table : Server → Table
table s = Quot.mk s.service_key

count_in : List ℕ → Table → ℕ
count_in k = Quot.lift ℕ_set (λ m. or_zero (lookup k m)) (λ m n h. h k)

-- Equal tables have equal counts.
table-count : (s t : Server) (k : List ℕ) → table s ≡ table t → count_of s k ≡ count_of t k
unfolding count_in
table-count s t k e = ap (count_in k) e

arrivals-Permᴰ :
    (listenfd : ℕ) (k : List ℕ) {es fs : List Event}
    → Permᴰ es fs
    → arrivals listenfd k es ≡ arrivals listenfd k fs
arrivals-Permᴰ listenfd k Permᴰ.nil = refl
arrivals-Permᴰ listenfd k (Permᴰ.cons {a} {b} {l₁} {l₂} e p) =
    omega (arith, ap (λ x. arrivals listenfd k (x ∷ [])) e, arrivals-Permᴰ listenfd k p)
arrivals-Permᴰ listenfd k (Permᴰ.swap e f) =
    omega
      (arith, ap (λ x. arrivals listenfd k (x ∷ [])) e, ap (λ x. arrivals listenfd k (x ∷ [])) f)
arrivals-Permᴰ listenfd k (Permᴰ.trans p q) =
    arrivals-Permᴰ listenfd k p ∙ arrivals-Permᴰ listenfd k q

arrivals-Perm :
    (listenfd : ℕ) (k : List ℕ) (es fs : List Event)
    → Perm es fs
    → arrivals listenfd k es ≡ arrivals listenfd k fs
arrivals-Perm listenfd k es fs p = ∥∥₁_elim p (ℕ_set _ _) (arrivals-Permᴰ listenfd k)

-- Two servers with the same counts, however their tables are laid out, that meet the same events in
-- any two orders, have the same counts after them; so the table is a function of the table before
-- and of the events as a bag.
pub table-lt_model :
    (print : ℕ → List ℕ) (listenfd : ℕ) (s t : Server) (es fs : List Event)
    → table s ≡ table t
    → Perm es fs
    → table (lt_model print listenfd s es) ≡ table (lt_model print listenfd t fs)
table-lt_model print listenfd s t es fs e p = Quot.sound (λ k. omega (
  arith,
  lt_model_counts print listenfd s es k,
  lt_model_counts print listenfd t fs k,
  table-count s t k e,
  arrivals-Perm listenfd k es fs p,
))
