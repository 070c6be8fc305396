-- ===== src/ThreadPool/Placement.antt =====
-- Where the connections of a started pool go.
use netframe.Base.{
  ℕ, zero, suc, ◌+◌, ◌%◌, ◌<◌, ◌≡◌, refl, sym, ap, ◌∙◌, ◌⊎◌, inl, inr, [], length, ok, ◌==◌,
  if◌then◌else◌, arith,
}
use native.Mathlib.Nat.{mod-add-mod, mod-lt}
use netframe.ThreadPool.{ThreadPool, started_loops, get_next_loop}
use netframe.ThreadPool.RoundRobin.{item, get_next_loop_lem}

-- The loop of the connection with the index `i`, if the thread `j` reports the loop `start_loop j`.
abbrev pub placed : ℕ → ℕ → (ℕ → ℕ) → ℕ → ℕ
placed base n start_loop i = if n == 0 then base else start_loop (i % n)

length-started_loops : (n i : ℕ) (start_loop : ℕ → ℕ) → length (started_loops n i start_loop) ≡ n
length-started_loops zero i start_loop = refl
length-started_loops (suc n) i start_loop = omega (arith, length-started_loops n (i + 1) start_loop)

item-started_loops :
    (n i j : ℕ) (start_loop : ℕ → ℕ)
    → j < n
    → item (started_loops n i start_loop) j ≡ start_loop (i + j)
item-started_loops zero i j start_loop h = absurd (omega arith)
item-started_loops (suc n) i zero start_loop h = ap start_loop (omega arith)
item-started_loops (suc n) i (suc j) start_loop h =
    item-started_loops n (i + 1) j start_loop (omega arith) ∙ ap start_loop (omega arith)

pub base_alone : (p : ThreadPool) → p.loops ≡ [] → get_next_loop p ≡ ok (p.base_loop, p)
unfolding get_next_loop
base_alone p e = rw e refl

pub zero_turn : (m : ℕ) → (m ≡ 0) ⊎ ((0 < m) × (0 ≡ 0 % m))
zero_turn zero = inl refl
zero_turn (suc m) = inr (omega arith, omega arith)

module _ (base n : ℕ) (start_loop : ℕ → ℕ) where
  -- A started pool that has given away `i` loops.
  pub record Started (i : ℕ) (p : ThreadPool) : Type 0 where
    pub based : p.base_loop ≡ base
    pub filled : p.loops ≡ started_loops n 0 start_loop
    pub turned : (n ≡ 0) ⊎ ((0 < n) × (p.next ≡ i % n))

  -- The next loop is the one at the place of `i`.
  pub get_next_loop-Started :
      (i : ℕ) (p : ThreadPool)
      → Started i p
      → (q : ThreadPool) × (get_next_loop p ≡ ok (placed base n start_loop i, q))
        × Started (i + 1) q
  get_next_loop-Started i p v = go v.turned
    where
      Next : Type 0
      Next =
          (q : ThreadPool) × (get_next_loop p ≡ ok (placed base n start_loop i, q))
          × Started (i + 1) q

      size : length p.loops ≡ n
      size = ap length v.filled ∙ length-started_loops n 0 start_loop

      go : (n ≡ 0) ⊎ ((0 < n) × (p.next ≡ i % n)) → Next
      go (inl z) = (
        p,
        base_alone p (v.filled ∙ ap (λ m. started_loops m 0 start_loop) z)
            ∙ ap (λ b. ok (b, p)) (v.based ∙ sym (ap (λ m. placed base m start_loop i) z)),
        record { based = v.based; filled = v.filled; turned = inl z },
      )
      go (inr (pos, e)) =
          let inside : p.next < n = omega (arith, e, mod-lt i pos) in
          let there : item p.loops p.next ≡ start_loop (i % n) =
            ap (λ l. item l p.next) v.filled
            ∙ item-started_loops n 0 p.next start_loop inside
            ∙ ap start_loop {x = 0 + p.next} (omega (arith, e)) in
          let some' : (if n == 0 then base else start_loop (i % n)) ≡ start_loop (i % n) =
            ground arith in
          (
            record p { next = (p.next + 1) % length p.loops },
            get_next_loop_lem p (omega (arith, size, inside))
                ∙ ap (λ l. ok (l, record p { next = (p.next + 1) % length p.loops }))
                    (there ∙ sym some'),
            record {
              based = v.based;
              filled = v.filled;
              turned = inr (
                pos,
                ap (λ m. (p.next + 1) % m) size ∙ ap (λ k. (k + 1) % n) e ∙ mod-add-mod i n 1,
              );
            },
          )
