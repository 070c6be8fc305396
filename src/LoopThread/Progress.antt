-- ===== src/LoopThread/Progress.antt =====
-- EventLoopThread.cpp: which thread can go on while a loop starts, and how far both have to go.
use netframe.Base.{
  ℕ, ◌+◌, ◌<◌, ◌≡◌, ap, ◌⊎◌, inl, inr, refl, Bool, true, false, Option, none, some, arith,
}
use netframe.LoopThread.{
  EventLoopThread, Starter, calling, testing, waiting, signalled, leaving, reading, returned,
  Runner, preparing, locking, publishing, notifying, unlocking, looping, Owner, free, starts, runs,
  start_loop, start_loop_at, thread_func_at, thread_func, woken,
}
use netframe.LoopThread.Handshake.{
  Advance, starter_steps, runner_steps, Reach, InvAt, Owned, in_runner, at, Reach-Inv,
}

module _ (loop : ℕ) where
  abbrev pub rank_of_runner : Runner → ℕ
  rank_of_runner preparing = 20
  rank_of_runner locking = 16
  rank_of_runner publishing = 12
  rank_of_runner notifying = 8
  rank_of_runner unlocking = 4
  rank_of_runner looping = 0

  abbrev pub rank_of_starter : Starter → ℕ
  rank_of_starter calling = 7
  rank_of_starter signalled = 6
  rank_of_starter testing = 5
  rank_of_starter waiting = 4
  rank_of_starter leaving = 3
  rank_of_starter reading = 2
  rank_of_starter (returned l) = 0

  abbrev pub rank : EventLoopThread → ℕ
  rank t = rank_of_starter t.starter + rank_of_runner t.runner

  starter_at-rank :
      (p : Starter) (r : Runner) (m : Owner) (l : Option ℕ) (u : EventLoopThread)
      → start_loop_at p (at loop p r m l) ≡ some u
      → rank u < rank (at loop p r m l)
  starter_at-rank calling r free l u e = ground arith
  starter_at-rank calling r starts l u e = cc
  starter_at-rank calling r runs l u e = cc
  starter_at-rank testing r m none u e = ground arith
  starter_at-rank testing r m (some l) u e = ground arith
  starter_at-rank waiting r m l u e = cc
  starter_at-rank signalled r free l u e = ground arith
  starter_at-rank signalled r starts l u e = cc
  starter_at-rank signalled r runs l u e = cc
  starter_at-rank leaving r m l u e = ground arith
  starter_at-rank reading r m l u e = ground arith
  starter_at-rank (returned o) r m l u e = cc

  rank_of-woken : (p : Starter) → rank_of_starter (woken p) < rank_of_starter p + 3
  rank_of-woken calling = omega arith
  rank_of-woken testing = omega arith
  rank_of-woken waiting = omega arith
  rank_of-woken signalled = omega arith
  rank_of-woken leaving = omega arith
  rank_of-woken reading = omega arith
  rank_of-woken (returned l) = omega arith

  runner_at-rank :
      (p : Starter) (r : Runner) (m : Owner) (l : Option ℕ) (u : EventLoopThread)
      → thread_func_at loop r (at loop p r m l) ≡ some u
      → rank u < rank (at loop p r m l)
  runner_at-rank p preparing m l u e = ground arith
  runner_at-rank p locking free l u e = ground arith
  runner_at-rank p locking starts l u e = cc
  runner_at-rank p locking runs l u e = cc
  runner_at-rank p publishing m l u e = ground arith
  runner_at-rank p notifying m l u e = ground (arith, rank_of-woken p)
  runner_at-rank p unlocking m l u e = ground arith
  runner_at-rank p looping m l u e = cc

  Advance-rank : {t u : EventLoopThread} → Advance loop t u → rank u < rank t
  unfolding start_loop thread_func
  Advance-rank {t} {u} (starter_steps e) = starter_at-rank t.starter t.runner t.mutex t.ploop u e
  Advance-rank {t} {u} (runner_steps e) = runner_at-rank t.starter t.runner t.mutex t.ploop u e

  -- One of the threads can go on by itself.
  CanStep : EventLoopThread → Type 0
  CanStep t = (u : EventLoopThread) × Advance loop t u

  runner_can :
      (p : Starter) (r : Runner) (m : Owner) (l : Option ℕ)
      → in_runner loop r ≡ true
      → CanStep (at loop p r m l)
  unfolding CanStep thread_func
  runner_can p preparing m l h = cc
  runner_can p locking m l h = cc
  runner_can p publishing m l h = (_, runner_steps refl)
  runner_can p notifying m l h = (_, runner_steps refl)
  runner_can p unlocking m l h = (_, runner_steps refl)
  runner_can p looping m l h = cc

  -- The mutex is free, or the runner stands inside its guard and goes on.
  free_or_runner : (b : Bool) (m : Owner) → Owned loop false b m → (m ≡ free) ⊎ (b ≡ true)
  free_or_runner true m e = inr refl
  free_or_runner false m e = inl e

  caller_can :
      (p : Starter) (r : Runner) (m : Owner) (l : Option ℕ)
      → (p ≡ calling) ⊎ (p ≡ signalled)
      → Owned loop false (in_runner loop r) m
      → CanStep (at loop p r m l)
  unfolding CanStep start_loop
  caller_can p r m l which owned = elim (free_or_runner (in_runner loop r) m owned) [
    | inr inside ↦ runner_can p r m l inside
    | inl idle ↦ elim which [
      | inl e ↦ (
        record (at loop p r m l) { mutex = starts; starter = testing },
        starter_steps (rw (e, idle) refl),
      )
      | inr e ↦ (
        record (at loop p r m l) { mutex = starts; starter = testing },
        starter_steps (rw (e, idle) refl),
      )
    ]
  ]

  can_step :
      (p : Starter) (r : Runner) (m : Owner) (l : Option ℕ)
      → InvAt loop p r m l
      → (p ≡ returned (some loop)) ⊎ CanStep (at loop p r m l)
  unfolding CanStep start_loop thread_func
  can_step calling r m l v = inr (caller_can calling r m l (inl refl) v.owned)
  can_step signalled r m l v = inr (caller_can signalled r m l (inr refl) v.owned)
  can_step testing r m l v = inr (_, starter_steps refl)
  can_step leaving r m l v = inr (_, starter_steps refl)
  can_step reading r m l v = inr (_, starter_steps refl)
  can_step (returned o) r m l v = inl (ap returned v.knows.0)
  can_step waiting preparing m l v = inr (_, runner_steps refl)
  can_step waiting locking m l v = inr (
    record (at loop waiting locking m l) { mutex = runs; runner = publishing },
    runner_steps (rw (v.owned) refl),
  )
  can_step waiting publishing m l v = inr (_, runner_steps refl)
  can_step waiting notifying m l v = inr (_, runner_steps refl)
  can_step waiting unlocking m l v = absurd v.knows
  can_step waiting looping m l v = absurd v.knows

  -- In any interleaving, spurious wakeups included: no `notify` is lost. Either `startLoop` has
  -- returned the new thread's loop, or one of the two threads can go on by itself; and each step
  -- that one of them takes by itself lowers a rank, so they take finitely many.
  pub start_loop_progress :
      {t : EventLoopThread}
      → Reach loop t
      → ((t.starter ≡ returned (some loop)) ⊎ ((u : EventLoopThread) × Advance loop t u))
        × ((u : EventLoopThread) → Advance loop t u → rank u < rank t)
  unfolding CanStep
  start_loop_progress {t} r =
      (can_step t.starter t.runner t.mutex t.ploop (Reach-Inv loop r), λ u a. Advance-rank a)
