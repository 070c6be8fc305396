-- ===== src/LoopThread/Handshake.antt =====
-- The two threads of EventLoopThread in any order, with the spurious wakeups that POSIX allows.
use netframe.Base.{ℕ, ◌≡◌, subst, refl, Bool, true, false, Option, none, some, arith}
use mathlib.Core.Option.{some-injective}
use netframe.LoopThread.{
  EventLoopThread, Starter, calling, testing, waiting, signalled, leaving, reading, returned,
  Runner, preparing, locking, publishing, notifying, unlocking, looping, Owner, free, starts, runs,
  start, start_loop, start_loop_at, thread_func_at, thread_func, woken,
}

module _ (loop : ℕ) where
  -- A step that one of the threads takes by itself.
  pub data Advance (t u : EventLoopThread) : Type 0 where
    starter_steps : start_loop t ≡ some u → Advance t u
    runner_steps : thread_func loop t ≡ some u → Advance t u

  pub data Reach : EventLoopThread → Type 0 where
    here : Reach start
    next : {t u : EventLoopThread} → Reach t → Advance t u → Reach u
    spurious : {t : EventLoopThread} → Reach t → Reach (record t { starter = woken t.starter })

  abbrev pub in_starter : Starter → Bool
  in_starter testing = true
  in_starter leaving = true
  in_starter _ = false

  abbrev pub in_runner : Runner → Bool
  in_runner publishing = true
  in_runner notifying = true
  in_runner unlocking = true
  in_runner _ = false

  -- The mutex belongs to the thread that stands inside its guard, and to no other.
  abbrev pub Owned : Bool → Bool → Owner → Type 0
  Owned true true m = ⊥
  Owned true false m = m ≡ starts
  Owned false true m = m ≡ runs
  Owned false false m = m ≡ free

  abbrev pub published : Runner → Option ℕ
  published preparing = none
  published locking = none
  published publishing = none
  published _ = some loop

  abbrev pub Notifies : Runner → Type 0
  Notifies unlocking = ⊥
  Notifies looping = ⊥
  Notifies _ = Unit

  -- Who waits will be notified; who is past the test has seen the loop.
  abbrev pub Knows : Starter → Runner → Type 0
  Knows waiting r = Notifies r
  Knows leaving r = published r ≡ some loop
  Knows reading r = published r ≡ some loop
  Knows (returned l) r = (l ≡ some loop) × (published r ≡ some loop)
  Knows _ r = Unit

  pub record InvAt (p : Starter) (r : Runner) (m : Owner) (l : Option ℕ) : Type 0 where
    pub owned : Owned (in_starter p) (in_runner r) m
    pub stored : l ≡ published r
    pub knows : Knows p r

  abbrev pub Inv : EventLoopThread → Type 0
  Inv t = InvAt t.starter t.runner t.mutex t.ploop

  abbrev pub at : Starter → Runner → Owner → Option ℕ → EventLoopThread
  at p r m l = record { starter = p; runner = r; mutex = m; ploop = l }

  start_loop_at-Inv :
      (p : Starter) (r : Runner) (m : Owner) (l : Option ℕ) (u : EventLoopThread)
      → start_loop_at p (at p r m l) ≡ some u
      → InvAt p r m l
      → Inv u
  start_loop_at-Inv calling r free l u e v = ground arith
  start_loop_at-Inv calling r starts l u e v = cc
  start_loop_at-Inv calling r runs l u e v = cc
  start_loop_at-Inv testing r m none u e v = ground arith
  start_loop_at-Inv testing r m (some l) u e v = ground arith
  start_loop_at-Inv waiting r m l u e v = cc
  start_loop_at-Inv signalled r free l u e v = ground arith
  start_loop_at-Inv signalled r starts l u e v = cc
  start_loop_at-Inv signalled r runs l u e v = cc
  start_loop_at-Inv leaving r m l u e v = ground arith
  start_loop_at-Inv reading r m l u e v = ground arith
  start_loop_at-Inv (returned o) r m l u e v = cc

  start_loop-Inv : (t u : EventLoopThread) → start_loop t ≡ some u → Inv t → Inv u
  unfolding start_loop
  start_loop-Inv t u e v = start_loop_at-Inv t.starter t.runner t.mutex t.ploop u e v

  woken-Inv :
      (p : Starter) (r : Runner) (m : Owner) (l : Option ℕ) → InvAt p r m l → InvAt (woken p) r m l
  woken-Inv calling r m l v = v
  woken-Inv testing r m l v = v
  woken-Inv waiting r m l v = record { owned = v.owned; stored = v.stored; knows = tt }
  woken-Inv signalled r m l v = v
  woken-Inv leaving r m l v = v
  woken-Inv reading r m l v = v
  woken-Inv (returned o) r m l v = v

  -- What the starter knows stays true while the runner goes on, up to its `notify`.
  Knows-on :
      (p : Starter) (r q : Runner)
      → (Notifies r → Notifies q)
      → (published r ≡ some loop → published q ≡ some loop)
      → Knows p r
      → Knows p q
  Knows-on calling r q f g k = tt
  Knows-on testing r q f g k = tt
  Knows-on waiting r q f g k = f k
  Knows-on signalled r q f g k = tt
  Knows-on leaving r q f g k = g k
  Knows-on reading r q f g k = g k
  Knows-on (returned l) r q f g k = (k.0, g k.1)

  -- After the `notify` nobody waits.
  notified-Inv :
      (p : Starter) (m : Owner) (l : Option ℕ)
      → InvAt p notifying m l
      → InvAt (woken p) unlocking m l
  notified-Inv calling m l v = record { owned = v.owned; stored = v.stored; knows = tt }
  notified-Inv testing m l v = absurd v.owned
  notified-Inv waiting m l v = record { owned = v.owned; stored = v.stored; knows = tt }
  notified-Inv signalled m l v = record { owned = v.owned; stored = v.stored; knows = tt }
  notified-Inv leaving m l v = absurd v.owned
  notified-Inv reading m l v = record { owned = v.owned; stored = v.stored; knows = refl }
  notified-Inv (returned o) m l v = record {
    owned = v.owned;
    stored = v.stored;
    knows = (v.knows.0, refl);
  }

  entered : (b : Bool) → Owned b false free → Owned b true runs
  entered true e = cc
  entered false e = refl

  left : (b : Bool) (m : Owner) → Owned b true m → Owned b false free
  left true m e = absurd e
  left false m e = refl

  arrives : {t u : EventLoopThread} → some t ≡ some u → Inv t → Inv u
  arrives e v = subst Inv (some-injective _ _ e) v

  thread_func_at-Inv :
      (p : Starter) (r : Runner) (m : Owner) (l : Option ℕ) (u : EventLoopThread)
      → thread_func_at loop r (at p r m l) ≡ some u
      → InvAt p r m l
      → Inv u
  thread_func_at-Inv p preparing m l u e v = arrives e (record {
    owned = v.owned;
    stored = v.stored;
    knows = Knows-on p preparing locking (λ n. n) (λ h. h) v.knows;
  })
  thread_func_at-Inv p locking free l u e v = arrives e (record {
    owned = entered (in_starter p) v.owned;
    stored = v.stored;
    knows = Knows-on p locking publishing (λ n. n) (λ h. h) v.knows;
  })
  thread_func_at-Inv p locking starts l u e v = cc
  thread_func_at-Inv p locking runs l u e v = cc
  thread_func_at-Inv p publishing m l u e v = arrives e (record {
    owned = v.owned;
    stored = refl;
    knows = Knows-on p publishing notifying (λ n. n) (λ h. refl) v.knows;
  })
  thread_func_at-Inv p notifying m l u e v = arrives e (notified-Inv p m l v)
  thread_func_at-Inv p unlocking m l u e v = arrives e (record {
    owned = left (in_starter p) m v.owned;
    stored = v.stored;
    knows = Knows-on p unlocking looping (λ n. n) (λ h. h) v.knows;
  })
  thread_func_at-Inv p looping m l u e v = cc

  pub Reach-Inv : {t : EventLoopThread} → Reach t → Inv t
  unfolding thread_func
  Reach-Inv here = record { owned = refl; stored = refl; knows = tt }
  Reach-Inv (next {t} {u} r (starter_steps e)) = start_loop-Inv t u e (Reach-Inv r)
  Reach-Inv (next {t} {u} r (runner_steps e)) =
      thread_func_at-Inv t.starter t.runner t.mutex t.ploop u e (Reach-Inv r)
  Reach-Inv (spurious {t} r) = woken-Inv t.starter t.runner t.mutex t.ploop (Reach-Inv r)

  -- In any interleaving, spurious wakeups included: what `startLoop` returns is the new thread's
  -- loop, never NULL.
  start_loop_returns :
      {t : EventLoopThread} {l : Option ℕ} → Reach t → t.starter ≡ returned l → l ≡ some loop
  start_loop_returns {t} {l} r e = (subst (λ p. Knows p t.runner) e (Reach-Inv r).knows).0
