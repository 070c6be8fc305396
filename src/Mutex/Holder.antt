-- ===== src/Mutex/Holder.antt =====
-- The noted holder against the owner of the mutex.
use netframe.Base.{
  ℕ, ◌≡◌, ◌≢◌, refl, sym, ap, ◌∙◌, Bool, true, false, Option, ◌⊎◌, inl, inr, List, [], ◌∷◌, none,
  some, arith, ◌==◌, ok, err, assertion, Bool-cases, ok_inj, ok_of_assert,
}
use mathlib.Core.Option.{some-injective}
use netframe.Mutex.{
  MutexLock, construct, destruct, is_locked_by_this_thread, assert_locked, lock, unlock, wait, mem,
  remove, wake, wake_for_seconds, in_time,
}

-- A thread locks, and waits, for some seconds or without end, or unlocks only while it owns the
-- mutex.
pub data Reach : MutexLock → Type 0 where
  here : {m : MutexLock} (ret : ℕ) → construct ret ≡ ok m → Reach m
  locks : {m n : MutexLock} (tid : ℕ) → Reach m → lock m tid ≡ some n → Reach n
  unlocks : {m : MutexLock} (tid : ℕ) → Reach m → m.owner ≡ some tid → Reach (unlock m)
  waits : {m : MutexLock} (tid : ℕ) → Reach m → m.owner ≡ some tid → Reach (wait m tid)
  wakes : {m n : MutexLock} (tid : ℕ) → Reach m → wake m tid ≡ some n → Reach n
  times :
      {m n : MutexLock} {over : Bool} (tid ret : ℕ)
      → Reach m
      → wake_for_seconds m tid ret ≡ some (n, over)
      → Reach n

abbrev Noted : MutexLock → Type 0
Noted m = (m.holder ≡ 0) ⊎ ((m.owner ≡ some m.holder) ⊎ (mem m.holder m.waiting ≡ true))

mem-remove : (a b : ℕ) (l : List ℕ) → (a == b) ≡ false → mem b (remove a l) ≡ mem b l
mem-remove a b [] h = refl
mem-remove a b (x ∷ l) h = ground (arith, mem-remove a b l)

construct-Noted : (m : MutexLock) (ret : ℕ) → construct ret ≡ ok m → Noted m
unfolding construct
construct-Noted m ret e =
    inl (sym (ap (λ (x : MutexLock). x.holder) (ok_inj (ok_of_assert (ret == 0) _ m e))))

locks-Noted : (m n : MutexLock) (tid : ℕ) → lock m tid ≡ some n → Noted n
unfolding lock
locks-Noted m n tid e = inr (inl (ground arith))

waits-Noted : (m : MutexLock) (tid : ℕ) → m.owner ≡ some tid → Noted m → Noted (wait m tid)
unfolding wait
waits-Noted m tid o (inl z) = inl z
waits-Noted m tid o (inr (inl z)) = inr (inr (ground arith))
waits-Noted m tid o (inr (inr z)) = inr (inr (ground arith))

wakes-Noted : (m n : MutexLock) (tid : ℕ) → wake m tid ≡ some n → Noted m → Noted n
unfolding wake
wakes-Noted m n tid e v = elim (Bool-cases (tid == m.holder)) [
  | inl same ↦ inr (inl (ground arith))
  | inr other ↦ kept other v
]
  where
    kept : (tid == m.holder) ≡ false → Noted m → Noted n
    kept other (inl z) = inl (ground arith)
    kept other (inr (inl z)) = absurd (ground arith)
    kept other (inr (inr z)) = inr (inr (ground (arith, mem-remove tid m.holder m.waiting)))

wake_for_seconds-wake :
    (m n : MutexLock) (over : Bool) (tid ret : ℕ)
    → wake_for_seconds m tid ret ≡ some (n, over)
    → wake m tid ≡ some n
unfolding wake_for_seconds
wake_for_seconds-wake m n over tid ret e = go (wake m tid) e
  where
    go : (w : Option MutexLock) → in_time ret w ≡ some (n, over) → w ≡ some n
    go none f = cc
    go (some x) f = ap some (ap (λ (q : MutexLock × Bool). q.0) (some-injective _ _ f))

Reach-Noted : {m : MutexLock} → Reach m → Noted m
unfolding unlock
Reach-Noted (here {m} ret e) = construct-Noted m ret e
Reach-Noted (locks {m} {n} tid r e) = locks-Noted m n tid e
Reach-Noted (unlocks tid r o) = inl refl
Reach-Noted (waits {m} tid r o) = waits-Noted m tid o (Reach-Noted r)
Reach-Noted (wakes {m} {n} tid r e) = wakes-Noted m n tid e (Reach-Noted r)
Reach-Noted (times {m} {n} {over} tid ret r e) =
    wakes-Noted m n tid (wake_for_seconds-wake m n over tid ret e) (Reach-Noted r)

-- However threads lock, unlock and wait: a thread that the mutex takes for its holder owns it,
-- unless it is inside `pthread_cond_wait`.
pub holder_owns :
    {m : MutexLock} (tid : ℕ)
    → Reach m
    → tid ≢ 0
    → mem tid m.waiting ≡ false
    → is_locked_by_this_thread m tid ≡ true
    → m.owner ≡ some tid
holder_owns {m} tid r ne out held = go (Reach-Noted r)
  where
    same : m.holder ≡ tid
    same = ground arith

    go : Noted m → m.owner ≡ some tid
    go (inl z) = absurd (ne (sym same ∙ z))
    go (inr (inl z)) = z ∙ ap some same
    go (inr (inr z)) = cc (ap (λ h. mem h m.waiting) same)

-- Where `pthread_mutex_destroy` returns 0 for a mutex that no thread owns and none waits to take
-- again, and however threads lock, unlock and wait, with or without a time limit: once the mutex is
-- free and nobody waits, the destructor passes both of its assertions.
pub destruct_passes :
    (mutex_destroy : Option ℕ → List ℕ → ℕ) {m : MutexLock}
    → mutex_destroy none [] ≡ 0
    → Reach m
    → m.owner ≡ none
    → m.waiting ≡ []
    → destruct mutex_destroy m ≡ ok tt
unfolding destruct
destruct_passes mutex_destroy {m} safe r free alone =
    rw (go (Reach-Noted r), free, alone, safe) refl
  where
    go : Noted m → (m.holder == 0) ≡ true
    go (inl z) = rw z refl
    go (inr (inl z)) = cc
    go (inr (inr z)) = cc (ap (mem m.holder) alone)

-- A thread that waits, while another one locks and unlocks the mutex: when it is back, it owns the
-- mutex, and `assertLocked` fails.
pub wait_forgets :
    (m a b : MutexLock) (tid other : ℕ)
    → tid ≢ 0
    → lock (wait m tid) other ≡ some a
    → wake (unlock a) tid ≡ some b
    → (b.owner ≡ some tid) × (assert_locked b tid ≡ err assertion)
unfolding lock unlock wait wake assert_locked
wait_forgets m a b tid other ne p q = (ground arith, ground arith)
