-- ===== src/Tests/Systems.antt =====
-- Mutex.h and Condition.h: a mutex between two threads.
use netframe.Base.{ℕ, List, Option, none, ◌≡◌, refl, [], ◌∷◌, some, ok, err, assertion, arith}
use netframe.Mutex.{
  MutexLock, construct, destruct, assert_locked, lock, unlock, wait, wake, wake_for_seconds,
}
use netframe.Mutex.Holder.{Reach, here, locks, unlocks, waits, times, destruct_passes, wait_forgets}

-- Thread 1 has the mutex.
abbrev held : MutexLock
held = record { owner = some 1; holder = 1; waiting = [] }

held-Reach : Reach held
unfolding construct lock
held-Reach = locks 1 (here 0 refl) refl

-- It waits, and thread 2 has the mutex.
abbrev handed : MutexLock
handed = record { owner = some 2; holder = 2; waiting = 1 ∷ [] }

handed-Reach : Reach handed
unfolding lock wait
handed-Reach = locks 2 (waits 1 held-Reach refl) refl

-- Thread 1 is back, since its time is over.
abbrev back : MutexLock
back = record { owner = some 1; holder = 0; waiting = [] }

back-Reach : Reach back
unfolding unlock wake wake_for_seconds
back-Reach = times 1 110 (unlocks 2 handed-Reach refl) refl

-- EBUSY for a mutex in use.
abbrev mutex_destroy : Option ℕ → List ℕ → ℕ
mutex_destroy none [] = 0
mutex_destroy none (tid ∷ l) = 16
mutex_destroy (some tid) l = 16

destruct_passes_example : destruct mutex_destroy (unlock back) ≡ ok tt
unfolding unlock
destruct_passes_example = destruct_passes mutex_destroy refl (unlocks 1 back-Reach refl) refl refl

wait_forgets_example : (back.owner ≡ some 1) × (assert_locked back 1 ≡ err assertion)
unfolding lock unlock wait wake
wait_forgets_example = wait_forgets held handed back 1 2 (omega arith) refl refl
