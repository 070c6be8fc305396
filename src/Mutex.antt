-- ===== src/Mutex.antt =====
-- Mutex.h and Condition.h: a mutex that notes the id of the thread that holds it, and a condition
-- that gives the mutex up. A thread id is not zero. `owner` is what the pthread mutex knows;
-- `waiting` are the threads inside `pthread_cond_wait`. A call that has to wait is `none`.
pub mod Holder
use netframe.Base.{
  ℕ, Bool, true, false, not, ◌&&◌, ◌||◌, List, [], ◌∷◌, Option, none, some, ◌==◌, if◌then◌else◌,
  Result, ok, ◌>>=◌, ◌>>◌, assert,
}

pub record MutexLock : Type 0 where
  pub owner : Option ℕ
  pub holder : ℕ
  pub waiting : List ℕ

-- The constructor, with what `pthread_mutex_init` returns.
unfoldable pub construct : ℕ → Result MutexLock
construct ret = do assert (ret == 0); ok (record { owner = none; holder = 0; waiting = [] })

-- The destructor. `mutex_destroy` is `pthread_mutex_destroy`, which looks at what the pthread mutex
-- knows: its owner, and the threads that wait and will take it again.
unfoldable pub destruct : (Option ℕ → List ℕ → ℕ) → MutexLock → Result (Unit {0})
destruct mutex_destroy m = do
  assert (m.holder == 0)
  assert (mutex_destroy m.owner m.waiting == 0)
  ok tt

abbrev pub is_locked_by_this_thread : MutexLock → ℕ → Bool
is_locked_by_this_thread m tid = m.holder == tid

unfoldable pub assert_locked : MutexLock → ℕ → Result (Unit {0})
assert_locked m tid = do assert (is_locked_by_this_thread m tid); ok tt

abbrev pub is_free : Option ℕ → Bool
is_free none = true
is_free (some tid) = false

-- `lock`, also the constructor of `MutexLockGuard`.
unfoldable pub lock : MutexLock → ℕ → Option MutexLock
lock m tid = if is_free m.owner then some (record m { owner = some tid; holder = tid }) else none

-- `unlock`, also the destructor of `MutexLockGuard`.
unfoldable pub unlock : MutexLock → MutexLock
unlock m = record m { owner = none; holder = 0 }

-- `Condition::wait` up to the sleep: pthread lets go of the mutex, and `holder_` stays.
unfoldable pub wait : MutexLock → ℕ → MutexLock
wait m tid = record m { owner = none; waiting = tid ∷ m.waiting }

abbrev pub mem : ℕ → List ℕ → Bool
mem a [] = false
mem a (b ∷ l) = b == a || mem a l

abbrev pub remove : ℕ → List ℕ → List ℕ
remove a [] = []
remove a (b ∷ l) = if b == a then remove a l else b ∷ remove a l

-- The rest of `wait`: pthread takes the mutex again, and `holder_` stays.
unfoldable pub wake : MutexLock → ℕ → Option MutexLock
wake m tid =
    if is_free m.owner && mem tid m.waiting
    then some (record m { owner = some tid; waiting = remove tid m.waiting })
    else none

-- ETIMEDOUT.
abbrev pub timed_out : ℕ
timed_out = 110

abbrev pub in_time : ℕ → Option MutexLock → Option (MutexLock × Bool)
in_time ret none = none
in_time ret (some m) = some (m, ret == timed_out)

-- The end of `waitForSeconds`, with what `pthread_cond_timedwait` returns: the mutex is taken again
-- also when the time is over, and the flag says whether it is.
unfoldable pub wake_for_seconds : MutexLock → ℕ → ℕ → Option (MutexLock × Bool)
wake_for_seconds m tid ret = in_time ret (wake m tid)
