-- ===== src/Thread/Once.antt =====
-- The one start of a thread.
use netframe.Base.{ℕ, ◌≡◌, ◌≢◌, refl, true, false, Option, ok, err, assertion, arith}
use netframe.Thread.{Thread, tid, start, join, run_in_thread}

-- A thread that has not been started: `join` fails its assertion and `start` returns, whether or
-- not `pthread_create` succeeds; after that a second `start` fails its assertion, `join` waits for
-- what was created, and the object has the new thread's id, also when it is asked for again.
pub start_once :
    (t : Thread) (created again : Option ℕ) (gettid other : ℕ)
    → t.started ≡ false
    → gettid ≢ 0
    → (join t ≡ err assertion)
      × ((u : Thread) × (start t created ≡ ok u)
          × (start u again ≡ err assertion)
          × (join u ≡ ok created)
          × ((run_in_thread u gettid 0).0.thread_id ≡ gettid)
          × ((tid other (run_in_thread u gettid 0).1).0 ≡ gettid))
unfolding start join run_in_thread tid
start_once t created again gettid other e h = (
  rw e refl,
  (record t { started = true; pthread_id = created }, rw e refl, refl, refl, refl, ground arith),
)
