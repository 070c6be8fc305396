-- ===== src/Demo/Threads.antt =====
-- main.cpp: `test_EventLoopThread`, which quits the loop of another thread before the
-- EventLoopThread is destroyed. How far the other thread gets meanwhile is an input; whether it
-- runs the functor before it leaves its loop is the subject of EventLoop.Interleave.Quit.
use netframe.Base.{ℕ, ◌≡◌, ◌↔◌, refl, false, Result, ok, err, dangling, ◌>>=◌}
use netframe.EventLoop.{queue_in_loop, run_in_loop, enter, request_quit}
use netframe.Thread.{Thread}
use netframe.LoopThread.Exit.{EventLoopThread, start, enter_loop, leave_loop, quit, destruct}

-- By the destructor the other thread has not entered `loop`, has entered it after the `quit`, has
-- entered it before and is in it, or has entered it before and left it.
pub data Meanwhile : Type 0 where
  outside entered_late inside gone : Meanwhile

-- `runInThread`, as a functor.
abbrev pub run_in_thread : ℕ
run_in_thread = 0

-- `runInLoop` from the old thread.
abbrev pub hand_over : EventLoopThread → EventLoopThread
hand_over t = record t { loop = run_in_loop (λ f l. l) t.loop false run_in_thread }

abbrev pub by_quit : Meanwhile → EventLoopThread → Result EventLoopThread
by_quit outside t = ok t
by_quit entered_late t = ok t
by_quit inside t = enter_loop t
by_quit gone t = enter_loop t

abbrev pub by_destructor : Meanwhile → EventLoopThread → Result EventLoopThread
by_destructor outside t = ok t
by_destructor entered_late t = enter_loop t
by_destructor inside t = ok t
by_destructor gone t = ok (leave_loop t)

-- From the return of `startLoop` to the `join`.
unfoldable pub test_event_loop_thread : Thread → Meanwhile → Result EventLoopThread
test_event_loop_thread thread other = do
  t ← by_quit other (hand_over (start thread))
  asked ← quit t
  u ← by_destructor other asked
  destruct u

-- The destructor goes through a dangling pointer exactly if the other thread has entered its loop
-- before the `quit` and left it before the destructor.
test_event_loop_thread-dangling :
    (thread : Thread) (other : Meanwhile)
    → (test_event_loop_thread thread other ≡ err dangling) ↔ (other ≡ gone)
unfolding test_event_loop_thread enter_loop enter quit destruct run_in_loop queue_in_loop
    request_quit
test_event_loop_thread-dangling thread outside = (λ e. absurd (cc), λ e. absurd (cc))
test_event_loop_thread-dangling thread entered_late = (λ e. absurd (cc), λ e. absurd (cc))
test_event_loop_thread-dangling thread inside = (λ e. absurd (cc), λ e. absurd (cc))
test_event_loop_thread-dangling thread gone = (λ e. refl, λ e. refl)
