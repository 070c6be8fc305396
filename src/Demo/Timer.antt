-- ===== src/Demo/Timer.antt =====
-- main.cpp: `test1`, a loop that runs until its timer fires. The timer's descriptor and that of the
-- loop's eventfd, and the addresses of their handlers, are arguments; so is what `epoll_wait`
-- returns.
pub mod Fires
use netframe.Base.{
  ℕ, true, false, List, [], ◌∷◌, ◌++◌, map, none, ◌==◌, if◌then◌else◌, Bool, Result, ok, ◌>>=◌,
}
use netframe.Handler.{
  Handler, Callback, close, error, read, write, make, with_reading, set_revents, handle_event,
}
use netframe.Poller
use netframe.Poller.{Poller, Waited, update_handler}
use netframe.EventLoop.{construct}
use netframe.EventLoop.Run.{Call, stop, Loop, Round, loop}

-- `timeout`, which quits the loop `g_loop`.
abbrev pub timeout : List (Call ℕ)
timeout = stop ∷ []

-- A handler with a read callback and no other.
abbrev pub reader : ℕ → ℕ → Handler
reader id fd = let h = make id fd in record h { on_read = true }

abbrev pub run_timer : List Callback → List (Call ℕ)
run_timer [] = []
run_timer (read ∷ bs) = timeout ++ run_timer bs
run_timer (close ∷ bs) = run_timer bs
run_timer (error ∷ bs) = run_timer bs
run_timer (write ∷ bs) = run_timer bs

-- The handler that is active: the timer's, or the loop's own, which reads the eventfd.
unfoldable pub react : Handler → ℕ → ℕ → List (Call ℕ)
react timer id revents =
    if id == timer.id then run_timer (handle_event (set_revents timer revents) true).1 else []

-- No other thread knows the loop.
abbrev pub round : Handler → Waited → Round ℕ
round timer w = record { others = []; waited = w; react = react timer }

-- The addresses and descriptors of the eventfd's handler and of the timer's; no functor is ever
-- queued.
unfoldable pub test1 : ℕ × ℕ → ℕ × ℕ → List Waited → Result (Bool × Loop ℕ)
test1 (wake, wakefd) (id, timerfd) ws = do
  (p, _) ← update_handler Poller.start (with_reading (reader wake wakefd))
  (p', timer) ← update_handler p (with_reading (reader id timerfd))
  let l : Loop ℕ = record {
    base = construct;
    poller = p';
    active_handlers = [];
    current_active_handler = none;
  }
  loop (λ f. []) l (map (round timer) ws)
