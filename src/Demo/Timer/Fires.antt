-- ===== src/Demo/Timer/Fires.antt =====
-- When `test1` returns.
use netframe.Epoll
use netframe.Base.{
  ℕ, ◌≡◌, ◌≢◌, refl, ap₂, ◌∙◌, Bool, true, false, not, ◌||◌, ◌&&◌, List, [], ◌∷◌, ◌++◌, map, none,
  ◌==◌, if◌then◌else◌, bit_or, Result, ok, arith,
}
use netframe.Handler.{
  Handler, Callback, State, has, call_if, close, error, read, write, handle_event, dispatch,
  with_reading,
}
use netframe.Poller
use netframe.Poller.{Poller, Waited, update_handler, insert, erase, lookup, add}
use netframe.Poller.Growth.{heard, AllHeard}
use netframe.EventLoop.{construct, enter}
use netframe.EventLoop.Run.{Loop, loop}
use netframe.EventLoop.Run.Calls.{stops, any_stops, reaction}
use netframe.EventLoop.Run.Quit.{some_quit, AllSized, loop_returns}
use netframe.EventLoop.Run.Lost.{rounds_wait}
use netframe.Demo.Timer.{reader, run_timer, react, round, test1}

-- What the timer is read for.
abbrev readable : ℕ → Bool
readable revents = has revents (bit_or (bit_or Epoll.in_event Epoll.pri) Epoll.rdhup)

abbrev pub fires_in : ℕ → List (ℕ × ℕ) → Bool
fires_in timer [] = false
fires_in timer ((id, revents) ∷ es) = (id == timer && readable revents) || fires_in timer es

-- Some wait reports the timer's handler, readable.
abbrev pub fires : ℕ → List Waited → Bool
fires timer [] = false
fires timer (w ∷ ws) = fires_in timer (heard w) || fires timer ws

abbrev ready : ℕ → ℕ → Handler
ready id fd = let h = with_reading (reader id fd) in record h { state = State.added }

unset : (a : Bool) (c : Callback) → call_if (a && false) c ≡ []
unset true c = refl
unset false c = refl

only_read : (e : Bool) → stops (run_timer (call_if (e && true) read ++ [])) ≡ e
only_read true = refl
only_read false = refl

shape :
    (c a b e d : Bool)
    → stops (
        if c
        then run_timer (
            call_if (a && false) close
            ++ (call_if (b && false) error
                ++ (call_if (e && true) read ++ call_if (d && false) write)))
        else [])
      ≡ (c && e)
shape false a b e d = refl
shape true a b e d = rw (unset a close, unset b error, unset d write) (only_read e)

stops-react :
    (id fd i revents : ℕ) → stops (react (ready id fd) i revents) ≡ (i == id && readable revents)
unfolding react handle_event dispatch
stops-react id fd i revents =
    shape (i == id) (has revents Epoll.hup && not (has revents Epoll.in_event))
      (has revents (bit_or Epoll.error Epoll.invalid)) (readable revents) (has revents Epoll.out)

any_stops-fires :
    (id fd : ℕ) (es : List (ℕ × ℕ)) → any_stops (reaction (react (ready id fd))) es ≡ fires_in id es
any_stops-fires id fd [] = refl
any_stops-fires id fd ((i, revents) ∷ es) =
    ap₂ ◌||◌ (stops-react id fd i revents) (any_stops-fires id fd es)

quits-fires :
    (id fd : ℕ) (ws : List Waited)
    → some_quit (λ (f : ℕ). []) (map (round (ready id fd)) ws) ≡ fires id ws
quits-fires id fd [] = refl
quits-fires id fd (w ∷ ws) = ap₂ ◌||◌ (any_stops-fires id fd (heard w)) (quits-fires id fd ws)

sized :
    (n : ℕ) (timer : Handler) (ws : List Waited)
    → AllHeard n ws
    → AllSized (λ (f : ℕ). []) n (map (round timer) ws)
sized n timer [] h = tt
sized n timer (w ∷ ws) h = (h.0, sized n timer ws h.1)

-- The poller with both handlers.
abbrev both : ℕ → ℕ → ℕ → ℕ → Poller
both wake wakefd id timerfd = record (Poller.start) {
  handlermap = (timerfd, id) ∷ (wakefd, wake) ∷ [];
  calls =
      record { op = add; fd = timerfd; events = 3 }
      ∷ record { op = add; fd = wakefd; events = 3 }
      ∷ [];
}

abbrev fresh : ℕ → ℕ → ℕ → ℕ → Loop ℕ
fresh wake wakefd id timerfd = record {
  base = construct;
  poller = both wake wakefd id timerfd;
  active_handlers = [];
  current_active_handler = none;
}

-- `loop` on both handlers.
abbrev looped : ℕ → ℕ → ℕ → ℕ → List Waited → Result (Bool × Loop ℕ)
looped wake wakefd id timerfd ws =
    loop (λ f. []) (fresh wake wakefd id timerfd) (map (round (ready id timerfd)) ws)

test1-looped :
    (wake wakefd id timerfd : ℕ) (ws : List Waited)
    → (wakefd == timerfd) ≡ false
    → test1 (wake, wakefd) (id, timerfd) ws ≡ looped wake wakefd id timerfd ws
unfolding test1 update_handler lookup insert erase
test1-looped wake wakefd id timerfd ws ne = rw ne refl

looped_lem :
    (wake wakefd id timerfd : ℕ) (ws : List Waited) (b : Bool)
    → AllHeard 2 ws
    → fires id ws ≡ b
    → (m : Loop ℕ) × (looped wake wakefd id timerfd ws ≡ ok (b, m))
unfolding loop enter
looped_lem wake wakefd id timerfd ws true h e =
    let (m, eq, _) =
      loop_returns (λ (f : ℕ). []) (fresh wake wakefd id timerfd)
        (map (round (ready id timerfd)) ws) refl (sized 2 (ready id timerfd) ws h)
        (quits-fires id timerfd ws ∙ e) in
    (m, eq)
looped_lem wake wakefd id timerfd ws false h e =
    let l = fresh wake wakefd id timerfd in
    let b = l.base in
    rounds_wait (λ (f : ℕ). []) (λ f. refl) 2
      (record l { base = record b { looping = true; quit = false } })
      (map (round (ready id timerfd)) ws) refl refl (sized 2 (ready id timerfd) ws h)
      (quits-fires id timerfd ws ∙ e)

-- `test1`, whose loop has the eventfd and the timer, on descriptors of their own, so that
-- `epoll_wait` gives at most two events at a time: no assertion fails, and the loop returns exactly
-- if some wait reports the timer as readable; until then it waits.
pub test1-fires :
    (wake wakefd id timerfd : ℕ) (ws : List Waited)
    → wakefd ≢ timerfd
    → AllHeard 2 ws
    → (m : Loop ℕ) × (test1 (wake, wakefd) (id, timerfd) ws ≡ ok (fires id ws, m))
test1-fires wake wakefd id timerfd ws ne h =
    let (m, eq) = looped_lem wake wakefd id timerfd ws (fires id ws) h refl in
    (m, test1-looped wake wakefd id timerfd ws (ground (arith, ne)) ∙ eq)
