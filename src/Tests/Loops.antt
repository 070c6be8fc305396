-- ===== src/Tests/Loops.antt =====
-- EventLoop.cpp: one run of the loop.
use netframe.Base.{
  ℕ, ◌+◌, ◌<◌, ◌≡◌, ◌⊎◌, refl, true, false, List, [], ◌∷◌, ◌++◌, none, some, ok, err, assertion,
  arith, ◌==◌, if◌then◌else◌,
}
use netframe.Handler.{Handler, make, State}
use netframe.Poller
use netframe.Poller.{Poller, lookup}
use netframe.Poller.Sync.{Tracks, Removed}
use netframe.EventLoop.{construct, push, request_quit}
use netframe.EventLoop.Interleave.{
  System, start, other_push, Reach, here, next, batch, no_lost_wakeup, runs_in_order,
}
use netframe.EventLoop.Run.{Call, queue, stop, Loop, Round, loop, remove_handler}
use netframe.EventLoop.Run.Quit.{loop_returns}
use netframe.EventLoop.Run.Remove.{may_go, remove_handler_lem}
use netframe.EventLoop.Run.Lost.{loop-request_quit}
use netframe.EventLoop.Current.{constructed, destroyed, enter_thread, leave_thread, current}
use netframe.EventLoop.Current.Lives.{lives}

-- Another thread has pushed functor 4 and not yet woken the loop.
abbrev pushed : System ℕ
pushed = record (start {F = ℕ}) { loop = push (start {F = ℕ}).loop 4; posters = 1; posted = 4 ∷ [] }

pushed-Reach : Reach pushed
pushed-Reach = next here (other_push 4)

no_lost_wakeup_example : 0 < pushed.loop.wakeups + pushed.posters
no_lost_wakeup_example = no_lost_wakeup pushed-Reach refl (λ e. cc)

runs_in_order_example :
    pushed.done ++ (batch pushed.pc ++ pushed.loop.pending_functors) ≡ pushed.posted
runs_in_order_example = runs_in_order pushed-Reach

-- Handler 7 asks for functor 1, which asks for functor 2; then another thread quits.
abbrev script : ℕ → List (Call ℕ)
script n = if n == 1 then queue 2 ∷ [] else []

abbrev idle_loop : Loop ℕ
idle_loop = record {
  base = construct {F = ℕ};
  poller = record Poller.start { handlermap = (3, 7) ∷ [] };
  active_handlers = [];
  current_active_handler = none;
}

abbrev first : Round ℕ
first = record {
  others = [];
  waited = Poller.events ((7, 1) ∷ []);
  react = λ id revents. queue 1 ∷ [];
}

abbrev second : Round ℕ
second = record { others = stop ∷ []; waited = Poller.events []; react = λ id revents. [] }

loop_returns_example :
    (m : Loop ℕ) × (loop script idle_loop (first ∷ second ∷ []) ≡ ok (true, m))
    × (m.base.looping ≡ false)
loop_returns_example = loop_returns script idle_loop (first ∷ second ∷ []) refl (omega arith) refl

-- Nobody calls `quit` in these rounds, nor does the functor 1.
loop-request_quit_example :
    (m : Loop ℕ) × (loop
        (λ f. [])
        (record idle_loop { base = request_quit (idle_loop.base) false })
        (first ∷ first ∷ [])
      ≡ ok (false, m))
loop-request_quit_example =
    loop-request_quit (λ f. []) (λ f. refl) idle_loop (first ∷ first ∷ []) refl
      (omega arith, (omega arith, tt)) refl

-- The handler at address 7 waits for its turn while another one runs.
abbrev waiting_handler : Handler
waiting_handler = let h = make 7 3 in record h { state = State.deleted }

abbrev busy_loop : Loop ℕ
busy_loop = record idle_loop {
  base = record (construct {F = ℕ}) { event_handling = true };
  active_handlers = (9, 1) ∷ (7, 1) ∷ [];
  current_active_handler = some 9;
}

waiting-Tracks : Tracks State.deleted busy_loop.poller waiting_handler
unfolding lookup
waiting-Tracks = (refl, refl)

remove_handler_lem_example :
    ((may_go busy_loop 7 ≡ true)
      × ((p : Poller) × (k : Handler) × (remove_handler busy_loop waiting_handler
            ≡ ok (record busy_loop { poller = p }, k))
          × Removed busy_loop.poller waiting_handler (p, k)))
    ⊎ ((may_go busy_loop 7 ≡ false) × (remove_handler busy_loop waiting_handler ≡ err assertion))
remove_handler_lem_example =
    remove_handler_lem busy_loop waiting_handler tt (λ e. cc) waiting-Tracks refl

-- Loop 6 lives, and its thread does not know it.
current_forgets :
    (current none (constructed 5 ∷ constructed 6 ∷ destroyed 5 ∷ []) ≡ none)
    × (lives 6 false (constructed 5 ∷ constructed 6 ∷ destroyed 5 ∷ []) ≡ true)
unfolding current enter_thread leave_thread
current_forgets = (refl, refl)
