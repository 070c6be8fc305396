-- ===== src/EventLoop/Run.antt =====
-- EventLoop.cpp: `loop` with its poller and its active handlers, and `updateHandler` and
-- `removeHandler`. What a callback does to the loop is a list of calls; what `epoll_wait` returns,
-- and what other threads call meanwhile, is the input of each round.
pub mod Calls
pub mod Quit
pub mod Remove
pub mod Lost
use netframe.Base.{
  ℕ, Bool, true, false, not, ◌||◌, List, [], ◌∷◌, ◌++◌, map, Option, none, some, ◌==◌,
  if◌then◌else◌, Result, ok, ◌>>=◌, ◌>>◌, assert,
}
use netframe.Handler.{Handler}
use netframe.Poller
use netframe.Poller.{Poller, Waited, poll_event}
use netframe.EventLoop.{EventLoop, queue_in_loop, request_quit, enter, do_pending_functors}

-- A call on the loop: `queueInLoop` or `quit`.
pub data Call {ℓ} (F : Type ℓ) : Type ℓ where
  queue : F → Call F
  stop : Call F

-- The loop with the members that `loop` works on.
pub record Loop {ℓ} (F : Type ℓ) : Type ℓ where
  pub base : EventLoop F
  pub poller : Poller
  pub active_handlers : List (ℕ × ℕ)
  pub current_active_handler : Option ℕ

-- What a round meets: the calls of other threads, the result of `epoll_wait`, and what the callback
-- of a handler does for the events that it is given.
pub record Round {ℓ} (F : Type ℓ) : Type ℓ where
  pub others : List (Call F)
  pub waited : Waited
  pub react : ℕ → ℕ → List (Call F)

-- `find(m_activeHandlers.begin(), m_activeHandlers.end(), handle) != m_activeHandlers.end()`.
abbrev pub is_active : ℕ → List (ℕ × ℕ) → Bool
is_active id [] = false
is_active id ((i, revents) ∷ hs) = i == id || is_active id hs

abbrev pub is_current : Option ℕ → ℕ → Bool
is_current none id = false
is_current (some i) id = i == id

module _ {ℓ} {F : Type ℓ} where
  -- One call, from the loop thread or from another.
  abbrev pub perform : Bool → EventLoop F → Call F → EventLoop F
  perform in_loop l (queue f) = queue_in_loop l in_loop f
  perform in_loop l stop = request_quit l in_loop

  unfoldable pub perform_all : Bool → EventLoop F → List (Call F) → EventLoop F
  perform_all in_loop l [] = l
  perform_all in_loop l (c ∷ cs) = perform_all in_loop (perform in_loop l c) cs

  -- The `for` over the active handlers.
  unfoldable pub handle_active : (ℕ → ℕ → List (Call F)) → List (ℕ × ℕ) → Loop F → Loop F
  handle_active react [] l = l
  handle_active react ((id, revents) ∷ hs) l = handle_active react hs (record l {
    base = perform_all true (l.base) (react id revents);
    current_active_handler = some id;
  })

  -- The body of the `while`; `script` is what a functor does.
  unfoldable pub iterate : (F → List (Call F)) → Loop F → Round F → Result (Loop F)
  iterate script l r = do
    let base = perform_all false (l.base) r.others
    (p, active) ← poll_event l.poller r.waited
    let ready : Loop F = record {
      base = record base { event_handling = true };
      poller = p;
      active_handlers = active;
      current_active_handler = l.current_active_handler;
    }
    let handled = handle_active r.react active ready
    let rested = record (handled.base) { event_handling = false }
    ok (record handled {
      base = do_pending_functors (λ f b. perform_all true b (script f)) rested;
      current_active_handler = none;
    })

  -- The test of the `while`, and what stands behind it.
  abbrev pub turn : Bool → Loop F → Result (Bool × Loop F) → Result (Bool × Loop F)
  turn true l rest = ok (true, record l { base = record (l.base) { looping = false } })
  turn false l rest = rest

  -- The `while` over the rounds to come. The flag says that `loop` has returned; if not, it waits
  -- in `epoll_wait`.
  unfoldable pub rounds : (F → List (Call F)) → Loop F → List (Round F) → Result (Bool × Loop F)
  rounds script l [] = ok (false, l)
  rounds script l (r ∷ rs) =
      iterate script l r >>= λ l'. turn (l'.base.quit) l' (rounds script l' rs)

  -- `loop`.
  unfoldable pub loop : (F → List (Call F)) → Loop F → List (Round F) → Result (Bool × Loop F)
  loop script l rs = do b ← enter l.base; rounds script (record l { base = b }) rs

  unfoldable pub update_handler : Loop F → Handler → Result (Loop F × Handler)
  update_handler l h = do
    (p, h') ← Poller.update_handler l.poller h
    ok (record l { poller = p }, h')

  -- While events are handled, only the handler that runs may be removed, or one that is not active.
  unfoldable pub remove_handler : Loop F → Handler → Result (Loop F × Handler)
  remove_handler l h = do
    assert (
        if l.base.event_handling
        then is_current l.current_active_handler h.id || not (is_active h.id l.active_handlers)
        else true)
    (p, h') ← Poller.remove_handler l.poller h
    ok (record l { poller = p }, h')
