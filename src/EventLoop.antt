-- ===== src/EventLoop.antt =====
-- EventLoop.cpp: the functors that wait for the loop thread, and the eventfd that wakes it.
pub mod Interleave
pub mod Run
pub mod Current
pub mod Lifetime
use netframe.Base.{
  ℕ, ◌+◌, Bool, true, false, not, ◌||◌, List, [], ◌∷◌, ◌++◌, if◌then◌else◌, Result, ok, ◌>>=◌, ◌>>◌,
  assert,
}

-- `wakeups` is the counter of the eventfd: each `wakeup` adds one, and a read takes it to zero.
pub record EventLoop {ℓ} (F : Type ℓ) : Type ℓ where
  pub looping : Bool
  pub quit : Bool
  pub event_handling : Bool
  pub calling_pending_functors : Bool
  pub wakeups : ℕ
  pub pending_functors : List F

module _ {ℓ} {F : Type ℓ} where
  -- The constructor.
  abbrev pub construct : EventLoop F
  construct = record {
    looping = false;
    quit = false;
    event_handling = false;
    calling_pending_functors = false;
    wakeups = 0;
    pending_functors = [];
  }

  abbrev pub wakeup : EventLoop F → EventLoop F
  wakeup l = record l { wakeups = l.wakeups + 1 }

  -- `m_handleRead`, the read callback of the eventfd's handler.
  abbrev pub handle_read : EventLoop F → EventLoop F
  handle_read l = record l { wakeups = 0 }

  -- The push under the mutex, the first part of `queueInLoop`.
  abbrev pub push : EventLoop F → F → EventLoop F
  push l cb = record l { pending_functors = l.pending_functors ++ (cb ∷ []) }

  -- The second part, after the mutex is free again.
  abbrev pub wakeup_if_needed : EventLoop F → Bool → EventLoop F
  wakeup_if_needed l in_loop = if not in_loop || l.calling_pending_functors then wakeup l else l

  unfoldable pub queue_in_loop : EventLoop F → Bool → F → EventLoop F
  queue_in_loop l in_loop cb = wakeup_if_needed (push l cb) in_loop

  -- `runInLoop`: in the loop thread the functor runs at once.
  unfoldable pub run_in_loop :
      (F → EventLoop F → EventLoop F) → EventLoop F → Bool → F → EventLoop F
  run_in_loop exec l in_loop cb = if in_loop then exec cb l else queue_in_loop l in_loop cb

  unfoldable pub request_quit : EventLoop F → Bool → EventLoop F
  request_quit l in_loop = let l' = record l { quit = true } in if in_loop then l' else wakeup l'

  -- The start of `loop`: a request to quit that came before is forgotten.
  unfoldable pub enter : EventLoop F → Result (EventLoop F)
  enter l = do assert (not l.looping); ok (record l { looping = true; quit = false })

  -- The swap of `m_doPendingFunctors`: the functors to run, and the loop that others push to.
  abbrev pub take_pending : EventLoop F → List F × EventLoop F
  take_pending l =
      (l.pending_functors, record l { calling_pending_functors = true; pending_functors = [] })

  -- What the running functors queue, in order, from the loop thread.
  abbrev pub queue_all : EventLoop F → List F → EventLoop F
  queue_all l [] = l
  queue_all l (g ∷ gs) = queue_all (queue_in_loop l true g) gs

  -- The loop of `m_doPendingFunctors`.
  unfoldable pub run_all : (F → EventLoop F → EventLoop F) → List F → EventLoop F → EventLoop F
  run_all exec [] l = l
  run_all exec (f ∷ fs) l = run_all exec fs (exec f l)

  unfoldable pub do_pending_functors : (F → EventLoop F → EventLoop F) → EventLoop F → EventLoop F
  do_pending_functors exec l =
      let (fs, l') = take_pending l in
      record (run_all exec fs l') { calling_pending_functors = false }
