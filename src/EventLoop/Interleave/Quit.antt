-- ===== src/EventLoop/Interleave/Quit.antt =====
-- The whole of `loop` between the threads: its entry, the test of its `while`, its return, and
-- `quit`, whose flag and wakeup are two accesses to shared state.
pub mod Heard
pub mod Reaches
use netframe.Base.{
  ℕ, suc, ◌+◌, ◌<◌, ◌≡◌, refl, sym, ap, ◌∙◌, subst, Bool, true, false, ◌⊎◌, inl, inr, List, [], ◌∷◌,
  ◌++◌, Result, ok, ok_of_assert, ok_inj, not, ◌≢◌, arith,
}
use netframe.EventLoop.{
  EventLoop, enter, wakeup, handle_read, push, wakeup_if_needed, queue_in_loop, queue_all,
  take_pending,
}
use netframe.EventLoop.Interleave
use netframe.EventLoop.Interleave.{
  Pc, polling, handling, running, System, Step, other_push, other_wakeup, poll_returns, wakeup_read,
  handler_queues, swap, run_one, finish, batch, Awake, Flagged, InvAt, Inv, Step-Inv, start-Inv,
}

-- Before `loop`, at the test of the `while`, in its body, and after `loop`.
pub data Stage : Type 0 where
  entering testing body returned : Stage

-- `quitters` counts the threads between the flag and the wakeup of their `quit`.
pub record Program {ℓ} (F : Type ℓ) : Type ℓ where
  pub system : System F
  pub stage : Stage
  pub quitters : ℕ

-- Whose step it is: another thread's, the loop thread's in the body, or the last one of the body.
pub data Who : Type 0 where
  other own last : Who

module _ {ℓ} {F : Type ℓ} where
  abbrev pub who : {s t : System F} → Step s t → Who
  who (other_push f) = other
  who (other_wakeup n e) = other
  who (poll_returns e) = own
  who (wakeup_read e) = own
  who (handler_queues gs e) = own
  who (swap e) = own
  who (run_one f fs gs e) = own
  who (finish e) = last

  abbrev pub begin : Program F
  begin = record { system = Interleave.start; stage = entering; quitters = 0 }

  abbrev pub with_loop : Program F → EventLoop F → Program F
  with_loop p l = let s = p.system in record p { system = record s { loop = l } }

  abbrev pub flagged_quit : EventLoop F → EventLoop F
  flagged_quit l = record l { quit = true }

  pub data Move (p : Program F) : Program F → Type ℓ where
    others :
        {t : System F} (st : Step p.system t) → who st ≡ other → Move p (record p { system = t })
    works :
        {t : System F} (st : Step p.system t)
        → p.stage ≡ body
        → who st ≡ own
        → Move p (record p { system = t })
    ends :
        {t : System F} (st : Step p.system t)
        → p.stage ≡ body
        → who st ≡ last
        → Move p (record p { system = t; stage = testing })
    enters :
        (l : EventLoop F)
        → p.stage ≡ entering
        → enter p.system.loop ≡ ok l
        → Move p (record (with_loop p l) { stage = testing })
    goes_on : p.stage ≡ testing → p.system.loop.quit ≡ false → Move p (record p { stage = body })
    returns :
        p.stage ≡ testing
        → p.system.loop.quit ≡ true
        → Move p (record (with_loop p (let l = p.system.loop in record l { looping = false })) {
          stage = returned;
        })
    sets_flag :
        Move p (record (with_loop p (flagged_quit p.system.loop)) { quitters = p.quitters + 1 })
    wakes :
        (n : ℕ)
        → p.quitters ≡ suc n
        → Move p (record (with_loop p (wakeup p.system.loop)) { quitters = n })
    quits_itself :
        p.stage ≡ body → p.system.pc ≢ polling → Move p (with_loop p (flagged_quit p.system.loop))

  pub data Reach : Program F → Type ℓ where
    here : Reach begin
    next : {p q : Program F} → Reach p → Move p q → Reach q
