-- ===== src/EventLoop/Interleave/Quit/Heard.antt =====
-- What a request to quit has to be while the loop thread goes on.
use netframe.Base.{
  ℕ, ◌+◌, ◌<◌, ◌≤◌, ◌≡◌, ◌≢◌, refl, sym, ap, ◌∙◌, subst, false, ◌⊎◌, inl, inr, List, ◌++◌, arith,
}
use netframe.EventLoop.{EventLoop}
use netframe.EventLoop.Interleave.{
  Pc, polling, handling, running, System, batch, Awake, Flagged, Inv,
}
use netframe.EventLoop.Interleave.Quit.{Stage, entering, testing, body, returned, flagged_quit}

module _ {ℓ} {F : Type ℓ} where
  -- In the body, where the loop thread is about to block, a request has a wakeup to come or to
  -- read.
  abbrev pub Heard : Stage → Pc F → EventLoop F → ℕ → Type 0
  Heard body polling l n = (l.quit ≡ false) ⊎ (0 < l.wakeups + n)
  Heard body handling l n = Unit
  Heard body (running fs) l n = Unit
  Heard entering pc l n = Unit
  Heard testing pc l n = Unit
  Heard returned pc l n = Unit

  -- Outside the body the loop thread stands at the top of a round.
  abbrev pub Between : Stage → Pc F → Type ℓ
  Between body pc = Unit
  Between entering pc = pc ≡ polling
  Between testing pc = pc ≡ polling
  Between returned pc = pc ≡ polling

  -- The invariant reads only the queue, the flag of the functors and the wakeups of the loop.
  reloop-Awake :
      (pc : Pc F) (s : System F) (l : EventLoop F)
      → l.pending_functors ≡ s.loop.pending_functors
      → s.loop.wakeups ≤ l.wakeups
      → Awake pc s
      → Awake pc (record s { loop = l })
  reloop-Awake polling s l e w (inl none') = inl (e ∙ none')
  reloop-Awake polling s l e w (inr some') = inr (omega arith)
  reloop-Awake handling s l e w a = a
  reloop-Awake (running fs) s l e w (inl none') = inl (e ∙ none')
  reloop-Awake (running fs) s l e w (inr some') = inr (omega arith)

  pub reloop-Inv :
      (s : System F) (l : EventLoop F)
      → l.pending_functors ≡ s.loop.pending_functors
      → l.calling_pending_functors ≡ s.loop.calling_pending_functors
      → s.loop.wakeups ≤ l.wakeups
      → Inv s
      → Inv (record s { loop = l })
  reloop-Inv s l e c w v = record {
    flagged = subst (Flagged s.pc) (sym c) v.flagged;
    awake = reloop-Awake s.pc s l e w v.awake;
    in_order = ap (λ q. s.done ++ (batch s.pc ++ q)) e ∙ v.in_order;
  }

  pub Heard-handling : (st : Stage) (l : EventLoop F) (n : ℕ) → Heard st handling l n
  Heard-handling body l n = tt
  Heard-handling entering l n = tt
  Heard-handling testing l n = tt
  Heard-handling returned l n = tt

  pub Heard-running :
      (st : Stage) (fs : List F) (l : EventLoop F) (n : ℕ) → Heard st (running fs) l n
  Heard-running body fs l n = tt
  Heard-running entering fs l n = tt
  Heard-running testing fs l n = tt
  Heard-running returned fs l n = tt

  -- A request that is not lost while wakeups only grow.
  pub Heard-on :
      (st : Stage) (pc : Pc F) (l m : EventLoop F) (n k : ℕ)
      → m.quit ≡ l.quit
      → l.wakeups + n ≤ m.wakeups + k
      → Heard st pc l n
      → Heard st pc m k
  Heard-on body polling l m n k e w (inl off) = inl (e ∙ off)
  Heard-on body polling l m n k e w (inr on) = inr (omega arith)
  Heard-on body handling l m n k e w h = tt
  Heard-on body (running fs) l m n k e w h = tt
  Heard-on entering pc l m n k e w h = tt
  Heard-on testing pc l m n k e w h = tt
  Heard-on returned pc l m n k e w h = tt

  pub Heard-flagged :
      (st : Stage) (pc : Pc F) (l : EventLoop F) (n : ℕ) → Heard st pc (flagged_quit l) (n + 1)
  Heard-flagged body polling l n = inr (omega arith)
  Heard-flagged body handling l n = tt
  Heard-flagged body (running fs) l n = tt
  Heard-flagged entering pc l n = tt
  Heard-flagged testing pc l n = tt
  Heard-flagged returned pc l n = tt

  pub Heard-inside :
      (st : Stage) (pc : Pc F) (l : EventLoop F) (n : ℕ) → pc ≢ polling → Heard st pc l n
  Heard-inside st polling l n ne = absurd (ne refl)
  Heard-inside st handling l n ne = Heard-handling st l n
  Heard-inside st (running fs) l n ne = Heard-running st fs l n

  pub Between-body : (st : Stage) (pc : Pc F) → st ≡ body → Between st pc
  Between-body body pc e = tt
  Between-body entering pc e = absurd (cc)
  Between-body testing pc e = absurd (cc)
  Between-body returned pc e = absurd (cc)

  pub at_top : (st : Stage) (pc : Pc F) → st ≡ testing → Between st pc → pc ≡ polling
  at_top testing pc e b = b
  at_top entering pc e b = b
  at_top returned pc e b = b
  at_top body pc e b = absurd (cc)

  pub at_entry : (st : Stage) (pc : Pc F) → st ≡ entering → Between st pc → pc ≡ polling
  at_entry testing pc e b = b
  at_entry entering pc e b = b
  at_entry returned pc e b = b
  at_entry body pc e b = absurd (cc)
