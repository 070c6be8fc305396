-- ===== src/EventLoop/Interleave/Quit/Reaches.antt =====
-- What holds wherever the threads get.
use netframe.Base.{
  ◌+◌, ◌<◌, ◌≡◌, refl, sym, ap, ◌∙◌, subst, true, false, ◌⊎◌, inl, inr, ◌++◌, ok, ok_of_assert,
  ok_inj, not, arith,
}
use netframe.EventLoop.{EventLoop, enter, wakeup, handle_read, push, queue_all}
use netframe.EventLoop.Interleave.{
  polling, handling, System, Step, other_push, other_wakeup, poll_returns, wakeup_read,
  handler_queues, swap, run_one, finish, batch, Inv, Step-Inv, start-Inv,
}
use netframe.EventLoop.Interleave.Quit.{
  testing, body, returned, Program, other, own, last, who, with_loop, flagged_quit, Move, others,
  works, ends, enters, goes_on, returns, sets_flag, wakes, quits_itself, Reach, here, next,
}
use netframe.EventLoop.Interleave.Quit.Heard.{
  Heard, Between, reloop-Inv, Heard-handling, Heard-running, Heard-on, Heard-flagged, Heard-inside,
  Between-body, at_top, at_entry,
}

module _ {ℓ} {F : Type ℓ} where
  record Good (p : Program F) : Type ℓ where
    pub inv : Inv p.system
    pub heard : Heard p.stage p.system.pc p.system.loop p.quitters
    pub between : Between p.stage p.system.pc

  works-Good :
      (p : Program F) {t : System F} (st : Step p.system t)
      → p.stage ≡ body
      → who st ≡ own
      → Good p
      → Good (record p { system = t })
  works-Good p (other_push f) e w v = absurd (cc)
  works-Good p (other_wakeup n e') e w v = absurd (cc)
  works-Good p (finish e') e w v = absurd (cc)
  works-Good p (poll_returns e') e w v = record {
    inv = Step-Inv (poll_returns e') v.inv;
    heard = Heard-handling p.stage p.system.loop p.quitters;
    between = Between-body p.stage handling e;
  }
  works-Good p (wakeup_read e') e w v = record {
    inv = Step-Inv (wakeup_read e') v.inv;
    heard =
        subst (λ pc. Heard p.stage pc (handle_read p.system.loop) p.quitters) (sym e')
          (Heard-handling p.stage _ p.quitters);
    between = Between-body p.stage p.system.pc e;
  }
  works-Good p (handler_queues gs e') e w v = record {
    inv = Step-Inv (handler_queues gs e') v.inv;
    heard =
        subst (λ pc. Heard p.stage pc (queue_all p.system.loop gs) p.quitters) (sym e')
          (Heard-handling p.stage _ p.quitters);
    between = Between-body p.stage p.system.pc e;
  }
  works-Good p (swap e') e w v = record {
    inv = Step-Inv (swap e') v.inv;
    heard = Heard-running p.stage _ _ p.quitters;
    between = Between-body p.stage _ e;
  }
  works-Good p (run_one f fs gs e') e w v = record {
    inv = Step-Inv (run_one f fs gs e') v.inv;
    heard = Heard-running p.stage fs _ p.quitters;
    between = Between-body p.stage _ e;
  }

  others-Good :
      (p : Program F) {t : System F} (st : Step p.system t)
      → who st ≡ other
      → Good p
      → Good (record p { system = t })
  others-Good p (other_push f) w v = record {
    inv = Step-Inv (other_push f) v.inv;
    heard =
        Heard-on p.stage p.system.pc p.system.loop (push p.system.loop f) p.quitters p.quitters refl
          (omega arith) v.heard;
    between = v.between;
  }
  others-Good p (other_wakeup n e) w v = record {
    inv = Step-Inv (other_wakeup n e) v.inv;
    heard =
        Heard-on p.stage p.system.pc p.system.loop (wakeup p.system.loop) p.quitters p.quitters refl
          (omega arith) v.heard;
    between = v.between;
  }
  others-Good p (poll_returns e) w v = absurd (cc)
  others-Good p (wakeup_read e) w v = absurd (cc)
  others-Good p (handler_queues gs e) w v = absurd (cc)
  others-Good p (swap e) w v = absurd (cc)
  others-Good p (run_one f fs gs e) w v = absurd (cc)
  others-Good p (finish e) w v = absurd (cc)

  ends-Good :
      (p : Program F) {t : System F} (st : Step p.system t)
      → who st ≡ last
      → Good p
      → Good (record p { system = t; stage = testing })
  ends-Good p (finish e) w v = record {
    inv = Step-Inv (finish e) v.inv;
    heard = tt;
    between = refl;
  }
  ends-Good p (other_push f) w v = absurd (cc)
  ends-Good p (other_wakeup n e) w v = absurd (cc)
  ends-Good p (poll_returns e) w v = absurd (cc)
  ends-Good p (wakeup_read e) w v = absurd (cc)
  ends-Good p (handler_queues gs e) w v = absurd (cc)
  ends-Good p (swap e) w v = absurd (cc)
  ends-Good p (run_one f fs gs e) w v = absurd (cc)

  enter_lem : (l m : EventLoop F) → enter l ≡ ok m → m ≡ record l { looping = true; quit = false }
  unfolding enter
  enter_lem l m e = sym (ok_inj (ok_of_assert (not l.looping) _ m e))

  Move-Good : {p q : Program F} → Move p q → Good p → Good q
  Move-Good {p} (others st w) v = others-Good p st w v
  Move-Good {p} (works st e w) v = works-Good p st e w v
  Move-Good {p} (ends st e w) v = ends-Good p st w v
  Move-Good {p} (enters l e e') v =
      let s = p.system in
      let l' = s.loop in
      subst (λ m. Good (record (with_loop p m) { stage = testing })) (sym (enter_lem l' l e'))
        (record {
          inv =
              reloop-Inv s (record l' { looping = true; quit = false }) refl refl (omega arith)
                v.inv;
          heard = tt;
          between = at_entry p.stage s.pc e v.between;
        })
  Move-Good {p} (goes_on e off) v = record {
    inv = v.inv;
    heard =
        subst (λ pc. Heard body pc p.system.loop p.quitters)
          (sym (at_top p.stage p.system.pc e v.between)) (inl off);
    between = tt;
  }
  Move-Good {p} (returns e on) v =
      let s = p.system in
      let l = s.loop in
      record {
        inv = reloop-Inv s (record l { looping = false }) refl refl (omega arith) v.inv;
        heard = tt;
        between = at_top p.stage s.pc e v.between;
      }
  Move-Good {p} sets_flag v =
      let s = p.system in
      record {
        inv = reloop-Inv s (flagged_quit s.loop) refl refl (omega arith) v.inv;
        heard = Heard-flagged p.stage s.pc s.loop p.quitters;
        between = v.between;
      }
  Move-Good {p} (wakes n e) v =
      let s = p.system in
      record {
        inv = reloop-Inv s (wakeup s.loop) refl refl (omega arith) v.inv;
        heard =
            Heard-on p.stage s.pc s.loop (wakeup s.loop) p.quitters n refl (omega (arith, e))
              v.heard;
        between = v.between;
      }
  Move-Good {p} (quits_itself e ne) v =
      let s = p.system in
      record {
        inv = reloop-Inv s (flagged_quit s.loop) refl refl (omega arith) v.inv;
        heard = Heard-inside p.stage s.pc (flagged_quit s.loop) p.quitters ne;
        between = v.between;
      }

  Reach-Good : {p : Program F} → Reach p → Good p
  Reach-Good here = record { inv = start-Inv; heard = tt; between = refl }
  Reach-Good (next r m) = Move-Good m (Reach-Good r)

  -- However `loop`, the pushes and the calls of `quit` are interleaved: when the loop thread is
  -- about to block in `epoll_wait` although `quit` has been called since it entered `loop`, the
  -- eventfd is readable, or the thread that calls `quit` is still to write it.
  pub no_lost_quit :
      {p : Program F}
      → Reach p
      → p.stage ≡ body
      → p.system.pc ≡ polling
      → p.system.loop.quit ≡ true
      → 0 < p.system.loop.wakeups + p.quitters
  no_lost_quit {p} r e pc on = go (
      subst (λ x. Heard body x p.system.loop p.quitters) pc
        (subst (λ st. Heard st p.system.pc p.system.loop p.quitters) e (Reach-Good r).heard))
    where
      go :
          (p.system.loop.quit ≡ false) ⊎ (0 < p.system.loop.wakeups + p.quitters)
          → 0 < p.system.loop.wakeups + p.quitters
      go (inl off) = absurd (cc)
      go (inr some') = some'

  -- However `loop`, the pushes and the calls of `quit` are interleaved: when `loop` has returned,
  -- the functors that have run, followed by those that are left and will not run, are exactly those
  -- that were queued, in their order.
  pub returned_left :
      {p : Program F}
      → Reach p
      → p.stage ≡ returned
      → p.system.done ++ p.system.loop.pending_functors ≡ p.system.posted
  returned_left {p} r e =
      let v = Reach-Good r in
      ap (λ pc. p.system.done ++ (batch pc ++ p.system.loop.pending_functors))
        (sym (subst (λ st. Between st p.system.pc) e v.between))
      ∙ v.inv.in_order
