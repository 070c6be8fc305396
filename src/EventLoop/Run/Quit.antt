-- ===== src/EventLoop/Run/Quit.antt =====
-- A round of `loop`, and when `loop` returns.
use netframe.Base.{
  ℕ, ◌≤◌, ◌≡◌, refl, sym, ap, ap₂, ◌∙◌, Bool, true, false, ◌||◌, inl, inr, List, [], ◌∷◌, ◌++◌,
  none, length, Result, ok, ◌>>=◌, arith, Bool-cases,
}
use netframe.Poller.{Poller}
use netframe.Poller.Growth.{heard, poll_event-Grown}
use netframe.EventLoop.{EventLoop, enter, take_pending, do_pending_functors}
use netframe.EventLoop.Run.{
  Call, Loop, Round, perform_all, handle_active, iterate, turn, rounds, loop,
}
use netframe.EventLoop.Run.Calls.{
  stops, any_stops, queues, all_queues, reaction, perform_all-quit, handle_active-quit,
  run_all-quit, perform_all-pending, handle_active-pending, run_all-pending, handle_active-kept,
  run_all-flag,
}

-- `epoll_wait` returns no more events than handlers that are registered, as `fillActiveHandlers`
-- asserts.
abbrev pub Sized {ℓ} : {F : Type ℓ} → ℕ → Round F → Type 0
Sized n r = length (heard r.waited) ≤ n

module _ {ℓ} {F : Type ℓ} (script : F → List (Call F)) where
  -- The functors that run in this round: those that waited, those of the other threads, and those
  -- that the handlers queued.
  abbrev pub due : Loop F → Round F → List F
  due l r =
      (l.base.pending_functors ++ queues r.others) ++ all_queues (reaction r.react) (heard r.waited)

  -- Somebody calls `quit` in this round: another thread, a handler or a functor.
  abbrev pub asked : Loop F → Round F → Bool
  asked l r =
      (stops r.others || any_stops (reaction r.react) (heard r.waited))
      || any_stops script (due l r)

  pub record After (l : Loop F) (r : Round F) (m : Loop F) : Type ℓ where
    pub quit : m.base.quit ≡ (l.base.quit || asked l r)
    pub pending : m.base.pending_functors ≡ all_queues script (due l r)
    pub calm : m.base.event_handling ≡ false
    pub idle : m.base.calling_pending_functors ≡ false
    pub nobody : m.current_active_handler ≡ none
    pub same_map : m.poller.handlermap ≡ l.poller.handlermap

  module _ (l : Loop F) (r : Round F) (q : Poller) where
    ready : Loop F
    ready = record {
      base = record (perform_all false (l.base) r.others) { event_handling = true };
      poller = q;
      active_handlers = heard r.waited;
      current_active_handler = l.current_active_handler;
    }

    handled : Loop F
    handled = handle_active r.react (heard r.waited) ready

    rested : EventLoop F
    rested = record (handled.base) { event_handling = false }

    over : Loop F
    over = record handled {
      base = do_pending_functors (λ f b. perform_all true b (script f)) rested;
      current_active_handler = none;
    }

    handled-pending : handled.base.pending_functors ≡ due l r
    unfolding handled ready
    handled-pending =
        handle_active-pending r.react (heard r.waited) ready
        ∙ ap (λ ps. ps ++ all_queues (reaction r.react) (heard r.waited))
            (perform_all-pending false (l.base) r.others)

    handled-quit :
        handled.base.quit
        ≡ ((l.base.quit || stops r.others) || any_stops (reaction r.react) (heard r.waited))
    unfolding handled ready
    handled-quit =
        handle_active-quit r.react (heard r.waited) ready
        ∙ ap (λ b. b || any_stops (reaction r.react) (heard r.waited))
            (perform_all-quit false (l.base) r.others)

    or_assoc : (a b c d : Bool) → (((a || b) || c) || d) ≡ (a || ((b || c) || d))
    or_assoc true b c d = refl
    or_assoc false b c d = refl

    over-After : q.handlermap ≡ l.poller.handlermap → After l r over
    unfolding over rested do_pending_functors handled ready
    over-After same = record {
      quit =
          run_all-quit script rested.pending_functors (take_pending rested).1
          ∙ ap₂ ◌||◌ handled-quit (ap (any_stops script) handled-pending)
          ∙ or_assoc l.base.quit _ _ _;
      pending =
          run_all-pending script rested.pending_functors (take_pending rested).1
          ∙ ap (all_queues script) handled-pending;
      calm = run_all-flag script rested.pending_functors (take_pending rested).1;
      idle = refl;
      nobody = refl;
      same_map =
          ap (λ (p : Poller). p.handlermap) (handle_active-kept r.react (heard r.waited) ready).0
          ∙ same;
    }

  -- A round of `loop` in which `epoll_wait` reports no more handlers than are registered goes
  -- through. It runs the functors that waited and those that other threads and the handlers queued;
  -- what these functors queue waits for the next round; and it sets the flag exactly if one of them
  -- all quits.
  pub iterate_lem :
      (l : Loop F) (r : Round F)
      → Sized (length l.poller.handlermap) r
      → (m : Loop F) × (iterate script l r ≡ ok m) × After l r m
  unfolding iterate over rested handled ready
  iterate_lem l r h =
      let (q, eq, grown) = poll_event-Grown l.poller r.waited h in
      (over l r q, rw eq refl, over-After l r q grown.active)

  -- Another thread or a handler calls `quit` in this round.
  abbrev pub calls_quit : Round F → Bool
  calls_quit r = stops r.others || any_stops (reaction r.react) (heard r.waited)

  abbrev pub some_quit : List (Round F) → Bool
  some_quit [] = false
  some_quit (r ∷ rs) = calls_quit r || some_quit rs

  abbrev pub AllSized : ℕ → List (Round F) → Type 0
  AllSized n [] = Unit
  AllSized n (r ∷ rs) = Sized n r × AllSized n rs

  rounds_return :
      (n : ℕ) (l : Loop F) (rs : List (Round F))
      → length l.poller.handlermap ≡ n
      → AllSized n rs
      → some_quit rs ≡ true
      → (m : Loop F) × (rounds script l rs ≡ ok (true, m)) × (m.base.looping ≡ false)
  unfolding rounds
  rounds_return n l [] s h e = cc
  rounds_return n l (r ∷ rs) s h e =
      let (m, eq, z) = iterate_lem l r (omega (arith, s, h.0)) in
      let enter = ap (λ (x : Result (Loop F)). x >>= behind) eq in
      elim (Bool-cases m.base.quit) [
        | inl halt ↦ (
          record m { base = record (m.base) { looping = false } },
          enter ∙ ap (λ b. turn b m (rounds script m rs)) halt,
          refl,
        )
        | inr on ↦
            let (k, eq', down) =
              rounds_return n m rs (ap length z.same_map ∙ s) h.1
                (later (calls_quit r) (some_quit rs) _ _ (sym z.quit ∙ on) e) in
            (k, enter ∙ ap (λ b. turn b m (rounds script m rs)) on ∙ eq', down)
      ]
    where
      behind : Loop F → Result (Bool × Loop F)
      behind m = turn (m.base.quit) m (rounds script m rs)

      later : (a b c d : Bool) → (c || (a || d)) ≡ false → (a || b) ≡ true → b ≡ true
      later a b c d h k = ground arith

  -- `loop` on a loop that does not run yet returns, as soon as some round comes in which another
  -- thread or a handler calls `quit`, whatever else it meets, if no round reports more handlers
  -- than are registered.
  pub loop_returns :
      (l : Loop F) (rs : List (Round F))
      → l.base.looping ≡ false
      → AllSized (length l.poller.handlermap) rs
      → some_quit rs ≡ true
      → (m : Loop F) × (loop script l rs ≡ ok (true, m)) × (m.base.looping ≡ false)
  unfolding loop enter
  loop_returns l rs e h k =
      let (m, eq, down) =
        rounds_return (length l.poller.handlermap)
          (record l { base = record (l.base) { looping = true; quit = false } }) rs refl h k in
      (m, rw e eq, down)
