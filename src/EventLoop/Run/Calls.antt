-- ===== src/EventLoop/Run/Calls.antt =====
-- What calls on the loop do to its flag and its queue: those of other threads, of handlers and of
-- functors.
use netframe.Base.{
  ℕ, ◌≡◌, refl, sym, ap, ◌∙◌, Bool, true, false, ◌||◌, List, [], ◌∷◌, ◌++◌, append-nil,
  append_assoc, some, arith,
}
use netframe.EventLoop.{EventLoop, queue_in_loop, request_quit, run_all}
use netframe.EventLoop.Run.{Call, queue, stop, Loop, perform, perform_all, handle_active}

module _ {ℓ} {F : Type ℓ} where
  -- Whether `quit` is among the calls.
  abbrev pub stops : List (Call F) → Bool
  stops [] = false
  stops (queue f ∷ cs) = stops cs
  stops (stop ∷ cs) = true

  abbrev pub any_stops {κ} : {A : Type κ} → (A → List (Call F)) → List A → Bool
  any_stops f [] = false
  any_stops f (x ∷ xs) = stops (f x) || any_stops f xs

  queue_quit :
      (in_loop : Bool) (l : EventLoop F) (f : F) → (queue_in_loop l in_loop f).quit ≡ l.quit
  unfolding queue_in_loop
  queue_quit in_loop l f = ground arith

  request_quit_lem : (in_loop : Bool) (l : EventLoop F) → (request_quit l in_loop).quit ≡ true
  unfolding request_quit
  request_quit_lem in_loop l = ground arith

  pub perform_all-quit :
      (in_loop : Bool) (l : EventLoop F) (cs : List (Call F))
      → (perform_all in_loop l cs).quit ≡ (l.quit || stops cs)
  unfolding perform_all
  perform_all-quit in_loop l [] = ground arith
  perform_all-quit in_loop l (queue f ∷ cs) =
      perform_all-quit in_loop (queue_in_loop l in_loop f) cs
      ∙ ap (λ b. b || stops cs) (queue_quit in_loop l f)
  perform_all-quit in_loop l (stop ∷ cs) =
      ground
        (arith, perform_all-quit in_loop (request_quit l in_loop) cs, request_quit_lem in_loop l)

  abbrev pub reaction : (ℕ → ℕ → List (Call F)) → ℕ × ℕ → List (Call F)
  reaction react (id, revents) = react id revents

  pub handle_active-quit :
      (react : ℕ → ℕ → List (Call F)) (hs : List (ℕ × ℕ)) (l : Loop F)
      → (handle_active react hs l).base.quit ≡ (l.base.quit || any_stops (reaction react) hs)
  unfolding handle_active
  handle_active-quit react [] l = ground arith
  handle_active-quit react ((id, revents) ∷ hs) l = ground (
    arith,
    handle_active-quit react hs (record l {
      base = perform_all true (l.base) (react id revents);
      current_active_handler = some id;
    }),
    perform_all-quit true (l.base) (react id revents),
  )

  pub run_all-quit :
      (script : F → List (Call F)) (fs : List F) (l : EventLoop F)
      → (run_all (λ f b. perform_all true b (script f)) fs l).quit ≡ (l.quit || any_stops script fs)
  unfolding run_all
  run_all-quit script [] l = ground arith
  run_all-quit script (f ∷ fs) l = ground (
    arith,
    run_all-quit script fs (perform_all true l (script f)),
    perform_all-quit true l (script f),
  )

  -- The functors that calls queue, in order.
  abbrev pub queues : List (Call F) → List F
  queues [] = []
  queues (queue f ∷ cs) = f ∷ queues cs
  queues (stop ∷ cs) = queues cs

  abbrev pub all_queues {κ} : {A : Type κ} → (A → List (Call F)) → List A → List F
  all_queues f [] = []
  all_queues f (x ∷ xs) = queues (f x) ++ all_queues f xs

  queue-pending :
      (in_loop : Bool) (l : EventLoop F) (f : F)
      → (queue_in_loop l in_loop f).pending_functors ≡ l.pending_functors ++ (f ∷ [])
  unfolding queue_in_loop
  queue-pending in_loop l f = ground arith

  request_quit-pending :
      (in_loop : Bool) (l : EventLoop F)
      → (request_quit l in_loop).pending_functors ≡ l.pending_functors
  unfolding request_quit
  request_quit-pending in_loop l = ground arith

  pub perform_all-pending :
      (in_loop : Bool) (l : EventLoop F) (cs : List (Call F))
      → (perform_all in_loop l cs).pending_functors ≡ l.pending_functors ++ queues cs
  unfolding perform_all
  perform_all-pending in_loop l [] = sym (append-nil _)
  perform_all-pending in_loop l (queue f ∷ cs) =
      perform_all-pending in_loop (queue_in_loop l in_loop f) cs
      ∙ ap (λ ps. ps ++ queues cs) (queue-pending in_loop l f)
      ∙ append_assoc l.pending_functors (f ∷ []) (queues cs)
  perform_all-pending in_loop l (stop ∷ cs) =
      perform_all-pending in_loop (request_quit l in_loop) cs
      ∙ ap (λ ps. ps ++ queues cs) (request_quit-pending in_loop l)

  pub handle_active-pending :
      (react : ℕ → ℕ → List (Call F)) (hs : List (ℕ × ℕ)) (l : Loop F)
      → (handle_active react hs l).base.pending_functors
        ≡ l.base.pending_functors ++ all_queues (reaction react) hs
  unfolding handle_active
  handle_active-pending react [] l = sym (append-nil _)
  handle_active-pending react ((id, revents) ∷ hs) l =
      handle_active-pending react hs (record l {
        base = perform_all true (l.base) (react id revents);
        current_active_handler = some id;
      })
      ∙ ap (λ ps. ps ++ all_queues (reaction react) hs)
          (perform_all-pending true (l.base) (react id revents))
      ∙ append_assoc l.base.pending_functors (queues (react id revents)) _

  pub run_all-pending :
      (script : F → List (Call F)) (fs : List F) (l : EventLoop F)
      → (run_all (λ f b. perform_all true b (script f)) fs l).pending_functors
        ≡ l.pending_functors ++ all_queues script fs
  unfolding run_all
  run_all-pending script [] l = sym (append-nil _)
  run_all-pending script (f ∷ fs) l =
      run_all-pending script fs (perform_all true l (script f))
      ∙ ap (λ ps. ps ++ all_queues script fs) (perform_all-pending true l (script f))
      ∙ append_assoc l.pending_functors (queues (script f)) _

  pub handle_active-kept :
      (react : ℕ → ℕ → List (Call F)) (hs : List (ℕ × ℕ)) (l : Loop F)
      → ((handle_active react hs l).poller ≡ l.poller)
        × ((handle_active react hs l).active_handlers ≡ l.active_handlers)
  unfolding handle_active
  handle_active-kept react [] l = (refl, refl)
  handle_active-kept react ((id, revents) ∷ hs) l = handle_active-kept react hs (record l {
    base = perform_all true (l.base) (react id revents);
    current_active_handler = some id;
  })

  perform-flag :
      (in_loop : Bool) (l : EventLoop F) (c : Call F)
      → (perform in_loop l c).event_handling ≡ l.event_handling
  unfolding queue_in_loop request_quit
  perform-flag in_loop l (queue f) = ground arith
  perform-flag in_loop l stop = ground arith

  perform_all-flag :
      (in_loop : Bool) (l : EventLoop F) (cs : List (Call F))
      → (perform_all in_loop l cs).event_handling ≡ l.event_handling
  unfolding perform_all
  perform_all-flag in_loop l [] = refl
  perform_all-flag in_loop l (c ∷ cs) =
      perform_all-flag in_loop (perform in_loop l c) cs ∙ perform-flag in_loop l c

  pub run_all-flag :
      (script : F → List (Call F)) (fs : List F) (l : EventLoop F)
      → (run_all (λ f b. perform_all true b (script f)) fs l).event_handling ≡ l.event_handling
  unfolding run_all
  run_all-flag script [] l = refl
  run_all-flag script (f ∷ fs) l =
      run_all-flag script fs (perform_all true l (script f)) ∙ perform_all-flag true l (script f)
