-- ===== src/EventLoop/Interleave.antt =====
-- The loop thread and any number of other threads, an access to shared state at a
-- time. The mutex makes a push and the swap atomic; between its push and its wakeup a thread can be
-- overtaken. What one functor or handler queues from the loop thread is one step.
pub mod Quit
use netframe.Base.{
  ℕ, suc, ◌+◌, ◌<◌, ◌≡◌, ◌≢◌, refl, sym, ap, ◌∙◌, subst, Bool, true, false, ◌⊎◌, inl, inr, List, [],
  ◌∷◌, ◌++◌, append_assoc, append-nil, arith,
}
use netframe.EventLoop.{
  EventLoop, construct, wakeup, handle_read, push, wakeup_if_needed, queue_in_loop, queue_all,
  take_pending,
}

-- Where the loop thread stands: in `epoll_wait`, among the active handlers, or among the functors
-- that it has swapped out and not run yet.
pub data Pc {ℓ} (F : Type ℓ) : Type ℓ where
  polling handling : Pc F
  running : List F → Pc F

-- `posters` counts the threads between their push and their wakeup; `done` and `posted` are the
-- functors that have run and that were queued, oldest first.
pub record System {ℓ} (F : Type ℓ) : Type ℓ where
  pub loop : EventLoop F
  pub pc : Pc F
  pub posters : ℕ
  pub done : List F
  pub posted : List F

module _ {ℓ} {F : Type ℓ} where
  abbrev pub start : System F
  start = record { loop = construct; pc = polling; posters = 0; done = []; posted = [] }

  -- What a functor or a handler queues from the loop thread, in order.
  abbrev pub queued : System F → List F → System F
  queued s gs = record s { loop = queue_all s.loop gs; posted = s.posted ++ gs }

  pub data Step (s : System F) : System F → Type ℓ where
    other_push :
        (f : F)
        → Step s (record s {
          loop = push s.loop f;
          posters = s.posters + 1;
          posted = s.posted ++ (f ∷ []);
        })
    other_wakeup :
        (n : ℕ)
        → s.posters ≡ suc n
        → Step s (record s { loop = wakeup_if_needed s.loop false; posters = n })
    poll_returns : s.pc ≡ polling → Step s (record s { pc = handling })
    wakeup_read : s.pc ≡ handling → Step s (record s { loop = handle_read s.loop })
    handler_queues : (gs : List F) → s.pc ≡ handling → Step s (queued s gs)
    swap :
        s.pc ≡ handling
        → Step s (record s { loop = (take_pending s.loop).1; pc = running (take_pending s.loop).0 })
    run_one :
        (f : F) (fs gs : List F)
        → s.pc ≡ running (f ∷ fs)
        → Step s (queued (record s { pc = running fs; done = s.done ++ (f ∷ []) }) gs)
    finish :
        s.pc ≡ running []
        → Step s
            (record s { loop = record (s.loop) { calling_pending_functors = false }; pc = polling })

  pub data Reach : System F → Type ℓ where
    here : Reach start
    next : {s t : System F} → Reach s → Step s t → Reach t

  -- The functors that have been swapped out and wait for their turn.
  abbrev pub batch : Pc F → List F
  batch polling = []
  batch handling = []
  batch (running fs) = fs

  -- The wakeup flag of the loop agrees with where it stands.
  abbrev pub Flagged : Pc F → Bool → Type 0
  Flagged polling b = b ≡ false
  Flagged handling b = b ≡ false
  Flagged (running fs) b = b ≡ true

  -- Once the loop has swapped, or polls, a functor that waits has a wakeup to come or to read.
  abbrev pub Awake : Pc F → System F → Type ℓ
  Awake polling s = (s.loop.pending_functors ≡ []) ⊎ (0 < s.loop.wakeups + s.posters)
  Awake handling s = Unit
  Awake (running fs) s = (s.loop.pending_functors ≡ []) ⊎ (0 < s.loop.wakeups + s.posters)

  pub record InvAt (pc : Pc F) (s : System F) : Type ℓ where
    pub flagged : Flagged pc s.loop.calling_pending_functors
    pub awake : Awake pc s
    pub in_order : s.done ++ (batch pc ++ s.loop.pending_functors) ≡ s.posted

  abbrev pub Inv : System F → Type ℓ
  Inv s = InvAt s.pc s

  queue_in_loop-pending :
      (l : EventLoop F) (g : F)
      → (queue_in_loop l true g).pending_functors ≡ l.pending_functors ++ (g ∷ [])
  unfolding queue_in_loop
  queue_in_loop-pending l g = ground arith

  queue_in_loop-calling :
      (l : EventLoop F) (g : F)
      → (queue_in_loop l true g).calling_pending_functors ≡ l.calling_pending_functors
  unfolding queue_in_loop
  queue_in_loop-calling l g = ground arith

  queue_in_loop-wakeups :
      (l : EventLoop F) (g : F)
      → l.calling_pending_functors ≡ true
      → (queue_in_loop l true g).wakeups ≡ l.wakeups + 1
  unfolding queue_in_loop
  queue_in_loop-wakeups l g c = rw c refl

  queue_all-pending :
      (l : EventLoop F) (gs : List F) → (queue_all l gs).pending_functors ≡ l.pending_functors ++ gs
  queue_all-pending l [] = sym (append-nil _)
  queue_all-pending l (g ∷ gs) =
      queue_all-pending (queue_in_loop l true g) gs
      ∙ ap (λ ps. ps ++ gs) (queue_in_loop-pending l g)
      ∙ append_assoc l.pending_functors (g ∷ []) gs

  queue_all-calling :
      (l : EventLoop F) (gs : List F)
      → (queue_all l gs).calling_pending_functors ≡ l.calling_pending_functors
  queue_all-calling l [] = refl
  queue_all-calling l (g ∷ gs) =
      queue_all-calling (queue_in_loop l true g) gs ∙ queue_in_loop-calling l g

  -- While functors run, each one that is queued brings a wakeup.
  queue_all-awake :
      (l : EventLoop F) (gs : List F) (n : ℕ)
      → l.calling_pending_functors ≡ true
      → (l.pending_functors ≡ []) ⊎ (0 < l.wakeups + n)
      → ((queue_all l gs).pending_functors ≡ []) ⊎ (0 < (queue_all l gs).wakeups + n)
  queue_all-awake l [] n c a = a
  queue_all-awake l (g ∷ gs) n c a =
      queue_all-awake (queue_in_loop l true g) gs n (queue_in_loop-calling l g ∙ c)
        (inr (omega (arith, queue_in_loop-wakeups l g c)))

  pub start-Inv : Inv start
  start-Inv = record { flagged = refl; awake = inl refl; in_order = refl }

  -- A push by another thread: it will wake the loop.
  pushed-Awake :
      (pc : Pc F) (s : System F) (f : F)
      → Awake pc s
      → Awake pc (record s {
        loop = push s.loop f;
        posters = s.posters + 1;
        posted = s.posted ++ (f ∷ []);
      })
  pushed-Awake polling s f a = inr (omega arith)
  pushed-Awake handling s f a = a
  pushed-Awake (running fs) s f a = inr (omega arith)

  woken-Awake :
      (pc : Pc F) (s : System F) (n : ℕ)
      → s.posters ≡ suc n
      → Awake pc s
      → Awake pc (record s { loop = wakeup s.loop; posters = n })
  woken-Awake polling s n e a = inr (omega arith)
  woken-Awake handling s n e a = a
  woken-Awake (running fs) s n e a = inr (omega arith)

  pub Step-Inv : {s t : System F} → Step s t → Inv s → Inv t
  Step-Inv {s} (other_push f) v = record {
    flagged = v.flagged;
    awake = pushed-Awake s.pc s f v.awake;
    in_order =
        sym (ap (◌++◌ s.done) (append_assoc (batch s.pc) _ _))
        ∙ sym (append_assoc s.done _ _)
        ∙ ap (λ ps. ps ++ (f ∷ [])) v.in_order;
  }
  Step-Inv {s} (other_wakeup n e) v = record {
    flagged = v.flagged;
    awake = woken-Awake s.pc s n e v.awake;
    in_order = v.in_order;
  }
  Step-Inv {s} (poll_returns e) v =
      let u = subst (λ pc. InvAt pc s) e v in
      record { flagged = u.flagged; awake = tt; in_order = u.in_order }
  Step-Inv {s} (wakeup_read e) v =
      let u = subst (λ pc. InvAt pc s) e v in
      subst (λ pc. InvAt pc (record s { loop = handle_read s.loop })) (sym e)
        (record { flagged = u.flagged; awake = tt; in_order = u.in_order })
  Step-Inv {s} (handler_queues gs e) v =
      let u = subst (λ pc. InvAt pc s) e v in
      subst (λ pc. InvAt pc (queued s gs)) (sym e)
        (record {
          flagged = queue_all-calling s.loop gs ∙ u.flagged;
          awake = tt;
          in_order =
              ap (◌++◌ s.done) (queue_all-pending s.loop gs)
              ∙ sym (append_assoc s.done s.loop.pending_functors gs)
              ∙ ap (λ ps. ps ++ gs) u.in_order;
        })
  Step-Inv {s} (swap e) v =
      let u = subst (λ pc. InvAt pc s) e v in
      record {
        flagged = refl;
        awake = inl refl;
        in_order = ap (◌++◌ s.done) (append-nil s.loop.pending_functors) ∙ u.in_order;
      }
  Step-Inv {s} (run_one f fs gs e) v =
      let u = subst (λ pc. InvAt pc s) e v in
      let p = s.loop.pending_functors in
      record {
        flagged = queue_all-calling s.loop gs ∙ u.flagged;
        awake = queue_all-awake s.loop gs s.posters u.flagged u.awake;
        in_order =
            append_assoc s.done (f ∷ []) (fs ++ (queue_all s.loop gs).pending_functors)
            ∙ ap (λ qs. s.done ++ (f ∷ (fs ++ qs))) (queue_all-pending s.loop gs)
            ∙ ap (λ qs. s.done ++ (f ∷ qs)) (sym (append_assoc fs p gs))
            ∙ sym (append_assoc s.done (f ∷ (fs ++ p)) gs)
            ∙ ap (λ ps. ps ++ gs) u.in_order;
      }
  Step-Inv {s} (finish e) v =
      let u = subst (λ pc. InvAt pc s) e v in
      record { flagged = refl; awake = u.awake; in_order = u.in_order }

  pub Reach-Inv : {s : System F} → Reach s → Inv s
  Reach-Inv here = start-Inv
  Reach-Inv (next r st) = Step-Inv st (Reach-Inv r)

  -- However the threads are interleaved: when the loop thread is about to block in `epoll_wait`
  -- while a functor waits, the eventfd is readable, or a thread that has pushed is still to write
  -- it.
  pub no_lost_wakeup :
      {s : System F}
      → Reach s
      → s.pc ≡ polling
      → s.loop.pending_functors ≢ []
      → 0 < s.loop.wakeups + s.posters
  no_lost_wakeup {s} r e ne = go (subst (λ pc. InvAt pc s) e (Reach-Inv r)).awake
    where
      go :
          (s.loop.pending_functors ≡ []) ⊎ (0 < s.loop.wakeups + s.posters)
          → 0 < s.loop.wakeups + s.posters
      go (inl none') = absurd (ne none')
      go (inr some') = some'

  -- However the threads are interleaved: the functors that have run, those swapped out and those
  -- that still wait are, in this order, exactly the functors that were queued, in the order of
  -- their pushes; so each one runs once, after all that were queued before it.
  pub runs_in_order :
      {s : System F} → Reach s → s.done ++ (batch s.pc ++ s.loop.pending_functors) ≡ s.posted
  runs_in_order r = (Reach-Inv r).in_order
