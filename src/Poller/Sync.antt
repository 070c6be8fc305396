-- ===== src/Poller/Sync.antt =====
-- EPollPoller.cpp: the map, the state of each handler and the log of epoll_ctl, together.
use netframe.Base.{
  ℕ, ◌≡◌, ◌≢◌, refl, subst, true, false, List, [], ◌∷◌, Option, none, some, arith, ◌==◌,
  if◌then◌else◌, Returns, ==_refl, ◌⊎◌, inl, inr, Bool-cases,
}
use netframe.Handler.{Handler, State, new, added, deleted, is_none_event}
use netframe.Poller.{
  Poller, Ctl, CtlOp, add, mod_op, del, lookup, insert, erase, update_as, update_handler,
  remove_handler, update,
}

pub lookup-erase :
    (k j : ℕ) (m : List (ℕ × ℕ)) → lookup j (erase k m) ≡ (if k == j then none else lookup j m)
unfolding lookup erase
lookup-erase k j [] = ground arith
lookup-erase k j ((i, w) ∷ m) = ground (arith, lookup-erase k j m)

pub lookup-insert :
    (fd key id : ℕ) (handlers : List (ℕ × ℕ))
    → lookup key (insert fd id handlers) ≡ (if fd == key then some id else lookup key handlers)
unfolding lookup insert
lookup-insert fd key id handlers = ground (arith, lookup-erase fd key handlers)

abbrev effect : CtlOp → ℕ → Option ℕ
effect add ev = some ev
effect mod_op ev = some ev
effect del ev = none

-- What the log asks the kernel to watch a descriptor for: the last call on it decides.
abbrev pub watched : List Ctl → ℕ → Option ℕ
watched [] fd = none
watched (c ∷ cs) fd = if c.fd == fd then effect c.op c.events else watched cs fd

-- epoll_ctl(2): a descriptor is added when it is not on the list, changed or deleted when it is.
abbrev pub Allowed : CtlOp → Option ℕ → Type 0
Allowed add o = o ≡ none
Allowed mod_op o = (ev : ℕ) × (o ≡ some ev)
Allowed del o = (ev : ℕ) × (o ≡ some ev)

abbrev pub Legal : List Ctl → Type 0
Legal [] = Unit
Legal (c ∷ cs) = Allowed c.op (watched cs c.fd) × Legal cs

-- The handler is known by its state: not in the map, in the map and watched, in the map only.
abbrev pub Tracks : State → Poller → Handler → Type 0
Tracks new p h = (lookup h.fd p.handlermap ≡ none) × (watched p.calls h.fd ≡ none)
Tracks added p h =
    (lookup h.fd p.handlermap ≡ some h.id) × ((ev : ℕ) × (watched p.calls h.fd ≡ some ev))
Tracks deleted p h = (lookup h.fd p.handlermap ≡ some h.id) × (watched p.calls h.fd ≡ none)

-- What `updateHandler` has to reach: watched for exactly the events of the handler, or deleted.
abbrev pub Settled : State → Poller → Handler → Type 0
Settled new p h = ⊥
Settled added p h = (lookup h.fd p.handlermap ≡ some h.id) × (watched p.calls h.fd ≡ some h.events)
Settled deleted p h =
    (lookup h.fd p.handlermap ≡ some h.id)
    × (watched p.calls h.fd ≡ none)
    × (is_none_event h ≡ true)

-- Nothing changes for the other descriptors.
abbrev pub Frame : ℕ → Poller → Poller → Type 0
Frame fd p q =
    (j : ℕ)
    → (fd == j) ≡ false
    → (lookup j q.handlermap ≡ lookup j p.handlermap) × (watched q.calls j ≡ watched p.calls j)

pub record Updated (p : Poller) (h : Handler) (r : Poller × Handler) : Type 0 where
  pub legal : Legal r.0.calls
  pub settled : Settled r.1.state r.0 r.1
  pub frame : Frame h.fd p r.0
  pub same_fd : r.1.fd ≡ h.fd
  pub same_events : r.1.events ≡ h.events
  pub same_id : r.1.id ≡ h.id

update_as-Updated :
    (s : State) (p : Poller) (h : Handler)
    → Legal p.calls
    → Tracks s p h
    → h.state ≡ s
    → Returns (update_as s p h) (Updated p h)
unfolding update_as
update_as-Updated new p h l t e = rw (t.0) (record {
  legal = (t.1, l);
  settled = (ground (arith, lookup-insert h.fd h.fd h.id p.handlermap), ground arith);
  frame = λ j ne. (ground (arith, lookup-insert h.fd j h.id p.handlermap), ground arith);
  same_fd = refl;
  same_events = refl;
  same_id = refl;
})
update_as-Updated added p h l t e = rw (t.0, ==_refl h.id) (go (Bool-cases (is_none_event h)))
  where
    out : Poller × Handler
    out =
        if is_none_event h
        then (update p del h, record h { state = deleted })
        else (update p mod_op h, h)

    go : (is_none_event h ≡ true) ⊎ (is_none_event h ≡ false) → Updated p h out
    go (inl none') = rw none' (record {
      legal = (t.1, l);
      settled = (t.0, ground arith, none');
      frame = λ j ne. (refl, ground arith);
      same_fd = refl;
      same_events = refl;
      same_id = refl;
    })
    go (inr some') = rw some' (record {
      legal = (t.1, l);
      settled = rw e (t.0, ground arith);
      frame = λ j ne. (refl, ground arith);
      same_fd = refl;
      same_events = refl;
      same_id = refl;
    })
update_as-Updated deleted p h l t e =
    rw (t.0, ==_refl h.id)
      (record {
        legal = (t.1, l);
        settled = (t.0, ground arith);
        frame = λ j ne. (refl, ground arith);
        same_fd = refl;
        same_events = refl;
        same_id = refl;
      })

-- For a handler that the poller tracks, `updateHandler` passes its assertions, makes one epoll_ctl
-- call that the kernel allows, has the descriptor watched for exactly the handler's events (or not
-- at all, if there are none), and touches no other descriptor.
pub update_handler-Updated :
    (p : Poller) (h : Handler)
    → Legal p.calls
    → Tracks h.state p h
    → Returns (update_handler p h) (Updated p h)
unfolding update_handler
update_handler-Updated p h l t = update_as-Updated h.state p h l t refl

-- What an update reaches is what the next one starts from.
pub Settled-Tracks : (s : State) (p : Poller) (h : Handler) → Settled s p h → Tracks s p h
Settled-Tracks new p h t = absurd t
Settled-Tracks added p h t = (t.0, (h.events, t.1))
Settled-Tracks deleted p h t = (t.0, t.1)

pub Settled-ne-new : (s : State) (p : Poller) (h : Handler) → Settled s p h → s ≢ new
Settled-ne-new new p h t = absurd t
Settled-ne-new added p h t = λ e. cc
Settled-ne-new deleted p h t = λ e. cc

-- Being tracked is a matter of the descriptor and the address alone.
pub Tracks-same :
    (s : State) (p : Poller) (h k : Handler)
    → k.fd ≡ h.fd
    → k.id ≡ h.id
    → Tracks s p h
    → Tracks s p k
Tracks-same new p h k f i t = rw f t
Tracks-same added p h k f i t = rw (f, i) t
Tracks-same deleted p h k f i t = rw (f, i) t

pub record Removed (p : Poller) (h : Handler) (r : Poller × Handler) : Type 0 where
  pub legal : Legal r.0.calls
  pub unmapped : lookup h.fd r.0.handlermap ≡ none
  pub unwatched : watched r.0.calls h.fd ≡ none
  pub frame : Frame h.fd p r.0
  pub renewed : r.1 ≡ record h { state = new }

-- A handler that is in the map and asks for no events is taken out: afterwards the map and the
-- kernel have nothing on its descriptor, and the others are as they were.
pub remove_handler-Removed :
    (p : Poller) (h : Handler)
    → Legal p.calls
    → h.state ≢ new
    → Tracks h.state p h
    → is_none_event h ≡ true
    → Returns (remove_handler p h) (Removed p h)
unfolding remove_handler
remove_handler-Removed p h l ne t z = go h.state refl
  where
    go : (s : State) → h.state ≡ s → Returns (remove_handler p h) (Removed p h)
    go new e = absurd (ne e)
    go added e =
        let t' : Tracks added p h = subst (λ s. Tracks s p h) e t in
        rw (e, t'.0, ==_refl h.id, z)
          (record {
            legal = (t'.1, l);
            unmapped = ground (arith, lookup-erase h.fd h.fd p.handlermap);
            unwatched = ground arith;
            frame = λ j d. (ground (arith, lookup-erase h.fd j p.handlermap), ground arith);
            renewed = refl;
          })
    go deleted e =
        let t' : Tracks deleted p h = subst (λ s. Tracks s p h) e t in
        rw (e, t'.0, ==_refl h.id, z)
          (record {
            legal = l;
            unmapped = ground (arith, lookup-erase h.fd h.fd p.handlermap);
            unwatched = t'.1;
            frame = λ j d. (ground (arith, lookup-erase h.fd j p.handlermap), refl);
            renewed = refl;
          })
