-- ===== src/Connection/Lifecycle.antt =====
-- The life of a connection: established, closed by the peer, destroyed by the server.
use netframe.Base.{
  ◌+◌, ◌≡◌, Bool, refl, ap, subst, ◌∙◌, true, ◌||◌, [], ◌∷◌, ◌++◌, append-nil, none, arith, Result,
  ok, ◌>>=◌, ◌>>◌, Returns_value, assert, ◌==◌,
}
use netframe.Handler.{Handler, without_all, is_none_event}
use netframe.Poller.{Poller, lookup, remove_handler}
use netframe.Poller.Sync.{
  Legal, Tracks, Settled, Settled-Tracks, watched, Removed, remove_handler-Removed,
}
use netframe.Connection.{
  Connection, disconnected, connection_cb, close_cb, record_act, set_state, is_connected,
  is_disconnecting, connection_destroyed, handle_close,
}
use netframe.Connection.Stream.{sent, sent-append}
use netframe.Connection.Told.{told, told-append, downs, downs-append}
use netframe.Connection.Watch.{Inv, Inv-Tracks, update_events_lem}

-- After `handleClose`.
pub record Closed (c d : Connection) : Type 0 where
  pub input : d.input ≡ c.input
  pub state : d.state ≡ disconnected
  pub legal : Legal d.poller.calls
  pub settled : Settled d.handler.state d.poller d.handler
  pub silent : d.handler.events ≡ 0
  pub same_fd : d.handler.fd ≡ c.handler.fd
  pub told_down : downs d.log ≡ downs c.log + 1
  pub history : told d.log ≡ told c.log ++ (disconnected ∷ [])
  pub output : d.output ≡ c.output
  pub same : sent d.log ≡ sent c.log

pub handle_close_lem :
    (c : Connection)
    → Legal c.poller.calls
    → Tracks c.handler.state c.poller c.handler
    → (is_connected c.state || is_disconnecting c.state) ≡ true
    → (d : Connection) × (handle_close c ≡ ok d) × Closed c d
unfolding handle_close
handle_close_lem c l t alive =
    let (p, k, eq, l', t', same, _, fd) =
      update_events_lem (set_state c disconnected) (without_all c.handler) l t refl refl refl in
    (
      record c {
        state = disconnected;
        poller = p;
        handler = k;
        log = (c.log ++ (connection_cb disconnected ∷ [])) ++ (close_cb ∷ []);
      },
      rw (alive, eq) refl,
      record {
        state = refl;
        legal = l';
        settled = t';
        silent = same;
        input = refl;
        same_fd = fd;
        told_down = omega (
          arith,
          downs-append (c.log ++ (connection_cb disconnected ∷ [])) (close_cb ∷ []),
          downs-append c.log (connection_cb disconnected ∷ []),
        );
        history =
            told-append (c.log ++ (connection_cb disconnected ∷ [])) (close_cb ∷ [])
            ∙ append-nil _
            ∙ told-append c.log (connection_cb disconnected ∷ []);
        output = refl;
        same =
            sent-append (c.log ++ (connection_cb disconnected ∷ [])) (close_cb ∷ [])
            ∙ append-nil _
            ∙ sent-append c.log (connection_cb disconnected ∷ [])
            ∙ append-nil _;
      },
    )

-- After `connectionDestroyed`: nothing of the descriptor is left in the poller.
pub record Destroyed (c e : Connection) : Type 0 where
  pub state : e.state ≡ disconnected
  pub legal : Legal e.poller.calls
  pub same_fd : e.handler.fd ≡ c.handler.fd
  pub unmapped : lookup c.handler.fd e.poller.handlermap ≡ none
  pub unwatched : watched e.poller.calls c.handler.fd ≡ none
  pub told_down : downs e.log ≡ downs c.log + 1
  pub history : told e.log ≡ told c.log ++ (disconnected ∷ [])
  pub output : e.output ≡ c.output
  pub same : sent e.log ≡ sent c.log

-- From any state `connectionDestroyed` passes its assertions, takes the descriptor out of the map
-- and off the kernel's list, and tells the client that the connection is down: also one that is
-- not connected any more, since the `if` at its start guards nothing.
pub connection_destroyed_lem :
    (c : Connection)
    → Legal c.poller.calls
    → Tracks c.handler.state c.poller c.handler
    → (e : Connection) × (connection_destroyed c ≡ ok e) × Destroyed c e
unfolding connection_destroyed
connection_destroyed_lem c l t =
    let (p, k, eq, l', t', same, ne, fd) =
      update_events_lem (set_state c disconnected) (without_all c.handler) l t refl refl refl in
    let none' : is_none_event k ≡ true = ap (λ n. n == 0) same in
    let ((q, h), eq', r) =
      Returns_value (remove_handler p k) (Removed p k)
        (remove_handler-Removed p k l' ne (Settled-Tracks k.state p k t') none') in
    (
      record c {
        state = disconnected;
        poller = q;
        handler = h;
        log = c.log ++ (connection_cb disconnected ∷ []);
      },
      ap (λ s. s >>= rest) eq ∙ rw none' (ap (λ s. s >>= last p k) eq'),
      record {
        state = refl;
        legal = r.legal;
        same_fd = ap (λ (x : Handler). x.fd) r.renewed ∙ fd;
        unmapped = subst (λ n. lookup n q.handlermap ≡ none) fd r.unmapped;
        unwatched = subst (λ n. watched q.calls n ≡ none) fd r.unwatched;
        told_down = downs-append c.log (connection_cb disconnected ∷ []);
        history = told-append c.log (connection_cb disconnected ∷ []);
        output = refl;
        same = sent-append c.log (connection_cb disconnected ∷ []) ∙ append-nil _;
      },
    )
  where
    down : Poller → Handler → Connection
    down p k = record c {
      state = disconnected;
      poller = p;
      handler = k;
      log = c.log ++ (connection_cb disconnected ∷ []);
    }

    last : Poller → Handler → Poller × Handler → Result Connection
    last p k r = ok (record (down p k) { poller = r.0; handler = r.1 })

    rest : Connection → Result Connection
    rest c' =
        let c'' = record_act c' (connection_cb c'.state) in
        do
          assert (is_none_event c''.handler)
          (p, h) ← remove_handler c''.poller c''.handler
          ok (record c'' { poller = p; handler = h })

-- A connection that the peer closes and the server then destroys, as `removeConnectionInLoop`
-- does, tells the client twice that it is down.
pub down_twice :
    (c : Connection) {reads : Bool}
    → Inv reads c
    → (is_connected c.state || is_disconnecting c.state) ≡ true
    → (d e : Connection) × (handle_close c ≡ ok d)
      × (connection_destroyed d ≡ ok e)
      × (downs e.log ≡ downs c.log + 2)
      × (lookup c.handler.fd e.poller.handlermap ≡ none)
      × (watched e.poller.calls c.handler.fd ≡ none)
down_twice c inv alive =
    let (d, eq, closed) = handle_close_lem c inv.legal (Inv-Tracks c inv) alive in
    let (e, eq', gone) =
      connection_destroyed_lem d closed.legal
        (Settled-Tracks d.handler.state d.poller d.handler closed.settled) in
    (
      d,
      e,
      eq,
      eq',
      omega (arith, closed.told_down, gone.told_down),
      subst (λ n. lookup n e.poller.handlermap ≡ none) closed.same_fd gone.unmapped,
      subst (λ n. watched e.poller.calls n ≡ none) closed.same_fd gone.unwatched,
    )
