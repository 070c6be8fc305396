-- ===== src/Connection/Life/Begins.antt =====
-- `connectionEstablished` on a connection that is alive, when it returns.
use netframe.Base.{
  ◌≡◌, refl, sym, ap, ap₂, subst, ◌∙◌, true, false, [], ◌∷◌, ◌++◌, append-nil, ok, err, assertion,
  ok_inj,
}
use netframe.Buffer.Contents.{contents}
use netframe.Handler.{with_reading, set_tie}
use netframe.Handler.Dispatch.{nothing, with_reading-Watches}
use netframe.Connection.{
  Connection, State, disconnected, connecting, connected, disconnecting, connection_cb, set_state,
  connection_established, is_connecting,
}
use netframe.Connection.Told.{told}
use netframe.Connection.Watch.{Inv, update_events_lem}
use netframe.Connection.Stream.{sent, stream, contents_of_idle, sent-append}
use netframe.Connection.Life.Shape.{Fresh, Alive, Next}

-- A call on a fresh connection.
Fresh-established :
    (c : Connection)
    → Fresh c
    → (d : Connection) × (connection_established (set_state c connecting) ≡ ok d)
      × Inv true d
      × (d.state ≡ connected)
      × (told d.log ≡ connected ∷ [])
      × (stream d ≡ stream c)
unfolding connection_established
Fresh-established c v =
    let (p, k, eq, l, s, same, _, _) =
      update_events_lem (set_state c connected) (with_reading (set_tie c.handler)) v.legal v.tracked
        refl refl refl in
    (
      record c {
        state = connected;
        poller = p;
        handler = k;
        log = c.log ++ (connection_cb connected ∷ []);
      },
      rw eq refl,
      record {
        legal = l;
        settled = s;
        valid = v.valid;
        watch = rw (same, v.idle) (with_reading-Watches (set_tie c.handler) (nothing v.silent));
      },
      refl,
      rw (v.quiet) refl,
      ap (λ xs. xs ++ contents c.output)
          (sent-append c.log (connection_cb connected ∷ []) ∙ append-nil _),
    )

at_state : (c : Connection) {p : State} → c.state ≡ p → c ≡ set_state c p
at_state c e = λ i. record c { state = e i }

established_late :
    (c : Connection) → is_connecting c.state ≡ false → connection_established c ≡ err assertion
unfolding connection_established
established_late c h = rw h refl

pub connection_established-Next :
    (c d : Connection) → Alive c.state c → connection_established c ≡ ok d → Next [] c d
connection_established-Next c d v e = go c.state refl v
  where
    go : (p : State) → c.state ≡ p → Alive p c → Next [] c d
    go connecting q a =
        let (d', eq, inv, st, so, str) = Fresh-established c a.shape in
        let same : d' ≡ d = ok_inj (sym eq ∙ ap connection_established (sym (at_state c q)) ∙ e) in
        subst (Next [] c) same (record {
          alive = rw st (record { shape = inv; told_so = so });
          streamed = str ∙ sym (append-nil (stream c));
        })
    go connected q a = cc (established_late c (ap is_connecting q))
    go disconnecting q a = cc (established_late c (ap is_connecting q))
    go disconnected q a = cc (established_late c (ap is_connecting q))

-- Before it is established, nothing was sent.
pub connection_established-stream :
    (c d : Connection) → Alive c.state c → connection_established c ≡ ok d → stream c ≡ []
connection_established-stream c d v e = go c.state refl v
  where
    go : (p : State) → c.state ≡ p → Alive p c → stream c ≡ []
    go connecting q a =
        ap₂ (λ l xs. sent l ++ xs) a.shape.quiet (contents_of_idle c a.shape.valid a.shape.idle)
    go connected q a = cc (established_late c (ap is_connecting q))
    go disconnecting q a = cc (established_late c (ap is_connecting q))
    go disconnected q a = cc (established_late c (ap is_connecting q))
