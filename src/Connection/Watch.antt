-- ===== src/Connection/Watch.antt =====
-- The handler of a connection: tracked by the poller, and watched for writing while output waits.
use netframe.Base.{◌≡◌, ◌≢◌, sym, ap, subst, Bool, not, ◌==◌, ok, ◌>>=◌, Returns_value}
use netframe.Buffer.{readable_bytes}
use netframe.Buffer.Contents.{IsValid}
use netframe.Handler.{Handler, new}
use netframe.Handler.Dispatch.{Watches}
use netframe.Poller.{Poller, update_handler}
use netframe.Poller.Sync.{
  Legal, Tracks, Settled, Updated, update_handler-Updated, Settled-Tracks, Tracks-same,
  Settled-ne-new,
}
use netframe.Connection.{Connection, update_events}

-- Output waits for the descriptor to become writable.
abbrev pub pending : Connection → Bool
pending c = not (readable_bytes c.output == 0)

-- The kernel watches the descriptor for the handler's events, and these are what the connection
-- needs; `reads` is whether it reads.
pub record Inv (reads : Bool) (c : Connection) : Type 0 where
  pub legal : Legal c.poller.calls
  pub settled : Settled c.handler.state c.poller c.handler
  pub valid : IsValid c.output
  pub watch : Watches c.handler.events reads (pending c)

pub Inv-Tracks :
    (c : Connection) {reads : Bool} → Inv reads c → Tracks c.handler.state c.poller c.handler
Inv-Tracks c inv = Settled-Tracks c.handler.state c.poller c.handler inv.settled

-- An update that the poller can follow returns, and settles the handler at the new events.
pub update_events_lem :
    (c : Connection) (h : Handler)
    → Legal c.poller.calls
    → Tracks c.handler.state c.poller c.handler
    → h.state ≡ c.handler.state
    → h.fd ≡ c.handler.fd
    → h.id ≡ c.handler.id
    → (p : Poller) × (k : Handler) × (update_events c h ≡ ok (record c { poller = p; handler = k }))
      × Legal p.calls
      × Settled k.state p k
      × (k.events ≡ h.events)
      × (k.state ≢ new)
      × (k.fd ≡ h.fd)
unfolding update_events
update_events_lem c h l t s f i =
    let t' : Tracks h.state c.poller h =
      subst (λ st. Tracks st c.poller h) (sym s)
        (Tracks-same c.handler.state c.poller c.handler h f i t) in
    let ((p, k), eq, u) =
      Returns_value (update_handler c.poller h) (Updated c.poller h)
        (update_handler-Updated c.poller h l t') in
    (
      p,
      k,
      ap (λ r. r >>= (λ (q : Poller × Handler). ok (record c { poller = q.0; handler = q.1 }))) eq,
      u.legal,
      u.settled,
      u.same_events,
      Settled-ne-new k.state p k u.settled,
      u.same_fd,
    )
