-- ===== src/Connection/Life/Shape.antt =====
-- What holds of a connection in each of its states.
use netframe.Base.{
  ℕ, ◌≡◌, sym, ap, subst, ◌∙◌, Bool, true, false, ◌⊎◌, inl, inr, List, [], ◌∷◌, ◌++◌, append-nil,
  Bool-cases,
}
use netframe.Buffer.{Buffer}
use netframe.Buffer.Contents.{IsValid, contents}
use netframe.Handler.Dispatch.{Watches, nothing}
use netframe.Poller.Sync.{Legal, Tracks, Settled, Settled-Tracks}
use netframe.Connection.{
  Connection, State, disconnected, connecting, connected, disconnecting, Act, is_connecting,
}
use netframe.Connection.Told.{told}
use netframe.Connection.Watch.{pending, Inv, Inv-Tracks}
use netframe.Connection.Stream.{sent, stream}

-- What the client has been told by then.
abbrev pub history : State → List State
history connecting = []
history connected = connected ∷ []
history disconnecting = connected ∷ []
history disconnected = connected ∷ disconnected ∷ []

-- As the constructor leaves it.
pub record Fresh (c : Connection) : Type 0 where
  pub legal : Legal c.poller.calls
  pub tracked : Tracks c.handler.state c.poller c.handler
  pub valid : IsValid c.output
  pub silent : c.handler.events ≡ 0
  pub idle : pending c ≡ false
  pub quiet : c.log ≡ []

-- Closed while output waited: it waits for ever.
pub record Stuck (c : Connection) : Type 0 where
  pub legal : Legal c.poller.calls
  pub settled : Settled c.handler.state c.poller c.handler
  pub silent : c.handler.events ≡ 0
  pub waits : pending c ≡ true

abbrev pub Shape : State → Connection → Type 0
Shape connecting c = Fresh c
Shape connected c = Inv true c
Shape disconnecting c = Inv true c
Shape disconnected c = Inv false c ⊎ Stuck c

pub record Alive (p : State) (c : Connection) : Type 0 where
  pub shape : Shape p c
  pub told_so : told c.log ≡ history p

-- After a call that handed `xs` over.
pub record Next (xs : List ℕ) (c d : Connection) : Type 0 where
  pub alive : Alive d.state d
  pub streamed : stream d ≡ stream c ++ xs

pub same_Next : (c : Connection) → Alive c.state c → Next [] c c
same_Next c v = record { alive = v; streamed = sym (append-nil (stream c)) }

-- The same connection but for its input buffer, its log and its state.
abbrev pub recast : Connection → Buffer → List Act → State → Connection
recast c i l p = record c { input = i; log = l; state = p }

pub recast-Inv :
    (c : Connection) (i : Buffer) (l : List Act) (p : State) {reads : Bool}
    → Inv reads c
    → Inv reads (recast c i l p)
recast-Inv c i l p v = record {
  legal = v.legal;
  settled = v.settled;
  valid = v.valid;
  watch = v.watch;
}

recast-Stuck :
    (c : Connection) (i : Buffer) (l : List Act) (p : State) → Stuck c → Stuck (recast c i l p)
recast-Stuck c i l p v = record {
  legal = v.legal;
  settled = v.settled;
  silent = v.silent;
  waits = v.waits;
}

recast-Shape :
    (p : State) (c : Connection) (i : Buffer) (l : List Act)
    → is_connecting p ≡ false
    → Shape p c
    → Shape p (recast c i l p)
recast-Shape connecting c i l h v = cc
recast-Shape connected c i l h v = recast-Inv c i l connected v
recast-Shape disconnecting c i l h v = recast-Inv c i l disconnecting v
recast-Shape disconnected c i l h (inl v) = inl (recast-Inv c i l disconnected v)
recast-Shape disconnected c i l h (inr v) = inr (recast-Stuck c i l disconnected v)

-- A call that only reads or logs, and neither sends nor tells.
pub logged_Next :
    (c : Connection) (i : Buffer) (l : List Act)
    → is_connecting c.state ≡ false
    → told l ≡ told c.log
    → sent l ≡ sent c.log
    → Alive c.state c
    → Next [] c (record c { input = i; log = l })
logged_Next c i l h t e v = record {
  alive = record { shape = recast-Shape c.state c i l h v.shape; told_so = t ∙ v.told_so };
  streamed = ap (λ s. s ++ contents c.output) e ∙ sym (append-nil (stream c));
}

-- Every state but the first has a handler that the poller tracks.
pub Shape-Tracks :
    (p : State) (c : Connection)
    → Shape p c
    → Legal c.poller.calls × Tracks c.handler.state c.poller c.handler
Shape-Tracks connecting c v = (v.legal, v.tracked)
Shape-Tracks connected c v = (v.legal, Inv-Tracks c v)
Shape-Tracks disconnecting c v = (v.legal, Inv-Tracks c v)
Shape-Tracks disconnected c (inl v) = (v.legal, Inv-Tracks c v)
Shape-Tracks disconnected c (inr v) =
    (v.legal, Settled-Tracks c.handler.state c.poller c.handler v.settled)

-- Nothing is watched any more: over, or stuck if output waits.
pub over_Shape :
    (d : Connection)
    → Legal d.poller.calls
    → Settled d.handler.state d.poller d.handler
    → IsValid d.output
    → d.handler.events ≡ 0
    → Shape disconnected d
over_Shape d l s v e = elim (Bool-cases (pending d)) [
  | inl waits ↦ inr (record { legal = l; settled = s; silent = e; waits = waits })
  | inr idle ↦ inl (record {
    legal = l;
    settled = s;
    valid = v;
    watch = subst (Watches d.handler.events false) (sym idle) (nothing e);
  })
]
