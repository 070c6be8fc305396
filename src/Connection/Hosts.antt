-- ===== src/Connection/Hosts.antt =====
-- Any number of connections on one loop: they share its poller with one another and with the other
-- handlers of the loop.
pub mod Apart
pub mod Streams
use netframe.Base.{ℕ, ◌≡◌, Bool, true, false, ◌⊎◌, List, [], ◌∷◌, none, ◌==◌, Result}
use netframe.Buffer.{Buffer}
use netframe.Poller.{Poller, lookup}
use netframe.Poller.Sync.{Legal, Frame, watched}
use netframe.Connection.{Connection}
use netframe.Connection.Life.{Life, start, Step}

-- The connection with the poller of its loop as it is now.
abbrev pub at_poller : Poller → Life → Life
at_poller p s = record s { conn = record (s.conn) { poller = p } }

-- Destroyed, or on another descriptor.
abbrev pub Unlike : ℕ → Life → Type 0
Unlike fd s = (s.gone ≡ true) ⊎ ((s.conn.handler.fd == fd) ≡ false)

abbrev pub AllUnlike : ℕ → List Life → Type 0
AllUnlike fd [] = Unit
AllUnlike fd (s ∷ l) = Unlike fd s × AllUnlike fd l

module _ (on_message : Buffer → Result Buffer) where
  -- One of the connections takes a step, and leaves the poller changed.
  pub data Moves (p q : Poller) : List Life → List Life → Type 0 where
    first :
        {s t : Life} {l : List Life}
        → Step on_message (at_poller p s) t
        → t.conn.poller ≡ q
        → Moves p q (s ∷ l) (t ∷ l)
    later : {s : Life} {l m : List Life} → Moves p q l m → Moves p q (s ∷ l) (s ∷ m)

  -- A new connection comes on a descriptor that nobody uses; another handler of the loop, such as
  -- the acceptor's, is updated on its own descriptor.
  pub data Hosted : Poller → List Life → Type 0 where
    nobody : {p : Poller} → Legal p.calls → Hosted p []
    joins :
        {p : Poller} {l : List Life} (id sockfd : ℕ) (cb : Bool)
        → Hosted p l
        → lookup sockfd p.handlermap ≡ none
        → watched p.calls sockfd ≡ none
        → AllUnlike sockfd l
        → Hosted p (start id sockfd p cb ∷ l)
    moves : {p q : Poller} {l m : List Life} → Hosted p l → Moves p q l m → Hosted q m
    others :
        {p q : Poller} {l : List Life} (fd : ℕ)
        → Hosted p l
        → AllUnlike fd l
        → Frame fd p q
        → Legal q.calls
        → Hosted q l
