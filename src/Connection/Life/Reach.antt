-- ===== src/Connection/Life/Reach.antt =====
-- Every life of a connection, from the constructor on.
use netframe.Base.{
  ℕ, ◌≡◌, refl, ap, subst, ◌∙◌, Bool, true, false, ◌||◌, ◌⊎◌, [], ◌∷◌, length-replicate, none, some,
  arith, if◌then◌else◌, Result,
}
use netframe.Buffer
use netframe.Buffer.{Buffer}
use netframe.Buffer.Contents.{IsValid}
use netframe.Handler
use netframe.Handler.{Handler, new, added, deleted}
use netframe.Handler.Dispatch.{Watches, reading, both}
use netframe.Poller.{Poller, lookup}
use netframe.Poller.Sync.{Legal, Settled, watched}
use netframe.Connection.{
  Connection, State, disconnected, connecting, connected, disconnecting, is_connected,
  is_disconnecting,
}
use netframe.Connection.Told.{told}
use netframe.Connection.Watch.{pending, Inv}
use netframe.Connection.Stream.{stream}
use netframe.Connection.Life.{Life, start, Step}
use netframe.Connection.Life.Shape.{history, Shape}
use netframe.Connection.Life.Steps.{Gone, Phase, InvLife, Phase-Alive, Step-InvLife}

-- The handler that watches is the one that the kernel has.
pub watched_up :
    (c : Connection)
    → Inv true c
    → watched c.poller.calls c.handler.fd ≡ some (if pending c then 7 else 3)
watched_up c v = go c.handler.state (pending c) v.settled v.watch
  where
    go :
        (p : Handler.State) (b : Bool)
        → Settled p c.poller c.handler
        → Watches c.handler.events true b
        → watched c.poller.calls c.handler.fd ≡ some (if b then 7 else 3)
    go new b z w = absurd z
    go added false z (reading e) = z.1 ∙ ap some e
    go added true z (both e) = z.1 ∙ ap some e
    go deleted false z (reading e) = ground arith
    go deleted true z (both e) = ground arith

pub up_Inv :
    (p : State) (c : Connection)
    → (is_connected p || is_disconnecting p) ≡ true
    → Shape p c
    → Inv true c
up_Inv connecting c h v = cc
up_Inv connected c h v = v
up_Inv disconnecting c h v = v
up_Inv disconnected c h v = cc

pub new-IsValid : IsValid Buffer.new
new-IsValid = omega (arith, length-replicate {A = ℕ} 1032 0)

module _ (on_message : Buffer → Result Buffer) where
  -- The connection is made on a descriptor that the poller does not know.
  pub data Reach (id sockfd : ℕ) (poller : Poller) (cb : Bool) : Life → Type 0 where
    here :
        Legal poller.calls
        → lookup sockfd poller.handlermap ≡ none
        → watched poller.calls sockfd ≡ none
        → Reach id sockfd poller cb (start id sockfd poller cb)
    next :
        {s t : Life}
        → Reach id sockfd poller cb s
        → Step on_message s t
        → Reach id sockfd poller cb t

  module _ {id sockfd : ℕ} {poller : Poller} {cb : Bool} where
    pub Reach-InvLife : {s : Life} → Reach id sockfd poller cb s → InvLife s
    Reach-InvLife (here l m w) = record {
      phase = record {
        shape = record {
          legal = l;
          tracked = (m, w);
          valid = new-IsValid;
          silent = refl;
          idle = refl;
          quiet = refl;
        };
        told_so = refl;
      };
      streamed = refl;
    }
    Reach-InvLife (next r st) = Step-InvLife on_message st (Reach-InvLife r)

    -- Whatever calls are made on a connection, in whatever order, and whatever the system calls
    -- return, as long as no assertion fails: what the kernel took, followed by the output buffer,
    -- is exactly the messages that reached `sendInLoop`, in their order; also after a close.
    pub life_stream : {s : Life} → Reach id sockfd poller cb s → stream s.conn ≡ s.handed
    life_stream r = (Reach-InvLife r).streamed

    -- Whatever calls are made on a connection, in whatever order, as long as no assertion fails and
    -- the server has not destroyed it: from its establishment to its close the kernel watches the
    -- descriptor for reading, and for writing exactly while output waits.
    pub life_watch :
        {s : Life}
        → Reach id sockfd poller cb s
        → s.gone ≡ false
        → (is_connected s.conn.state || is_disconnecting s.conn.state) ≡ true
        → watched s.conn.poller.calls s.conn.handler.fd ≡ some (if pending s.conn then 7 else 3)
    life_watch {s} r g up =
        watched_up s.conn (up_Inv s.conn.state s.conn up (Phase-Alive s g (Reach-InvLife r)).shape)

    -- Whatever calls are made on a connection, in whatever order, as long as no assertion fails and
    -- the server has not destroyed it: the client has been told that it is up once it is
    -- established, that it is down once it is closed, and nothing else.
    pub life_told :
        {s : Life}
        → Reach id sockfd poller cb s
        → s.gone ≡ false
        → told s.conn.log ≡ history s.conn.state
    life_told {s} r g = (Phase-Alive s g (Reach-InvLife r)).told_so

    -- Whatever calls were made on a connection, in whatever order, without a failed assertion, once
    -- the server has destroyed it: neither the poller's map nor the kernel has its descriptor, and
    -- the client was told that it was up, and then once or twice that it is down.
    pub life_gone :
        {s : Life}
        → Reach id sockfd poller cb s
        → s.gone ≡ true
        → (lookup s.conn.handler.fd s.conn.poller.handlermap ≡ none)
          × (watched s.conn.poller.calls s.conn.handler.fd ≡ none)
          × ((told s.conn.log ≡ connected ∷ disconnected ∷ [])
              ⊎ (told s.conn.log ≡ connected ∷ disconnected ∷ disconnected ∷ []))
    life_gone {s} r g =
        let z : Gone s.conn = subst (λ b. Phase b s.conn) g (Reach-InvLife r).phase in
        (z.unmapped, z.unwatched, z.told_so)
