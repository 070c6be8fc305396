-- ===== src/Connection/Hosts/Apart.antt =====
-- Connections of one loop do not disturb one another.
use netframe.Base.{
  ℕ, ◌≡◌, sym, subst, ◌∙◌, Bool, true, false, inl, inr, ◌==◌, Result, ok, arith, ok_inj,
}
use netframe.Buffer.{Buffer}
use netframe.Handler
use netframe.Handler.{Handler}
use netframe.Poller.{Poller, lookup}
use netframe.Poller.Sync.{Legal, Frame, watched, Tracks, Settled}
use netframe.Connection.{
  Connection, State, Task, Write, disconnected, connecting, connected, disconnecting, send_later,
  write_complete, shutdown_later,
}
use netframe.Connection.Local.{
  Local, connection_established-Local, handle_close-Local, connection_destroyed-Local,
  shutdown_in_loop-Local, shutdown-Local, send_in_loop-Local, send-Local, handle_write-Local,
  handle_error-Local, handle_read-Local, Local-refl,
}
use netframe.Connection.Watch.{Inv}
use netframe.Connection.Stream.{stream}
use netframe.Connection.Life.{
  Life, exec, Step, established, sends, sends_elsewhere, runs, shuts_down, reads, writes, closes,
  fails, destroyed,
}
use netframe.Connection.Life.Shape.{Shape, Alive, Shape-Tracks}
use netframe.Connection.Life.Steps.{
  InvLife, Phase, Phase-Alive, Step-InvLife, connection_destroyed-Destroyed,
}
use netframe.Connection.Hosts.{at_poller, Unlike}

-- A connection sees of the poller what it has on the connection's own descriptor.
module _ (p q : Poller) (h : Handler) (map : lookup h.fd q.handlermap ≡ lookup h.fd p.handlermap)
    (list : watched q.calls h.fd ≡ watched p.calls h.fd) where
  Tracks-seen : (s : Handler.State) → Tracks s p h → Tracks s q h
  Tracks-seen Handler.new t = (map ∙ t.0, list ∙ t.1)
  Tracks-seen Handler.added t = (map ∙ t.0, (t.1.0, list ∙ t.1.1))
  Tracks-seen Handler.deleted t = (map ∙ t.0, list ∙ t.1)

  Settled-seen : (s : Handler.State) → Settled s p h → Settled s q h
  Settled-seen Handler.new t = t
  Settled-seen Handler.added t = (map ∙ t.0, list ∙ t.1)
  Settled-seen Handler.deleted t = (map ∙ t.0, list ∙ t.1, t.2)

module _ (c : Connection) (q : Poller) (legal : Legal q.calls)
    (map : lookup c.handler.fd q.handlermap ≡ lookup c.handler.fd c.poller.handlermap)
    (list : watched q.calls c.handler.fd ≡ watched c.poller.calls c.handler.fd) where
  Inv-seen : {reads : Bool} → Inv reads c → Inv reads (record c { poller = q })
  Inv-seen v = record {
    legal = legal;
    settled = Settled-seen c.poller q c.handler map list c.handler.state v.settled;
    valid = v.valid;
    watch = v.watch;
  }

  Shape-seen : (s : State) → Shape s c → Shape s (record c { poller = q })
  Shape-seen connecting v = record {
    legal = legal;
    tracked = Tracks-seen c.poller q c.handler map list c.handler.state v.tracked;
    valid = v.valid;
    silent = v.silent;
    idle = v.idle;
    quiet = v.quiet;
  }
  Shape-seen connected v = Inv-seen v
  Shape-seen disconnecting v = Inv-seen v
  Shape-seen disconnected (inl v) = inl (Inv-seen v)
  Shape-seen disconnected (inr v) = inr (record {
    legal = legal;
    settled = Settled-seen c.poller q c.handler map list c.handler.state v.settled;
    silent = v.silent;
    waits = v.waits;
  })

-- What holds of each connection on its loop's poller.
abbrev pub Sound : Bool → Poller → Life → Type 0
Sound false p s = Alive s.conn.state (record (s.conn) { poller = p })
Sound true p s = Unit

pub record Good (p : Poller) (s : Life) : Type 0 where
  pub sound : Sound s.gone p s
  pub streamed : stream s.conn ≡ s.handed

pub Good-InvLife : (p : Poller) (s : Life) → s.gone ≡ false → Good p s → InvLife (at_poller p s)
Good-InvLife p s g v = record {
  phase =
      subst (λ b. Phase b (record (s.conn) { poller = p })) (sym g)
        (subst (λ b. Sound b p s) g v.sound);
  streamed = v.streamed;
}

-- The others change the poller on their own descriptors.
pub Good-seen :
    (fd : ℕ) (p q : Poller) (s : Life)
    → Legal q.calls
    → Frame fd p q
    → Unlike fd s
    → Good p s
    → Good q s
Good-seen fd p q s l f (inl over) v = record {
  sound = subst (λ b. Sound b q s) (sym over) tt;
  streamed = v.streamed;
}
Good-seen fd p q s l f (inr ne) v = record { sound = go s.gone v.sound; streamed = v.streamed }
  where
    far : (fd == s.conn.handler.fd) ≡ false
    far = ground arith

    go : (b : Bool) → Sound b p s → Sound b q s
    go true z = tt
    go false z = record {
      shape =
          Shape-seen (record (s.conn) { poller = p }) q l (f s.conn.handler.fd far).0
            (f s.conn.handler.fd far).1 s.conn.state z.shape;
      told_so = z.told_so;
    }

exec-Local : (t : Task) (c d : Connection) (w : Write) → exec t c w ≡ ok d → Local c d
exec-Local write_complete c d w e = subst (Local c) (ok_inj e) (Local-refl c)
exec-Local (send_later xs) c d w e = send_in_loop-Local c d xs w e
exec-Local shutdown_later c d w e = subst (Local c) (ok_inj e) (shutdown_in_loop-Local c)

-- What a step gives the others: it keeps to its own descriptor.
pub record Keeps (s t : Life) : Type 0 where
  pub own : Local s.conn t.conn
  pub legal : Legal t.conn.poller.calls

Legal-of : (s : Life) → s.gone ≡ false → InvLife s → Legal s.conn.poller.calls
Legal-of s g v = (Shape-Tracks s.conn.state s.conn (Phase-Alive s g v).shape).0

module _ (on_message : Buffer → Result Buffer) where
  -- A connection that is destroyed takes no step.
  pub Step-alive : {s t : Life} → Step on_message s t → s.gone ≡ false
  Step-alive (established d g e) = g
  Step-alive (sends xs w d g t r e) = g
  Step-alive (sends_elsewhere xs w d g e) = g
  Step-alive (runs t w d g q k r e) = g
  Step-alive (shuts_down in_loop g) = g
  Step-alive (reads r d g h e) = g
  Step-alive (writes w d g h t e) = g
  Step-alive (closes d g e) = g
  Step-alive (fails g h) = g
  Step-alive (destroyed d g h e) = g

  pub Step-Keeps : {s t : Life} → Step on_message s t → InvLife s → Keeps s t
  Step-Keeps {s} (established d g e) v = record {
    own = connection_established-Local s.conn d e;
    legal = Legal-of (record s { conn = d }) g (Step-InvLife on_message (established d g e) v);
  }
  Step-Keeps {s} (sends xs w d g t r e) v = record {
    own = send-Local s.conn d true xs w e;
    legal = Legal-of _ g (Step-InvLife on_message (sends xs w d g t r e) v);
  }
  Step-Keeps {s} (sends_elsewhere xs w d g e) v = record {
    own = send-Local s.conn d false xs w e;
    legal = Legal-of _ g (Step-InvLife on_message (sends_elsewhere xs w d g e) v);
  }
  Step-Keeps {s} (runs t w d g q k r e) v = record {
    own = exec-Local t s.conn d w e;
    legal = Legal-of _ g (Step-InvLife on_message (runs t w d g q k r e) v);
  }
  Step-Keeps {s} (shuts_down in_loop g) v = record {
    own = shutdown-Local s.conn in_loop;
    legal = Legal-of _ g (Step-InvLife on_message (shuts_down in_loop g) v);
  }
  Step-Keeps {s} (reads r d g h e) v = record {
    own = handle_read-Local on_message s.conn d r e;
    legal = Legal-of _ g (Step-InvLife on_message (reads r d g h e) v);
  }
  Step-Keeps {s} (writes w d g h t e) v = record {
    own = handle_write-Local s.conn d w e;
    legal = Legal-of _ g (Step-InvLife on_message (writes w d g h t e) v);
  }
  Step-Keeps {s} (closes d g e) v = record {
    own = handle_close-Local s.conn d e;
    legal = Legal-of _ g (Step-InvLife on_message (closes d g e) v);
  }
  Step-Keeps {s} (fails g h) v = record {
    own = handle_error-Local s.conn;
    legal = Legal-of _ g (Step-InvLife on_message (fails g h) v);
  }
  Step-Keeps {s} (destroyed d g h e) v = record {
    own = connection_destroyed-Local s.conn d e;
    legal = (connection_destroyed-Destroyed s.conn d (Phase-Alive s g v) e).legal;
  }
