-- ===== src/Connection/Life/Steps.antt =====
-- Each step of a life keeps the connection in shape.
use netframe.Base.{
  ℕ, ◌+◌, ◌≡◌, refl, sym, ap, ap₂, subst, ◌∙◌, Bool, true, false, ◌⊎◌, inl, inr, List, [], ◌∷◌,
  ◌++◌, append-nil, get_elem?, none, some, if◌then◌else◌, Result, ok, ok_inj,
}
use netframe.Buffer.{Buffer}
use netframe.Buffer.Contents.{contents}
use netframe.Poller.{lookup}
use netframe.Poller.Sync.{watched}
use netframe.Connection.{
  Connection, State, Task, disconnected, connecting, connected, disconnecting, send_later,
  write_complete, shutdown_later, is_connected, is_connecting, connection_destroyed, handle_error,
  shutdown,
}
use netframe.Connection.Told.{told}
use netframe.Connection.Stream.{stream}
use netframe.Connection.Lifecycle.{Destroyed, connection_destroyed_lem}
use netframe.Connection.Life.{
  Life, queued, Step, established, sends, sends_elsewhere, runs, shuts_down, reads, writes, closes,
  fails, destroyed,
}
use netframe.Connection.Life.Shape.{history, Alive, Next, same_Next, Shape-Tracks}
use netframe.Connection.Life.Begins.{connection_established-Next}
use netframe.Connection.Life.Calls.{
  send-Next, send_elsewhere_Next, send_in_loop-Next, shutdown-Next, shutdown_in_loop-Next,
}
use netframe.Connection.Life.Ends.{
  handle_read-Next, handle_write-Next, handle_close-Next, handle_error-Next,
}

-- After `connectionDestroyed`: the poller has nothing on the descriptor, and the client was told
-- once or twice that the connection is down.
pub record Gone (c : Connection) : Type 0 where
  pub unmapped : lookup c.handler.fd c.poller.handlermap ≡ none
  pub unwatched : watched c.poller.calls c.handler.fd ≡ none
  pub told_so :
      (told c.log ≡ connected ∷ disconnected ∷ [])
      ⊎ (told c.log ≡ connected ∷ disconnected ∷ disconnected ∷ [])

abbrev pub Phase : Bool → Connection → Type 0
Phase false c = Alive c.state c
Phase true c = Gone c

pub record InvLife (s : Life) : Type 0 where
  pub phase : Phase s.gone s.conn
  pub streamed : stream s.conn ≡ s.handed

destroyed_told :
    (c : Connection) (e : Connection)
    → is_connecting c.state ≡ false
    → Alive c.state c
    → told e.log ≡ told c.log ++ (disconnected ∷ [])
    → (told e.log ≡ connected ∷ disconnected ∷ [])
      ⊎ (told e.log ≡ connected ∷ disconnected ∷ disconnected ∷ [])
destroyed_told c e h v so = go c.state refl v.told_so
  where
    go :
        (p : State)
        → c.state ≡ p
        → told c.log ≡ history p
        → (told e.log ≡ connected ∷ disconnected ∷ [])
          ⊎ (told e.log ≡ connected ∷ disconnected ∷ disconnected ∷ [])
    go connecting q a = cc (ap is_connecting q)
    go connected q a = inl (so ∙ ap (λ l. l ++ (disconnected ∷ [])) a)
    go disconnecting q a = inl (so ∙ ap (λ l. l ++ (disconnected ∷ [])) a)
    go disconnected q a = inr (so ∙ ap (λ l. l ++ (disconnected ∷ [])) a)

pub Phase-Alive : (s : Life) → s.gone ≡ false → InvLife s → Alive s.conn.state s.conn
Phase-Alive s g v = subst (λ b. Phase b s.conn) g v.phase

step_to :
    (s : Life) (d : Connection) (ran : ℕ) (xs : List ℕ)
    → s.gone ≡ false
    → InvLife s
    → Next xs s.conn d
    → InvLife (record { conn = d; ran = ran; handed = s.handed ++ xs; gone = s.gone })
step_to s d ran xs g v z = record {
  phase = subst (λ b. Phase b d) (sym g) z.alive;
  streamed = z.streamed ∙ ap (λ l. l ++ xs) v.streamed;
}

step_on :
    (s : Life) (d : Connection)
    → s.gone ≡ false
    → InvLife s
    → Next [] s.conn d
    → InvLife (record s { conn = d })
step_on s d g v z = record {
  phase = subst (λ b. Phase b d) (sym g) z.alive;
  streamed = z.streamed ∙ append-nil _ ∙ v.streamed;
}

-- Before the connection is established nothing has been queued.
run_established :
    (c : Connection) (n : ℕ) (t : Task)
    → Alive c.state c
    → get_elem? (queued c.log) n ≡ some t
    → is_connecting c.state ≡ false
run_established c n t v e = go c.state refl v
  where
    go : (p : State) → c.state ≡ p → Alive p c → is_connecting p ≡ false
    go connecting q a = cc (ap (λ l. get_elem? (queued l) n) (a.shape.quiet))
    go connected q a = refl
    go disconnecting q a = refl
    go disconnected q a = refl

pub connection_destroyed-Destroyed :
    (c d : Connection) → Alive c.state c → connection_destroyed c ≡ ok d → Destroyed c d
connection_destroyed-Destroyed c d v e =
    let t = Shape-Tracks c.state c v.shape in
    let (d', eq, z) = connection_destroyed_lem c t.0 t.1 in
    subst (Destroyed c) (ok_inj (sym eq ∙ e)) z

destroyed_Gone :
    (c d : Connection)
    → is_connecting c.state ≡ false
    → Alive c.state c
    → connection_destroyed c ≡ ok d
    → Gone d
destroyed_Gone c d h v e =
    let z = connection_destroyed-Destroyed c d v e in
    record {
      unmapped = subst (λ n. lookup n d.poller.handlermap ≡ none) (sym z.same_fd) z.unmapped;
      unwatched = subst (λ n. watched d.poller.calls n ≡ none) (sym z.same_fd) z.unwatched;
      told_so = destroyed_told c d h v z.history;
    }

destroyed_stream :
    (c d : Connection) → Alive c.state c → connection_destroyed c ≡ ok d → stream d ≡ stream c
destroyed_stream c d v e =
    let z = connection_destroyed-Destroyed c d v e in ap₂ (λ l o. l ++ contents o) z.same z.output

module _ (on_message : Buffer → Result Buffer) where
  pub Step-InvLife : {s t : Life} → Step on_message s t → InvLife s → InvLife t
  Step-InvLife {s} (established d g e) v =
      step_on s d g v (connection_established-Next s.conn d (Phase-Alive s g v) e)
  Step-InvLife {s} (sends xs w d g t r e) v =
      step_to s d s.ran (if is_connected s.conn.state then xs else []) g v
        (send-Next s.conn d xs w (Phase-Alive s g v) t r e)
  Step-InvLife {s} (sends_elsewhere xs w d g e) v =
      step_on s d g v (send_elsewhere_Next s.conn d xs w (Phase-Alive s g v) e)
  Step-InvLife {s} (runs write_complete w d g q t r e) v =
      step_to s d (s.ran + 1) [] g v
        (subst (Next [] s.conn) (ok_inj e) (same_Next s.conn (Phase-Alive s g v)))
  Step-InvLife {s} (runs (send_later xs) w d g q t r e) v =
      let a = Phase-Alive s g v in
      step_to s d (s.ran + 1) xs g v
        (send_in_loop-Next s.conn d xs w (run_established s.conn s.ran (send_later xs) a q) a t r e)
  Step-InvLife {s} (runs shutdown_later w d g q t r e) v =
      let a = Phase-Alive s g v in
      step_to s d (s.ran + 1) [] g v (
        subst (Next [] s.conn) (ok_inj e)
          (shutdown_in_loop-Next s.conn (run_established s.conn s.ran shutdown_later a q) a))
  Step-InvLife {s} (shuts_down in_loop g) v =
      step_on s (shutdown s.conn in_loop) g v (shutdown-Next s.conn in_loop (Phase-Alive s g v))
  Step-InvLife {s} (reads r d g h e) v =
      step_on s d g v (handle_read-Next on_message s.conn d r h (Phase-Alive s g v) e)
  Step-InvLife {s} (writes w d g h t e) v =
      step_on s d g v (handle_write-Next s.conn d w h (Phase-Alive s g v) t e)
  Step-InvLife {s} (closes d g e) v =
      step_on s d g v (handle_close-Next s.conn d (Phase-Alive s g v) e)
  Step-InvLife {s} (fails g h) v =
      step_on s (handle_error s.conn) g v (handle_error-Next s.conn h (Phase-Alive s g v))
  Step-InvLife {s} (destroyed d g h e) v = record {
    phase = destroyed_Gone s.conn d h (Phase-Alive s g v) e;
    streamed = (destroyed_stream s.conn d (Phase-Alive s g v) e) ∙ v.streamed;
  }
