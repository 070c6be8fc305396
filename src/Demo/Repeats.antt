-- ===== src/Demo/Repeats.antt =====
-- What a client of `test_TcpServer` receives.
use netframe.Base.{
  ℕ, zero, suc, ◌+◌, ◌≤◌, ◌≡◌, refl, sym, ap, subst, ◌∙◌, Bool, true, false, inl, inr, Bool-cases,
  List, [], ◌++◌, length, append_assoc, append-nil, get_elem?, none, some, ok, ok_inj,
  if◌then◌else◌, arith,
}
use netframe.Buffer.{readable_bytes, Readv}
use netframe.Poller.{Poller, lookup}
use netframe.Poller.Sync.{Legal, watched}
use netframe.Connection.{
  Connection, Write, failed, write_complete, send, connection_established, connection_destroyed,
  handle_read, handle_write, handle_close, handle_error, is_connected, is_connecting,
}
use netframe.Connection.Stream.{stream}
use netframe.Connection.Life
use netframe.Connection.Life.{Life, start, queued, Takes, Room}
use netframe.Connection.Life.Begins.{connection_established-stream}
use netframe.Connection.Life.Steps.{Phase-Alive}
use netframe.Connection.Life.Reach
use netframe.Connection.Life.Reach.{life_stream}
use netframe.Demo.{message, on_connection, on_write_complete, on_message}

-- So many messages in a row.
abbrev pub copies : ℕ → List ℕ
copies zero = []
copies (suc n) = message ++ copies n

-- The message, if the connection takes it.
abbrev pub taken : Connection → List ℕ
taken c = if is_connected c.state then message else []

-- A call of the connection, with the client's callbacks run where the code runs them: the first one
-- at the end of `connectionEstablished`, the second one as the functor of a completed write.
pub data Step (s : Life) : Life → Type 0 where
  established :
      (c d : Connection) (w : Write)
      → s.gone ≡ false
      → connection_established s.conn ≡ ok c
      → Takes w (length message)
      → Room c message
      → on_connection c w ≡ ok d
      → Step s (record s { conn = d; handed = s.handed ++ taken c })
  completes :
      (w : Write) (d : Connection)
      → s.gone ≡ false
      → get_elem? (queued s.conn.log) s.ran ≡ some write_complete
      → Takes w (length message)
      → Room s.conn message
      → on_write_complete s.conn w ≡ ok d
      → Step s (record s { conn = d; ran = s.ran + 1; handed = s.handed ++ taken s.conn })
  reads :
      (r : Readv) (d : Connection)
      → s.gone ≡ false
      → is_connecting s.conn.state ≡ false
      → handle_read on_message s.conn r ≡ ok d
      → Step s (record s { conn = d })
  writes :
      (w : Write) (d : Connection)
      → s.gone ≡ false
      → is_connecting s.conn.state ≡ false
      → Takes w (readable_bytes s.conn.output)
      → handle_write s.conn w ≡ ok d
      → Step s (record s { conn = d })
  closes :
      (d : Connection)
      → s.gone ≡ false
      → handle_close s.conn ≡ ok d
      → Step s (record s { conn = d })
  fails :
      s.gone ≡ false
      → is_connecting s.conn.state ≡ false
      → Step s (record s { conn = handle_error s.conn })
  destroyed :
      (d : Connection)
      → s.gone ≡ false
      → is_connecting s.conn.state ≡ false
      → connection_destroyed s.conn ≡ ok d
      → Step s (record s { conn = d; gone = true })

pub data Served (id sockfd : ℕ) (poller : Poller) : Life → Type 0 where
  here :
      Legal poller.calls
      → lookup sockfd poller.handlermap ≡ none
      → watched poller.calls sockfd ≡ none
      → Served id sockfd poller (start id sockfd poller true)
  next : {s t : Life} → Served id sockfd poller s → Step s t → Served id sockfd poller t

copies-append : (k : ℕ) → copies k ++ message ≡ copies (suc k)
copies-append zero = refl
copies-append (suc k) =
    append_assoc message (copies k) message ∙ ap (λ xs. message ++ xs) (copies-append k)

-- One more message, if the connection takes it.
more : (c : Connection) (k : ℕ) → (j : ℕ) × (copies k ++ taken c ≡ copies j) × (j ≤ k + 1)
more c k = go (is_connected c.state)
  where
    go : (b : Bool) → (j : ℕ) × (copies k ++ (if b then message else []) ≡ copies j) × (j ≤ k + 1)
    go true = (suc k, copies-append k, omega arith)
    go false = (k, append-nil (copies k), omega arith)

sent :
    (c d : Connection) (w : Write)
    → is_connected c.state ≡ true
    → on_connection c w ≡ send c true message w
unfolding on_connection
sent c d w up = ap (λ b. if b then send c true message w else ok c) up

silent : (c : Connection) (w : Write) → is_connected c.state ≡ false → on_connection c w ≡ ok c
unfolding on_connection
silent c w down = ap (λ b. if b then send c true message w else ok c) down

module _ (id sockfd : ℕ) (poller : Poller) where
  abbrev Lived : Life → Type 0
  Lived s = Reach.Reach on_message id sockfd poller true s

  step_Lived : {s t : Life} → Step s t → Lived s → Lived t
  unfolding on_write_complete
  step_Lived {s} (established c d w g e t r k) v = elim (Bool-cases (is_connected c.state)) [
    | inl up ↦ Reach.next known (Life.sends message w d g t r (sym (sent c d w up) ∙ k))
    | inr down ↦
        subst (λ xs. Lived (record s { conn = d; handed = xs }))
          (sym (append-nil s.handed) ∙ ap (λ b. s.handed ++ (if b then message else [])) (sym down))
          (subst (λ c'. Lived (record s { conn = c' })) (ok_inj (sym (silent c w down) ∙ k)) known)
  ]
    where
      known : Lived (record s { conn = c })
      known = Reach.next v (Life.established c g e)
  step_Lived {s} (completes w d g q t r e) v =
      subst (λ xs. Lived (record s { conn = d; ran = s.ran + 1; handed = xs ++ taken s.conn }))
        (append-nil s.handed)
        (Reach.next
          (Reach.next v (Life.runs write_complete (failed 0) s.conn g q tt (omega (arith, r)) refl))
          (Life.sends message w d g t r e))
  step_Lived (reads r d g h e) v = Reach.next v (Life.reads r d g h e)
  step_Lived (writes w d g h t e) v = Reach.next v (Life.writes w d g h t e)
  step_Lived (closes d g e) v = Reach.next v (Life.closes d g e)
  step_Lived (fails g h) v = Reach.next v (Life.fails g h)
  step_Lived (destroyed d g h e) v = Reach.next v (Life.destroyed d g h e)

  Served-Lived : {s : Life} → Served id sockfd poller s → Lived s
  Served-Lived (here l m w) = Reach.here l m w
  Served-Lived (next r st) = step_Lived st (Served-Lived r)

  -- So many messages were handed over: at most one for each completed write, and the first one.
  abbrev Copied : Life → Type 0
  Copied s = (k : ℕ) × (s.handed ≡ copies k) × (k ≤ s.ran + 1)

  step_Copied : {s t : Life} → Step s t → Lived s → Copied s → Copied t
  step_Copied {s} (established c d w g e t r q) v z =
      let inv = Reach.Reach-InvLife on_message v in
      let none' : s.handed ≡ [] =
        sym inv.streamed ∙ connection_established-stream s.conn c (Phase-Alive s g inv) e in
      let (j, eq, h) = more c 0 in (j, ap (λ xs. xs ++ taken c) none' ∙ eq, omega (arith, h))
  step_Copied {s} (completes w d g q t r e) v (k, same, h) =
      let (j, eq, h') = more s.conn k in
      (j, ap (λ xs. xs ++ taken s.conn) same ∙ eq, omega (arith, h, h'))
  step_Copied (reads r d g h e) v z = z
  step_Copied (writes w d g h t e) v z = z
  step_Copied (closes d g e) v z = z
  step_Copied (fails g h) v z = z
  step_Copied (destroyed d g h e) v z = z

  Served-Copied : {s : Life} → Served id sockfd poller s → Copied s
  Served-Copied (here l m w) = (0, refl, omega arith)
  Served-Copied (next r st) = step_Copied st (Served-Lived r) (Served-Copied r)

  -- However long a connection of `test_TcpServer` is served, and whatever the system calls return,
  -- as long as no assertion fails: what the kernel took, followed by the output buffer, is the
  -- message of `test_TcpServer`, whole, some number of times in a row, which is at most one more
  -- than the number of completed writes that the client was told of.
  pub Served-stream :
      {s : Life}
      → Served id sockfd poller s
      → (k : ℕ) × (stream s.conn ≡ copies k) × (k ≤ s.ran + 1)
  Served-stream r =
      let (k, same, h) = Served-Copied r in (k, life_stream on_message (Served-Lived r) ∙ same, h)
