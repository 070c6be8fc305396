-- ===== src/Connection/Events/HangUp.antt =====
-- A hang-up that comes with something to read.
use netframe.Epoll
use netframe.Base.{
  ℕ, ◌≡◌, refl, sym, ap, ◌∙◌, Bool, true, false, not, ◌&&◌, ◌||◌, List, [], ◌∷◌, ◌++◌, bit_or,
  if◌then◌else◌, Result, ok, err, assertion, append-nil, subst, arith, ok_inj, ok_of_bind,
}
use netframe.Buffer.{Buffer, Readv, read_fd}
use netframe.Buffer.Contents.{IsValid}
use netframe.Buffer.Socket.{read_fd_lem}
use netframe.Handler.{
  Handler, Callback, close, error, read, write, has, call_if, dispatch, set_revents, handle_event,
}
use netframe.Connection.{
  Connection, disconnected, Write, handle_close, handle_error, after_read, handle_read,
  is_connected, is_disconnecting,
}
use netframe.Connection.Told.{told, told-append}
use netframe.Connection.Watch.{Inv, Inv-Tracks}
use netframe.Connection.Lifecycle.{handle_close_lem}
use netframe.Connection.Events.{run_callback, run_callbacks, handle_events}

-- Whether the error callback runs, and the write callback.
abbrev failing : Handler → Bool
failing h = has h.revents (bit_or Epoll.error Epoll.invalid) && h.on_error

abbrev writes : Handler → List Callback
writes h = call_if (has h.revents Epoll.out && h.on_write) write

abbrev urgent_mask : ℕ
urgent_mask = bit_or (bit_or Epoll.in_event Epoll.pri) Epoll.rdhup

hang_up_calls :
    (h : Handler)
    → has h.revents Epoll.hup ≡ true
    → has h.revents Epoll.in_event ≡ false
    → has h.revents urgent_mask ≡ true
    → h.on_close ≡ true
    → h.on_read ≡ true
    → (handle_event h true).1 ≡ close ∷ (call_if (failing h) error ++ (read ∷ writes h))
unfolding handle_event dispatch
hang_up_calls h hup no_in urgent closes reads = called h.tied ∙ order hup no_in closes urgent reads
  where
    both : Handler × List Callback
    both = (record h { event_handling = false }, dispatch h)

    chosen : Bool → Handler × List Callback
    chosen b = if b then (if true then both else (h, [])) else both

    called : (b : Bool) → (chosen b).1 ≡ dispatch h
    called true = refl
    called false = refl

    order :
        {a b c d e : Bool}
        → a ≡ true
        → b ≡ false
        → c ≡ true
        → d ≡ true
        → e ≡ true
        → call_if ((a && not b) && c) close
            ++ (call_if (failing h) error ++ (call_if (d && e) read ++ writes h))
          ≡ close ∷ (call_if (failing h) error ++ (read ∷ writes h))
    order a b c d e = rw (a, b, c, d, e) refl

-- What is left of the callbacks after the first ones.
run_append :
    (on_message : Buffer → Result Buffer) (r : Readv) (w : ℕ → Write) (xs bs : List Callback)
    (c e : Connection)
    → run_callbacks on_message r w xs c ≡ ok e
    → run_callbacks on_message r w (xs ++ bs) c ≡ run_callbacks on_message r w bs e
unfolding run_callbacks
run_append on_message r w [] bs c e h = ap (run_callbacks on_message r w bs) (ok_inj h)
run_append on_message r w (b ∷ xs) bs c e h =
    let (d, eq, rest) =
      ok_of_bind (run_callback on_message r w b c) (run_callbacks on_message r w xs) e h in
    rw eq (run_append on_message r w xs bs d e rest)

-- A connection that is closed cannot be closed.
closed_fails : (c : Connection) → c.state ≡ disconnected → handle_close c ≡ err assertion
unfolding handle_close
closed_fails c down = rw down refl

-- A connection that is down, whose client was told so, and whose input is as it was.
pub record Down (c e : Connection) : Type 0 where
  pub state : e.state ≡ disconnected
  pub history : told e.log ≡ told c.log ++ (disconnected ∷ [])
  pub input : e.input ≡ c.input

module _ (on_message : Buffer → Result Buffer) (w : ℕ → Write) where
  -- The close callback, and the error callback if it runs.
  close_error :
      (failing : Bool) (c : Connection) {reads : Bool}
      → Inv reads c
      → (is_connected c.state || is_disconnecting c.state) ≡ true
      → (e : Connection) × (run_callbacks on_message
            (Readv.got [])
            w
            (close ∷ call_if failing error)
            c
          ≡ ok e)
        × Down c e
  unfolding run_callbacks handle_error
  close_error true c inv up =
      let (d, eq, z) = handle_close_lem c inv.legal (Inv-Tracks c inv) up in
      (
        handle_error d,
        rw eq refl,
        record {
          state = z.state;
          history = told-append d.log _ ∙ append-nil _ ∙ z.history;
          input = z.input;
        },
      )
  close_error false c inv up =
      let (d, eq, z) = handle_close_lem c inv.legal (Inv-Tracks c inv) up in
      (d, rw eq refl, record { state = z.state; history = z.history; input = z.input })

  read_fails :
      (bs : List Callback) (e : Connection) (i : Buffer)
      → read_fd e.input (Readv.got []) ≡ ok (Readv.got [], i)
      → handle_close (record e { input = i }) ≡ err assertion
      → run_callbacks on_message (Readv.got []) w (read ∷ bs) e ≡ err assertion
  unfolding run_callbacks handle_read after_read
  read_fails bs e i q again = rw q (rw again refl)

  -- On a connection in its invariant that is up, whose input buffer is valid, whose owner is alive
  -- and whose handler has its close and read callbacks: at a hang-up without EPOLLIN that comes
  -- with urgent data or the end of the peer's writing, and a read that gives nothing, the close
  -- callback, and the error callback if there is an error and it is set, run; then the connection
  -- is down and its client is told so. The read callback reads nothing and closes the connection
  -- again, which fails the assertion of `handleClose`, and with it `handleEvent`.
  pub handle_events_hang_up :
      (c : Connection) (revents : ℕ) {reads : Bool}
      → Inv reads c
      → (is_connected c.state || is_disconnecting c.state) ≡ true
      → IsValid c.input
      → has revents Epoll.hup ≡ true
      → has revents Epoll.in_event ≡ false
      → has revents (bit_or (bit_or Epoll.in_event Epoll.pri) Epoll.rdhup) ≡ true
      → c.handler.on_close ≡ true
      → c.handler.on_read ≡ true
      → (e : Connection) × (i : Buffer) × (run_callbacks on_message
            (Readv.got [])
            w
            (close
              ∷ call_if
                  (has revents (bit_or Epoll.error Epoll.invalid) && c.handler.on_error)
                  error)
            c
          ≡ ok e)
        × Down c e
        × (read_fd e.input (Readv.got []) ≡ ok (Readv.got [], i))
        × (handle_close (record e { input = i }) ≡ err assertion)
        × (handle_events on_message (Readv.got []) w true revents c ≡ err assertion)
  unfolding handle_events
  handle_events_hang_up c revents inv up valid hup no_in urgent closes reads =
      let (e, eq, z) = close_error (failing h) c inv up in
      let (i, got_none, _) =
        read_fd_lem e.input [] (subst IsValid (sym z.input) valid) (omega arith)
          (omega (arith, (subst IsValid (sym z.input) valid).small)) in
      let again = closed_fails (record e { input = i }) z.state in
      (
        e,
        i,
        eq,
        z,
        got_none,
        again,
        ap (λ bs. run_callbacks on_message (Readv.got []) w bs c)
              (hang_up_calls h hup no_in urgent closes reads)
            ∙ run_append on_message (Readv.got []) w (close ∷ call_if (failing h) error)
                (read ∷ writes h) c e eq
            ∙ read_fails (writes h) e i got_none again,
      )
    where
      h : Handler
      h = set_revents c.handler revents
