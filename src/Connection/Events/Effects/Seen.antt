-- ===== src/Connection/Events/Effects/Seen.antt =====
-- One event, seen by the connection's owner, its client and the kernel.
use netframe.Epoll
use netframe.Base.{ℕ, ◌+◌, ◌≤◌, ◌≡◌, refl, ap, Bool, true, false, [], ◌∷◌, Result, ok, arith}
use netframe.Buffer.{Buffer, Readv}
use netframe.Handler.{has}
use netframe.Poller.{Poller}
use netframe.Connection.{Connection, Write, is_connecting}
use netframe.Connection.Life.{Life, Takes}
use netframe.Connection.Life.Reach.{Reach}
use netframe.Connection.Events.Steps.{handle_events-Reach}
use netframe.Connection.Events.{handle_events}
use netframe.Connection.Events.Effects.{
  only_if, hangs_up, errs, readable, tally, is_close, is_error, is_message, is_write, at_end,
  read_fails, gives_bytes,
}
use netframe.Connection.Events.Effects.Weights.{Weighs, read_gain}
use netframe.Connection.Events.Effects.Sums.{event_weighs}

-- One event of an established connection whose owner is alive and whose handler has all its
-- callbacks, when `readv` returns `r`, a write takes no more than it is given and no assertion
-- fails. The connection is after it as in some life of calls. Its owner is told to close once for a
-- hang-up without EPOLLIN, and once more if a readable event finds the end of the input; the error
-- of the socket is asked for once for EPOLLERR or POLLNVAL, and once more if a readable event finds
-- a failing `readv`; the client gets a message exactly if a readable event finds bytes; and the
-- kernel takes bytes at most once, and not without EPOLLOUT.
pub handle_events_lem :
    (on_message : Buffer → Result Buffer) (r : Readv) (w : ℕ → Write) (id sockfd : ℕ)
    (poller : Poller) (cb : Bool) (s : Life) (d : Connection) (revents : ℕ)
    → ((n : ℕ) → Takes (w n) n)
    → Reach on_message id sockfd poller cb s
    → s.gone ≡ false
    → is_connecting s.conn.state ≡ false
    → (let h = s.conn.handler in
        (h.on_close ≡ true) × (h.on_error ≡ true) × (h.on_read ≡ true) × (h.on_write ≡ true))
    → handle_events on_message r w true revents s.conn ≡ ok d
    → Reach on_message id sockfd poller cb (record s { conn = d })
      × (tally is_close d.log
          ≡ tally is_close s.conn.log
            + only_if (hangs_up revents) 1
            + only_if (readable revents) (at_end r))
      × (tally is_error d.log
          ≡ tally is_error s.conn.log
            + only_if (errs revents) 1
            + only_if (readable revents) (read_fails r))
      × (tally is_message d.log
          ≡ tally is_message s.conn.log + only_if (readable revents) (gives_bytes r))
      × (tally is_write s.conn.log ≤ tally is_write d.log)
      × (tally is_write d.log ≤ tally is_write s.conn.log + only_if (has revents Epoll.out) 1)
handle_events_lem on_message r w id sockfd poller cb s d revents takes v g h on e =
    let (cl, cu) = event_weighs is_close 0 closes on_message r w revents s.conn d on e in
    let (el, eu) = event_weighs is_error 0 errors on_message r w revents s.conn d on e in
    let (ml, mu) = event_weighs is_message 0 messages on_message r w revents s.conn d on e in
    let (wl, wu) = event_weighs is_write 1 writes on_message r w revents s.conn d on e in
    (
      handle_events-Reach on_message r w takes id sockfd poller cb s d true revents v g h e,
      omega (
        arith,
        cl,
        cu,
        zero_if (errs revents),
        zero_if (has revents Epoll.out),
        ap (only_if (readable revents)) (close_gain r),
      ),
      omega (
        arith,
        el,
        eu,
        zero_if (hangs_up revents),
        zero_if (has revents Epoll.out),
        ap (only_if (readable revents)) (error_gain r),
      ),
      omega (
        arith,
        ml,
        mu,
        zero_if (hangs_up revents),
        zero_if (errs revents),
        zero_if (has revents Epoll.out),
        ap (only_if (readable revents)) (message_gain r),
      ),
      omega (arith, wl),
      omega (
        arith,
        wu,
        zero_if (hangs_up revents),
        zero_if (errs revents),
        zero_if (readable revents),
        ap (only_if (readable revents)) (write_gain r),
      ),
    )
  where
    closes : Weighs is_close 0
    closes = record { queued = λ t. refl; shut = refl; down = λ s. refl; written = λ xs. refl }

    errors : Weighs is_error 0
    errors = record { queued = λ t. refl; shut = refl; down = λ s. refl; written = λ xs. refl }

    messages : Weighs is_message 0
    messages = record { queued = λ t. refl; shut = refl; down = λ s. refl; written = λ xs. refl }

    writes : Weighs is_write 1
    writes = record { queued = λ t. refl; shut = refl; down = λ s. refl; written = λ xs. refl }

    zero_if : (b : Bool) → only_if b 0 ≡ 0
    zero_if true = refl
    zero_if false = refl

    close_gain : (r : Readv) → read_gain is_close 0 closes r ≡ at_end r
    close_gain (Readv.got []) = refl
    close_gain (Readv.got (x ∷ xs)) = refl
    close_gain (Readv.failed errno) = refl

    error_gain : (r : Readv) → read_gain is_error 0 errors r ≡ read_fails r
    error_gain (Readv.got []) = refl
    error_gain (Readv.got (x ∷ xs)) = refl
    error_gain (Readv.failed errno) = refl

    message_gain : (r : Readv) → read_gain is_message 0 messages r ≡ gives_bytes r
    message_gain (Readv.got []) = refl
    message_gain (Readv.got (x ∷ xs)) = refl
    message_gain (Readv.failed errno) = refl

    write_gain : (r : Readv) → read_gain is_write 1 writes r ≡ 0
    write_gain (Readv.got []) = refl
    write_gain (Readv.got (x ∷ xs)) = refl
    write_gain (Readv.failed errno) = refl
