-- ===== src/Tests/Hosts.antt =====
-- One loop with two connections, on descriptors 3 and 4; the first then sends two bytes.
use netframe.Base.{
  ℕ, ◌≤◌, ◌≡◌, refl, true, false, inr, List, [], ◌∷◌, some, arith, ok, err, assertion,
}
use netframe.Buffer.{Buffer, Readv, read_fd}
use netframe.Handler.Dispatch.{Watches}
use netframe.Handler.{State, close, error, handle_event, dispatch}
use netframe.Poller.{Poller, Waited, lookup, insert, erase, add, update_handler}
use netframe.Poller
use netframe.Poller.Sync.{watched}
use netframe.Connection.{
  Connection, connected, count, connection_cb, wrote, get_socket_error, update_events,
  connection_established, send, handle_error, send_in_loop, try_write, write_now, buffer_rest,
  default_message_cb, handle_close, handle_read, after_read,
}
use netframe.Connection.Watch.{Inv}
use netframe.Connection.Told.{told}
use netframe.Connection.Stream.{stream}
use netframe.Connection.Life.{Life, start, established, sends}
use netframe.Connection.Life.Reach.{Reach, here, next}
use netframe.TcpServer
use netframe.TcpServer.Lifetime.{accept_all, default_connection_cb}
use netframe.TcpServer.Lifetime.Reuse.{Knows, accept_all-Knows}
use netframe.Connection.Hosts.{Hosted, nobody, joins, moves, first, later}
use netframe.Connection.Hosts.Streams.{Hosted-stream, Hosted-watched}
use netframe.Connection.Events.{run_callbacks, handle_events}
use netframe.Connection.Events.Effects.{tally, is_close, is_error, is_message, is_write}
use netframe.Connection.Events.Effects.Seen.{handle_events_lem}
use netframe.Connection.Events.HangUp.{Down, handle_events_hang_up}

-- The poller of the loop, and the connection once it is established there.
abbrev entered : Poller → ℕ → ℕ → Poller
entered p id fd = record p {
  handlermap = insert fd id p.handlermap;
  calls = record { op = add; fd = fd; events = 3 } ∷ p.calls;
}

abbrev up : Poller → ℕ → ℕ → Connection
up p id fd =
    let s = start id fd p false in
    let h = s.conn.handler in
    record (s.conn) {
      state = connected;
      handler = record h { tied = true; events = 3; state = State.added };
      poller = entered p id fd;
      log = connection_cb connected ∷ [];
    }

abbrev living : Poller → ℕ → ℕ → Life
living p id fd = record { conn = up p id fd; ran = 0; handed = []; gone = false }

abbrev one : Poller
one = entered Poller.start 7 3

abbrev two : Poller
two = entered one 8 4

one-Hosted : Hosted default_message_cb one (living Poller.start 7 3 ∷ [])
unfolding connection_established update_events update_handler lookup insert erase
one-Hosted =
    moves (joins 7 3 false (nobody {p = Poller.start} tt) refl refl tt)
      (first (established (up Poller.start 7 3) refl refl) refl)

two-Hosted : Hosted default_message_cb two (living one 8 4 ∷ living Poller.start 7 3 ∷ [])
unfolding connection_established update_events update_handler lookup insert erase
two-Hosted =
    moves (joins 8 4 false one-Hosted refl refl (inr refl, tt))
      (first (established (up one 8 4) refl refl) refl)

abbrev told_first : Connection
told_first =
    let c = up Poller.start 7 3 in
    record c { poller = two; log = connection_cb connected ∷ wrote (5 ∷ 6 ∷ []) ∷ [] }

abbrev sender : Life
sender = record { conn = told_first; ran = 0; handed = 5 ∷ 6 ∷ []; gone = false }

sent-Hosted : Hosted default_message_cb two (living one 8 4 ∷ sender ∷ [])
unfolding send send_in_loop try_write write_now buffer_rest
sent-Hosted = moves two-Hosted (
    later
      (first (sends (5 ∷ 6 ∷ []) (count 2) told_first refl (omega arith) (omega arith) refl) refl))

Hosted-stream_example : stream told_first ≡ 5 ∷ 6 ∷ []
Hosted-stream_example = Hosted-stream default_message_cb 1 sender sent-Hosted refl

Hosted-watched_example : (told told_first.log ≡ connected ∷ []) × (watched two.calls 3 ≡ some 3)
Hosted-watched_example = Hosted-watched default_message_cb 1 sender sent-Hosted refl refl refl

born-Reach : Reach default_message_cb 7 3 Poller.start false (living Poller.start 7 3)
unfolding connection_established update_events update_handler lookup insert erase
born-Reach = next (here tt refl refl) (established (up Poller.start 7 3) refl refl)

-- EPOLLERR with EPOLLIN, and a `readv` that fails.
abbrev failing : Connection
failing =
    let c = up Poller.start 7 3 in
    record c { log = connection_cb connected ∷ get_socket_error ∷ get_socket_error ∷ [] }

handle_events_lem_example :
    Reach default_message_cb 7 3 Poller.start false
      (record (living Poller.start 7 3) { conn = failing })
    × (tally is_close failing.log ≡ 0)
    × (tally is_error failing.log ≡ 2)
    × (tally is_message failing.log ≡ 0)
    × (0 ≤ tally is_write failing.log)
    × (tally is_write failing.log ≤ 0)
unfolding handle_events run_callbacks handle_event dispatch handle_error handle_read read_fd
    after_read
handle_events_lem_example =
    handle_events_lem default_message_cb (Readv.failed 104) (λ n. count n) 7 3 Poller.start false
      (living Poller.start 7 3) failing 9 (λ n. omega arith) born-Reach refl refl
      (refl, refl, refl, refl) refl

up-Inv : Inv true (up Poller.start 7 3)
unfolding lookup insert erase
up-Inv = record {
  legal = (refl, tt);
  settled = (refl, refl);
  valid = omega arith;
  watch = Watches.reading refl;
}

-- EPOLLHUP with EPOLLPRI and EPOLLERR.
handle_events_hang_up_example :
    (e : Connection) × (i : Buffer) × (run_callbacks default_message_cb
        (Readv.got [])
        (λ n. count n)
        (close ∷ error ∷ [])
        (up Poller.start 7 3)
      ≡ ok e)
    × Down (up Poller.start 7 3) e
    × (read_fd e.input (Readv.got []) ≡ ok (Readv.got [], i))
    × (handle_close (record e { input = i }) ≡ err assertion)
    × (handle_events default_message_cb (Readv.got []) (λ n. count n) true 26 (up Poller.start 7 3)
        ≡ err assertion)
handle_events_hang_up_example =
    handle_events_hang_up default_message_cb (λ n. count n) (up Poller.start 7 3) 26 up-Inv refl
      (omega arith) refl refl refl refl refl

-- Descriptor 9 is the acceptor's, with its handler at address 1; the spare address comes twice.
abbrev listening : Poller
listening = entered Poller.start 1 9

listening-Knows : Knows (9 ∷ []) listening
unfolding lookup insert erase
listening-Knows j = ground arith

abbrev comers : List (ℕ × ℕ)
comers = (20, 5) ∷ (21, 6) ∷ (20, 5) ∷ []

accept_all-Knows_example :
    accept_all
      (λ n. [])
      default_connection_cb
      false
      true
      (TcpServer.construct 1 [] [])
      listening
      comers
    ≡ err assertion
accept_all-Knows_example =
    accept_all-Knows (λ n. []) true (TcpServer.construct 1 [] []) listening (9 ∷ []) comers refl
      listening-Knows
