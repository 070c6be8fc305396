-- ===== src/Tests/Demos.antt =====
-- main.cpp: a connection on descriptor 3 that sends the message twice, a timer, and an acceptor.
use netframe.Base.{ℕ, ◌+◌, ◌≤◌, ◌≡◌, refl, true, false, List, [], ◌∷◌, ◌++◌, none, some, ok, arith}
use netframe.Handler.{State, make}
use netframe.Poller
use netframe.Poller.{lookup, insert, erase, add, update_handler}
use netframe.Connection.{
  Connection, connected, count, connection_cb, wrote, queue_in_loop, write_complete, update_events,
  connection_established, send, send_in_loop, try_write, write_now, buffer_rest,
}
use netframe.Connection.Stream.{stream}
use netframe.Connection.Life.{Life, start}
use netframe.Demo.{message, on_connection, on_write_complete}
use netframe.Demo.Repeats.{Served, here, next, established, completes, copies, Served-stream}
use netframe.Acceptor.{Acceptor, connfd, failed, construct, listen}
use netframe.EventLoop.Run.{Loop}
use netframe.Poller.{Poller, Waited}
use netframe.Demo.Timer.{test1}
use netframe.Demo.Timer.Fires.{test1-fires}
use netframe.Demo.Answer.{
  is_fd, set_up, answer_all, answers, opens, closes, greeting, answer_all_lem,
}

abbrev born : Life
born = start 7 3 Poller.start true

abbrev up : Connection
up =
    let h = born.conn.handler in
    record (born.conn) {
      state = connected;
      handler = record h { tied = true; events = 3; state = State.added };
      poller = record (Poller.start) {
        handlermap = (3, 7) ∷ [];
        calls = record { op = add; fd = 3; events = 3 } ∷ [];
      };
      log = connection_cb connected ∷ [];
    }

abbrev once : Connection
once = record up { log = up.log ++ (wrote message ∷ queue_in_loop write_complete ∷ []) }

abbrev twice : Connection
twice = record once { log = once.log ++ (wrote message ∷ queue_in_loop write_complete ∷ []) }

abbrev busy : Life
busy = record { conn = twice; ran = 1; handed = message ++ message; gone = false }

busy-Served : Served 7 3 Poller.start busy
unfolding connection_established update_events update_handler lookup insert erase send send_in_loop
    try_write write_now buffer_rest on_connection on_write_complete
busy-Served =
    next
      (next (here tt refl refl)
        (established up once (count 16) refl refl (omega arith) (omega arith) refl))
      (completes (count 16) twice refl refl (omega arith) (omega arith) refl)

Served-stream_example : (k : ℕ) × (stream twice ≡ copies k) × (k ≤ 2)
Served-stream_example = Served-stream 7 3 Poller.start busy-Served

-- The eventfd is readable, then a signal comes, then the timer fires.
abbrev waits : List Waited
waits = Waited.events ((1, 1) ∷ []) ∷ Waited.failed ∷ Waited.events ((1, 1) ∷ (2, 1) ∷ []) ∷ []

test1-fires_example : (m : Loop ℕ) × (test1 (1, 4) (2, 5) waits ≡ ok (true, m))
test1-fires_example =
    test1-fires 1 4 2 5 waits (omega arith) (omega arith, (omega arith, (omega arith, tt)))

-- The acceptor on descriptor 4 with the spare one 9.
abbrev listening : Acceptor
listening =
    let h = make 8 4 in
    record {
      sockfd = 4;
      handler = record h { events = 3; on_read = true; state = State.added };
      has_callback = true;
      listening = true;
      idle_fd = some 9;
    }

abbrev listened : Poller
listened = record (Poller.start) {
  handlermap = (4, 8) ∷ [];
  calls = record { op = add; fd = 4; events = 3 } ∷ [];
}

answer_all_lem_example :
    let (b, deeds) =
      answer_all listening
        ((connfd 5, none, none) ∷ (failed 24, some 9, some 9) ∷ (connfd 6, none, none) ∷ []) in
    ((j : ℕ) → is_fd j (some 9) + opens j deeds ≡ closes j deeds + is_fd j b.idle_fd)
    × (answers deeds ≡ (5, greeting, some 5) ∷ (6, greeting, some 6) ∷ [])
unfolding set_up construct listen update_handler lookup insert erase
answer_all_lem_example =
    answer_all_lem Poller.start listened listening 8 4 (some 9)
      ((connfd 5, none, none) ∷ (failed 24, some 9, some 9) ∷ (connfd 6, none, none) ∷ []) refl
