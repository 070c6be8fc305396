-- ===== src/Tests/Lives.antt =====
-- TcpConnection.cpp: one life on descriptor 3, up to a message, and then to its end.
use netframe.Base.{◌≡◌, refl, true, false, ◌⊎◌, [], ◌∷◌, none, arith}
use netframe.Handler.{State}
use netframe.Poller.{Poller, lookup, erase, insert, add, del, update_handler, remove_handler}
use netframe.Poller
use netframe.Poller.Sync.{watched}
use netframe.Connection.{
  Connection, connected, disconnected, count, connection_cb, wrote, update_events,
  connection_established, connection_destroyed, send, send_in_loop, try_write, write_now,
  buffer_rest, default_message_cb,
}
use netframe.Connection.Told.{told}
use netframe.Connection.Life.{Life, start, established, sends, destroyed}
use netframe.Connection.Life.Reach.{Reach, here, next, life_gone}

abbrev born : Life
born = start 7 3 Poller.start false

abbrev up : Connection
up =
    let h = born.conn.handler in
    record (born.conn) {
      state = connected;
      handler = record h { tied = true; events = 3; state = State.added };
      poller = record (Poller.start) {
        handlermap = (3, 7) ∷ [];
        calls = record { op = add; fd = 3; events = 3 } ∷ [];
      };
      log = connection_cb connected ∷ [];
    }

abbrev told_up : Connection
told_up = record up { log = connection_cb connected ∷ wrote (5 ∷ 6 ∷ []) ∷ [] }

abbrev down : Connection
down =
    let h = told_up.handler in
    record told_up {
      state = disconnected;
      handler = record h { events = 0; state = State.new };
      poller = record (Poller.start) {
        calls =
            record { op = del; fd = 3; events = 0 } ∷ record { op = add; fd = 3; events = 3 } ∷ [];
      };
      log = connection_cb connected ∷ wrote (5 ∷ 6 ∷ []) ∷ connection_cb disconnected ∷ [];
    }

abbrev living : Life
living = record { conn = told_up; ran = 0; handed = 5 ∷ 6 ∷ []; gone = false }

living-Reach : Reach default_message_cb 7 3 Poller.start false living
unfolding connection_established update_events update_handler lookup insert erase send send_in_loop
    try_write write_now buffer_rest
living-Reach =
    next (next (here tt refl refl) (established up refl refl))
      (sends (5 ∷ 6 ∷ []) (count 2) told_up refl (omega arith) (omega arith) refl)

abbrev dead : Life
dead = record living { conn = down; gone = true }

dead-Reach : Reach default_message_cb 7 3 Poller.start false dead
unfolding connection_destroyed update_events update_handler remove_handler lookup erase
dead-Reach = next living-Reach (destroyed down refl refl refl)

life_gone_example :
    (lookup 3 down.poller.handlermap ≡ none)
    × (watched down.poller.calls 3 ≡ none)
    × ((told down.log ≡ connected ∷ disconnected ∷ [])
        ⊎ (told down.log ≡ connected ∷ disconnected ∷ disconnected ∷ []))
life_gone_example = life_gone default_message_cb dead-Reach refl
