-- ===== src/Tests/Connections.antt =====
-- TcpConnection.cpp over EPollPoller.cpp: one connection on descriptor 3.
use netframe.Base.{ℕ, ◌≡◌, refl, true, [], ◌∷◌, none, ok, err, assertion, arith, false, ◌>>=◌}
use netframe.Buffer.{Buffer}
use netframe.Handler.{Handler, make, State}
use netframe.Handler.Dispatch.{Watches}
use netframe.Poller.{Poller, start, lookup, add}
use netframe.Poller.Sync.{Settled, watched}
use netframe.Connection.{
  Connection, connected, disconnecting, construct, count, send_in_loop, handle_close,
  connection_destroyed, send, send_buffer,
}
use netframe.Connection.Told.{downs}
use netframe.Connection.Watch.{Inv}
use netframe.Connection.Stream.{send_in_loop-aborts}
use netframe.Connection.Drain.Empty.{drain, Emptied, drain-Emptied}
use netframe.Connection.Lifecycle.{down_twice}
use netframe.Buffer.Contents.{IsValid}
use netframe.Buffer.Ops.{Holds}
use netframe.Connection.Message.{beside, send_buffer-send}

abbrev empty_buffer : Buffer
empty_buffer = record {
  bytes = 0 ∷ 0 ∷ 0 ∷ 0 ∷ 0 ∷ 0 ∷ 0 ∷ 0 ∷ 0 ∷ 0 ∷ [];
  reader_index = 8;
  writer_index = 8;
}

abbrev two_bytes : Buffer
two_bytes = record empty_buffer {
  bytes = 0 ∷ 0 ∷ 0 ∷ 0 ∷ 0 ∷ 0 ∷ 0 ∷ 0 ∷ 5 ∷ 6 ∷ [];
  writer_index = 10;
}

-- The handler at address 7, watched for these events.
abbrev watcher : ℕ → Handler
watcher ev = let h = make 7 3 in record h { events = ev; state = State.added }

abbrev watching : ℕ → Poller
watching ev = record start {
  handlermap = (3, 7) ∷ [];
  calls = record { op = add; fd = 3; events = ev } ∷ [];
}

-- Established, with nothing to send.
abbrev idle : Connection
idle =
    let c = construct 7 3 start true in
    record c { state = connected; handler = watcher 3; poller = watching 3; output = empty_buffer }

-- Shut down by its owner while two bytes wait.
abbrev leaving : Connection
leaving = record idle {
  state = disconnecting;
  handler = watcher 7;
  poller = watching 7;
  output = two_bytes;
}

settled : (ev : ℕ) → Settled State.added (watching ev) (watcher ev)
unfolding lookup
settled ev = (refl, refl)

idle-Inv : Inv true idle
idle-Inv = record {
  legal = (refl, tt);
  settled = settled 3;
  valid = omega arith;
  watch = Watches.reading refl;
}

leaving-Inv : Inv true leaving
leaving-Inv = record {
  legal = (refl, tt);
  settled = settled 7;
  valid = omega arith;
  watch = Watches.both refl;
}

-- A second message while output waits.
send_in_loop-aborts_example : send_in_loop leaving (1 ∷ 2 ∷ []) (count 2) ≡ err assertion
send_in_loop-aborts_example = send_in_loop-aborts leaving (1 ∷ 2 ∷ []) (count 2) (omega arith) refl

-- Two bytes go in two writes.
drain-Emptied_example :
    (d : Connection) × (drain leaving (1 ∷ 1 ∷ []) ≡ ok d) × Emptied true leaving d
drain-Emptied_example =
    drain-Emptied leaving (1 ∷ 1 ∷ []) leaving-Inv refl (omega arith, (omega arith, tt))
      (omega arith)

down_twice_example :
    (d e : Connection) × (handle_close idle ≡ ok d)
    × (connection_destroyed d ≡ ok e)
    × (downs e.log ≡ 2)
    × (lookup 3 e.poller.handlermap ≡ none)
    × (watched e.poller.calls 3 ≡ none)
down_twice_example = down_twice idle idle-Inv refl

two_bytes-IsValid : IsValid two_bytes
two_bytes-IsValid = record {
  front = omega arith;
  ordered = omega arith;
  inside = omega arith;
  small = omega arith;
}

-- From another thread.
send_buffer-send_example :
    (n : Buffer) × Holds [] n
    × (send_buffer idle false two_bytes (count 2)
        ≡ (send idle false (5 ∷ 6 ∷ []) (count 2) >>= beside n))
send_buffer-send_example = send_buffer-send idle false two_bytes (count 2) two_bytes-IsValid
