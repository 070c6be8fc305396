-- ===== src/Connection.antt =====
-- TcpConnection.h and TcpConnection.cpp. One record holds the connection, its handler and the
-- poller of its loop; what goes out of the program (bytes that the kernel took, callbacks of the
-- client, functors handed to the loop) is an entry of a log, oldest first. The result of a system
-- call is an argument.
pub mod Told
pub mod Life
pub mod Watch
pub mod Stream
pub mod Drain
pub mod Lifecycle
pub mod Local
pub mod Message
pub mod Hosts
pub mod Events
use netframe.Base.{
  ℕ, ◌+◌, ◌-◌, ◌*◌, Bool, true, false, not, ◌&&◌, ◌||◌, List, [], ◌∷◌, ◌++◌, length, take, drop,
  ltb, ◌==◌, if◌then◌else◌, Result, ok, err, ◌>>=◌, ◌>>◌, assert,
}
use netframe.Buffer
use netframe.Buffer.{Buffer, readable_bytes, sub_size, Readv}
use netframe.Handler.{
  Handler, make, set_tie, is_none_event, is_writing, with_reading, with_writing, without_writing,
  without_all,
}
use netframe.Poller.{Poller, update_handler, remove_handler}

-- `StateE`.
pub data State : Type 0 where
  disconnected connecting connected disconnecting : State

-- A functor that is bound to the connection and handed to its loop.
pub data Task : Type 0 where
  write_complete : Task
  send_later : List ℕ → Task
  shutdown_later : Task

pub data Act : Type 0 where
  wrote : List ℕ → Act
  shut_write : Act
  queue_in_loop : Task → Act
  connection_cb : State → Act
  message_cb : List ℕ → Act
  close_cb : Act
  get_socket_error : Act

pub record Connection : Type 0 where
  pub state : State
  pub handler : Handler
  pub poller : Poller
  pub input : Buffer
  pub output : Buffer
  pub on_write_complete : Bool
  pub high_water_mark : ℕ
  pub log : List Act

-- The constructor: all four callbacks of the handler are set.
abbrev pub construct : ℕ → ℕ → Poller → Bool → Connection
construct id sockfd poller on_write_complete =
    let h = make id sockfd in
    record {
      state = connecting;
      handler = record h { on_read = true; on_write = true; on_close = true; on_error = true };
      poller = poller;
      input = Buffer.new;
      output = Buffer.new;
      on_write_complete = on_write_complete;
      high_water_mark = 64 * 1024 * 1024;
      log = [];
    }

abbrev pub record_act : Connection → Act → Connection
record_act c a = record c { log = c.log ++ (a ∷ []) }

abbrev pub set_state : Connection → State → Connection
set_state c s = record c { state = s }

-- `m_events` changes, and `m_updateHandler` goes through the loop to the poller.
unfoldable pub update_events : Connection → Handler → Result Connection
update_events c h = do
  (p, h') ← update_handler c.poller h
  ok (record c { poller = p; handler = h' })

-- What `write` returns: a count, or the errno of -1.
pub data Write : Type 0 where
  count : ℕ → Write
  failed : ℕ → Write

abbrev pub queue_write_complete : Connection → Connection
queue_write_complete c =
    if c.on_write_complete then record_act c (queue_in_loop write_complete) else c

-- The first part of `sendInLoop`: write at once if nothing waits. The second component is `nwrote`.
unfoldable pub write_now : Connection → List ℕ → Write → Connection × ℕ
write_now c chars (count n) =
    let c' = record_act c (wrote (take n chars)) in
    ((if sub_size (length chars) n == 0 then queue_write_complete c' else c'), n)
write_now c chars (failed errno) = (c, 0)

unfoldable pub try_write : Connection → List ℕ → Write → Connection × ℕ
try_write c chars w =
    if not (is_writing c.handler) && (readable_bytes c.output == 0)
    then write_now c chars w
    else (c, 0)

-- The second part: what is left goes to the output buffer, and writing is watched.
unfoldable pub buffer_rest : Connection → List ℕ → ℕ → Result Connection
buffer_rest c chars nwrote =
    let remaining = sub_size (length chars) nwrote in
    do
      assert (ltb remaining (length chars))
      if ltb 0 remaining
          then (do
            output ← Buffer.append c.output (drop nwrote chars)
            let c' = record c { output = output }
            if is_writing c'.handler then ok c' else update_events c' (with_writing c'.handler))
          else ok c

-- `sendInLoop`.
unfoldable pub send_in_loop : Connection → List ℕ → Write → Result Connection
send_in_loop c chars w = let (c', nwrote) = try_write c chars w in buffer_rest c' chars nwrote

abbrev pub is_connected : State → Bool
is_connected connected = true
is_connected disconnected = false
is_connected connecting = false
is_connected disconnecting = false

abbrev pub is_connecting : State → Bool
is_connecting connecting = true
is_connecting disconnected = false
is_connecting connected = false
is_connecting disconnecting = false

abbrev pub is_disconnecting : State → Bool
is_disconnecting disconnecting = true
is_disconnecting disconnected = false
is_disconnecting connecting = false
is_disconnecting connected = false

-- `send(const void*, size_t)` and `send(const std::string&)`; `in_loop` is `isInLoopThread()`.
unfoldable pub send : Connection → Bool → List ℕ → Write → Result Connection
send c in_loop chars w =
    if is_connected c.state
    then (if in_loop
        then send_in_loop c chars w
        else ok (record_act c (queue_in_loop (send_later chars))))
    else ok c

-- `send(Buffer*)`: in the loop the message keeps its bytes, elsewhere they are taken out of it.
unfoldable pub send_buffer : Connection → Bool → Buffer → Write → Result (Connection × Buffer)
send_buffer c in_loop message w =
    if is_connected c.state
    then (if in_loop
        then (do
          chars ← Buffer.copy_from message.bytes (Buffer.peek message) (readable_bytes message)
          c' ← send_in_loop c chars w
          ok (c', message))
        else (do
          (chars, rest) ← Buffer.retrieve_all_as_string message
          ok (record_act c (queue_in_loop (send_later chars)), rest)))
    else ok (c, message)

unfoldable pub shutdown_in_loop : Connection → Connection
shutdown_in_loop c = if is_writing c.handler then c else record_act c shut_write

unfoldable pub shutdown : Connection → Bool → Connection
shutdown c in_loop =
    if is_connected c.state
    then (let c' = set_state c disconnecting in
        if in_loop then shutdown_in_loop c' else record_act c' (queue_in_loop shutdown_later))
    else c

unfoldable pub connection_established : Connection → Result Connection
connection_established c = do
  assert (is_connecting c.state)
  c' ← update_events (set_state c connected) (with_reading (set_tie c.handler))
  ok (record_act c' (connection_cb c'.state))

-- The `if` at its start guards an empty statement.
unfoldable pub connection_destroyed : Connection → Result Connection
connection_destroyed c = do
  c' ← update_events (set_state c disconnected) (without_all c.handler)
  let c'' = record_act c' (connection_cb c'.state)
  assert (is_none_event c''.handler)
  (p, h) ← remove_handler c''.poller c''.handler
  ok (record c'' { poller = p; handler = h })

unfoldable pub handle_close : Connection → Result Connection
handle_close c = do
  assert (is_connected c.state || is_disconnecting c.state)
  c' ← update_events (set_state c disconnected) (without_all c.handler)
  ok (record_act (record_act c' (connection_cb c'.state)) close_cb)

unfoldable pub handle_error : Connection → Connection
handle_error c = record_act c get_socket_error

-- After a read: the client's message callback, which is an argument, works on the input buffer.
unfoldable pub after_read : (Buffer → Result Buffer) → Connection → Readv → Result Connection
after_read on_message c (Readv.got []) = handle_close c
after_read on_message c (Readv.got (x ∷ xs)) = do
  input ← on_message c.input
  ok (record_act (record c { input = input }) (message_cb (x ∷ xs)))
after_read on_message c (Readv.failed errno) = ok (handle_error c)

unfoldable pub handle_read : (Buffer → Result Buffer) → Connection → Readv → Result Connection
handle_read on_message c r = do
  (n, input) ← Buffer.read_fd c.input r
  after_read on_message (record c { input = input }) n

-- `defaultMessageCB`.
unfoldable pub default_message_cb : Buffer → Result Buffer
default_message_cb b = ok (Buffer.retrieve_all b)

-- After the output buffer has run empty.
unfoldable pub drained : Connection → Result Connection
drained c = do
  c' ← update_events c (without_writing c.handler)
  let c'' = queue_write_complete c'
  ok (if is_disconnecting c''.state then shutdown_in_loop c'' else c'')

unfoldable pub write_more : Connection → Write → Result Connection
write_more c (failed errno) = ok c
write_more c (count n) =
    if ltb 0 n
    then (do
      chars ← Buffer.copy_from c.output.bytes (Buffer.peek c.output) n
      output ← Buffer.retrieve c.output n
      let c' = record_act (record c { output = output }) (wrote chars)
      if readable_bytes output == 0 then drained c' else ok c')
    else ok c

unfoldable pub handle_write : Connection → Write → Result Connection
handle_write c w = if is_writing c.handler then write_more c w else ok c
