-- ===== src/Connection/Life.antt =====
-- The life of one connection: any sequence of the calls that its loop, its client and its server
-- make on it. A call that fails an assertion ends the program, and takes no step.
pub mod Shape
pub mod Begins
pub mod Calls
pub mod Ends
pub mod Steps
pub mod Reach
use netframe.Base.{
  ℕ, ◌+◌, ◌≤◌, ◌≡◌, Bool, true, false, List, [], ◌∷◌, ◌++◌, length, get_elem?, some, Result, ok,
  if◌then◌else◌,
}
use netframe.Buffer.{Buffer, max_size, readable_bytes, Readv}
use netframe.Poller.{Poller}
use netframe.Connection.{
  Connection, Act, wrote, shut_write, queue_in_loop, connection_cb, message_cb, close_cb,
  get_socket_error, Task, write_complete, send_later, shutdown_later, Write, count, failed,
  construct, connection_established, connection_destroyed, send, send_in_loop, shutdown,
  shutdown_in_loop, handle_read, handle_write, handle_close, handle_error, is_connected,
  is_connecting,
}

-- The functors that the connection has handed to its loop, in order.
abbrev pub queued : List Act → List Task
queued [] = []
queued (queue_in_loop t ∷ l) = t ∷ queued l
queued (wrote xs ∷ l) = queued l
queued (shut_write ∷ l) = queued l
queued (connection_cb s ∷ l) = queued l
queued (message_cb xs ∷ l) = queued l
queued (close_cb ∷ l) = queued l
queued (get_socket_error ∷ l) = queued l

-- `ran` counts the functors that have run, `handed` is every message that reached `sendInLoop`, and
-- `gone` says that the server has destroyed the connection.
pub record Life : Type 0 where
  pub conn : Connection
  pub ran : ℕ
  pub handed : List ℕ
  pub gone : Bool

abbrev pub start : ℕ → ℕ → Poller → Bool → Life
start id sockfd poller on_write_complete = record {
  conn = construct id sockfd poller on_write_complete;
  ran = 0;
  handed = [];
  gone = false;
}

-- A functor when its turn comes; the client's own callback is the client's.
abbrev pub exec : Task → Connection → Write → Result Connection
exec write_complete c w = ok c
exec (send_later xs) c w = send_in_loop c xs w
exec shutdown_later c w = ok (shutdown_in_loop c)

abbrev pub text : Task → List ℕ
text write_complete = []
text (send_later xs) = xs
text shutdown_later = []

-- write(2) takes no more than it is given.
abbrev pub Takes : Write → ℕ → Type 0
Takes (count n) size = n ≤ size
Takes (failed errno) size = Unit

-- The vector of the output buffer can hold the message too.
abbrev pub Room : Connection → List ℕ → Type 0
Room c xs = c.output.writer_index + length xs ≤ max_size

-- Events come, and the server destroys, only after `connectionEstablished`, which is queued first.
module _ (on_message : Buffer → Result Buffer) where
  pub data Step (s : Life) : Life → Type 0 where
    established :
        (d : Connection)
        → s.gone ≡ false
        → connection_established s.conn ≡ ok d
        → Step s (record s { conn = d })
    sends :
        (xs : List ℕ) (w : Write) (d : Connection)
        → s.gone ≡ false
        → Takes w (length xs)
        → Room s.conn xs
        → send s.conn true xs w ≡ ok d
        → Step s (record s {
          conn = d;
          handed = s.handed ++ (if is_connected s.conn.state then xs else []);
        })
    sends_elsewhere :
        (xs : List ℕ) (w : Write) (d : Connection)
        → s.gone ≡ false
        → send s.conn false xs w ≡ ok d
        → Step s (record s { conn = d })
    runs :
        (t : Task) (w : Write) (d : Connection)
        → s.gone ≡ false
        → get_elem? (queued s.conn.log) s.ran ≡ some t
        → Takes w (length (text t))
        → Room s.conn (text t)
        → exec t s.conn w ≡ ok d
        → Step s (record s { conn = d; ran = s.ran + 1; handed = s.handed ++ text t })
    shuts_down :
        (in_loop : Bool) → s.gone ≡ false → Step s (record s { conn = shutdown s.conn in_loop })
    reads :
        (r : Readv) (d : Connection)
        → s.gone ≡ false
        → is_connecting s.conn.state ≡ false
        → handle_read on_message s.conn r ≡ ok d
        → Step s (record s { conn = d })
    writes :
        (w : Write) (d : Connection)
        → s.gone ≡ false
        → is_connecting s.conn.state ≡ false
        → Takes w (readable_bytes s.conn.output)
        → handle_write s.conn w ≡ ok d
        → Step s (record s { conn = d })
    closes :
        (d : Connection)
        → s.gone ≡ false
        → handle_close s.conn ≡ ok d
        → Step s (record s { conn = d })
    fails :
        s.gone ≡ false
        → is_connecting s.conn.state ≡ false
        → Step s (record s { conn = handle_error s.conn })
    destroyed :
        (d : Connection)
        → s.gone ≡ false
        → is_connecting s.conn.state ≡ false
        → connection_destroyed s.conn ≡ ok d
        → Step s (record s { conn = d; gone = true })
