-- ===== src/TcpServer.antt =====
-- TcpServer.cpp: names and loops for new connections, and the map of connections. A text is the
-- list of its bytes; `print` is the conversion %d. What the server hands to a loop is a list.
pub mod Names
pub mod Registry
pub mod History
pub mod Lifetime
use netframe.Base.{
  ℕ, ◌+◌, Bool, true, false, not, List, [], ◌∷◌, ◌++◌, take, map, Option, none, some, if◌then◌else◌,
  Result, ok, err, assertion, ◌>>=◌, ◌>>◌, assert,
}
use netframe.PollingServer.{eq_bytes}
use netframe.ThreadPool
use netframe.ThreadPool.{ThreadPool, get_next_loop, set_thread_num}

-- The fields of a TcpConnection that the server works with.
pub record Conn : Type 0 where
  pub name : List ℕ
  pub loop : ℕ
  pub sockfd : ℕ

pub data Task : Type 0 where
  listen : Task
  established : Conn → Task
  destroyed : Conn → Task

pub record TcpServer : Type 0 where
  pub host_port : List ℕ
  pub name : List ℕ
  pub thread_pool : ThreadPool
  pub started : Bool
  pub next_conn_id : ℕ
  pub connections : List (List ℕ × Conn)

-- The constructor. It does not use `nameArg`: the name stays empty.
abbrev pub construct : ℕ → List ℕ → List ℕ → TcpServer
construct loop host_port name_arg = record {
  host_port = host_port;
  name = [];
  thread_pool = ThreadPool.construct loop;
  started = false;
  next_conn_id = 1;
  connections = [];
}

-- `setThreadNum`; a negative number is `none`.
abbrev pub set_threads : TcpServer → Option ℕ → Result TcpServer
set_threads s none = err assertion
set_threads s (some n) = ok (record s { thread_pool = set_thread_num s.thread_pool n })

-- `start`: the threads once, and `listen` unless the acceptor listens already.
unfoldable pub start : TcpServer → (ℕ → ℕ) → Bool → Bool → Result (TcpServer × List Task)
start s start_loop has_cb listening = do
  s' ←
      (if s.started then ok s else (do
        (pool, _) ← ThreadPool.start s.thread_pool start_loop has_cb
        ok (record s { started = true; thread_pool = pool })))
  ok (s', (if listening then [] else listen ∷ []))

-- `snprintf(buf, 32, ":%s#%d", …)`: at most 31 bytes.
abbrev pub suffix : (ℕ → List ℕ) → List ℕ → ℕ → List ℕ
suffix print host_port id = b':' ∷ (host_port ++ (b'#' ∷ print id))

abbrev pub conn_name : (ℕ → List ℕ) → TcpServer → List ℕ
conn_name print s = s.name ++ take 31 (suffix print s.host_port s.next_conn_id)

-- `newConnection`. The new connection is not put into the map.
unfoldable pub new_connection : (ℕ → List ℕ) → TcpServer → ℕ → Result (TcpServer × List Task)
new_connection print s sockfd = do
  (io_loop, pool) ← get_next_loop s.thread_pool
  let conn : Conn = record { name = conn_name print s; loop = io_loop; sockfd = sockfd }
  ok (record s { next_conn_id = s.next_conn_id + 1; thread_pool = pool }, established conn ∷ [])

unfoldable pub erase : List ℕ → List (List ℕ × Conn) → List (List ℕ × Conn)
erase k [] = []
erase k ((j, c) ∷ m) = if eq_bytes j k then erase k m else (j, c) ∷ erase k m

-- `removeConnection`, whose second half `removeConnectionInLoop` runs in the server's loop.
unfoldable pub remove_connection : TcpServer → Conn → TcpServer × List Task
remove_connection s conn =
    (record s { connections = erase conn.name s.connections }, destroyed conn ∷ [])

-- The destructor.
unfoldable pub destruct : TcpServer → List Task
destruct s = map (λ (p : List ℕ × Conn). destroyed p.1) s.connections
