-- ===== src/TcpServer/History.antt =====
-- A server from its constructor on: started, started again, accepting and closing.
use netframe.Base.{
  ℕ, ◌+◌, ◌≡◌, refl, ap, Bool, true, false, List, [], ◌∷◌, ◌++◌, take, Option, some, if◌then◌else◌,
  Result, ok, ◌>>=◌, arith,
}
use netframe.ThreadPool
use netframe.ThreadPool.{started_loops}
use netframe.ThreadPool.Placement.{placed, Started, get_next_loop-Started, zero_turn}
use netframe.TcpServer.{
  TcpServer, Conn, Task, listen, established, destroyed, construct, set_threads, start, suffix,
  new_connection, remove_connection,
}

-- A further `start`, of which the acceptor listens already or not yet; a descriptor that was
-- accepted; a connection that has closed.
pub data Event : Type 0 where
  starts : (ℕ → ℕ) → Bool → Bool → Event
  accepts : ℕ → Event
  closes : Conn → Event

abbrev pub happen : (ℕ → List ℕ) → TcpServer → Event → Result (TcpServer × List Task)
happen print s (starts start_loop has_cb listening) = start s start_loop has_cb listening
happen print s (accepts sockfd) = new_connection print s sockfd
happen print s (closes conn) = ok (remove_connection s conn)

-- What the server hands to its loops.
unfoldable pub tasks : (ℕ → List ℕ) → TcpServer → List Event → Result (List Task)
tasks print s [] = ok []
tasks print s (e ∷ es) = do
  (s', now) ← happen print s e
  later ← tasks print s' es
  ok (now ++ later)

-- A new server with its number of threads, its start, and what happens then.
unfoldable pub launch :
    (ℕ → List ℕ) → TcpServer → Option ℕ → (ℕ → ℕ) → Bool → List Event → Result (List Task)
launch print s threads start_loop has_cb es = do
  s' ← set_threads s threads
  tasks print s' (starts start_loop has_cb false ∷ es)

start-again :
    (s : TcpServer) (start_loop : ℕ → ℕ) (has_cb listening : Bool)
    → s.started ≡ true
    → start s start_loop has_cb listening ≡ ok (s, (if listening then [] else listen ∷ []))
unfolding start
start-again s start_loop has_cb listening e = simp e

module _ (print : ℕ → List ℕ) (host_port : List ℕ) (base n : ℕ) (start_loop : ℕ → ℕ) where
  -- The connection with the index `i`.
  abbrev pub nth_conn : ℕ → ℕ → Conn
  nth_conn i sockfd = record {
    name = take 31 (suffix print host_port (i + 1));
    loop = placed base n start_loop i;
    sockfd = sockfd;
  }

  -- The tasks after `i` connections.
  abbrev pub planned : ℕ → List Event → List Task
  planned i [] = []
  planned i (starts again has_cb listening ∷ es) =
      (if listening then [] else listen ∷ []) ++ planned i es
  planned i (accepts sockfd ∷ es) = established (nth_conn i sockfd) ∷ planned (i + 1) es
  planned i (closes conn ∷ es) = destroyed conn ∷ planned i es

  record Running (i : ℕ) (s : TcpServer) : Type 0 where
    unnamed : s.name ≡ []
    at_port : s.host_port ≡ host_port
    counted : s.next_conn_id ≡ i + 1
    running : s.started ≡ true
    pool : Started base n start_loop i s.thread_pool

  accepted :
      (i sockfd : ℕ) (s : TcpServer)
      → Running i s
      → (t : TcpServer) × (new_connection print s sockfd
          ≡ ok (t, established (nth_conn i sockfd) ∷ []))
        × Running (i + 1) t
  unfolding new_connection
  accepted i sockfd s v =
      let (q, eq, z) = get_next_loop-Started base n start_loop i s.thread_pool v.pool in
      (
        record s { next_conn_id = s.next_conn_id + 1; thread_pool = q },
        rw (eq, v.unnamed, v.at_port, v.counted) refl,
        record {
          unnamed = v.unnamed;
          at_port = v.at_port;
          counted = omega (arith, v.counted);
          running = v.running;
          pool = z;
        },
      )

  closed :
      (i : ℕ) (conn : Conn) (s : TcpServer) → Running i s → Running i (remove_connection s conn).0
  unfolding remove_connection
  closed i conn s v = record {
    unnamed = v.unnamed;
    at_port = v.at_port;
    counted = v.counted;
    running = v.running;
    pool = v.pool;
  }

  tasks_lem :
      (i : ℕ) (s : TcpServer) (es : List Event) → Running i s → tasks print s es ≡ ok (planned i es)
  unfolding tasks remove_connection
  tasks_lem i s [] v = refl
  tasks_lem i s (starts again has_cb listening ∷ es) v =
      rw (start-again s again has_cb listening v.running, tasks_lem i s es v) refl
  tasks_lem i s (accepts sockfd ∷ es) v =
      let (t, eq, z) = accepted i sockfd s v in rw (eq, tasks_lem (i + 1) t es z) refl
  tasks_lem i s (closes conn ∷ es) v =
      rw (tasks_lem i (remove_connection s conn).0 es (closed i conn s v)) refl

  -- A new server with `n` threads, of which the thread `j` reports the loop `start_loop j`, is
  -- started, and then it is started again, accepts and closes, in any order: every call returns.
  -- What it hands to its loops is the listening, once for each start that finds the acceptor not
  -- listening; for the connection with the index `i`, counted from zero, its establishment in the
  -- loop of the thread `i % n`, or in the base loop if `n` is zero, under the name that ends in `i
  -- + 1`, cut to 31 bytes; and for each connection that closes, its destruction. A further start
  -- changes nothing.
  pub launch-planned :
      (name_arg : List ℕ) (has_cb : Bool) (es : List Event)
      → launch print (construct base host_port name_arg) (some n) start_loop has_cb es
        ≡ ok (listen ∷ planned 0 es)
  unfolding launch tasks start ThreadPool.start
  launch-planned name_arg has_cb es =
      ap (λ r. r >>= λ later. ok (listen ∷ later)) (tasks_lem 0 begun es begun-Running)
    where
      begun : TcpServer
      begun = record (construct base host_port name_arg) {
        started = true;
        thread_pool = record {
          base_loop = base;
          started = true;
          threads_num = n;
          next = 0;
          loops = started_loops n 0 start_loop;
        };
      }

      begun-Running : Running 0 begun
      begun-Running = record {
        unnamed = refl;
        at_port = refl;
        counted = refl;
        running = refl;
        pool = record { based = refl; filled = refl; turned = zero_turn n };
      }
