-- ===== src/PollingServer/Service.antt =====
-- pollingserver.cpp: `Init`, `Release` and the loop of `Run`, and `m_getCurrentTime`. The results
-- of the system calls are arguments.
pub mod Run
pub mod Line
pub mod Closes
use netframe.Base.{
  ℕ, ◌+◌, Bool, true, false, List, [], ◌∷◌, ◌++◌, Option, none, some, length, take, replicate,
  if◌then◌else◌, bit_or, Result, ok, ◌>>=◌, ◌>>◌, assert,
}
use netframe.Epoll
use netframe.Buffer.{copy_to}
use netframe.PollingServer.{Server, Act, add_fd, set_nonblocking, close_fd, does, Event, lt_model}

pub record Service : Type 0 where
  pub server : Server
  pub servic_name : List ℕ
  pub service_ip : List ℕ
  pub service_port : ℕ
  pub running : Bool
  pub log_buf : List ℕ

-- The constructor; `new char[50]` is not cleared.
abbrev pub construct : List ℕ → Service
construct garbage = record {
  server = record {
    key = [];
    service_key = [];
    has_send_data = false;
    time_check = 0;
    write_cnt = 0;
    log = [];
  };
  servic_name = [];
  service_ip = [];
  service_port = 0;
  running = false;
  log_buf = garbage;
}

abbrev pub init : Service → List ℕ → List ℕ → ℕ → Service
init s name ip port = record s {
  servic_name = name;
  service_ip = ip;
  service_port = port;
  running = true;
}

abbrev pub release : Service → Service
release s = record s { running = false }

-- `m_setNonblocking`: the flags that it returns, and those that it sets.
abbrev pub o_nonblock : ℕ
o_nonblock = 2048

abbrev pub nonblocking : ℕ → ℕ × ℕ
nonblocking old_option = (old_option, bit_or old_option o_nonblock)

-- The set-up of the listening socket.
pub record Opened : Type 0 where
  pub listenfd : ℕ
  pub bound : Bool
  pub listening : Bool

-- What one `Wait` returns, none for a failure, and whether another thread calls `Release`
-- meanwhile.
pub data Wake : Type 0 where
  woken : Option (List Event) → Bool → Wake

abbrev pub released_by : Bool → Service → Service
released_by released s = if released then release s else s

-- The `while` over the wakes to come. The flag says that it has ended; if not, it waits.
unfoldable pub serve : (ℕ → List ℕ) → ℕ → Service → List Wake → Bool × Service
serve print listenfd s [] = if s.running then (false, s) else (true, s)
serve print listenfd s (woken none released ∷ ws) =
    if s.running then (true, released_by released s) else (true, s)
serve print listenfd s (woken (some es) released ∷ ws) =
    let handled = record s { server = lt_model print listenfd (s.server) es } in
    let rest = serve print listenfd (released_by released handled) ws in
    if s.running then rest else (true, s)

abbrev pub close_listen : ℕ → Bool × Service → Bool × Service
close_listen listenfd (true, s) =
    (true, record s { server = does (s.server) (close_fd listenfd ∷ []) })
close_listen listenfd (false, s) = (false, s)

-- `Run`; `none` is a `socket` that failed.
unfoldable pub run : (ℕ → List ℕ) → Service → Option Opened → List Wake → Result (Bool × Service)
run print s none ws = do assert false; ok (true, s)
run print s (some o) ws = do
  assert o.bound
  assert o.listening
  ok (
      close_listen o.listenfd (
        serve print o.listenfd
          (record s {
            server =
                does (s.server)
                  (add_fd o.listenfd Epoll.in_event ∷ set_nonblocking o.listenfd ∷ []);
          })
          ws))

-- `m_getCurrentTime`: `str_time` is the text of `ctime`, and each `memcpy` writes into the array.
unfoldable pub get_current_time : Service → List ℕ → List ℕ → Result Service
get_current_time s str_time id = do
  b₁ ← copy_to s.log_buf 0 (take 24 str_time)
  b₂ ← copy_to b₁ 24 (b' ' ∷ [])
  b₃ ← copy_to b₂ 25 id
  b₄ ← copy_to b₃ (25 + length id) (10 ∷ [])
  ok (record s { log_buf = b₄ })
