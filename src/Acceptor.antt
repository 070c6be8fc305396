-- ===== src/Acceptor.antt =====
-- Acceptor.cpp, with `accept` of Socket.cpp and SocketOps.cpp: the listening socket and the spare
-- descriptor that is given up when the process has no more. What is done with descriptors is a
-- list, in order; the results of the system calls are arguments, `none` for -1.
pub mod Descriptors
use netframe.Base.{
  ℕ, suc, ◌+◌, Bool, true, false, not, List, [], ◌∷◌, ◌++◌, Option, none, some, ◌==◌, if◌then◌else◌,
  Result, ok, ◌>>=◌, ◌>>◌, assert,
}
use netframe.Handler.{Handler, make, with_reading, without_all}
use netframe.Poller.{Poller, update_handler, remove_handler}

pub record Acceptor : Type 0 where
  pub sockfd : ℕ
  pub handler : Handler
  pub has_callback : Bool
  pub listening : Bool
  pub idle_fd : Option ℕ

abbrev pub is_some : Option ℕ → Bool
is_some none = false
is_some (some n) = true

-- The constructor: the spare descriptor has to be there.
unfoldable pub construct : ℕ → ℕ → Option ℕ → Result Acceptor
construct id sockfd idle_fd = do
  assert (is_some idle_fd)
  ok (record {
    sockfd = sockfd;
    handler = (let h = make id sockfd in record h { on_read = true });
    has_callback = false;
    listening = false;
    idle_fd = idle_fd;
  })

abbrev pub set_new_connection_callback : Acceptor → Acceptor
set_new_connection_callback a = record a { has_callback = true }

-- `listen`: the flag, the system call, and reading is watched.
unfoldable pub listen : Poller → Acceptor → Result (Poller × Acceptor)
listen p a = do
  (p', h) ← update_handler p (with_reading a.handler)
  ok (p', record a { listening = true; handler = h })

-- The destructor.
unfoldable pub destruct : Poller → Acceptor → Result (Poller × Acceptor)
destruct p a = do
  (p', h) ← update_handler p (without_all a.handler)
  (p'', h') ← remove_handler p' h
  ok (p'', record a { handler = h' })

pub data Act : Type 0 where
  opened : Option ℕ → Act
  closed : Option ℕ → Act
  new_connection : ℕ → Act

abbrev pub emfile : ℕ
emfile = 24

-- `Socket::accept`: a descriptor, or the errno that is kept of the failure.
pub data Accepted : Type 0 where
  connfd : ℕ → Accepted
  failed : ℕ → Accepted

-- `handleRead`. On EMFILE the spare descriptor makes room to accept the connection, which is closed
-- at once, and is opened again.
unfoldable pub handle_read : Acceptor → Accepted → Option ℕ → Option ℕ → Acceptor × List Act
handle_read a (connfd fd) again reopened = (
  a,
  opened (some fd) ∷ (if a.has_callback then new_connection fd ∷ [] else closed (some fd) ∷ []),
)
handle_read a (failed errno) again reopened =
    if errno == emfile
    then (
      record a { idle_fd = reopened },
      closed a.idle_fd ∷ opened again ∷ closed again ∷ opened reopened ∷ [],
    )
    else (a, [])
