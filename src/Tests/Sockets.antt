-- ===== src/Tests/Sockets.antt =====
-- Socket.cpp, Acceptor.cpp and EventLoop.cpp: a loop and an acceptor on a system with four
-- descriptors, 3 for a socket, 4 for /dev/null, 5 for epoll and 6 for an eventfd, where `bind`
-- fails.
use netframe.Base.{
  ℕ, ◌≡◌, refl, Bool, true, false, not, ◌&&◌, ◌||◌, [], ◌==◌, if◌then◌else◌, ok, none, arith,
}
use netframe.Poller.{Poller}
use netframe.SocketOps.{zeroed}
use netframe.Socket.{System, Host, minus_one, is_negative}
use netframe.Socket.SetUp.Descriptors.{Opens, Descriptors}
use netframe.EventLoop.Lifetime.{serve}
use netframe.EventLoop.Lifetime.Serve.{serve-open}

abbrev Four : Type 0
Four = Bool × Bool × Bool × Bool

abbrev has : Four → ℕ → Bool
has (a, b, c, d) j = (3 == j && a) || ((4 == j && b) || ((5 == j && c) || (6 == j && d)))

abbrev open_socket : Four → ℕ × Four
open_socket (a, b, c, d) = if a then (minus_one, (a, b, c, d)) else (3, (true, b, c, d))

abbrev open_null : Four → ℕ × Four
open_null (a, b, c, d) = if b then (minus_one, (a, b, c, d)) else (4, (a, true, c, d))

abbrev open_epoll : Four → ℕ × Four
open_epoll (a, b, c, d) = if c then (minus_one, (a, b, c, d)) else (5, (a, b, true, d))

abbrev open_eventfd : Four → ℕ × Four
open_eventfd (a, b, c, d) = if d then (minus_one, (a, b, c, d)) else (6, (a, b, c, true))

abbrev close_one : ℕ → Four → Four
close_one fd (a, b, c, d) =
    (not (fd == 3) && a, not (fd == 4) && b, not (fd == 5) && c, not (fd == 6) && d)

abbrev four : System Four
four = record {
  socket = open_socket;
  open_null = open_null;
  epoll_create = open_epoll;
  eventfd = open_eventfd;
  bind = λ fd addr w. (minus_one, w);
  listen = λ fd w. (0, w);
  setsockopt = λ fd name v w. (0, w);
  fcntl = λ fd cmd v w. (0, w);
  shutdown = λ fd w. (0, w);
  close = λ fd w. (0, close_one fd w);
}

socket_lem :
    (a b c d : Bool) (j : ℕ)
    → (has (a, b, c, d) (open_socket (a, b, c, d)).0 ≡ false)
      × (has (open_socket (a, b, c, d)).1 j ≡ (
          (not (is_negative (open_socket (a, b, c, d)).0) && (open_socket (a, b, c, d)).0 == j)
          || has (a, b, c, d) j))
socket_lem true b c d j = ground arith
socket_lem false b c d j = ground arith

socket-Opens : Opens has open_socket
socket-Opens = record {
  fresh = λ (a, b, c, d). (socket_lem a b c d 0).0;
  opens = λ (a, b, c, d) j. (socket_lem a b c d j).1;
}

null_lem :
    (a b c d : Bool) (j : ℕ)
    → (has (a, b, c, d) (open_null (a, b, c, d)).0 ≡ false)
      × (has (open_null (a, b, c, d)).1 j ≡ (
          (not (is_negative (open_null (a, b, c, d)).0) && (open_null (a, b, c, d)).0 == j)
          || has (a, b, c, d) j))
null_lem a true c d j = ground arith
null_lem a false c d j = ground arith

null-Opens : Opens has open_null
null-Opens = record {
  fresh = λ (a, b, c, d). (null_lem a b c d 0).0;
  opens = λ (a, b, c, d) j. (null_lem a b c d j).1;
}

epoll_lem :
    (a b c d : Bool) (j : ℕ)
    → (has (a, b, c, d) (open_epoll (a, b, c, d)).0 ≡ false)
      × (has (open_epoll (a, b, c, d)).1 j ≡ (
          (not (is_negative (open_epoll (a, b, c, d)).0) && (open_epoll (a, b, c, d)).0 == j)
          || has (a, b, c, d) j))
epoll_lem a b true d j = ground arith
epoll_lem a b false d j = ground arith

epoll-Opens : Opens has open_epoll
epoll-Opens = record {
  fresh = λ (a, b, c, d). (epoll_lem a b c d 0).0;
  opens = λ (a, b, c, d) j. (epoll_lem a b c d j).1;
}

eventfd_lem :
    (a b c d : Bool) (j : ℕ)
    → (has (a, b, c, d) (open_eventfd (a, b, c, d)).0 ≡ false)
      × (has (open_eventfd (a, b, c, d)).1 j ≡ (
          (not (is_negative (open_eventfd (a, b, c, d)).0) && (open_eventfd (a, b, c, d)).0 == j)
          || has (a, b, c, d) j))
eventfd_lem a b c true j = ground arith
eventfd_lem a b c false j = ground arith

eventfd-Opens : Opens has open_eventfd
eventfd-Opens = record {
  fresh = λ (a, b, c, d). (eventfd_lem a b c d 0).0;
  opens = λ (a, b, c, d) j. (eventfd_lem a b c d j).1;
}

close_lem :
    (fd : ℕ) (a b c d : Bool) (j : ℕ)
    → has (close_one fd (a, b, c, d)) j ≡ (not (fd == j) && has (a, b, c, d) j)
close_lem fd a b c d j = ground arith

four-Descriptors : Descriptors four has
four-Descriptors = record {
  socket_opens = socket-Opens;
  null_opens = null-Opens;
  epoll_opens = epoll-Opens;
  eventfd_opens = eventfd-Opens;
  bind_keeps = λ fd addr w j. refl;
  listen_keeps = λ fd w j. refl;
  option_keeps = λ fd name v w j. refl;
  close_closes = λ fd (a, b, c, d) j. close_lem fd a b c d j;
}

abbrev quiet : Host Four
quiet = record { world = (false, false, false, false); printed = [] }

serve-open_example :
    (q : Poller) × (k : Host Four) × (serve four 7 8 9 zeroed none quiet ≡ ok (q, none, k))
    × ((j : ℕ) → has k.world j ≡ has quiet.world j)
serve-open_example = serve-open four has four-Descriptors 7 8 9 zeroed none quiet refl refl
