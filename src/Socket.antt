-- ===== src/Socket.antt =====
-- Socket.cpp and the set-up calls of SocketOps.cpp. An `int` is its 32 bits, so that -1 is
-- `minus_one`. The system calls are a parameter: functions on a world that only they know. What is
-- printed is a list.
pub mod SetUp
use netframe.Base.{ℕ, ◌-◌, ◌^◌, Bool, true, false, List, [], ◌∷◌, ◌++◌, leb, bit_or, if◌then◌else◌}
use netframe.SocketOps.{SockaddrIn}

abbrev pub minus_one : ℕ
minus_one = 0xffff_ffff

abbrev pub is_negative : ℕ → Bool
is_negative n = leb 0x8000_0000 n

pub data Sockopt : Type 0 where
  tcp_nodelay reuseaddr keepalive : Sockopt

pub data Fcntl : Type 0 where
  getfl setfl getfd setfd : Fcntl

-- Each call takes the descriptor first, and gives its result.
pub record System (W : Type 0) : Type 0 where
  pub socket : W → ℕ × W
  pub open_null : W → ℕ × W
  pub epoll_create : W → ℕ × W
  pub eventfd : W → ℕ × W
  pub bind : ℕ → SockaddrIn → W → ℕ × W
  pub listen : ℕ → W → ℕ × W
  pub setsockopt : ℕ → Sockopt → ℕ → W → ℕ × W
  pub fcntl : ℕ → Fcntl → ℕ → W → ℕ × W
  pub shutdown : ℕ → W → ℕ × W
  pub close : ℕ → W → ℕ × W

-- What is printed when a call fails, and when a thread constructs a second loop.
pub data Complaint : Type 0 where
  create_error bind_error listen_error close_error shutdown_error epoll_error another_loop :
      Complaint

pub record Host (W : Type 0) : Type 0 where
  pub world : W
  pub printed : List Complaint

abbrev pub o_nonblock : ℕ
o_nonblock = 0x800

abbrev pub fd_cloexec : ℕ
fd_cloexec = 1

module _ {W : Type 0} where
  -- The world after a call, and the complaint if it has failed.
  abbrev pub checked : Complaint → Host W → ℕ × W → Host W
  checked c h (ret, w) = record {
    world = w;
    printed = h.printed ++ (if is_negative ret then c ∷ [] else []);
  }

  -- The world after a call whose result is not looked at.
  abbrev pub unchecked : Host W → ℕ × W → Host W
  unchecked h (ret, w) = record h { world = w }

module _ {W : Type 0} (s : System W) where
  unfoldable pub create_nonblocking_or_die : Host W → ℕ × Host W
  create_nonblocking_or_die h =
      let (sockfd, w) = s.socket h.world in (sockfd, checked create_error h (sockfd, w))

  unfoldable pub bind_or_die : ℕ → SockaddrIn → Host W → Host W
  bind_or_die sockfd addr h = checked bind_error h (s.bind sockfd addr h.world)

  unfoldable pub listen_or_die : ℕ → Host W → Host W
  listen_or_die sockfd h = checked listen_error h (s.listen sockfd h.world)

  unfoldable pub close : ℕ → Host W → Host W
  close sockfd h = checked close_error h (s.close sockfd h.world)

  unfoldable pub shutdown_write : ℕ → Host W → Host W
  shutdown_write sockfd h = checked shutdown_error h (s.shutdown sockfd h.world)

  -- `setNonBlockAndCloseOnExec`.
  unfoldable pub set_non_block_and_close_on_exec : ℕ → W → W
  set_non_block_and_close_on_exec sockfd w =
      let (flags, w₁) = s.fcntl sockfd getfl 0 w in
      let (_, w₂) = s.fcntl sockfd setfl (bit_or flags o_nonblock) w₁ in
      let (fdflags, w₃) = s.fcntl sockfd getfd 0 w₂ in
      let (_, w₄) = s.fcntl sockfd setfd (bit_or fdflags fd_cloexec) w₃ in w₄

  -- `on ? 1 : 0`, and the three options that a Socket sets.
  unfoldable pub set_option : Sockopt → ℕ → Bool → Host W → Host W
  set_option name sockfd on h = unchecked h (s.setsockopt sockfd name (if on then 1 else 0) h.world)

  abbrev pub set_tcp_no_delay : ℕ → Bool → Host W → Host W
  set_tcp_no_delay = set_option tcp_nodelay

  abbrev pub set_reuse_addr : ℕ → Bool → Host W → Host W
  set_reuse_addr = set_option reuseaddr

  abbrev pub set_keep_alive : ℕ → Bool → Host W → Host W
  set_keep_alive = set_option keepalive

  -- `Socket::bindAddress`, `Socket::listen`, `Socket::shutdownWrite` and `~Socket`.
  abbrev pub bind_address : ℕ → SockaddrIn → Host W → Host W
  bind_address = bind_or_die

  abbrev pub listen : ℕ → Host W → Host W
  listen = listen_or_die

  abbrev pub destruct : ℕ → Host W → Host W
  destruct = close
