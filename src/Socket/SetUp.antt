-- ===== src/Socket/SetUp.antt =====
-- Acceptor.cpp with its Socket: the whole constructor, the start of listening, and the whole
-- destructor, with the system calls that they make.
pub mod Listens
pub mod Descriptors
use netframe.Base.{ℕ, Bool, true, false, Option, none, some, if◌then◌else◌, Result, ok, ◌>>=◌, ◌>>◌}
use netframe.Handler
use netframe.Poller.{Poller}
use netframe.SocketOps.{SockaddrIn}
use netframe.Acceptor
use netframe.Acceptor.{Acceptor}
use netframe.Socket.{
  System, Host, minus_one, is_negative, unchecked, create_nonblocking_or_die, bind_address, listen,
  set_reuse_addr, close,
}

-- `m_idleFd`, as the acceptor of Acceptor.antt keeps it.
abbrev pub spare : ℕ → Option ℕ
spare fd = if is_negative fd then none else some fd

abbrev pub spare_fd : Option ℕ → ℕ
spare_fd none = minus_one
spare_fd (some fd) = fd

module _ {W : Type 0} (s : System W) where
  -- The constructor on a listening address; `id` is the address of the handler.
  unfoldable pub construct : ℕ → SockaddrIn → Host W → Result (Acceptor × Host W)
  construct id addr h = do
    let (sockfd, h₁) = create_nonblocking_or_die s h
    let (idle_fd, w) = s.open_null h₁.world
    a ← Acceptor.construct id sockfd (spare idle_fd)
    let h₂ = set_reuse_addr s sockfd true (record h₁ { world = w })
    ok (a, bind_address s sockfd addr h₂)

  -- `listen`, once the callback is set.
  unfoldable pub start : Poller → Acceptor → Host W → Result (Poller × Acceptor × Host W)
  start p a h = do
    let h₁ = listen s a.sockfd h
    (q, b) ← Acceptor.listen p (Acceptor.set_new_connection_callback a)
    ok (q, b, h₁)

  -- The destructor, with those of the handler and of the socket.
  unfoldable pub tear_down : Poller → Acceptor → Host W → Result (Poller × Host W)
  tear_down p a h = do
    (q, b) ← Acceptor.destruct p a
    let h₁ = unchecked h (s.close (spare_fd a.idle_fd) h.world)
    Handler.destruct b.handler
    ok (q, close s a.sockfd h₁)

  -- One acceptor from its constructor to its destructor, on the poller of its loop.
  unfoldable pub life : Poller → ℕ → SockaddrIn → Host W → Result (Poller × Host W)
  life p id addr h = do (a, h₁) ← construct id addr h; (q, b, h₂) ← start p a h₁; tear_down q b h₂
