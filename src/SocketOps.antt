-- ===== src/SocketOps.antt =====
-- SocketOps.cpp: the errno that `accept` leaves, and socket addresses. The results of the system
-- calls are arguments, `none` for a failure.
pub mod Errno
use netframe.Base.{
  ℕ, Bool, true, false, ◌&&◌, ◌||◌, List, [], ◌∷◌, ◌++◌, take, Option, none, some, ◌==◌, leb,
  if◌then◌else◌, Result, ok, ◌>>◌, assert,
}
use netframe.Buffer.Ints.{Machine}

-- EAGAIN, ECONNABORTED, EINTR, EPROTO, EPERM and EMFILE: the caller is to see these.
abbrev pub is_expected : ℕ → Bool
is_expected e = (e == 11) || ((e == 103) || ((e == 4) || ((e == 71) || ((e == 1) || (e == 24)))))

-- The errno after a failed `accept`: what `printf` makes of it, unless it is put back.
unfoldable pub accept_errno : (ℕ → ℕ) → ℕ → ℕ
accept_errno printf saved_errno =
    if is_expected saved_errno then saved_errno else printf (printf saved_errno)

-- `getSocketError`: the error of the socket, or the errno of the call that asks for it.
pub data SocketError : Type 0 where
  optval failed : ℕ → SocketError

abbrev pub get_socket_error : SocketError → ℕ
get_socket_error (SocketError.optval n) = n
get_socket_error (SocketError.failed errno) = errno

-- `struct sockaddr_in`; port and address are in network order.
pub record SockaddrIn : Type 0 where
  pub sin_family : ℕ
  pub sin_port : ℕ
  pub s_addr : ℕ

abbrev pub zeroed : SockaddrIn
zeroed = record { sin_family = 0; sin_port = 0; s_addr = 0 }

abbrev pub af_inet : ℕ
af_inet = 2

abbrev pub inet_addrstrlen : ℕ
inet_addrstrlen = 16

-- `inet_ntop`, `inet_pton` and the `%u` of `snprintf`.
pub record Inet : Type 0 where
  pub ntop : ℕ → List ℕ
  pub pton : List ℕ → Option ℕ
  pub print : ℕ → List ℕ

-- `snprintf(buf, size, ...)` keeps one byte for the end of the text.
unfoldable pub to_ip_port : Machine → Inet → ℕ → SockaddrIn → List ℕ
to_ip_port m i room addr =
    let port = m.be16toh addr.sin_port in take room (i.ntop addr.s_addr ++ (b':' ∷ i.print port))

unfoldable pub to_ip : Inet → ℕ → SockaddrIn → Result (List ℕ)
to_ip i size addr = do assert (leb inet_addrstrlen size); ok (i.ntop addr.s_addr)

-- An address that cannot be read is left as it was.
abbrev pub parsed : Option ℕ → SockaddrIn → SockaddrIn
parsed none addr = addr
parsed (some a) addr = record addr { s_addr = a }

unfoldable pub from_ip_port : Machine → Inet → List ℕ → ℕ → SockaddrIn → SockaddrIn
from_ip_port m i ip port addr =
    parsed (i.pton ip) (record addr { sin_family = af_inet; sin_port = m.htobe16 port })

-- `getLocalAddr` and `getPeerAddr`: zeroes if the call fails.
abbrev pub get_addr : Option SockaddrIn → SockaddrIn
get_addr none = zeroed
get_addr (some addr) = addr

unfoldable pub is_self_connect : Option SockaddrIn → Option SockaddrIn → Bool
is_self_connect local_name peer_name =
    let localaddr = get_addr local_name in
    let peeraddr = get_addr peer_name in
    (localaddr.sin_port == peeraddr.sin_port) && (localaddr.s_addr == peeraddr.s_addr)
