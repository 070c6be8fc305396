-- ===== src/TcpServer/Lifetime.antt =====
-- How long a connection lives: TcpServer.cpp and TcpConnection.cpp on a server without threads,
-- whose one loop runs the functors of `newConnection` at once. A TcpConnection is destroyed with
-- the last `shared_ptr` to it, and its Socket then closes the descriptor.
pub mod Reuse
use netframe.Base.{
  ℕ, Bool, true, false, not, ◌||◌, List, [], ◌∷◌, Option, none, some, if◌then◌else◌, Result, ok,
  ◌>>=◌, ◌>>◌, assert,
}
use netframe.Handler
use netframe.Poller.{Poller}
use netframe.Connection
use netframe.Connection.{
  Connection, Task, write_complete, send_later, shutdown_later, connection_established,
}
use netframe.Connection.Life.{queued}
use netframe.TcpServer.{TcpServer, new_connection}

-- `defaultConnectionCB`, which only prints.
abbrev pub default_connection_cb : Connection → Result Connection
default_connection_cb c = ok c

-- A functor that owns a `shared_ptr`; the others are bound to `this`.
abbrev pub owns : Task → Bool
owns write_complete = true
owns (send_later xs) = false
owns shutdown_later = false

abbrev pub some_owns : List Task → Bool
some_owns [] = false
some_owns (t ∷ ts) = owns t || some_owns ts

-- The destructors of the connection, its handler and its socket: the descriptor that is closed. The
-- poller is not told.
unfoldable pub destruct_connection : Connection → Result ℕ
destruct_connection c = do Handler.destruct c.handler; ok c.handler.fd

-- What `newConnection` leaves: the server, the poller, and the descriptor if it is closed again.
pub record Accepted : Type 0 where
  pub server : TcpServer
  pub poller : Poller
  pub closed : Option ℕ

-- `newConnection` up to its return, with `connectionEstablished` and the client's callback in it;
-- `kept` is whether the client has copied the pointer, `has_cb` whether it is told of completed
-- writes, and `id` the address of the new handler.
unfoldable pub accept :
    (ℕ → List ℕ)
    → (Connection → Result Connection)
    → Bool
    → Bool
    → TcpServer
    → Poller
    → ℕ
    → ℕ
    → Result Accepted
accept print on_connection kept has_cb s p id sockfd = do
  (s', now) ← new_connection print s sockfd
  c ← connection_established (Connection.construct id sockfd p has_cb)
  c' ← on_connection c
  if kept || some_owns (queued c'.log)
      then ok (record { server = s'; poller = c'.poller; closed = none })
      else (do
        fd ← destruct_connection c'
        ok (record { server = s'; poller = c'.poller; closed = some fd }))

-- One connection after another, each with its handler's address and its descriptor: what is closed.
unfoldable pub accept_all :
    (ℕ → List ℕ)
    → (Connection → Result Connection)
    → Bool
    → Bool
    → TcpServer
    → Poller
    → List (ℕ × ℕ)
    → Result (List (Option ℕ))
accept_all print on_connection kept has_cb s p [] = ok []
accept_all print on_connection kept has_cb s p ((id, sockfd) ∷ rest) = do
  a ← accept print on_connection kept has_cb s p id sockfd
  closed ← accept_all print on_connection kept has_cb a.server a.poller rest
  ok (a.closed ∷ closed)
