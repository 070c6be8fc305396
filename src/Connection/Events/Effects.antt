-- ===== src/Connection/Events/Effects.antt =====
-- What one event of a connection does, seen from outside: what its owner, its client and the kernel
-- are asked for, against the bits of the event and what `readv` returns.
pub mod Weights
pub mod Sums
pub mod Seen
use netframe.Epoll
use netframe.Base.{
  ℕ, ◌+◌, ◌*◌, ◌≤◌, ◌≡◌, refl, sym, ap, subst, ◌∙◌, Bool, true, false, not, ◌&&◌, ◌||◌, List, [],
  ◌∷◌, ◌++◌, bit_or, if◌then◌else◌, Result, ok, ok_inj, ok_of_bind, ok_of_assert, ok_of_if, inl,
  inr, ◌⊎◌, length, take, drop, leb, ltb, ◌==◌, arith,
}
use netframe.Buffer
use netframe.Buffer.{
  Buffer, Readv, readable_bytes, read_fd, copy_to, begin_write, writable_bytes, append,
}
use netframe.Handler.{
  Handler, Callback, close, error, read, write, has, call_if, dispatch, set_revents, handle_event,
  without_all, without_writing, is_writing,
}
use netframe.Poller.{Poller, update_handler}
use netframe.Connection.{
  Connection, Act, wrote, shut_write, queue_in_loop, connection_cb, message_cb, close_cb,
  get_socket_error, Task, write_complete, State, disconnected, Write, count, failed, record_act,
  set_state, update_events, shutdown_in_loop, drained, write_more, handle_close, handle_error,
  after_read, handle_read, handle_write, is_connected, is_connecting, is_disconnecting,
  queue_write_complete,
}
use netframe.Connection.Local.{after_drain}
use netframe.Connection.Life.{Life, Takes}
use netframe.Connection.Life.Reach.{Reach}
use netframe.Connection.Events.Steps.{handle_events-Reach}
use netframe.Connection.Events.{run_callback, run_callbacks, handle_events}

abbrev pub only_if : Bool → ℕ → ℕ
only_if true n = n
only_if false n = 0

-- The three groups of bits that call the close, the error and the read callback.
abbrev pub hangs_up : ℕ → Bool
hangs_up revents = has revents Epoll.hup && not (has revents Epoll.in_event)

abbrev pub errs : ℕ → Bool
errs revents = has revents (bit_or Epoll.error Epoll.invalid)

abbrev pub readable : ℕ → Bool
readable revents = has revents (bit_or (bit_or Epoll.in_event Epoll.pri) Epoll.rdhup)

-- How much the entries of the log weigh.
abbrev pub tally : (Act → ℕ) → List Act → ℕ
tally m [] = 0
tally m (a ∷ l) = m a + tally m l

-- What the entries are: the owner is told to close, the error of the socket is asked for, the
-- client gets a message, and the kernel takes bytes.
abbrev pub is_close : Act → ℕ
is_close close_cb = 1
is_close (wrote xs) = 0
is_close shut_write = 0
is_close (queue_in_loop t) = 0
is_close (connection_cb s) = 0
is_close (message_cb xs) = 0
is_close get_socket_error = 0

abbrev pub is_error : Act → ℕ
is_error get_socket_error = 1
is_error (wrote xs) = 0
is_error shut_write = 0
is_error (queue_in_loop t) = 0
is_error (connection_cb s) = 0
is_error (message_cb xs) = 0
is_error close_cb = 0

abbrev pub is_message : Act → ℕ
is_message (message_cb xs) = 1
is_message (wrote xs) = 0
is_message shut_write = 0
is_message (queue_in_loop t) = 0
is_message (connection_cb s) = 0
is_message close_cb = 0
is_message get_socket_error = 0

abbrev pub is_write : Act → ℕ
is_write (wrote xs) = 1
is_write shut_write = 0
is_write (queue_in_loop t) = 0
is_write (connection_cb s) = 0
is_write (message_cb xs) = 0
is_write close_cb = 0
is_write get_socket_error = 0

-- What `readv` returns: the end of the input, a failure, or bytes.
abbrev pub at_end : Readv → ℕ
at_end (Readv.got []) = 1
at_end (Readv.got (x ∷ xs)) = 0
at_end (Readv.failed errno) = 0

abbrev pub read_fails : Readv → ℕ
read_fails (Readv.got xs) = 0
read_fails (Readv.failed errno) = 1

abbrev pub gives_bytes : Readv → ℕ
gives_bytes (Readv.got []) = 0
gives_bytes (Readv.got (x ∷ xs)) = 1
gives_bytes (Readv.failed errno) = 0
