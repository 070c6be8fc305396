-- ===== src/Connection/Events.antt =====
-- The events of a connection: Handler.cpp calls back into TcpConnection.cpp. `handleEvent` reads
-- the events that it is given and no older ones, so they are an argument.
pub mod Steps
pub mod HangUp
pub mod Effects
use netframe.Base.{ℕ, Bool, List, [], ◌∷◌, Result, ok, ◌>>=◌}
use netframe.Buffer.{Buffer, readable_bytes, Readv}
use netframe.Handler.{Handler, Callback, close, error, read, write, set_revents, handle_event}
use netframe.Connection.{Connection, Write, handle_close, handle_error, handle_read, handle_write}

-- One callback of the handler, as the constructor binds them. `r` is what `readv` returns, `w` what
-- `write` returns when it is given so many bytes.
abbrev pub run_callback :
    (Buffer → Result Buffer) → Readv → (ℕ → Write) → Callback → Connection → Result Connection
run_callback on_message r w close c = handle_close c
run_callback on_message r w error c = ok (handle_error c)
run_callback on_message r w read c = handle_read on_message c r
run_callback on_message r w write c = handle_write c (w (readable_bytes c.output))

unfoldable pub run_callbacks :
    (Buffer → Result Buffer) → Readv → (ℕ → Write) → List Callback → Connection → Result Connection
run_callbacks on_message r w [] c = ok c
run_callbacks on_message r w (b ∷ bs) c =
    run_callback on_message r w b c >>= run_callbacks on_message r w bs

-- `handleEvent` on the handler of the connection; `alive` is whether somebody still owns it.
unfoldable pub handle_events :
    (Buffer → Result Buffer) → Readv → (ℕ → Write) → Bool → ℕ → Connection → Result Connection
handle_events on_message r w alive revents c =
    run_callbacks on_message r w (handle_event (set_revents c.handler revents) alive).1 c
