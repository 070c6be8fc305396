-- ===== src/Demo.antt =====
-- main.cpp: the client's callbacks of `test_TcpServer`, which send the message again and again.
-- They run inside the calls of the connection, in its loop.
pub mod Repeats
pub mod Threads
pub mod Timer
pub mod Answer
use netframe.Base.{ℕ, true, List, [], ◌∷◌, ◌++◌, replicate, if◌then◌else◌, Result, ok, ◌>>=◌}
use netframe.Buffer.{Buffer, retrieve_all, retrieve_all_as_string}
use netframe.Connection.{Connection, Write, send, is_connected}

-- The text that `test_TcpServer` stores.
abbrev pub message : List ℕ
message = replicate 15 b'b' ++ (10 ∷ [])

-- A connection that is down is only printed.
unfoldable pub on_connection : Connection → Write → Result Connection
on_connection c w = if is_connected c.state then send c true message w else ok c

unfoldable pub on_write_complete : Connection → Write → Result Connection
on_write_complete c w = send c true message w

unfoldable pub on_message : Buffer → Result Buffer
on_message b = do (text, b') ← retrieve_all_as_string b; ok (retrieve_all b')
