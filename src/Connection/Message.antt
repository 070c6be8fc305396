-- ===== src/Connection/Message.antt =====
-- TcpConnection.cpp: the send that takes a Buffer, next to the one that takes bytes.
use netframe.Base.{
  ℕ, ◌≡◌, refl, ap, ◌∙◌, Bool, true, false, not, ◌&&◌, List, [], slice, if◌then◌else◌, Result, ok,
  ◌>>=◌, arith,
}
use netframe.Buffer
use netframe.Buffer.{Buffer, readable_bytes, retrieve_all_as_string}
use netframe.Buffer.Contents.{IsValid, contents, copy_from_lem, readable_lem}
use netframe.Buffer.Ops.{Holds, retrieve_all_as_string_lem}
use netframe.Connection.{
  Connection, Write, is_connected, queue_in_loop, send_later, record_act, send, send_in_loop,
  send_buffer,
}

read_lem :
    (m : Buffer)
    → IsValid m
    → Buffer.copy_from m.bytes (Buffer.peek m) (readable_bytes m) ≡ ok (contents m)
read_lem m v =
    copy_from_lem m.bytes m.reader_index (readable_bytes m)
      (omega (arith, readable_lem m v, v.ordered, v.inside))
    ∙ ap (λ n. ok (slice m.reader_index n m.bytes)) (readable_lem m v)

-- What is left of a message, beside the connection.
abbrev pub beside : Buffer → Connection → Result (Connection × Buffer)
beside n d = ok (d, n)

-- On a valid message, `send(Buffer*)` does to the connection what `send` does with the readable
-- bytes of the message; but the message is left empty if the connection is up and the call comes
-- from another thread, and with all its bytes otherwise.
pub send_buffer-send :
    (c : Connection) (in_loop : Bool) (m : Buffer) (w : Write)
    → IsValid m
    → (n : Buffer) × Holds (if is_connected c.state && not in_loop then [] else contents m) n
      × (send_buffer c in_loop m w ≡ (send c in_loop (contents m) w >>= beside n))
unfolding send_buffer send
send_buffer-send c in_loop m w v = go (is_connected c.state) in_loop
  where
    go :
        (up in_loop : Bool)
        → (n : Buffer) × Holds (if up && not in_loop then [] else contents m) n
          × ((if up
                then (if in_loop
                    then (do
                      chars ← Buffer.copy_from m.bytes (Buffer.peek m) (readable_bytes m)
                      d ← send_in_loop c chars w
                      beside m d)
                    else (do
                      (chars, rest) ← retrieve_all_as_string m
                      beside rest (record_act c (queue_in_loop (send_later chars)))))
                else beside m c)
              ≡ ((if up
                    then (if in_loop
                        then send_in_loop c (contents m) w
                        else ok (record_act c (queue_in_loop (send_later (contents m)))))
                    else ok c)
                  >>= beside n))
    go true true = (
      m,
      record { valid = v; text = refl },
      ap (λ (r : Result (List ℕ)). r >>= λ chars. send_in_loop c chars w >>= beside m)
          (read_lem m v),
    )
    go true false = let (n, eq, holds) = retrieve_all_as_string_lem m v in (n, holds, rw eq refl)
    go false in_loop = (m, record { valid = v; text = refl }, refl)
