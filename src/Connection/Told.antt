-- ===== src/Connection/Told.antt =====
-- What the client's connection callback has been told, in order.
use netframe.Base.{ℕ, suc, ◌+◌, ◌≡◌, refl, ap, List, [], ◌∷◌, ◌++◌, arith}
use netframe.Connection.{
  Connection, State, disconnected, connecting, connected, disconnecting, Act, wrote, shut_write,
  queue_in_loop, connection_cb, message_cb, close_cb, get_socket_error,
}

abbrev pub told : List Act → List State
told [] = []
told (connection_cb s ∷ l) = s ∷ told l
told (wrote xs ∷ l) = told l
told (shut_write ∷ l) = told l
told (queue_in_loop t ∷ l) = told l
told (message_cb xs ∷ l) = told l
told (close_cb ∷ l) = told l
told (get_socket_error ∷ l) = told l

pub told-append : (l m : List Act) → told (l ++ m) ≡ told l ++ told m
told-append [] m = refl
told-append (connection_cb s ∷ l) m = ap (◌∷◌ s) (told-append l m)
told-append (wrote xs ∷ l) m = told-append l m
told-append (shut_write ∷ l) m = told-append l m
told-append (queue_in_loop t ∷ l) m = told-append l m
told-append (message_cb xs ∷ l) m = told-append l m
told-append (close_cb ∷ l) m = told-append l m
told-append (get_socket_error ∷ l) m = told-append l m

abbrev down_count : List State → ℕ
down_count [] = 0
down_count (disconnected ∷ l) = suc (down_count l)
down_count (connecting ∷ l) = down_count l
down_count (connected ∷ l) = down_count l
down_count (disconnecting ∷ l) = down_count l

-- How often it has been told that the connection is down.
abbrev pub downs : List Act → ℕ
downs l = down_count (told l)

down_count-append : (l m : List State) → down_count (l ++ m) ≡ down_count l + down_count m
down_count-append [] m = omega arith
down_count-append (disconnected ∷ l) m = omega (arith, down_count-append l m)
down_count-append (connecting ∷ l) m = down_count-append l m
down_count-append (connected ∷ l) m = down_count-append l m
down_count-append (disconnecting ∷ l) m = down_count-append l m

pub downs-append : (l m : List Act) → downs (l ++ m) ≡ downs l + downs m
downs-append l m = rw (told-append l m) (down_count-append (told l) (told m))

-- The state of the connection and what the client was told are as before.
pub record Kept (c d : Connection) : Type 0 where
  pub state : d.state ≡ c.state
  pub told : told d.log ≡ told c.log
