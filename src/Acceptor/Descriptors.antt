-- ===== src/Acceptor/Descriptors.antt =====
-- No descriptor is lost by the acceptor.
use netframe.Base.{ℕ, suc, ◌+◌, ◌≡◌, List, [], ◌∷◌, Option, none, some, arith}
use netframe.Acceptor.{
  Acceptor, Act, opened, closed, new_connection, Accepted, connfd, failed, handle_read,
}

abbrev pub one_if : Option ℕ → ℕ
one_if none = 0
one_if (some fd) = 1

-- Descriptors that came into being, that went, and that were handed to the callback.
abbrev pub opens : List Act → ℕ
opens [] = 0
opens (opened fd ∷ l) = one_if fd + opens l
opens (closed fd ∷ l) = opens l
opens (new_connection fd ∷ l) = opens l

abbrev pub closes : List Act → ℕ
closes [] = 0
closes (opened fd ∷ l) = closes l
closes (closed fd ∷ l) = one_if fd + closes l
closes (new_connection fd ∷ l) = closes l

abbrev pub handed : List Act → ℕ
handed [] = 0
handed (opened fd ∷ l) = handed l
handed (closed fd ∷ l) = handed l
handed (new_connection fd ∷ l) = suc (handed l)

-- Whatever `accept` returns, also with no descriptors left and whether or not the spare one can be
-- opened again: with the spare descriptor counted, what was open before and what was opened is
-- what was closed, what the callback owns now and the spare descriptor that is held.
pub handle_read_balance :
    (a : Acceptor) (r : Accepted) (again reopened : Option ℕ)
    → let (b, acts) = handle_read a r again reopened in
      one_if a.idle_fd + opens acts ≡ closes acts + handed acts + one_if b.idle_fd
unfolding handle_read
handle_read_balance a (connfd fd) again reopened = ground arith
handle_read_balance a (failed errno) again reopened = ground arith
