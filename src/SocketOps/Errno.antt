-- ===== src/SocketOps/Errno.antt =====
-- What the acceptor sees of a failed `accept`.
use netframe.Base.{ℕ, ◌≡◌, [], ◌∷◌, Option, arith, ◌==◌, if◌then◌else◌}
use netframe.Acceptor.{Acceptor, opened, closed, emfile, failed, handle_read}
use netframe.SocketOps.{accept_errno}

-- Whatever `printf` does to errno, as long as it does not put EMFILE there: `handleRead` of the
-- acceptor gives up its spare descriptor, accepts, closes and opens the spare one again exactly if
-- `accept4` failed with EMFILE, and does nothing after any other failure.
pub handle_read-accept_errno :
    (printf : ℕ → ℕ) (a : Acceptor) (errno : ℕ) (again reopened : Option ℕ)
    → ((e : ℕ) → printf e ≡ emfile → e ≡ emfile)
    → handle_read a (failed (accept_errno printf errno)) again reopened ≡ (
        if errno == emfile
        then (
          record a { idle_fd = reopened },
          closed a.idle_fd ∷ opened again ∷ closed again ∷ opened reopened ∷ [],
        )
        else (a, []))
unfolding handle_read accept_errno
handle_read-accept_errno printf a errno again reopened h = ground (arith, h errno, h (printf errno))
