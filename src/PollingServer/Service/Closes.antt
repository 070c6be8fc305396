-- ===== src/PollingServer/Service/Closes.antt =====
-- Which descriptors `Run` closes.
use netframe.Base.{
  ℕ, zero, suc, ◌+◌, ◌≡◌, refl, ap, ◌∙◌, Bool, true, false, not, ◌&&◌, List, [], ◌∷◌, ◌++◌, some,
  ok, arith, ◌==◌, if◌then◌else◌, Bool-cases, inl, inr,
}
use netframe.PollingServer.{
  Server, Act, add_fd, mod_fd, remove_fd, set_nonblocking, close_fd, wrote, start_record,
  end_record, Read, got, Write, again, Event, can_read, can_write, timing, after_read,
  handle_read_fd, handle_send_fd, lt_event, lt_model,
}
use netframe.PollingServer.Service.{Service, Wake, run, close_listen}
use netframe.PollingServer.Service.Run.{served, ends, run_adds}

abbrev pub bit : Bool → ℕ
bit true = 1
bit false = 0

-- How often the descriptor is closed.
abbrev pub closes : ℕ → List Act → ℕ
closes fd [] = 0
closes fd (close_fd k ∷ l) = bit (k == fd) + closes fd l
closes fd (add_fd k ev ∷ l) = closes fd l
closes fd (mod_fd k ev ∷ l) = closes fd l
closes fd (remove_fd k ∷ l) = closes fd l
closes fd (set_nonblocking k ∷ l) = closes fd l
closes fd (wrote k text ∷ l) = closes fd l
closes fd (start_record ∷ l) = closes fd l
closes fd (end_record ∷ l) = closes fd l

-- The call fails, but for EAGAIN; a `read` of nothing, by which the peer has closed, does not.
abbrev pub read_fails : Read → Bool
read_fails (got xs) = false
read_fails (Read.failed errno) = not (errno == again)
read_fails Read.below = true

-- A `write` of nothing does.
abbrev pub write_fails : Write → Bool
write_fails (Write.count zero) = true
write_fails (Write.count (suc n)) = false
write_fails (Write.failed errno) = not (errno == again)
write_fails Write.below = true

-- How often a call on the descriptor fails with these events.
abbrev pub failures : ℕ → ℕ → List Event → ℕ
failures listenfd fd [] = 0
failures listenfd fd (e ∷ es) =
    (if e.fd == listenfd
      then 0
      else if can_read e
      then bit (read_fails e.reading && e.fd == fd)
      else if can_write e
      then bit (write_fails e.writing && e.fd == fd)
      else 0)
    + failures listenfd fd es

closes-append : (fd : ℕ) (l k : List Act) → closes fd (l ++ k) ≡ closes fd l + closes fd k
closes-append fd [] k = omega arith
closes-append fd (close_fd j ∷ l) k = omega (arith, closes-append fd l k)
closes-append fd (add_fd j ev ∷ l) k = closes-append fd l k
closes-append fd (mod_fd j ev ∷ l) k = closes-append fd l k
closes-append fd (remove_fd j ∷ l) k = closes-append fd l k
closes-append fd (set_nonblocking j ∷ l) k = closes-append fd l k
closes-append fd (wrote j text ∷ l) k = closes-append fd l k
closes-append fd (start_record ∷ l) k = closes-append fd l k
closes-append fd (end_record ∷ l) k = closes-append fd l k

failures-append :
    (listenfd fd : ℕ) (es fs : List Event)
    → failures listenfd fd (es ++ fs) ≡ failures listenfd fd es + failures listenfd fd fs
failures-append listenfd fd [] fs = omega arith
failures-append listenfd fd (e ∷ es) fs = omega (arith, failures-append listenfd fd es fs)

closes-timing : (fd cnt : ℕ) → closes fd (timing cnt) ≡ 0
closes-timing fd cnt = ground arith

read_closes :
    (fd k : ℕ) (s : Server) (r : Read)
    → closes fd (after_read k (handle_read_fd s k r)).log
      ≡ closes fd s.log + bit (read_fails r && k == fd)
unfolding handle_read_fd
read_closes fd k s (got []) = closes-append fd s.log _
read_closes fd k s (got (x ∷ xs)) = closes-append fd s.log _
read_closes fd k s (Read.failed errno) = elim (Bool-cases (errno == again)) [
  | inl e ↦ rw e (omega arith)
  | inr e ↦ rw e (omega (arith, closes-append fd s.log (remove_fd k ∷ close_fd k ∷ [])))
]
read_closes fd k s Read.below =
    omega (arith, closes-append fd s.log (remove_fd k ∷ close_fd k ∷ []))

written_closes :
    (fd k cnt : ℕ) (l : List Act) (text : List ℕ)
    → closes fd ((l ++ (wrote k text ∷ [])) ++ timing cnt) ≡ closes fd l
written_closes fd k cnt l text = omega (
  arith,
  closes-append fd (l ++ (wrote k text ∷ [])) (timing cnt),
  closes-append fd l (wrote k text ∷ []),
  closes-timing fd cnt,
)

send_closes :
    (print : ℕ → List ℕ) (fd k : ℕ) (s : Server) (w : Write)
    → closes fd (handle_send_fd print s k w).1.log
      ≡ closes fd s.log + bit (write_fails w && k == fd)
unfolding handle_send_fd
send_closes print fd k s (Write.count zero) = omega (
  arith,
  closes-append fd _ (remove_fd k ∷ close_fd k ∷ []),
  written_closes fd k s.write_cnt s.log _,
)
send_closes print fd k s (Write.count (suc n)) =
    omega (arith, closes-append fd _ (mod_fd k 1 ∷ []), written_closes fd k s.write_cnt s.log _)
send_closes print fd k s (Write.failed errno) = elim (Bool-cases (errno == again)) [
  | inl e ↦ rw e (omega (arith, written_closes fd k s.write_cnt s.log _))
  | inr e ↦ rw e (
      omega (
        arith,
        closes-append fd _ (remove_fd k ∷ close_fd k ∷ []),
        written_closes fd k s.write_cnt s.log _,
      ))
]
send_closes print fd k s Write.below = omega (
  arith,
  closes-append fd _ (remove_fd k ∷ close_fd k ∷ []),
  written_closes fd k s.write_cnt s.log _,
)

module _ (print : ℕ → List ℕ) (listenfd fd : ℕ) where
  event_closes :
      (s : Server) (e : Event)
      → closes fd (lt_event print listenfd s e).log
        ≡ closes fd s.log + failures listenfd fd (e ∷ [])
  unfolding lt_event
  event_closes s e = ground (
    arith,
    read_closes fd e.fd s e.reading,
    send_closes print fd e.fd s e.writing,
    closes-append fd s.log (add_fd e.accepted 1 ∷ set_nonblocking e.accepted ∷ []),
  )

  closes-lt_model :
      (s : Server) (es : List Event)
      → closes fd (lt_model print listenfd s es).log ≡ closes fd s.log + failures listenfd fd es
  unfolding lt_model
  closes-lt_model s [] = omega arith
  closes-lt_model s (e ∷ es) =
      omega (arith, closes-lt_model (lt_event print listenfd s e) es, event_closes s e)

  listen_closes :
      (b : Bool) (t : Service)
      → closes fd (close_listen listenfd (b, t)).1.server.log
        ≡ closes fd t.server.log + bit (b && listenfd == fd)
  listen_closes true t = omega (arith, closes-append fd t.server.log (close_fd listenfd ∷ []))
  listen_closes false t = omega arith

  -- `Run` on a service that `Init` has set up, with the socket calls going through: each descriptor
  -- is closed as often as, in the events served, a `read` or `write` on it gives an error other
  -- than EAGAIN or a `write` on it gives nothing, and the listening socket once more when `Run`
  -- returns. So the descriptor of a client whose `read` gives nothing, because it has closed, is
  -- not closed by that.
  pub closes-run :
      (s : Service) (ws : List Wake)
      → s.running ≡ true
      → (t : Service) × (run print s
            (some (record { listenfd = listenfd; bound = true; listening = true }))
            ws
          ≡ ok (ends ws, t))
        × (closes fd t.server.log
            ≡ closes fd s.server.log
              + failures listenfd fd (served ws)
              + bit (ends ws && listenfd == fd))
  closes-run s ws on =
      let (t, eq, added) =
        run_adds print listenfd (λ v. closes fd v.log) (failures listenfd fd)
          (record { batch = closes-lt_model; nothing = refl; joined = failures-append listenfd fd })
          s ws on
          (omega (
            arith,
            closes-append fd s.server.log (add_fd listenfd 1 ∷ set_nonblocking listenfd ∷ []),
          )) in
      (
        (close_listen listenfd (ends ws, t)).1,
        eq,
        listen_closes (ends ws) t ∙ ap (λ n. n + bit (ends ws && listenfd == fd)) added,
      )
