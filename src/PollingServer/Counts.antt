-- ===== src/PollingServer/Counts.antt =====
-- The counts of the service, and whose count a client is told.
use netframe.Base.{
  ℕ, zero, suc, ◌+◌, ◌≡◌, ◌↔◌, Bool-cases, inl, inr, refl, ap, ◌∙◌, Bool, true, false, List, [],
  ◌∷◌, ◌++◌, append_assoc, some, arith, ◌==◌, if◌then◌else◌,
}
use netframe.Epoll
use netframe.PollingServer.{
  Server, Act, Read, got, Write, Event, eq_bytes, lookup, insert, without, or_zero, bump, c_string,
  subscript, handle_read_fd, handle_send_fd, can_read, after_read, lt_event, lt_model, wrote,
  mod_fd, timing,
}

pub eq_bytes_refl : (xs : List ℕ) → eq_bytes xs xs ≡ true
unfolding eq_bytes
eq_bytes_refl [] = refl
eq_bytes_refl (x ∷ xs) = ground (arith, eq_bytes_refl xs)

eq_bytes→eq : (xs ys : List ℕ) → eq_bytes xs ys ≡ true → xs ≡ ys
unfolding eq_bytes
eq_bytes→eq [] [] h = refl
eq_bytes→eq [] (y ∷ ys) h = cc
eq_bytes→eq (x ∷ xs) [] h = cc
eq_bytes→eq (x ∷ xs) (y ∷ ys) h = ground (arith, eq_bytes→eq xs ys)

pub eq_bytes_iff : (xs ys : List ℕ) → (eq_bytes xs ys ≡ true) ↔ (xs ≡ ys)
eq_bytes_iff xs ys = (eq_bytes→eq xs ys, λ e. rw e (eq_bytes_refl ys))

lookup-without :
    (k j : List ℕ) (counts : List (List ℕ × ℕ))
    → eq_bytes k j ≡ false
    → lookup j (without k counts) ≡ lookup j counts
unfolding lookup without
lookup-without k j [] h = refl
lookup-without k j ((i, n) ∷ counts) h =
    ground
      (arith, eq_bytes_iff k j, eq_bytes_iff i k, eq_bytes_iff i j, lookup-without k j counts h)

pub lookup-insert :
    (text key : List ℕ) (n : ℕ) (counts : List (List ℕ × ℕ))
    → lookup key (insert text n counts) ≡ (if eq_bytes text key then some n else lookup key counts)
unfolding lookup insert
lookup-insert text key n counts = elim (Bool-cases (eq_bytes text key)) [
  | inl e ↦ ground arith
  | inr e ↦ ground (arith, lookup-without text key counts e)
]

-- The count kept for a text.
abbrev pub count_of : Server → List ℕ → ℕ
count_of s k = or_zero (lookup k s.service_key)

abbrev bit : Bool → ℕ
bit true = 1
bit false = 0

abbrev arrives : List ℕ → Read → ℕ
arrives k (got []) = 0
arrives k (got (x ∷ xs)) = bit (eq_bytes (c_string (x ∷ xs)) k)
arrives k (Read.failed errno) = 0
arrives k Read.below = 0

-- How often the text arrives with these events.
abbrev pub arrivals : ℕ → List ℕ → List Event → ℕ
arrivals listenfd k [] = 0
arrivals listenfd k (e ∷ es) =
    (if e.fd == listenfd then 0 else if can_read e then arrives k e.reading else 0)
    + arrivals listenfd k es

read_counts :
    (s : Server) (fd : ℕ) (r : Read) (k : List ℕ)
    → count_of (after_read fd (handle_read_fd s fd r)) k ≡ count_of s k + arrives k r
unfolding handle_read_fd
read_counts s fd (got []) k = omega arith
read_counts s fd (got (x ∷ xs)) k = ground (
  arith,
  lookup-insert (c_string (x ∷ xs)) k (bump (lookup (c_string (x ∷ xs)) s.service_key))
      s.service_key,
  eq_bytes_iff (c_string (x ∷ xs)) k,
)
read_counts s fd (Read.failed errno) k = ground arith
read_counts s fd Read.below k = omega arith

send_keeps :
    (print : ℕ → List ℕ) (s : Server) (fd : ℕ) (w : Write)
    → (handle_send_fd print s fd w).1.service_key ≡ (subscript s).service_key
unfolding handle_send_fd
send_keeps print s fd (Write.count zero) = ground arith
send_keeps print s fd (Write.count (suc n)) = ground arith
send_keeps print s fd (Write.failed errno) = ground arith
send_keeps print s fd Write.below = ground arith

send_counts :
    (print : ℕ → List ℕ) (s : Server) (fd : ℕ) (w : Write) (k : List ℕ)
    → count_of (handle_send_fd print s fd w).1 k ≡ count_of s k
send_counts print s fd w k =
    ap (λ m. or_zero (lookup k m)) (send_keeps print s fd w)
    ∙ ground (
      arith,
      lookup-insert s.key k (or_zero (lookup s.key s.service_key)) s.service_key,
      eq_bytes_iff s.key k,
    )

event_counts :
    (print : ℕ → List ℕ) (listenfd : ℕ) (s : Server) (e : Event) (k : List ℕ)
    → count_of (lt_event print listenfd s e) k ≡ count_of s k + arrivals listenfd k (e ∷ [])
unfolding lt_event
event_counts print listenfd s e k =
    ground (arith, read_counts s e.fd e.reading k, send_counts print s e.fd e.writing k)

-- After any batch of events, from any clients in any order, the count kept for each text is what
-- it was before plus the number of times that the text arrived.
pub lt_model_counts :
    (print : ℕ → List ℕ) (listenfd : ℕ) (s : Server) (es : List Event) (k : List ℕ)
    → count_of (lt_model print listenfd s es) k ≡ count_of s k + arrivals listenfd k es
unfolding lt_model
lt_model_counts print listenfd s [] k = omega arith
lt_model_counts print listenfd s (e ∷ es) k = omega (
  arith,
  lt_model_counts print listenfd (lt_event print listenfd s e) es k,
  event_counts print listenfd s e k,
)

-- Two clients are read one after the other, and then the first is answered, by a write that takes
-- at least one byte: what it is told is the count of the second client's text.
pub reply_of_other :
    (print : ℕ → List ℕ) (s : Server) (a b x y n : ℕ) (xs ys : List ℕ)
    → let s₁ = (handle_read_fd s a (got (x ∷ xs))).1 in
      let s₂ = (handle_read_fd s₁ b (got (y ∷ ys))).1 in
      (rest : List Act) × ((handle_send_fd print s₂ a (Write.count (suc n))).1.log
        ≡ s₂.log ++ (wrote a (print (count_of s₂ (c_string (y ∷ ys)))) ∷ rest))
unfolding handle_read_fd handle_send_fd
reply_of_other print s a b x y n xs ys = (
  timing s.write_cnt ++ (mod_fd a Epoll.in_event ∷ []),
  append_assoc (l ++ (v ∷ [])) (timing s.write_cnt) _ ∙ append_assoc l (v ∷ []) _,
)
  where
    s₂ : Server
    s₂ = (handle_read_fd (handle_read_fd s a (got (x ∷ xs))).1 b (got (y ∷ ys))).1

    l : List Act
    l = s₂.log

    v : Act
    v = wrote a (print (count_of s₂ (c_string (y ∷ ys))))
