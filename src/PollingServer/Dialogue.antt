-- ===== src/PollingServer/Dialogue.antt =====
-- pollingserver.cpp: clients that are served one at a time, each request answered before the next
-- one is read.
use netframe.Epoll
use netframe.Base.{
  ℕ, suc, ◌+◌, ◌%◌, ◌≡◌, refl, sym, ap, ap₂, ◌∙◌, Bool, true, false, List, [], ◌∷◌, ◌++◌,
  append_assoc, append-nil, Option, none, some, arith, ◌==◌, if◌then◌else◌,
}
use netframe.PollingServer.{
  Server, Act, add_fd, remove_fd, mod_fd, set_nonblocking, close_fd, wrote, start_record,
  end_record, Read, got, Write, Event, eq_bytes, lookup, insert, or_zero, bump, c_string, timing,
  handle_read_fd, handle_send_fd, lt_event, lt_model,
}
use netframe.PollingServer.Counts.{
  count_of, arrivals, lt_model_counts, lookup-insert, eq_bytes_refl,
}

-- A request that is not empty, and one less than the bytes that the write of the answer takes.
pub record Turn : Type 0 where
  pub fd : ℕ
  pub first : ℕ
  pub rest : List ℕ
  pub taken : ℕ

abbrev pub key : Turn → List ℕ
key t = c_string (t.first ∷ t.rest)

-- The descriptor is watched for reading until it is read, and then for writing.
abbrev pub asks : Turn → Event
asks t = record {
  fd = t.fd;
  events = Epoll.in_event;
  accepted = 0;
  reading = got (t.first ∷ t.rest);
  writing = Write.below;
}

abbrev pub hears : Turn → Event
hears t = record {
  fd = t.fd;
  events = Epoll.out;
  accepted = 0;
  reading = Read.below;
  writing = Write.count (suc t.taken);
}

abbrev pub dialogue : List Turn → List Event
dialogue [] = []
dialogue (t ∷ ts) = asks t ∷ hears t ∷ dialogue ts

abbrev pub Clients : ℕ → List Turn → Type 0
Clients listenfd [] = Unit
Clients listenfd (t ∷ ts) = ((t.fd == listenfd) ≡ false) × Clients listenfd ts

-- The answers that were written, in order.
abbrev pub written : List Act → List (ℕ × List ℕ)
written [] = []
written (wrote fd xs ∷ l) = (fd, xs) ∷ written l
written (add_fd fd ev ∷ l) = written l
written (remove_fd fd ∷ l) = written l
written (mod_fd fd ev ∷ l) = written l
written (set_nonblocking fd ∷ l) = written l
written (close_fd fd ∷ l) = written l
written (start_record ∷ l) = written l
written (end_record ∷ l) = written l

abbrev pub times : List ℕ → List Turn → ℕ
times k [] = 0
times k (t ∷ ts) = (if eq_bytes (key t) k then 1 else 0) + times k ts

-- Each client is told how often its text has come: before, among the turns that are past, and now.
abbrev pub counted : (ℕ → List ℕ) → Server → List Turn → List Turn → List (ℕ × List ℕ)
counted print s past [] = []
counted print s past (t ∷ ts) =
    (t.fd, print (count_of s (key t) + times (key t) past + 1)) ∷ counted print s (t ∷ past) ts

written-append : (l m : List Act) → written (l ++ m) ≡ written l ++ written m
written-append [] m = refl
written-append (wrote fd xs ∷ l) m = ap (λ ys. (fd, xs) ∷ ys) (written-append l m)
written-append (add_fd fd ev ∷ l) m = written-append l m
written-append (remove_fd fd ∷ l) m = written-append l m
written-append (mod_fd fd ev ∷ l) m = written-append l m
written-append (set_nonblocking fd ∷ l) m = written-append l m
written-append (close_fd fd ∷ l) m = written-append l m
written-append (start_record ∷ l) m = written-append l m
written-append (end_record ∷ l) m = written-append l m

written-timing : (n : ℕ) → written (timing n) ≡ []
written-timing n =
    written-append (if n == 0 then start_record ∷ [] else []) _
    ∙ ap₂ ◌++◌ (first (n == 0)) (second (n % 100000 == 0))
  where
    first : (b : Bool) → written (if b then start_record ∷ [] else []) ≡ []
    first true = refl
    first false = refl

    second : (b : Bool) → written (if b then end_record ∷ start_record ∷ [] else []) ≡ []
    second true = refl
    second false = refl

one_more :
    (k : List ℕ) (counts : List (List ℕ × ℕ))
    → or_zero (lookup k (insert k (bump (lookup k counts)) counts)) ≡ or_zero (lookup k counts) + 1
one_more k counts =
    ap or_zero (lookup-insert k k (bump (lookup k counts)) counts)
    ∙ ap (λ b. or_zero (if b then some (bump (lookup k counts)) else lookup k counts))
        (eq_bytes_refl k)
    ∙ bumped (lookup k counts)
  where
    bumped : (o : Option ℕ) → bump o ≡ or_zero o + 1
    bumped none = refl
    bumped (some n) = refl

module _ (print : ℕ → List ℕ) (listenfd : ℕ) where
  -- The server when the request is read.
  abbrev read_in : Server → Turn → Server
  read_in s t = record s {
    key = key t;
    service_key = insert (key t) (bump (lookup (key t) s.service_key)) s.service_key;
    has_send_data = true;
    log = s.log ++ (mod_fd t.fd Epoll.out ∷ []);
  }

  asks_lem :
      (s : Server) (t : Turn)
      → (t.fd == listenfd) ≡ false
      → lt_event print listenfd s (asks t) ≡ read_in s t
  unfolding lt_event handle_read_fd
  asks_lem s t ne = rw ne refl

  abbrev answered : Server → Turn → Server
  answered s t = (handle_send_fd print s t.fd (Write.count (suc t.taken))).1

  hears_lem :
      (s : Server) (t : Turn)
      → (t.fd == listenfd) ≡ false
      → lt_event print listenfd s (hears t) ≡ answered s t
  unfolding lt_event
  hears_lem s t ne = rw ne refl

  answered-written :
      (s : Server) (t : Turn)
      → written (answered s t).log ≡ written s.log ++ ((t.fd, print (count_of s s.key)) ∷ [])
  unfolding handle_send_fd
  answered-written s t =
      let v = wrote t.fd (print (count_of s s.key)) in
      written-append ((s.log ++ (v ∷ [])) ++ timing s.write_cnt) (mod_fd t.fd Epoll.in_event ∷ [])
      ∙ append-nil _
      ∙ written-append (s.log ++ (v ∷ [])) (timing s.write_cnt)
      ∙ ap (λ l. written (s.log ++ (v ∷ [])) ++ l) (written-timing s.write_cnt)
      ∙ append-nil _
      ∙ written-append s.log (v ∷ [])

  turn : Server → Turn → Server
  turn s t = lt_event print listenfd (lt_event print listenfd s (asks t)) (hears t)

  turn-written :
      (s : Server) (t : Turn)
      → (t.fd == listenfd) ≡ false
      → written (turn s t).log ≡ written s.log ++ ((t.fd, print (count_of s (key t) + 1)) ∷ [])
  unfolding turn
  turn-written s t ne =
      ap (λ (u : Server). written (lt_event print listenfd u (hears t)).log) (asks_lem s t ne)
      ∙ ap (λ (u : Server). written u.log) (hears_lem (read_in s t) t ne)
      ∙ answered-written (read_in s t) t
      ∙ ap₂ (λ l n. l ++ ((t.fd, print n) ∷ []))
          (written-append s.log (mod_fd t.fd Epoll.out ∷ []) ∙ append-nil _)
          (one_more (key t) s.service_key)

  turn-count :
      (s : Server) (t : Turn) (k : List ℕ)
      → (t.fd == listenfd) ≡ false
      → count_of (turn s t) k ≡ count_of s k + (if eq_bytes (key t) k then 1 else 0)
  unfolding turn lt_model
  turn-count s t k ne =
      lt_model_counts print listenfd s (asks t ∷ hears t ∷ []) k
      ∙ ap (λ n. count_of s k + n) (once ne)
    where
      once :
          (t.fd == listenfd) ≡ false
          → arrivals listenfd k (asks t ∷ hears t ∷ []) ≡ (if eq_bytes (key t) k then 1 else 0)
      once ne = ground arith

  dialogue-counted :
      (s u : Server) (past ts : List Turn)
      → Clients listenfd ts
      → ((k : List ℕ) → count_of u k ≡ count_of s k + times k past)
      → written (lt_model print listenfd u (dialogue ts)).log
        ≡ written u.log ++ counted print s past ts
  unfolding lt_model turn
  dialogue-counted s u past [] c h = sym (append-nil _)
  dialogue-counted s u past (t ∷ ts) c h =
      dialogue-counted s (turn u t) (t ∷ past) ts c.1
        (λ k. omega (arith, h k, turn-count u t k c.0))
      ∙ ap (λ l. l ++ counted print s (t ∷ past) ts) (turn-written u t c.0)
      ∙ append_assoc (written u.log) _ _
      ∙ ap (λ n. written u.log ++ ((t.fd, print (n + 1)) ∷ counted print s (t ∷ past) ts))
          (h (key t))

  -- Any number of clients, none of them the listening descriptor, whose requests are not empty: as
  -- long as each is answered, by a write that takes at least one byte, before the next one is read,
  -- each client is told the count of its own text, this time included.
  pub written-lt_model :
      (s : Server) (ts : List Turn)
      → Clients listenfd ts
      → written (lt_model print listenfd s (dialogue ts)).log
        ≡ written s.log ++ counted print s [] ts
  written-lt_model s ts c = dialogue-counted s s [] ts c (λ k. omega arith)
