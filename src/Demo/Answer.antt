-- ===== src/Demo/Answer.antt =====
-- main.cpp: `test_Acceptor`, an acceptor whose callback answers each connection and closes it.
use netframe.Base.{
  ℕ, ◌+◌, ◌≡◌, refl, sym, ap, ◌∙◌, ok_of_bind, ok_inj, true, List, [], ◌∷◌, ◌++◌, Option, none,
  some, Result, ok, ◌>>=◌, arith, Bool-cases, inl, inr, ◌==◌, Bool, false, if◌then◌else◌,
}
use netframe.Poller.{Poller, update_handler}
use netframe.Acceptor.{
  Acceptor, Act, opened, closed, Accepted, connfd, failed, emfile, construct,
  set_new_connection_callback, listen, handle_read,
}
use netframe.Acceptor

-- "how are you?\n".
abbrev pub greeting : List ℕ
greeting =
    b'h' ∷ b'o' ∷ b'w' ∷ b' ' ∷ b'a' ∷ b'r' ∷ b'e' ∷ b' ' ∷ b'y' ∷ b'o' ∷ b'u' ∷ b'?' ∷ 10 ∷ []

-- What is done with descriptors: by the acceptor, and by the callback.
pub data Deed : Type 0 where
  acts : Act → Deed
  writes : ℕ → List ℕ → Deed

-- `newConnection` of main.cpp; what `write` returns is not looked at.
unfoldable pub new_connection : ℕ → List Deed
new_connection sockfd = writes sockfd greeting ∷ acts (closed (some sockfd)) ∷ []

abbrev pub call_back : List Act → List Deed
call_back [] = []
call_back (opened fd ∷ l) = acts (opened fd) ∷ call_back l
call_back (closed fd ∷ l) = acts (closed fd) ∷ call_back l
call_back (Acceptor.new_connection fd ∷ l) = new_connection fd ++ call_back l

-- The acceptor of `test_Acceptor` when its loop starts; `id` is its handler's address.
unfoldable pub set_up : Poller → ℕ → ℕ → Option ℕ → Result (Poller × Acceptor)
set_up p id sockfd idle_fd = do
  a ← construct id sockfd idle_fd
  listen p (set_new_connection_callback a)

-- One `accept` after another, each with what `accept` and `open` return on EMFILE.
unfoldable pub answer_all : Acceptor → List (Accepted × Option ℕ × Option ℕ) → Acceptor × List Deed
answer_all a [] = (a, [])
answer_all a ((r, again, reopened) ∷ rs) =
    let (b, now) = handle_read a r again reopened in
    let (c, later) = answer_all b rs in (c, call_back now ++ later)

-- Whether it is this descriptor, and how often it comes into being, and goes.
abbrev pub is_fd : ℕ → Option ℕ → ℕ
is_fd j none = 0
is_fd j (some fd) = if fd == j then 1 else 0

abbrev pub opens : ℕ → List Deed → ℕ
opens j [] = 0
opens j (acts (opened fd) ∷ l) = is_fd j fd + opens j l
opens j (acts (closed fd) ∷ l) = opens j l
opens j (acts (Acceptor.new_connection fd) ∷ l) = opens j l
opens j (writes fd xs ∷ l) = opens j l

abbrev pub closes : ℕ → List Deed → ℕ
closes j [] = 0
closes j (acts (opened fd) ∷ l) = closes j l
closes j (acts (closed fd) ∷ l) = is_fd j fd + closes j l
closes j (acts (Acceptor.new_connection fd) ∷ l) = closes j l
closes j (writes fd xs ∷ l) = closes j l

-- The descriptor that is closed next, if nothing comes before.
abbrev pub closed_next : List Deed → Option ℕ
closed_next [] = none
closed_next (acts (opened fd) ∷ l) = none
closed_next (acts (closed fd) ∷ l) = fd
closed_next (acts (Acceptor.new_connection fd) ∷ l) = none
closed_next (writes fd xs ∷ l) = none

-- The answers, in order, each with the descriptor that is closed right after it.
abbrev pub answers : List Deed → List (ℕ × List ℕ × Option ℕ)
answers [] = []
answers (acts x ∷ l) = answers l
answers (writes fd xs ∷ l) = (fd, xs, closed_next l) ∷ answers l

abbrev pub greeted : List (Accepted × Option ℕ × Option ℕ) → List (ℕ × List ℕ × Option ℕ)
greeted [] = []
greeted ((connfd fd, _, _) ∷ rs) = (fd, greeting, some fd) ∷ greeted rs
greeted ((failed errno, _, _) ∷ rs) = greeted rs

record Kept (a b : Acceptor) (now : List Deed) (rs : List (Accepted × Option ℕ × Option ℕ))
    : Type 0 where
  pub balance : (j : ℕ) → is_fd j a.idle_fd + opens j now ≡ closes j now + is_fd j b.idle_fd
  pub told : answers now ≡ greeted rs

answer_all-Kept :
    (a : Acceptor) (rs : List (Accepted × Option ℕ × Option ℕ))
    → a.has_callback ≡ true
    → let (b, deeds) = answer_all a rs in Kept a b deeds rs
unfolding answer_all handle_read new_connection
answer_all-Kept a [] h = record { balance = λ j. omega arith; told = refl }
answer_all-Kept a ((connfd fd, again, reopened) ∷ rs) h =
    answered a.has_callback h (answer_all-Kept a rs h)
  where
    answered :
        (b : Bool)
        → b ≡ true
        → Kept a (answer_all a rs).0 (answer_all a rs).1 rs
        → Kept a
            (answer_all a rs).0
            (call_back (
                opened (some fd)
                ∷ (if b then Acceptor.new_connection fd ∷ [] else closed (some fd) ∷ []))
              ++ (answer_all a rs).1)
            ((connfd fd, again, reopened) ∷ rs)
    answered true e k = record {
      balance = λ j. omega (arith, k.balance j);
      told = ap (λ l. (fd, greeting, some fd) ∷ l) k.told;
    }
    answered false e k = cc
answer_all-Kept a ((failed errno, again, reopened) ∷ rs) h = elim (Bool-cases (errno == emfile)) [
  | inl full ↦
      let k = answer_all-Kept (record a { idle_fd = reopened }) rs h in
      rw full (record { balance = λ j. omega (arith, k.balance j); told = k.told })
  | inr other ↦
      let k = answer_all-Kept a rs h in rw other (record { balance = k.balance; told = k.told })
]

set_up_lem :
    (p q : Poller) (a : Acceptor) (id sockfd : ℕ) (idle_fd : Option ℕ)
    → set_up p id sockfd idle_fd ≡ ok (q, a)
    → (a.has_callback ≡ true) × (a.idle_fd ≡ idle_fd)
unfolding set_up construct listen
set_up_lem p q a id sockfd none e = absurd (cc)
set_up_lem p q a id sockfd (some fd) e =
    let (_, _, last) = ok_of_bind (update_handler p _) _ (q, a) e in
    let same = ap (λ (x : Poller × Acceptor). x.1) (ok_inj last) in
    (sym (ap (λ (x : Acceptor). x.has_callback) same), sym (ap (λ (x : Acceptor). x.idle_fd) same))

-- `test_Acceptor`, once it is set up, through any sequence of calls of its acceptor, also when
-- descriptors run out. Each connection that is handed to the callback is sent the greeting once, in
-- order, and its descriptor is closed right after; one that is accepted in place of the spare
-- descriptor, to be closed at once, is sent nothing. Of each descriptor, what was held as the spare
-- one at first and what was opened is as often closed, or held as the spare one at last.
pub answer_all_lem :
    (p q : Poller) (a : Acceptor) (id sockfd : ℕ) (idle_fd : Option ℕ)
    (rs : List (Accepted × Option ℕ × Option ℕ))
    → set_up p id sockfd idle_fd ≡ ok (q, a)
    → let (b, deeds) = answer_all a rs in
      ((j : ℕ) → is_fd j idle_fd + opens j deeds ≡ closes j deeds + is_fd j b.idle_fd)
      × (answers deeds ≡ greeted rs)
answer_all_lem p q a id sockfd idle_fd rs e =
    let (called, held) = set_up_lem p q a id sockfd idle_fd e in
    let k = answer_all-Kept a rs called in
    (λ j. ap (λ o. is_fd j o + opens j (answer_all a rs).1) (sym held) ∙ k.balance j, k.told)
