-- ===== src/Connection/Hosts/Streams.antt =====
-- Every connection of a loop lives as it would alone.
use netframe.Base.{
  ℕ, zero, suc, ◌≡◌, refl, sym, ap, subst, ◌∙◌, Bool, true, false, ◌||◌, ◌⊎◌, inl, inr, List, [],
  ◌∷◌, some, get_elem?, ◌==◌, if◌then◌else◌, Result, arith,
}
use netframe.Buffer.{Buffer}
use netframe.Poller.{Poller}
use netframe.Poller.Sync.{Legal, Frame, watched}
use netframe.Connection.{is_connected, is_disconnecting}
use netframe.Connection.Told.{told}
use netframe.Connection.Watch.{pending}
use netframe.Connection.Stream.{stream}
use netframe.Connection.Life.{Life, Step}
use netframe.Connection.Life.Shape.{history, Alive}
use netframe.Connection.Life.Steps.{InvLife, Phase, Step-InvLife}
use netframe.Connection.Life.Reach.{watched_up, up_Inv, new-IsValid}
use netframe.Connection.Hosts.{
  at_poller, Unlike, AllUnlike, Moves, first, later, Hosted, nobody, joins, moves, others,
}
use netframe.Connection.Hosts.Apart.{
  Sound, Good, Good-InvLife, Good-seen, Keeps, Step-Keeps, Step-alive,
}

abbrev AllGood : Poller → List Life → Type 0
AllGood p [] = Unit
AllGood p (s ∷ l) = Good p s × AllGood p l

-- No two connections share a descriptor.
abbrev AllApart : List Life → Type 0
AllApart [] = Unit
AllApart (s ∷ l) = ((s.gone ≡ true) ⊎ AllUnlike s.conn.handler.fd l) × AllApart l

record Sharing (p : Poller) (l : List Life) : Type 0 where
  legal : Legal p.calls
  good : AllGood p l
  apart : AllApart l

AllGood-seen :
    (fd : ℕ) (p q : Poller) (l : List Life)
    → Legal q.calls
    → Frame fd p q
    → AllUnlike fd l
    → AllGood p l
    → AllGood q l
AllGood-seen fd p q [] k f u v = tt
AllGood-seen fd p q (s ∷ l) k f u v =
    (Good-seen fd p q s k f u.0 v.0, AllGood-seen fd p q l k f u.1 v.1)

Good-of-InvLife : (t : Life) → InvLife t → Good t.conn.poller t
Good-of-InvLife t v = record { sound = go t.gone v.phase; streamed = v.streamed }
  where
    go : (b : Bool) → Phase b t.conn → Sound b t.conn.poller t
    go true z = tt
    go false z = z

-- What one move does: on one descriptor, that of a connection that is not destroyed.
record Moved (p q : Poller) (l m : List Life) : Type 0 where
  fd : ℕ
  legal : Legal q.calls
  frame : Frame fd p q
  good : AllGood q m
  apart : AllApart m
  unlike : (k : ℕ) → AllUnlike k l → AllUnlike k m × ((fd == k) ≡ false)

module _ (on_message : Buffer → Result Buffer) where
  first-Moved :
      (p : Poller) (s t : Life) (l : List Life)
      → AllGood p (s ∷ l)
      → AllApart (s ∷ l)
      → Step on_message (at_poller p s) t
      → Moved p t.conn.poller (s ∷ l) (t ∷ l)
  first-Moved p s t l v a st = record {
    fd = s.conn.handler.fd;
    legal = keeps.legal;
    frame = keeps.own.frame;
    good = (
      Good-of-InvLife t (Step-InvLife on_message st inv),
      AllGood-seen s.conn.handler.fd p t.conn.poller l keeps.legal keeps.own.frame rest v.1,
    );
    apart = (inr (subst (λ n. AllUnlike n l) (sym keeps.own.same_fd) rest), a.1);
    unlike = λ k u. ((inr (ap (λ n. n == k) keeps.own.same_fd ∙ live k u.0), u.1), live k u.0);
  }
    where
      alive : s.gone ≡ false
      alive = Step-alive on_message st

      inv : InvLife (at_poller p s)
      inv = Good-InvLife p s alive v.0

      keeps : Keeps (at_poller p s) t
      keeps = Step-Keeps on_message st inv

      rest : AllUnlike s.conn.handler.fd l
      rest = elim (a.0) [ inl over ↦ cc alive | inr u ↦ u ]

      live : (k : ℕ) → Unlike k s → (s.conn.handler.fd == k) ≡ false
      live k (inl over) = cc alive
      live k (inr ne) = ne

  Moves-Moved :
      {p q : Poller} {l m : List Life}
      → Moves on_message p q l m
      → AllGood p l
      → AllApart l
      → Moved p q l m
  Moves-Moved {p} {q} (first {s} {t} {l} st e) v a =
      subst (λ x. Moved p x (s ∷ l) (t ∷ l)) e (first-Moved p s t l v a st)
  Moves-Moved {p} {q} (later {s} {l} {m} mv) v a =
      let z = Moves-Moved mv v.1 a.1 in
      record {
        fd = z.fd;
        legal = z.legal;
        frame = z.frame;
        good = (Good-seen z.fd p q s z.legal z.frame (far z a.0) v.0, z.good);
        apart = (stay z a.0, z.apart);
        unlike = λ k u. let (u', ne) = z.unlike k u.1 in ((u.0, u'), ne);
      }
    where
      far : (z : Moved p q l m) → (s.gone ≡ true) ⊎ AllUnlike s.conn.handler.fd l → Unlike z.fd s
      far z (inl over) = inl over
      far z (inr u) = let ne = (z.unlike s.conn.handler.fd u).1 in inr (ground arith)

      stay :
          Moved p q l m
          → (s.gone ≡ true) ⊎ AllUnlike s.conn.handler.fd l
          → (s.gone ≡ true) ⊎ AllUnlike s.conn.handler.fd m
      stay z (inl over) = inl over
      stay z (inr u) = inr (z.unlike s.conn.handler.fd u).0

  Hosted-Sharing : {p : Poller} {l : List Life} → Hosted on_message p l → Sharing p l
  Hosted-Sharing (nobody legal) = record { legal = legal; good = tt; apart = tt }
  Hosted-Sharing (joins {p} id sockfd cb h unmapped unwatched u) =
      let z = Hosted-Sharing h in
      record {
        legal = z.legal;
        good = (
          record {
            sound = record {
              shape = record {
                legal = z.legal;
                tracked = (unmapped, unwatched);
                valid = new-IsValid;
                silent = refl;
                idle = refl;
                quiet = refl;
              };
              told_so = refl;
            };
            streamed = refl;
          },
          z.good,
        );
        apart = (inr u, z.apart);
      }
  Hosted-Sharing (moves h mv) =
      let z = Hosted-Sharing h in
      let y = Moves-Moved mv z.good z.apart in
      record { legal = y.legal; good = y.good; apart = y.apart }
  Hosted-Sharing (others {p} {q} {l} fd h u f k) =
      let z = Hosted-Sharing h in
      record { legal = k; good = AllGood-seen fd p q l k f u z.good; apart = z.apart }

  nth :
      (p : Poller) (l : List Life) (i : ℕ) (s : Life)
      → get_elem? l i ≡ some s
      → AllGood p l
      → Good p s
  nth p [] i s e v = cc
  nth p (x ∷ l) zero s e v = subst (Good p) (ground arith) v.0
  nth p (x ∷ l) (suc i) s e v = nth p l i s e v.1

  -- On a loop with any number of connections, each on a descriptor of its own, and with other
  -- handlers on others, in whatever order their calls come, as long as no assertion fails: for each
  -- connection, what the kernel took of it, followed by its output buffer, is exactly the messages
  -- that reached its own `sendInLoop`.
  pub Hosted-stream :
      {p : Poller} {l : List Life} (i : ℕ) (s : Life)
      → Hosted on_message p l
      → get_elem? l i ≡ some s
      → stream s.conn ≡ s.handed
  Hosted-stream {p} {l} i s h e = (nth p l i s e (Hosted-Sharing h).good).streamed

  -- On a loop with any number of connections, each on a descriptor of its own, and with other
  -- handlers on others, in whatever order their calls come, as long as no assertion fails: of a
  -- connection that is not destroyed, between its establishment and its close, the client has been
  -- told what its state says, and the kernel watches its descriptor for reading, and for writing
  -- exactly while its output waits.
  pub Hosted-watched :
      {p : Poller} {l : List Life} (i : ℕ) (s : Life)
      → Hosted on_message p l
      → get_elem? l i ≡ some s
      → s.gone ≡ false
      → (is_connected s.conn.state || is_disconnecting s.conn.state) ≡ true
      → (told s.conn.log ≡ history s.conn.state)
        × (watched p.calls s.conn.handler.fd ≡ some (if pending s.conn then 7 else 3))
  Hosted-watched {p} {l} i s h e g up =
      let v = nth p l i s e (Hosted-Sharing h).good in
      let a : Alive s.conn.state (record (s.conn) { poller = p }) =
        subst (λ b. Sound b p s) g v.sound in
      (
        a.told_so,
        watched_up (record (s.conn) { poller = p })
            (up_Inv s.conn.state (record (s.conn) { poller = p }) up a.shape),
      )
