-- ===== src/Socket/SetUp/Descriptors.antt =====
-- The descriptors that are open over the life of an acceptor.
use netframe.Base.{
  ℕ, ◌≡◌, refl, sym, ap, ◌∙◌, Bool, true, false, not, ◌&&◌, ◌||◌, if◌then◌else◌, Result, ok, ◌>>=◌,
  ◌==◌, arith, List, Option, none, some, err, Bool-cases, inl, inr,
}
use netframe.Poller.{Poller, lookup, insert, erase, is_none}
use netframe.Poller.Sync.{lookup-insert, lookup-erase}
use netframe.SocketOps.{SockaddrIn}
use netframe.Acceptor.{Acceptor}
use netframe.Socket.{System, Sockopt, reuseaddr, Host, is_negative}
use netframe.Socket.SetUp.{construct, start, tear_down, life}
use netframe.Socket.SetUp.Listens.{
  left, socket_call, null_call, bind_call, listen_call, set_up_lem, tear_down_lem,
}

-- A call that opens gives a descriptor that is not open, or -1.
pub record Opens {W : Type 0} (is_open : W → ℕ → Bool) (call : W → ℕ × W) : Type 0 where
  pub fresh : (w : W) → is_open w (call w).0 ≡ false
  pub opens :
      (w : W) (j : ℕ)
      → is_open (call w).1 j ≡ ((not (is_negative (call w).0) && (call w).0 == j) || is_open w j)

-- What the system calls do to the descriptors: `close` closes its own, and the others that do not
-- open change nothing.
pub record Descriptors {W : Type 0} (s : System W) (is_open : W → ℕ → Bool) : Type 0 where
  pub socket_opens : Opens is_open s.socket
  pub null_opens : Opens is_open s.open_null
  pub epoll_opens : Opens is_open s.epoll_create
  pub eventfd_opens : Opens is_open s.eventfd
  pub bind_keeps :
      (fd : ℕ) (addr : SockaddrIn) (w : W) (j : ℕ) → is_open (s.bind fd addr w).1 j ≡ is_open w j
  pub listen_keeps : (fd : ℕ) (w : W) (j : ℕ) → is_open (s.listen fd w).1 j ≡ is_open w j
  pub option_keeps :
      (fd : ℕ) (name : Sockopt) (v : ℕ) (w : W) (j : ℕ)
      → is_open (s.setsockopt fd name v w).1 j ≡ is_open w j
  pub close_closes :
      (fd : ℕ) (w : W) (j : ℕ) → is_open (s.close fd w).1 j ≡ (not (fd == j) && is_open w j)

-- Opened and closed again.
pub shut :
    (fd j : ℕ) (bad o : Bool)
    → (fd ≡ j → o ≡ false)
    → (not (fd == j) && ((not bad && fd == j) || o)) ≡ o
shut fd j bad o h = elim (Bool-cases (fd == j)) [
  | inl same ↦ rw same (sym (h (ground arith)))
  | inr other ↦ rw other (unopened bad)
]
  where
    unopened : (bad : Bool) → ((not bad && false) || o) ≡ o
    unopened true = refl
    unopened false = refl

-- Two that are opened one after the other, and closed in the other order.
pub shut_both :
    (fd idle j : ℕ) (bad worse o : Bool)
    → (fd ≡ j → o ≡ false)
    → (idle ≡ j → ((not bad && fd == j) || o) ≡ false)
    → (not (fd == j)
        && (not (idle == j) && ((not worse && idle == j) || ((not bad && fd == j) || o))))
      ≡ o
shut_both fd idle j bad worse o h k =
    ap (λ x. not (fd == j) && x) (shut idle j worse _ k) ∙ shut fd j bad o h

is_none-eq : (o : Option ℕ) → is_none o ≡ true → o ≡ none
is_none-eq none e = refl
is_none-eq (some i) e = cc

erased :
    (fd id j : ℕ) (m : List (ℕ × ℕ))
    → is_none (lookup fd m) ≡ true
    → lookup j (erase fd (insert fd id m)) ≡ lookup j m
erased fd id j m e =
    lookup-erase fd j (insert fd id m)
    ∙ ap (λ o. if fd == j then none else o) (lookup-insert fd j id m)
    ∙ elim (Bool-cases (fd == j)) [
      | inl same ↦
          let eq : fd ≡ j = ground arith in
          rw same (sym (ap (λ k. lookup k m) (sym eq) ∙ is_none-eq (lookup fd m) e))
      | inr other ↦ rw other refl
    ]

bind_assoc :
    {A B C : Type 0} (r : Result A) (f : A → Result B) (g : B → Result C)
    → (r >>= λ a. f a >>= g) ≡ ((r >>= f) >>= g)
bind_assoc (ok a) f g = refl
bind_assoc (err e) f g = refl

module _ {W : Type 0} (s : System W) (is_open : W → ℕ → Bool) (laws : Descriptors s is_open)
    (p : Poller) (id : ℕ) (addr : SockaddrIn) (h : Host W) where
  at_end : W
  at_end =
      (s.close (socket_call s p id addr h).0
        (s.close (null_call s p id addr h).0 (listen_call s p id addr h).1).1).1

  -- Before the closes.
  opened :
      (j : ℕ)
      → is_open (listen_call s p id addr h).1 j ≡ (
          (not (is_negative (null_call s p id addr h).0) && (null_call s p id addr h).0 == j)
          || ((not (is_negative (socket_call s p id addr h).0)
                && (socket_call s p id addr h).0 == j)
              || is_open h.world j))
  opened j =
      laws.listen_keeps (socket_call s p id addr h).0 (bind_call s p id addr h).1 j
      ∙ laws.bind_keeps _ addr _ j
      ∙ laws.option_keeps _ reuseaddr 1 _ j
      ∙ laws.null_opens.opens (socket_call s p id addr h).1 j
      ∙ ap
          (λ o.
            (not (is_negative (null_call s p id addr h).0) && (null_call s p id addr h).0 == j)
            || o)
          (laws.socket_opens.opens h.world j)

  same_open : (j : ℕ) → is_open at_end j ≡ is_open h.world j
  unfolding at_end
  same_open j =
      let fd = (socket_call s p id addr h).0 in
      let idle = (null_call s p id addr h).0 in
      laws.close_closes fd _ j
      ∙ ap (λ o. not (fd == j) && o)
          (laws.close_closes idle _ j ∙ ap (λ o. not (idle == j) && o) (opened j))
      ∙ shut_both fd idle j (is_negative fd) (is_negative idle) (is_open h.world j)
          (λ e. ap (is_open h.world) (sym e) ∙ laws.socket_opens.fresh h.world)
          (λ e.
            ap (λ k. (not (is_negative fd) && fd == k) || is_open h.world k) (sym e)
            ∙ sym (laws.socket_opens.opens h.world idle)
            ∙ laws.null_opens.fresh (socket_call s p id addr h).1)

  -- Where the system keeps these laws, the spare descriptor can be opened, and the poller does not
  -- know the socket's descriptor: an acceptor that is constructed, listens and is destroyed, also
  -- if `socket`, `bind` or `listen` fails, passes its assertions, and leaves exactly the
  -- descriptors open that were open before, and in the poller's map exactly the handlers that were
  -- there.
  pub life-open :
      is_negative (null_call s p id addr h).0 ≡ false
      → is_none (lookup (socket_call s p id addr h).0 p.handlermap) ≡ true
      → (q : Poller) × (k : Host W) × (life s p id addr h ≡ ok (q, k))
        × ((j : ℕ) → is_open k.world j ≡ is_open h.world j)
        × ((j : ℕ) → lookup j q.handlermap ≡ lookup j p.handlermap)
  unfolding life at_end
  life-open e u =
      let fd = (socket_call s p id addr h).0 in
      let idle = (null_call s p id addr h).0 in
      let (w, set, world, _) = set_up_lem s p id addr h e u in
      let (k, torn, end) = tear_down_lem s p id fd idle w in
      (
        left p id fd,
        k,
        bind_assoc (construct s id addr h) (λ (a, h₁). start s p a h₁) finish
            ∙ ap (λ (r : Result (Poller × Acceptor × Host W)). r >>= finish) set
            ∙ torn,
        λ j.
            ap (λ v. is_open v j) (end ∙ ap (λ v. (s.close fd (s.close idle v).1).1) world)
            ∙ same_open j,
        λ j. erased fd id j p.handlermap u,
      )
    where
      finish : Poller × Acceptor × Host W → Result (Poller × Host W)
      finish (q, b, v) = tear_down s q b v
