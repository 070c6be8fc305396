-- ===== src/EventLoop/Lifetime/Serve.antt =====
-- The descriptors over the life of a loop and of an acceptor on it.
use netframe.Base.{
  ℕ, ◌≡◌, refl, sym, ap, ◌∙◌, Bool, true, false, not, ◌&&◌, ◌||◌, [], ◌∷◌, ◌++◌, Option, none,
  if◌then◌else◌, ok, ◌==◌, Bool-cases, inl, inr, arith,
}
use netframe.Handler.{make, State}
use netframe.Poller.{Poller, lookup, insert, is_none, add, update_handler, k_init_event_list_size}
use netframe.Poller.Sync.{lookup-insert}
use netframe.SocketOps.{SockaddrIn}
use netframe.Socket.{System, Host, epoll_error, another_loop, is_negative, unchecked}
use netframe.Socket.SetUp.Descriptors.{Descriptors, shut_both, life-open}
use netframe.EventLoop.Current.{enter_thread, leave_thread}
use netframe.EventLoop.Lifetime.{
  Loop, create_poller, create_eventfd, construct, destroy_poller, destruct, serve,
}

module _ {W : Type 0} (s : System W) where
  abbrev epoll_call : W → ℕ × W
  epoll_call w = s.epoll_create w

  abbrev eventfd_call : W → ℕ × W
  eventfd_call w = s.eventfd (epoll_call w).1

  -- The world once the loop is there.
  abbrev pub started : W → W
  started w = (eventfd_call w).1

  -- The loop as it is constructed.
  abbrev began : ℕ → ℕ → W → Loop
  began this id w =
      let fd = (eventfd_call w).0 in
      let handler = make id fd in
      record {
        this = this;
        epollfd = (epoll_call w).0;
        poller = record {
          handlermap = insert fd id [];
          eventlist_size = k_init_event_list_size;
          calls = record { op = add; fd = fd; events = 3 } ∷ [];
        };
        wakeup_fd = fd;
        wakeup_handler = record handler { events = 3; on_read = true; state = State.added };
      }

  abbrev constructed : ℕ → Option ℕ → Host W → Host W
  constructed this slot h = record {
    world = started h.world;
    printed =
        (h.printed ++ (if is_negative (epoll_call h.world).0 then epoll_error ∷ [] else []))
        ++ (if (enter_thread slot this).1 then another_loop ∷ [] else []);
  }

  construct_lem :
      (this id : ℕ) (slot : Option ℕ) (h : Host W)
      → is_negative (eventfd_call h.world).0 ≡ false
      → construct s this id slot h
        ≡ ok (began this id h.world, (enter_thread slot this).0, constructed this slot h)
  unfolding construct create_poller create_eventfd update_handler lookup
  construct_lem this id slot h e = rw e refl

  module _ (is_open : W → ℕ → Bool) (laws : Descriptors s is_open) where
    -- Once the loop is there.
    started_open :
        (w : W) (j : ℕ)
        → is_open (started w) j ≡ (
            (not (is_negative (eventfd_call w).0) && (eventfd_call w).0 == j)
            || ((not (is_negative (epoll_call w).0) && (epoll_call w).0 == j) || is_open w j))
    started_open w j =
        laws.eventfd_opens.opens (epoll_call w).1 j
        ∙ ap (λ o. (not (is_negative (eventfd_call w).0) && (eventfd_call w).0 == j) || o)
            (laws.epoll_opens.opens w j)

    -- The socket is not the eventfd.
    unknown :
        (id : ℕ) (w : W)
        → is_negative (eventfd_call w).0 ≡ false
        → is_none (lookup (s.socket (started w)).0 (insert (eventfd_call w).0 id [])) ≡ true
    unfolding lookup
    unknown id w e =
        let fd = (eventfd_call w).0 in
        let sock = (s.socket (started w)).0 in
        ap is_none (lookup-insert fd sock id []) ∙ elim (Bool-cases (fd == sock)) [
          | inl same ↦
              let closed = laws.socket_opens.fresh (started w) in
              let there = started_open w sock in absurd (ground (arith, e, same, closed, there))
          | inr other ↦ rw other refl
        ]

    -- Where the system keeps the laws of descriptors, and `eventfd` and the opening of /dev/null
    -- succeed: a loop that is constructed, an acceptor on it that listens and is destroyed, and the
    -- loop's destructor pass their assertions, whichever of `epoll_create1`, `socket`, `bind` and
    -- `listen` fail; exactly the descriptors that were open before are open after them, and the
    -- thread has no loop.
    pub serve-open :
        (this id key : ℕ) (addr : SockaddrIn) (slot : Option ℕ) (h : Host W)
        → is_negative (s.eventfd (s.epoll_create h.world).1).0 ≡ false
        → is_negative (s.open_null (s.socket (started h.world)).1).0 ≡ false
        → (q : Poller) × (k : Host W) × (serve s this id key addr slot h ≡ ok (q, none, k))
          × ((j : ℕ) → is_open k.world j ≡ is_open h.world j)
    unfolding serve destruct destroy_poller leave_thread
    serve-open this id key addr slot h e n =
        let h₁ = constructed this slot h in
        let l = began this id h.world in
        let (q, h₂, lived, same, _) =
          life-open s is_open laws l.poller key addr h₁ n (unknown id h.world e) in
        let ended =
          unchecked (unchecked h₂ (s.close l.wakeup_fd h₂.world))
            (s.close l.epollfd (s.close l.wakeup_fd h₂.world).1) in
        (
          q,
          ended,
          rw (construct_lem this id slot h e, lived) refl,
          λ j.
              let ep = l.epollfd in
              let wk = l.wakeup_fd in
              laws.close_closes ep _ j
              ∙ ap (λ o. not (ep == j) && o)
                  (laws.close_closes wk _ j
                    ∙ ap (λ o. not (wk == j) && o) (same j ∙ started_open h.world j))
              ∙ shut_both ep wk j (is_negative ep) (is_negative wk) (is_open h.world j)
                  (λ f. ap (is_open h.world) (sym f) ∙ laws.epoll_opens.fresh h.world)
                  (λ f.
                    ap (λ k. (not (is_negative ep) && ep == k) || is_open h.world k) (sym f)
                    ∙ sym (laws.epoll_opens.opens h.world wk)
                    ∙ laws.eventfd_opens.fresh (epoll_call h.world).1),
        )
