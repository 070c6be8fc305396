-- ===== src/TcpServer/Lifetime/Reuse.antt =====
-- What becomes of connections that nobody keeps, and of the next ones on their descriptors.
use netframe.Base.{
  ℕ, ◌+◌, ◌≡◌, refl, sym, ap, ◌∙◌, inl, inr, Bool, true, false, not, ◌&&◌, ◌||◌, List, [], ◌∷◌,
  Option, some, ◌==◌, if◌then◌else◌, Result, ok, err, assertion, ◌>>=◌, arith, Bool-cases,
}
use netframe.Handler.{State}
use netframe.Poller.{Poller, lookup, insert, is_none, add, update_handler}
use netframe.Poller.Sync.{lookup-insert}
use netframe.ThreadPool.Placement.{base_alone}
use netframe.Connection
use netframe.Connection.{
  Connection, connected, connection_cb, connection_established, update_events,
}
use netframe.TcpServer.{TcpServer, new_connection, conn_name, Task, established}
use netframe.TcpServer.Lifetime.{
  Accepted, accept, accept_all, default_connection_cb, destruct_connection,
}

-- The poller once a connection is established on a descriptor that it does not know.
abbrev entered : Poller → ℕ → ℕ → Poller
entered p id sockfd = record p {
  handlermap = insert sockfd id p.handlermap;
  calls = record { op = add; fd = sockfd; events = 3 } ∷ p.calls;
}

abbrev up : Poller → ℕ → ℕ → Bool → Connection
up p id sockfd has_cb =
    let c = Connection.construct id sockfd p has_cb in
    let h = c.handler in
    record c {
      state = connected;
      handler = record h { tied = true; events = 3; state = State.added };
      poller = entered p id sockfd;
      log = connection_cb connected ∷ [];
    }

established_new :
    (p : Poller) (id sockfd : ℕ) (has_cb : Bool)
    → is_none (lookup sockfd p.handlermap) ≡ true
    → connection_established (Connection.construct id sockfd p has_cb) ≡ ok (up p id sockfd has_cb)
unfolding connection_established update_events update_handler
established_new p id sockfd has_cb e = rw e refl

established_taken :
    (p : Poller) (id sockfd : ℕ) (has_cb : Bool)
    → is_none (lookup sockfd p.handlermap) ≡ false
    → connection_established (Connection.construct id sockfd p has_cb) ≡ err assertion
unfolding connection_established update_events update_handler
established_taken p id sockfd has_cb e = rw e refl

abbrev pub mem : ℕ → List ℕ → Bool
mem fd [] = false
mem fd (x ∷ l) = x == fd || mem fd l

-- No descriptor of the list comes twice, or is among the old ones.
abbrev pub all_new : List ℕ → List (ℕ × ℕ) → Bool
all_new old [] = true
all_new old ((id, fd) ∷ rest) = not (mem fd old) && all_new (fd ∷ old) rest

abbrev pub sockfds : List (ℕ × ℕ) → List (Option ℕ)
sockfds [] = []
sockfds ((id, fd) ∷ rest) = some fd ∷ sockfds rest

-- The map of the poller has the old ones.
abbrev pub Knows : List ℕ → Poller → Type 0
Knows old p = (j : ℕ) → is_none (lookup j p.handlermap) ≡ not (mem j old)

entered-Knows :
    (old : List ℕ) (p : Poller) (id fd : ℕ) → Knows old p → Knows (fd ∷ old) (entered p id fd)
entered-Knows old p id fd v j = ground (arith, lookup-insert fd j id p.handlermap, v j)

new_connection_alone :
    (print : ℕ → List ℕ) (s : TcpServer) (fd : ℕ)
    → s.thread_pool.loops ≡ []
    → (acts : List Task) × (new_connection print s fd
        ≡ ok (record s { next_conn_id = s.next_conn_id + 1 }, acts))
unfolding new_connection
new_connection_alone print s fd v = (
  established (record { name = conn_name print s; loop = s.thread_pool.base_loop; sockfd = fd })
      ∷ [],
  rw (base_alone s.thread_pool v) refl,
)

accept_new :
    (print : ℕ → List ℕ) (has_cb : Bool) (s : TcpServer) (p : Poller) (id fd : ℕ)
    → s.thread_pool.loops ≡ []
    → is_none (lookup fd p.handlermap) ≡ true
    → accept print default_connection_cb false has_cb s p id fd
      ≡ ok (record {
        server = record s { next_conn_id = s.next_conn_id + 1 };
        poller = entered p id fd;
        closed = some fd;
      })
unfolding accept destruct_connection
accept_new print has_cb s p id fd v e =
    rw ((new_connection_alone print s fd v).1, established_new p id fd has_cb e) refl

accept_taken :
    (print : ℕ → List ℕ) (has_cb : Bool) (s : TcpServer) (p : Poller) (id fd : ℕ)
    → s.thread_pool.loops ≡ []
    → is_none (lookup fd p.handlermap) ≡ false
    → accept print default_connection_cb false has_cb s p id fd ≡ err assertion
unfolding accept
accept_taken print has_cb s p id fd v e =
    rw ((new_connection_alone print s fd v).1, established_taken p id fd has_cb e) refl

-- A server without threads, whose client keeps no pointer to its connections, on a poller whose map
-- has the old descriptors: each connection is closed again before `newConnection` returns, but its
-- handler stays in the map; so the server goes on exactly as long as `accept` never returns an old
-- descriptor, or one for the second time, and then fails an assertion of the poller.
pub accept_all-Knows :
    (print : ℕ → List ℕ) (has_cb : Bool) (s : TcpServer) (p : Poller) (old : List ℕ)
    (conns : List (ℕ × ℕ))
    → s.thread_pool.loops ≡ []
    → Knows old p
    → accept_all print default_connection_cb false has_cb s p conns
      ≡ (if all_new old conns then ok (sockfds conns) else err assertion)
unfolding accept_all
accept_all-Knows print has_cb s p old [] v k = refl
accept_all-Knows print has_cb s p old ((id, fd) ∷ conns) v k = elim (Bool-cases (mem fd old)) [
  | inl seen ↦
      ap (λ (r : Result Accepted). r >>= rest)
        (accept_taken print has_cb s p id fd v (k fd ∙ ap not seen))
      ∙ sym (ap (λ b. answer (not b && all_new (fd ∷ old) conns)) seen)
  | inr fresh ↦
      ap (λ (r : Result Accepted). r >>= rest)
        (accept_new print has_cb s p id fd v (k fd ∙ ap not fresh))
      ∙ ap (λ (r : Result (List (Option ℕ))). r >>= λ closed. ok (some fd ∷ closed))
          (accept_all-Knows print has_cb (record s { next_conn_id = s.next_conn_id + 1 })
            (entered p id fd) (fd ∷ old) conns v (entered-Knows old p id fd k))
      ∙ go (all_new (fd ∷ old) conns)
      ∙ sym (ap (λ b. answer (not b && all_new (fd ∷ old) conns)) fresh)
]
  where
    answer : Bool → Result (List (Option ℕ))
    answer b = if b then ok (some fd ∷ sockfds conns) else err assertion

    rest : Accepted → Result (List (Option ℕ))
    rest a =
        accept_all print default_connection_cb false has_cb a.server a.poller conns >>= λ closed.
        ok (a.closed ∷ closed)

    go :
        (b : Bool)
        → ((if b then ok (sockfds conns) else err assertion) >>= λ closed. ok (some fd ∷ closed))
          ≡ answer b
    go true = refl
    go false = refl
