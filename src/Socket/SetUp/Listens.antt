-- ===== src/Socket/SetUp/Listens.antt =====
-- What the acceptor does when a call of its set-up fails.
use netframe.Base.{
  ℕ, ◌≡◌, refl, ◌∙◌, true, false, List, [], ◌∷◌, ◌++◌, some, append_assoc, if◌then◌else◌, Result,
  ok, ◌>>=◌, ==_refl,
}
use netframe.Handler.{State, make}
use netframe.Poller.{
  Poller, lookup, insert, erase, is_none, add, del, update_handler, remove_handler,
}
use netframe.SocketOps.{SockaddrIn}
use netframe.Acceptor
use netframe.Acceptor.{Acceptor}
use netframe.Socket.{
  System, Host, Complaint, create_error, bind_error, listen_error, is_negative,
  create_nonblocking_or_die, bind_or_die, listen_or_die, set_option, reuseaddr, close, unchecked,
}
use netframe.Socket.SetUp.{construct, start, tear_down}

-- The poller and the acceptor once it listens.
abbrev pub listened : Poller → ℕ → ℕ → Poller
listened p id sockfd = record p {
  handlermap = insert sockfd id p.handlermap;
  calls = record { op = add; fd = sockfd; events = 3 } ∷ p.calls;
}

abbrev pub listener : ℕ → ℕ → ℕ → Acceptor
listener id sockfd idle_fd =
    let h = make id sockfd in
    record {
      sockfd = sockfd;
      handler = record h { events = 3; on_read = true; state = State.added };
      has_callback = true;
      listening = true;
      idle_fd = some idle_fd;
    }

module _ {W : Type 0} (s : System W) (p : Poller) (id : ℕ) (addr : SockaddrIn) (h : Host W) where
  -- The calls, one after the other.
  abbrev pub socket_call : ℕ × W
  socket_call = s.socket h.world

  abbrev pub null_call : ℕ × W
  null_call = s.open_null socket_call.1

  abbrev pub bind_call : ℕ × W
  bind_call = s.bind socket_call.0 addr (s.setsockopt socket_call.0 reuseaddr 1 null_call.1).1

  abbrev pub listen_call : ℕ × W
  listen_call = s.listen socket_call.0 bind_call.1

  abbrev pub complaint_if : ℕ → Complaint → List Complaint
  complaint_if ret c = if is_negative ret then c ∷ [] else []

  -- What is printed.
  abbrev pub complaints : List Complaint
  complaints =
      complaint_if socket_call.0 create_error
      ++ (complaint_if bind_call.0 bind_error ++ complaint_if listen_call.0 listen_error)

  abbrev pub set_up : Result (Poller × Acceptor × Host W)
  set_up = construct s id addr h >>= λ (a, h₁). start s p a h₁

  -- If the spare descriptor can be opened and the poller does not know the socket's descriptor:
  -- whether or not `socket`, `bind` and `listen` fail, the constructor and `listen` return, the
  -- poller watches the descriptor, -1 if `socket` has failed, and the acceptor listens; a failure
  -- is only printed.
  pub set_up_lem :
      is_negative null_call.0 ≡ false
      → is_none (lookup socket_call.0 p.handlermap) ≡ true
      → (w : Host W) × (set_up
          ≡ ok (listened p id socket_call.0, listener id socket_call.0 null_call.0, w))
        × (w.world ≡ listen_call.1)
        × (w.printed ≡ h.printed ++ complaints)
  unfolding construct start create_nonblocking_or_die bind_or_die listen_or_die set_option
      Acceptor.construct Acceptor.listen update_handler
  set_up_lem opened unknown =
      let first = complaint_if socket_call.0 create_error in
      let second = complaint_if bind_call.0 bind_error in
      (
        record {
          world = listen_call.1;
          printed = ((h.printed ++ first) ++ second) ++ complaint_if listen_call.0 listen_error;
        },
        rw (opened, unknown) refl,
        refl,
        append_assoc (h.printed ++ first) second _ ∙ append_assoc h.printed first _,
      )

-- The poller when the listening handler is gone again.
abbrev pub left : Poller → ℕ → ℕ → Poller
left p id sockfd = record p {
  handlermap = erase sockfd (insert sockfd id p.handlermap);
  calls =
      record { op = del; fd = sockfd; events = 0 }
      ∷ record { op = add; fd = sockfd; events = 3 }
      ∷ p.calls;
}

-- The destructor of a listening acceptor returns, and closes the spare descriptor and the socket.
pub tear_down_lem :
    {W : Type 0} (s : System W) (p : Poller) (id sockfd idle_fd : ℕ) (h : Host W)
    → (w : Host W) × (tear_down s (listened p id sockfd) (listener id sockfd idle_fd) h
        ≡ ok (left p id sockfd, w))
      × (w.world ≡ (s.close sockfd (s.close idle_fd h.world).1).1)
unfolding tear_down close Acceptor.destruct update_handler remove_handler lookup insert
tear_down_lem s p id sockfd idle_fd h = (
  close s sockfd (unchecked h (s.close idle_fd h.world)),
  rw (==_refl sockfd, ==_refl id) (rw (==_refl sockfd, ==_refl id) refl),
  refl,
)
