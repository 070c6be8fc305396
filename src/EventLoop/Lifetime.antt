-- ===== src/EventLoop/Lifetime.antt =====
-- EventLoop.cpp and EPollPoller.cpp: the whole constructor and the whole destructor of a loop, with
-- its poller, its eventfd and the system calls that they make.
pub mod Serve
use netframe.Base.{
  ℕ, Bool, true, false, List, [], ◌∷◌, ◌++◌, Option, none, some, if◌then◌else◌, Result, ok, aborted,
  guard, not, ◌>>=◌, ◌>>◌,
}
use netframe.Handler
use netframe.Handler.{Handler, make, with_reading}
use netframe.Poller
use netframe.Poller.{Poller, update_handler}
use netframe.SocketOps.{SockaddrIn}
use netframe.Socket.{System, Host, epoll_error, another_loop, is_negative, checked, unchecked}
use netframe.Socket.SetUp.{life}
use netframe.EventLoop.Current.{enter_thread, leave_thread}

-- The loop at address `this`: its poller with the epoll descriptor, and the eventfd with its
-- handler.
pub record Loop : Type 0 where
  pub this : ℕ
  pub epollfd : ℕ
  pub poller : Poller
  pub wakeup_fd : ℕ
  pub wakeup_handler : Handler

module _ {W : Type 0} (s : System W) where
  -- The constructor of EPollPoller.
  unfoldable pub create_poller : Host W → ℕ × Host W
  create_poller h =
      let (epollfd, w) = s.epoll_create h.world in (epollfd, checked epoll_error h (epollfd, w))

  -- The destructor of EPollPoller.
  unfoldable pub destroy_poller : ℕ → Host W → Host W
  destroy_poller epollfd h = unchecked h (s.close epollfd h.world)

  -- `createEventfd`.
  unfoldable pub create_eventfd : Host W → Result (ℕ × Host W)
  create_eventfd h = do
    let (evtfd, w) = s.eventfd h.world
    guard (not (is_negative evtfd)) aborted
    ok (evtfd, record h { world = w })

  -- `slot` is `t_loopInThisThread`, and `id` the address of the eventfd's handler.
  unfoldable pub construct : ℕ → ℕ → Option ℕ → Host W → Result (Loop × Option ℕ × Host W)
  construct this id slot h = do
    let (epollfd, h₁) = create_poller h
    (wakeup_fd, h₂) ← create_eventfd h₁
    let handler = make id wakeup_fd
    let (own, there) = enter_thread slot this
    let h₃ = record h₂ { printed = h₂.printed ++ (if there then another_loop ∷ [] else []) }
    (p, wakeup_handler) ←
        update_handler Poller.start (with_reading (record handler { on_read = true }))
    ok (
      record {
        this = this;
        epollfd = epollfd;
        poller = p;
        wakeup_fd = wakeup_fd;
        wakeup_handler = wakeup_handler;
      },
      own,
      h₃,
    )

  -- The destructor, with those of the handler and of the poller.
  unfoldable pub destruct : Loop → Option ℕ → Host W → Result (Option ℕ × Host W)
  destruct l slot h = do
    let h₁ = unchecked h (s.close l.wakeup_fd h.world)
    let own = leave_thread slot l.this
    Handler.destruct l.wakeup_handler
    ok (own, destroy_poller l.epollfd h₁)

  -- A loop and an acceptor on it, as the locals of one function: `this`, `id` and `key` are the
  -- addresses of the loop and of the two handlers.
  unfoldable pub serve :
      ℕ → ℕ → ℕ → SockaddrIn → Option ℕ → Host W → Result (Poller × Option ℕ × Host W)
  serve this id key addr slot h = do
    (l, own, h₁) ← construct this id slot h
    (p, h₂) ← life s l.poller key addr h₁
    (last, h₃) ← destruct (record l { poller = p }) own h₂
    ok (p, last, h₃)
