-- ===== src/Poller.antt =====
-- EPollPoller.cpp: the map from descriptors to handlers, and the calls of epoll_ctl that keep the
-- kernel's list in step. The code ignores their results but for a message, so a call is an entry
-- of a log, the latest first.
pub mod Sync
pub mod Local
pub mod Growth
use netframe.Base.{
  ℕ, ◌*◌, Bool, true, false, List, [], ◌∷◌, Option, none, some, length, leb, ◌==◌, if◌then◌else◌,
  Result, ok, err, ◌>>=◌, ◌>>◌, assert,
}
use netframe.Handler.{Handler, State, new, added, deleted, is_none_event, set_revents}

-- `std::map<int, Handler*>`.
unfoldable pub lookup : ℕ → List (ℕ × ℕ) → Option ℕ
lookup fd [] = none
lookup fd ((key, id) ∷ rest) = if key == fd then some id else lookup fd rest

unfoldable pub erase : ℕ → List (ℕ × ℕ) → List (ℕ × ℕ)
erase k [] = []
erase k ((j, v) ∷ m) = if j == k then erase k m else (j, v) ∷ erase k m

-- The entry of the key is replaced; the order of the list carries no meaning.
unfoldable pub insert : ℕ → ℕ → List (ℕ × ℕ) → List (ℕ × ℕ)
insert k v m = (k, v) ∷ erase k m

pub data CtlOp : Type 0 where
  add mod_op del : CtlOp

-- One `epoll_ctl`: the operation, the descriptor and the events asked for.
pub record Ctl : Type 0 where
  pub op : CtlOp
  pub fd : ℕ
  pub events : ℕ

pub record Poller : Type 0 where
  pub handlermap : List (ℕ × ℕ)
  pub eventlist_size : ℕ
  pub calls : List Ctl

abbrev pub k_init_event_list_size : ℕ
k_init_event_list_size = 16

-- The constructor.
abbrev pub start : Poller
start = record { handlermap = []; eventlist_size = k_init_event_list_size; calls = [] }

abbrev pub update : Poller → CtlOp → Handler → Poller
update p operation h = record p {
  calls = record { op = operation; fd = h.fd; events = h.events } ∷ p.calls;
}

abbrev pub is_none {ℓ} : {A : Type ℓ} → Option A → Bool
is_none none = true
is_none (some a) = false

-- `m_handlermap.find(fd) != end && m_handlermap[fd] == handler`, the two assertions that go
-- together.
abbrev pub found : Option ℕ → ℕ → Bool
found none id = false
found (some v) id = v == id

abbrev pub added_anew : Poller → Handler → Poller × Handler
added_anew p h = let h' = record h { state = added } in (update p add h', h')

update_as : State → Poller → Handler → Result (Poller × Handler)
update_as new p h = do
  assert (is_none (lookup h.fd p.handlermap))
  ok (added_anew (record p { handlermap = insert h.fd h.id p.handlermap }) h)
update_as deleted p h = do assert (found (lookup h.fd p.handlermap) h.id); ok (added_anew p h)
update_as added p h = do
  assert (found (lookup h.fd p.handlermap) h.id)
  ok (
      if is_none_event h
      then (update p del h, record h { state = deleted })
      else (update p mod_op h, h))

-- `updateHandler`.
unfoldable pub update_handler : Poller → Handler → Result (Poller × Handler)
unfolding update_as
update_handler p h = update_as h.state p h

abbrev pub is_added : State → Bool
is_added new = false
is_added added = true
is_added deleted = false

abbrev pub is_new : State → Bool
is_new new = true
is_new added = false
is_new deleted = false

-- `removeHandler`.
unfoldable pub remove_handler : Poller → Handler → Result (Poller × Handler)
remove_handler p h = do
  assert (found (lookup h.fd p.handlermap) h.id)
  assert (is_none_event h)
  assert (if is_new h.state then false else true)
  let erased = record p { handlermap = erase h.fd p.handlermap }
  ok ((if is_added h.state then update erased del h else erased), record h { state = new })

-- What `epoll_wait` leaves: the events, each with the handler's address, or the failure.
pub data Waited : Type 0 where
  events : List (ℕ × ℕ) → Waited
  failed : Waited

-- `fillActiveHandlers`: the handlers to run, with the events that each is given.
unfoldable pub fill_active_handlers : Poller → List (ℕ × ℕ) → Result (List (ℕ × ℕ))
fill_active_handlers p evs = do assert (leb (length evs) (length p.handlermap)); ok evs

-- `PollEvent`. The list of events doubles when it came back full.
unfoldable pub poll_event : Poller → Waited → Result (Poller × List (ℕ × ℕ))
poll_event p failed = ok (p, [])
poll_event p (events []) = ok (p, [])
poll_event p (events (e ∷ evs)) = do
  active ← fill_active_handlers p (e ∷ evs)
  ok (
    (if length (e ∷ evs) == p.eventlist_size
        then record p { eventlist_size = p.eventlist_size * 2 }
        else p),
    active,
  )
