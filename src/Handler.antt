-- ===== src/Handler.antt =====
-- Handler.h and Handler.cpp: what one descriptor is watched for, and which callbacks an event runs.
-- The address of the object is `id`; an unset callback is `false`.
pub mod Dispatch
use netframe.Epoll
use netframe.Base.{
  ℕ, Bool, true, false, not, ◌&&◌, ◌||◌, List, [], ◌∷◌, ◌++◌, bit_and, bit_or, ◌==◌, if◌then◌else◌,
  Result, assert,
}

abbrev pub k_none_event : ℕ
k_none_event = 0

abbrev pub k_read_event : ℕ
k_read_event = bit_or Epoll.in_event Epoll.pri

abbrev pub k_write_event : ℕ
k_write_event = Epoll.out

-- `kNew`, `kAdded` and `kDeleted` of EPollPoller.cpp.
pub data State : Type 0 where
  new added deleted : State

pub record Handler : Type 0 where
  pub id : ℕ
  pub fd : ℕ
  pub events : ℕ
  pub revents : ℕ
  pub state : State
  pub tied : Bool
  pub event_handling : Bool
  pub on_read : Bool
  pub on_write : Bool
  pub on_close : Bool
  pub on_error : Bool

-- The constructor.
abbrev pub make : ℕ → ℕ → Handler
make id fd = record {
  id = id;
  fd = fd;
  events = 0;
  revents = 0;
  state = new;
  tied = false;
  event_handling = false;
  on_read = false;
  on_write = false;
  on_close = false;
  on_error = false;
}

-- `~Handler`.
abbrev pub destruct : Handler → Result (Unit {0})
destruct h = assert (not h.event_handling)

abbrev pub set_tie : Handler → Handler
set_tie h = record h { tied = true }

abbrev pub set_revents : Handler → ℕ → Handler
set_revents h revt = record h { revents = revt }

abbrev pub is_none_event : Handler → Bool
is_none_event h = h.events == k_none_event

abbrev pub is_writing : Handler → Bool
is_writing h = not (bit_and h.events k_write_event == 0)

-- The change of `m_events` in `enableReading`, `enableWriting`, `disableWriting` and `disableAll`.
-- `~kWriteEvent` is that of a 32-bit int.
abbrev pub with_reading : Handler → Handler
with_reading h = record h { events = bit_or h.events k_read_event }

abbrev pub with_writing : Handler → Handler
with_writing h = record h { events = bit_or h.events k_write_event }

abbrev pub without_writing : Handler → Handler
without_writing h = record h { events = bit_and h.events 0xffff_fffb }

abbrev pub without_all : Handler → Handler
without_all h = record h { events = k_none_event }

pub data Callback : Type 0 where
  close error read write : Callback

-- `if(m_revents & mask)`, without and with a callback that is set.
abbrev pub has : ℕ → ℕ → Bool
has revents mask = not (bit_and revents mask == 0)

abbrev pub call_if : Bool → Callback → List Callback
call_if true c = c ∷ []
call_if false c = []

-- `m_handleEvent`: the callbacks that run, in order.
unfoldable pub dispatch : Handler → List Callback
dispatch h =
    call_if ((has h.revents Epoll.hup && not (has h.revents Epoll.in_event)) && h.on_close) close
    ++ (call_if (has h.revents (bit_or Epoll.error Epoll.invalid) && h.on_error) error
        ++ (call_if
              (has h.revents (bit_or (bit_or Epoll.in_event Epoll.pri) Epoll.rdhup) && h.on_read)
              read
            ++ call_if (has h.revents Epoll.out && h.on_write) write))

-- `handleEvent`: `alive` is whether the owner that the handler is tied to still exists. The flag
-- `m_bEventHandling` is up during the callbacks, and down again after them.
unfoldable pub handle_event : Handler → Bool → Handler × List Callback
handle_event h alive =
    let handled : Handler × List Callback = (record h { event_handling = false }, dispatch h) in
    if h.tied then (if alive then handled else (h, [])) else handled
