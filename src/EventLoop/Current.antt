-- ===== src/EventLoop/Current.antt =====
-- EventLoop.cpp: `t_loopInThisThread`, the loop that a thread knows as its own, over the loops that
-- are constructed and destroyed in it.
pub mod Lives
use netframe.Base.{ℕ, Bool, true, false, List, [], ◌∷◌, Option, none, some}

-- The address of the loop in the constructor, and whether it prints that there is another one.
unfoldable pub enter_thread : Option ℕ → ℕ → Option ℕ × Bool
enter_thread none this = (some this, false)
enter_thread (some l) this = (some l, true)

-- The end of the destructor, of any loop of the thread.
unfoldable pub leave_thread : Option ℕ → ℕ → Option ℕ
leave_thread slot this = none

pub data Event : Type 0 where
  constructed destroyed : ℕ → Event

-- `getEventLoopOfCurrentThread` after these events.
unfoldable pub current : Option ℕ → List Event → Option ℕ
current slot [] = slot
current slot (constructed this ∷ es) = current (enter_thread slot this).0 es
current slot (destroyed this ∷ es) = current (leave_thread slot this) es
