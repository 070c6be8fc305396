-- ===== src/LoopThread.antt =====
-- EventLoopThread.cpp, Condition.h, Mutex.h: `startLoop` waits until the new thread has published
-- its loop. Each definition is one access to what the two threads share; a step of a thread that
-- has to wait for the mutex is `none`. The new thread has been created.
pub mod Handshake
pub mod Progress
pub mod Exit
use netframe.Base.{ℕ, ◌≡◌, Option, none, some}

-- Where `startLoop` stands: before the guard, at the test of the `while`, inside
-- `pthread_cond_wait`, past it but without the mutex, behind the loop, at the `return`, and
-- outside.
pub data Starter : Type 0 where
  calling testing waiting signalled leaving reading : Starter
  returned : Option ℕ → Starter

-- Where `threadFunc` stands: before its guard, at the guard, at the assignment, at the `notify`, at
-- the end of the guard's block, and in `loop.loop()`.
pub data Runner : Type 0 where
  preparing locking publishing notifying unlocking looping : Runner

pub data Owner : Type 0 where
  free starts runs : Owner

-- `m_ploop` is the address of the loop, or NULL.
pub record EventLoopThread : Type 0 where
  pub starter : Starter
  pub runner : Runner
  pub mutex : Owner
  pub ploop : Option ℕ

abbrev pub lock : Owner → EventLoopThread → Option EventLoopThread
lock who t = elim (t.mutex) [ free ↦ some (record t { mutex = who }) | _ ↦ none ]

abbrev pub unlock : EventLoopThread → EventLoopThread
unlock t = record t { mutex = free }

abbrev pub at_test : Option EventLoopThread → Option EventLoopThread
at_test none = none
at_test (some t) = some (record t { starter = testing })

-- `while(m_ploop == NULL)`: the wait gives the mutex up.
abbrev pub test_ploop : EventLoopThread → EventLoopThread
test_ploop t = elim (t.ploop) [
  | none ↦ record (unlock t) { starter = waiting }
  | some l ↦ record t { starter = leaving }
]

abbrev pub start_loop_at : Starter → EventLoopThread → Option EventLoopThread
start_loop_at calling t = at_test (lock starts t)
start_loop_at testing t = some (test_ploop t)
start_loop_at waiting t = none
start_loop_at signalled t = at_test (lock starts t)
start_loop_at leaving t = some (record (unlock t) { starter = reading })
start_loop_at reading t = some (record t { starter = returned t.ploop })
start_loop_at (returned l) t = none

-- The next step of `startLoop`.
unfoldable pub start_loop : EventLoopThread → Option EventLoopThread
start_loop t = start_loop_at t.starter t

-- `pthread_cond_signal`: it wakes a thread that waits, and is lost on any other.
abbrev pub woken : Starter → Starter
woken waiting = signalled
woken calling = calling
woken testing = testing
woken signalled = signalled
woken leaving = leaving
woken reading = reading
woken (returned l) = returned l

abbrev pub at_assignment : Option EventLoopThread → Option EventLoopThread
at_assignment none = none
at_assignment (some t) = some (record t { runner = publishing })

abbrev pub thread_func_at : ℕ → Runner → EventLoopThread → Option EventLoopThread
thread_func_at loop preparing t = some (record t { runner = locking })
thread_func_at loop locking t = at_assignment (lock runs t)
thread_func_at loop publishing t = some (record t { ploop = some loop; runner = notifying })
thread_func_at loop notifying t = some (record t { starter = woken t.starter; runner = unlocking })
thread_func_at loop unlocking t = some (record (unlock t) { runner = looping })
thread_func_at loop looping t = none

-- The next step of `threadFunc`, up to the call of `loop.loop()`; `loop` is the address of its
-- loop.
unfoldable pub thread_func : ℕ → EventLoopThread → Option EventLoopThread
thread_func loop t = thread_func_at loop t.runner t

-- After the constructor and `m_thread.start()`.
abbrev pub start : EventLoopThread
start = record { starter = calling; runner = preparing; mutex = free; ploop = none }
