-- ===== src/ThreadPool.antt =====
-- EventLoopThreadPool.cpp: the loops of the pool's threads, handed out in turn. A loop is the
-- number that names it.
pub mod RoundRobin
pub mod Placement
use netframe.Base.{
  ℕ, zero, suc, ◌+◌, Bool, true, false, not, ◌&&◌, List, [], ◌∷◌, ◌++◌, Option, none, some, length,
  get_elem?, leb, ◌==◌, if◌then◌else◌, Result, ok, err, ◌>>=◌, ◌>>◌, assert, out_of_bounds,
}

pub record ThreadPool : Type 0 where
  pub base_loop : ℕ
  pub started : Bool
  pub threads_num : ℕ
  pub next : ℕ
  pub loops : List ℕ

-- The constructor.
abbrev pub construct : ℕ → ThreadPool
construct base_loop = record {
  base_loop = base_loop;
  started = false;
  threads_num = 0;
  next = 0;
  loops = [];
}

abbrev pub set_thread_num : ThreadPool → ℕ → ThreadPool
set_thread_num p n = record p { threads_num = n }

-- The loops that the first `n` new threads report back from `startLoop`, in order.
abbrev pub started_loops : ℕ → ℕ → (ℕ → ℕ) → List ℕ
started_loops zero i start_loop = []
started_loops (suc n) i start_loop = start_loop i ∷ started_loops n (i + 1) start_loop

-- `start`. Besides the pool it gives the loops that the callback is run on here: the base loop, if
-- there are no threads and the callback is set.
unfoldable pub start : ThreadPool → (ℕ → ℕ) → Bool → Result (ThreadPool × List ℕ)
start p start_loop has_cb = do
  assert (not p.started)
  ok (
    record p { started = true; loops = p.loops ++ started_loops p.threads_num 0 start_loop },
    (if (p.threads_num == 0) && has_cb then p.base_loop ∷ [] else []),
  )

abbrev pub is_empty : List ℕ → Bool
is_empty [] = true
is_empty (x ∷ xs) = false

abbrev pub at_index : Option ℕ → Result ℕ
at_index none = err out_of_bounds
at_index (some x) = ok x

-- `getNextLoop`.
unfoldable pub get_next_loop : ThreadPool → Result (ℕ × ThreadPool)
get_next_loop p = if is_empty p.loops then ok (p.base_loop, p) else (do
  loop ← at_index (get_elem? p.loops p.next)
  let next = p.next + 1
  ok (loop, record p { next = (if leb (length p.loops) next then 0 else next) }))

-- The loops of so many calls in a row.
unfoldable pub get_next_loops : ℕ → ThreadPool → Result (List ℕ × ThreadPool)
get_next_loops zero p = ok ([], p)
get_next_loops (suc n) p = do
  (loop, p') ← get_next_loop p
  (loops, p'') ← get_next_loops n p'
  ok (loop ∷ loops, p'')
