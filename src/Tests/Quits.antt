-- ===== src/Tests/Quits.antt =====
-- EventLoop.cpp: runs of `loop` among the threads. A functor is a number.
use netframe.Base.{ℕ, ◌+◌, ◌<◌, ◌≡◌, refl, true, false, [], ◌∷◌, ◌++◌}
use netframe.EventLoop.{enter}
use netframe.EventLoop.Interleave.{
  polling, running, other_push, other_wakeup, poll_returns, swap, finish,
}
use netframe.EventLoop.Interleave.Quit.{
  Program, body, returned, begin, with_loop, flagged_quit, others, works, ends, enters, goes_on,
  returns, sets_flag, wakes, Reach, here, next,
}
use netframe.EventLoop.Interleave.Quit.Reaches.{no_lost_quit, returned_left}

-- The loop thread is in `epoll_wait`.
abbrev waiting : Program ℕ
waiting =
    let p = begin {F = ℕ} in
    let l = p.system.loop in record (with_loop p (record l { looping = true })) { stage = body }

waiting-Reach : Reach waiting
unfolding enter
waiting-Reach =
    let l = (begin {F = ℕ}).system.loop in
    next (next here (enters (record l { looping = true }) refl refl)) (goes_on refl refl)

abbrev asked : Program ℕ
asked = record (with_loop waiting (flagged_quit waiting.system.loop)) { quitters = 1 }

no_lost_quit_example : 0 < asked.system.loop.wakeups + asked.quitters
no_lost_quit_example = no_lost_quit (next waiting-Reach sets_flag) refl refl refl

-- It runs its functors, of which there are none; another thread queues functor 4 and then quits.
abbrev quitting : Program ℕ
quitting =
    let s = waiting.system in
    let l = s.loop in
    record waiting {
      system = record s {
        loop = record l {
          quit = true;
          calling_pending_functors = true;
          wakeups = 2;
          pending_functors = 4 ∷ [];
        };
        pc = running [];
        posted = 4 ∷ [];
      };
    }

quitting-Reach : Reach quitting
quitting-Reach =
    next
      (next
        (next
          (next
            (next (next waiting-Reach (works (poll_returns refl) refl refl))
              (works (swap refl) refl refl))
            (others (other_push 4) refl))
          (others (other_wakeup 0 refl) refl))
        sets_flag)
      (wakes 0 refl)

-- `loop` has returned, and functor 4 will not run.
abbrev over : Program ℕ
over =
    let s = quitting.system in
    let l = s.loop in
    record quitting {
      system = record s {
        loop = record l { looping = false; calling_pending_functors = false };
        pc = polling;
      };
      stage = returned;
    }

over-Reach : Reach over
over-Reach = next (next quitting-Reach (ends (finish refl) refl refl)) (returns refl refl)

returned_left_example : over.system.done ++ over.system.loop.pending_functors ≡ 4 ∷ []
returned_left_example = returned_left over-Reach refl
