-- ===== src/LoopThread/Exit/Join.antt =====
-- When the `join` in the destructor of EventLoopThread returns.
use netframe.Base.{ℕ, ◌≡◌, true, false}
use netframe.EventLoop.{EventLoop, request_quit}
use netframe.Thread
use netframe.Thread.{Thread}
use netframe.LoopThread.Exit.{
  Runner, entering, running, ended, Owner, outside, joining, joined, EventLoopThread, is_alive,
  quit,
}

-- While the old thread is outside, nobody has asked the loop to quit.
abbrev Calm : Owner → Runner → EventLoop ℕ → Type 0
Calm outside r l = (is_alive r ≡ true) × (l.quit ≡ false)
Calm joining r l = Unit
Calm joined r l = Unit

abbrev Fresh : Runner → EventLoop ℕ → Type 0
Fresh entering l = l.looping ≡ false
Fresh running l = Unit
Fresh ended l = Unit

record Inv (t : EventLoopThread) : Type 0 where
  pub points : t.ploop ≡ true
  pub started : t.thread.started ≡ true
  pub calm : Calm t.owner t.runner t.loop
  pub fresh : Fresh t.runner t.loop

abbrev entered : EventLoopThread → EventLoopThread
entered t =
    let l = t.loop in
    record t { loop = record l { looping = true; quit = false }; runner = running }

abbrev asked : EventLoopThread → EventLoopThread
asked t = record t { loop = request_quit t.loop false; exiting = true; owner = joining }

-- The destructor waits, and the loop does not know that it should end.
abbrev Unheard : Runner → EventLoop ℕ → Type 0
Unheard entering l = l.looping ≡ false
Unheard running l = l.quit ≡ false
Unheard ended l = ⊥

abbrev Lost : EventLoopThread → Type 0
Lost t = (t.owner ≡ joining) × Unheard t.runner t.loop
