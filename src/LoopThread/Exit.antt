-- ===== src/LoopThread/Exit.antt =====
-- The end of EventLoopThread.cpp: `loop.loop()` of the new thread, what stands behind it, and the
-- destructor in the old thread, from the moment that `startLoop` has returned. A step is the test
-- of the `while` in `loop`, or one call of the old thread.
pub mod Join
pub mod Dangling
use netframe.Base.{
  ℕ, ◌≡◌, Bool, true, false, not, if◌then◌else◌, Option, none, some, Result, ok, err, dangling,
  ◌>>=◌, ◌>>◌, assert,
}
use netframe.EventLoop.{EventLoop, construct, enter, request_quit}
use netframe.Thread
use netframe.Thread.{Thread}

-- Where `threadFunc` stands: before `loop.loop()`, in it, and at its end, where its loop is
-- destroyed.
pub data Runner : Type 0 where
  entering running ended : Runner

-- Where the old thread stands: outside the destructor, at the `join`, and past it.
pub data Owner : Type 0 where
  outside joining joined : Owner

-- `loop` is the local variable of `threadFunc`, and `ploop` says whether `m_ploop` points to it or
-- is NULL.
pub record EventLoopThread : Type 0 where
  pub runner : Runner
  pub loop : EventLoop ℕ
  pub ploop : Bool
  pub thread : Thread
  pub exiting : Bool
  pub owner : Owner

-- The first lines of `startLoop`, with what `pthread_create` returns.
abbrev pub launch : Thread → Option ℕ → Result Thread
launch t created = do assert (not t.started); Thread.start t created

abbrev pub is_alive : Runner → Bool
is_alive entering = true
is_alive running = true
is_alive ended = false

-- `m_ploop->quit()` from the old thread.
unfoldable pub quit : EventLoopThread → Result EventLoopThread
quit t =
    if t.ploop
    then if is_alive t.runner
      then ok (record t { loop = request_quit t.loop false })
      else err dangling
    else err dangling

-- The destructor up to its `join`.
unfoldable pub destruct : EventLoopThread → Result EventLoopThread
destruct t = do u ← quit (record t { exiting = true }); ok (record u { owner = joining })

-- The start of `loop.loop()`.
unfoldable pub enter_loop : EventLoopThread → Result EventLoopThread
enter_loop t = do l ← enter t.loop; ok (record t { loop = l; runner = running })

-- The test of the `while`, when it fails: `loop` returns, and the function ends.
abbrev pub leave_loop : EventLoopThread → EventLoopThread
leave_loop t = let l = t.loop in record t { loop = record l { looping = false }; runner = ended }

-- `m_thread.join()`, which waits for the end of the function.
abbrev pub join : EventLoopThread → Result EventLoopThread
join t = do pthread_id ← Thread.join t.thread; ok (record t { owner = joined })

-- After `startLoop`; the new thread may not have gone on yet.
abbrev pub start : Thread → EventLoopThread
start thread = record {
  runner = entering;
  loop = construct;
  ploop = true;
  thread = thread;
  exiting = false;
  owner = outside;
}

-- `others` says whether the owner also calls `quit` on the loop that `startLoop` returned.
pub data Step (others : Bool) (t : EventLoopThread) : EventLoopThread → Type 0 where
  enters : {u : EventLoopThread} → t.runner ≡ entering → enter_loop t ≡ ok u → Step others t u
  leaves : t.runner ≡ running → t.loop.quit ≡ true → Step others t (leave_loop t)
  quits :
      {u : EventLoopThread} → others ≡ true → t.owner ≡ outside → quit t ≡ ok u → Step others t u
  destructs : {u : EventLoopThread} → t.owner ≡ outside → destruct t ≡ ok u → Step others t u
  joins :
      {u : EventLoopThread} → t.owner ≡ joining → t.runner ≡ ended → join t ≡ ok u → Step others t u

pub data Steps (others : Bool) : EventLoopThread → EventLoopThread → Type 0 where
  done : {t : EventLoopThread} → Steps others t t
  then' : {t u v : EventLoopThread} → Step others t u → Steps others u v → Steps others t v
