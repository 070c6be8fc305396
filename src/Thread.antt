-- ===== src/Thread.antt =====
-- Thread.cpp and CurrentThread.h: a thread object, and the thread id that each thread keeps. The id
-- that the kernel gives is an argument.
pub mod Once
use netframe.Base.{
  ℕ, Bool, true, false, not, List, [], Option, none, some, ◌==◌, if◌then◌else◌, Result, ok, ◌>>=◌,
  ◌>>◌, assert,
}

-- `t_cachedTid`, zero until it is asked for.
unfoldable pub cache_tid_local : ℕ → ℕ → ℕ
cache_tid_local gettid cached = if cached == 0 then gettid else cached

-- `CurrentThread::tid`: the id, and what is cached now.
unfoldable pub tid : ℕ → ℕ → ℕ × ℕ
unfolding cache_tid_local
tid gettid cached =
    let cached' = if cached == 0 then cache_tid_local gettid cached else cached in
    (cached', cached')

-- `pthreadId_` is there if `pthread_create` has succeeded.
pub record Thread : Type 0 where
  pub started : Bool
  pub pthread_id : Option ℕ
  pub thread_id : ℕ
  pub name : List ℕ

abbrev pub construct : List ℕ → Thread
construct name = record { started = false; pthread_id = none; thread_id = 0; name = name }

-- `start`; a failure of `pthread_create` is printed, and the flag stays up.
unfoldable pub start : Thread → Option ℕ → Result Thread
start t created = do assert (not t.started); ok (record t { started = true; pthread_id = created })

-- `join`: the thread that is waited for.
unfoldable pub join : Thread → Result (Option ℕ)
join t = do assert t.started; ok t.pthread_id

-- `runInThread`, in the new thread, before the function runs.
unfoldable pub run_in_thread : Thread → ℕ → ℕ → Thread × ℕ
run_in_thread t gettid cached =
    let (id, cached') = tid gettid cached in (record t { thread_id = id }, cached')
