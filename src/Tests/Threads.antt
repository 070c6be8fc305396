-- ===== src/Tests/Threads.antt =====
-- EventLoopThread.cpp: one start, where the new thread comes first, and one end.
use netframe.Base.{◌<◌, ◌≡◌, refl, ◌⊎◌, some, true, [], err, dangling}
use netframe.LoopThread.{EventLoopThread, returned, looping, start, thread_func}
use netframe.LoopThread.Handshake.{Advance, runner_steps, Reach, here, next}
use netframe.LoopThread.Progress.{rank, start_loop_progress}
use netframe.EventLoop.{request_quit}
use netframe.Thread
use netframe.Thread.{Thread}
use netframe.LoopThread.Exit
use netframe.LoopThread.Exit.{Step, Steps, destruct, quit, running, outside}
use netframe.LoopThread.Exit.Dangling.{quit-destruct}

published-Reach : Reach 7 (record start { runner = looping; ploop = some 7 })
unfolding thread_func
published-Reach =
    next
      (next (next (next (next here (runner_steps refl)) (runner_steps refl)) (runner_steps refl))
        (runner_steps refl))
      (runner_steps refl)

start_loop_progress_example :
    (((record start { runner = looping; ploop = some 7 }).starter ≡ returned (some 7))
      ⊎ ((u : EventLoopThread) × Advance 7 (record start { runner = looping; ploop = some 7 }) u))
    × ((u : EventLoopThread)
        → Advance 7 (record start { runner = looping; ploop = some 7 }) u
        → rank 7 u < rank 7 (record start { runner = looping; ploop = some 7 }))
start_loop_progress_example = start_loop_progress 7 published-Reach

abbrev created : Thread
created = record { started = true; pthread_id = some 3; thread_id = 0; name = [] }

-- The new thread has entered its loop.
abbrev in_loop : Exit.EventLoopThread
in_loop =
    let t = Exit.start created in
    let l = t.loop in record t { loop = record l { looping = true }; runner = running }

-- `loop->quit()`, as `test_EventLoopThread` of main.cpp calls it before the destructor.
abbrev told : Exit.EventLoopThread
told = let l = in_loop.loop in record in_loop { loop = record l { quit = true; wakeups = 1 } }

quit-destruct_example :
    (v : Exit.EventLoopThread) × Steps true told v
    × (v.owner ≡ outside)
    × (destruct v ≡ err dangling)
    × (quit v ≡ err dangling)
unfolding quit request_quit
quit-destruct_example = quit-destruct in_loop told refl refl refl
