-- ===== src/LoopThread/Exit/Dangling.antt =====
-- A destructor of EventLoopThread that comes after a `quit` of the owner.
use netframe.Base.{
  ◌≡◌, refl, sym, subst, Bool, true, false, ok, err, dangling, ok_inj, if◌then◌else◌,
}
use netframe.EventLoop.{request_quit}
use netframe.LoopThread.Exit.{
  Runner, entering, running, ended, outside, EventLoopThread, is_alive, quit, destruct, leave_loop,
  Steps, leaves, done, then',
}

-- If the owner itself quits a loop that is entered, the thread may end before anything else
-- happens; then the destructor goes through a pointer to a loop that is gone, and so does every
-- later `quit`.
pub quit-destruct :
    (t u : EventLoopThread)
    → t.owner ≡ outside
    → t.runner ≡ running
    → quit t ≡ ok u
    → (v : EventLoopThread) × Steps true u v
      × (v.owner ≡ outside)
      × (destruct v ≡ err dangling)
      × (quit v ≡ err dangling)
unfolding quit destruct request_quit
quit-destruct t u o r e =
    let same : u ≡ record t { loop = request_quit t.loop false } = given t.ploop t.runner e in
    subst After (sym same)
      (leave_loop u', then' (leaves r refl) done, o, gone t.ploop, lost t.ploop)
  where
    u' : EventLoopThread
    u' = record t { loop = request_quit t.loop false }

    After : EventLoopThread → Type 0
    After x =
        (v : EventLoopThread) × Steps true x v
        × (v.owner ≡ outside)
        × (destruct v ≡ err dangling)
        × (quit v ≡ err dangling)

    given :
        (b : Bool) (x : Runner)
        → (if b then if is_alive x then ok u' else err dangling else err dangling) ≡ ok u
        → u ≡ u'
    given true entering f = sym (ok_inj f)
    given true running f = sym (ok_inj f)
    given true ended f = cc
    given false x f = cc

    lost : (b : Bool) → quit (record (leave_loop u') { ploop = b }) ≡ err dangling
    lost true = refl
    lost false = refl

    gone : (b : Bool) → destruct (record (leave_loop u') { ploop = b }) ≡ err dangling
    gone true = refl
    gone false = refl
