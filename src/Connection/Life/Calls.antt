-- ===== src/Connection/Life/Calls.antt =====
-- What sending and shutting down make of a connection that is alive, when they return.
use netframe.Base.{
  ℕ, ◌≡◌, refl, sym, ap, subst, ◌∙◌, Bool, true, false, inl, inr, List, [], ◌∷◌, ◌++◌, append-nil,
  length, arith, if◌then◌else◌, ok, ok_inj, Bool-cases,
}
use netframe.Handler.{is_writing}
use netframe.Connection.{
  Connection, State, disconnected, connecting, connected, disconnecting, Act, queue_in_loop,
  shut_write, send_later, shutdown_later, Write, count, failed, record_act, set_state, send,
  send_in_loop, shutdown, shutdown_in_loop, is_connected, is_connecting,
}
use netframe.Connection.Told.{told, told-append, Kept}
use netframe.Connection.Watch.{pending, Inv}
use netframe.Connection.Stream.{
  sent, stream, sent-append, send_in_loop_lem, send_in_loop-aborts, progress,
}
use netframe.Connection.Life.{Takes, Room}
use netframe.Connection.Life.Shape.{history, Shape, Alive, Next, same_Next, recast-Inv, logged_Next}

-- `sendInLoop` where the handler watches for what the connection needs.
send_in_loop-Inv :
    (c d : Connection) (xs : List ℕ) (w : Write) {reads : Bool}
    → Inv reads c
    → Takes w (length xs)
    → Room c xs
    → send_in_loop c xs w ≡ ok d
    → Inv reads d × (stream d ≡ stream c ++ xs) × Kept c d
send_in_loop-Inv c d xs (failed errno) v t room e =
    cc (send_in_loop-aborts c xs (failed errno) (omega arith) refl)
send_in_loop-Inv c d xs (count n) {reads} v t room e = elim (Bool-cases (progress c xs (count n))) [
  | inl p ↦
      let (d', eq, v', str, kept) =
        send_in_loop_lem c xs n v (ground arith) (ground arith) t room in
      subst (λ x. Inv reads x × (stream x ≡ stream c ++ xs) × Kept c x) (ok_inj (sym eq ∙ e))
        (v', str, kept)
  | inr p ↦ cc (send_in_loop-aborts c xs (count n) (omega arith) p)
]

stuck_progress :
    (c : Connection) (xs : List ℕ) (w : Write) → pending c ≡ true → progress c xs w ≡ false
stuck_progress c xs (failed errno) h = refl
stuck_progress c xs (count n) h = ground arith

pub Kept-Next :
    (c d : Connection) (xs : List ℕ)
    → Shape c.state d
    → told c.log ≡ history c.state
    → stream d ≡ stream c ++ xs
    → Kept c d
    → Next xs c d
Kept-Next c d xs s so str k = record {
  alive = subst (λ p. Alive p d) (sym k.state) (record { shape = s; told_so = k.told ∙ so });
  streamed = str;
}

-- `sendInLoop` on a connection that has been established, also when it is closed already.
pub send_in_loop-Next :
    (c d : Connection) (xs : List ℕ) (w : Write)
    → is_connecting c.state ≡ false
    → Alive c.state c
    → Takes w (length xs)
    → Room c xs
    → send_in_loop c xs w ≡ ok d
    → Next xs c d
send_in_loop-Next c d xs w h v t room e = go c.state refl v.shape
  where
    over : {reads : Bool} → Inv reads c → (Inv reads d → Shape c.state d) → Next xs c d
    over i shape =
        let (i', str, k) = send_in_loop-Inv c d xs w i t room e in
        Kept-Next c d xs (shape i') v.told_so str k

    go : (p : State) → c.state ≡ p → Shape p c → Next xs c d
    go connecting q s = cc
    go connected q s = over s (λ i. subst (λ p. Shape p d) (sym q) i)
    go disconnecting q s = over s (λ i. subst (λ p. Shape p d) (sym q) i)
    go disconnected q (inl s) = over s (λ i. subst (λ p. Shape p d) (sym q) (inl i))
    go disconnected q (inr s) =
        cc (send_in_loop-aborts c xs w (omega arith) (stuck_progress c xs w s.waits))

up_established : (p : State) → is_connected p ≡ true → is_connecting p ≡ false
up_established connecting h = cc
up_established connected h = refl
up_established disconnecting h = refl
up_established disconnected h = refl

pub send-Next :
    (c d : Connection) (xs : List ℕ) (w : Write)
    → Alive c.state c
    → Takes w (length xs)
    → Room c xs
    → send c true xs w ≡ ok d
    → Next (if is_connected c.state then xs else []) c d
unfolding send
send-Next c d xs w v t room e = elim (Bool-cases (is_connected c.state)) [
  | inl up ↦ rw up (send_in_loop-Next c d xs w (up_established c.state up) v t room (rw up at e))
  | inr down ↦ rw down (subst (Next [] c) (ok_inj (rw down at e)) (same_Next c v))
]

-- An entry of the log that neither sends nor tells.
pub act_Next :
    (c : Connection) (a : Act)
    → is_connecting c.state ≡ false
    → told (a ∷ []) ≡ []
    → sent (a ∷ []) ≡ []
    → Alive c.state c
    → Next [] c (record_act c a)
act_Next c a h t u v =
    logged_Next c c.input (c.log ++ (a ∷ [])) h
      (told-append c.log (a ∷ []) ∙ ap (λ l. told c.log ++ l) t ∙ append-nil _)
      (sent-append c.log (a ∷ []) ∙ ap (λ l. sent c.log ++ l) u ∙ append-nil _) v

pub shutdown_in_loop-Next :
    (c : Connection)
    → is_connecting c.state ≡ false
    → Alive c.state c
    → Next [] c (shutdown_in_loop c)
unfolding shutdown_in_loop
shutdown_in_loop-Next c h v = elim (Bool-cases (is_writing c.handler)) [
  | inl e ↦ rw e (same_Next c v)
  | inr e ↦ rw e (act_Next c shut_write h refl refl v)
]

pub send_elsewhere_Next :
    (c d : Connection) (xs : List ℕ) (w : Write)
    → Alive c.state c
    → send c false xs w ≡ ok d
    → Next [] c d
unfolding send
send_elsewhere_Next c d xs w v e = elim (Bool-cases (is_connected c.state)) [
  | inl up ↦
      subst (Next [] c) (ok_inj (rw up at e))
        (act_Next c (queue_in_loop (send_later xs)) (up_established c.state up) refl refl v)
  | inr down ↦ subst (Next [] c) (ok_inj (rw down at e)) (same_Next c v)
]

pub shutdown-Next :
    (c : Connection) (in_loop : Bool) → Alive c.state c → Next [] c (shutdown c in_loop)
unfolding shutdown
shutdown-Next c in_loop v = go c.state refl v
  where
    leave : Connection
    leave = set_state c disconnecting

    leaving : Bool → Connection
    leaving true = shutdown_in_loop leave
    leaving false = record_act leave (queue_in_loop shutdown_later)

    as_if :
        (b : Bool)
        → leaving b
          ≡ (if b then shutdown_in_loop leave else record_act leave (queue_in_loop shutdown_later))
    as_if true = refl
    as_if false = refl

    after : (b : Bool) → Alive disconnecting leave → Next [] leave (leaving b)
    after true a = shutdown_in_loop-Next leave refl a
    after false a = act_Next leave (queue_in_loop shutdown_later) refl refl refl a

    gone_on : (b : Bool) → Connection
    gone_on b = if b then leaving in_loop else c

    is_shutdown : (b : Bool) → is_connected c.state ≡ b → gone_on b ≡ shutdown c in_loop
    is_shutdown true q = rw q (as_if in_loop)
    is_shutdown false q = rw q refl

    go : (p : State) → c.state ≡ p → Alive p c → Next [] c (shutdown c in_loop)
    go connecting q a = subst (Next [] c) (is_shutdown false (ap is_connected q)) (same_Next c v)
    go connected q a =
        let z = after in_loop (record {
          shape = recast-Inv c c.input c.log disconnecting a.shape;
          told_so = a.told_so;
        }) in
        subst (Next [] c) (is_shutdown true (ap is_connected q))
          (record { alive = z.alive; streamed = z.streamed })
    go disconnecting q a = subst (Next [] c) (is_shutdown false (ap is_connected q)) (same_Next c v)
    go disconnected q a = subst (Next [] c) (is_shutdown false (ap is_connected q)) (same_Next c v)
