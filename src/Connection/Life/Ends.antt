-- ===== src/Connection/Life/Ends.antt =====
-- What the events of a descriptor make of a connection that is alive, when the handler returns.
use netframe.Base.{
  ℕ, zero, suc, ◌≤◌, ◌≡◌, refl, sym, ap, ap₂, subst, ◌∙◌, Bool, true, false, ◌||◌, ◌⊎◌, inl, inr,
  [], ◌∷◌, ◌++◌, append-nil, arith, Result, ok, err, assertion, ok_of_bind, ok_inj, Bool-cases,
}
use netframe.Buffer.{Buffer, readable_bytes, Readv, read_fd}
use netframe.Buffer.Contents.{IsValid, contents}
use netframe.Handler.{is_writing}
use netframe.Handler.Dispatch.{nothing, is_writing-Watches}
use netframe.Connection.{
  Connection, State, disconnected, connecting, connected, disconnecting, message_cb,
  get_socket_error, Write, count, failed, record_act, handle_read, after_read, handle_write,
  write_more, handle_close, handle_error, is_connected, is_connecting, is_disconnecting,
}
use netframe.Connection.Told.{told, told-append, Kept}
use netframe.Connection.Watch.{Inv}
use netframe.Connection.Stream.{stream, sent-append}
use netframe.Connection.Drain.{handle_write_lem}
use netframe.Connection.Lifecycle.{handle_close_lem}
use netframe.Connection.Life.{Takes}
use netframe.Connection.Life.Calls.{Kept-Next, act_Next}
use netframe.Connection.Life.Shape.{
  Shape, Alive, Next, same_Next, logged_Next, Shape-Tracks, over_Shape,
}

-- Where writing is not watched, or the kernel takes nothing, `handleWrite` changes nothing.
handle_write_idle :
    (c d : Connection) (w : Write)
    → (is_writing c.handler ≡ false) ⊎ ((w ≡ count 0) ⊎ ((errno : ℕ) × (w ≡ failed errno)))
    → handle_write c w ≡ ok d
    → c ≡ d
unfolding handle_write write_more
handle_write_idle c d w (inl off) e = ok_inj (rw off at e)
handle_write_idle c d w (inr (inl z)) e = ground arith
handle_write_idle c d w (inr (inr (errno, z))) e = ground arith

handle_write-Inv :
    (c d : Connection) (n : ℕ) {reads : Bool}
    → Inv reads c
    → suc n ≤ readable_bytes c.output
    → is_writing c.handler ≡ true
    → handle_write c (count (suc n)) ≡ ok d
    → Inv reads d × (stream d ≡ stream c ++ []) × Kept c d
handle_write-Inv c d n {reads} v t on e =
    let (d', eq, f) =
      handle_write_lem c (suc n) v (sym (is_writing-Watches c.handler v.watch) ∙ on) (omega arith)
        t in
    subst (λ x. Inv reads x × (stream x ≡ stream c ++ []) × Kept c x) (ok_inj (sym eq ∙ e))
      (f.inv, f.same ∙ sym (append-nil (stream c)), f.kept)

handle_write_on :
    (c d : Connection) (n : ℕ)
    → is_connecting c.state ≡ false
    → Alive c.state c
    → suc n ≤ readable_bytes c.output
    → is_writing c.handler ≡ true
    → handle_write c (count (suc n)) ≡ ok d
    → Next [] c d
handle_write_on c d n h v t on e = go c.state refl v.shape
  where
    over : {reads : Bool} → Inv reads c → (Inv reads d → Shape c.state d) → Next [] c d
    over i shape =
        let (i', str, k) = handle_write-Inv c d n i t on e in
        Kept-Next c d [] (shape i') v.told_so str k

    go : (p : State) → c.state ≡ p → Shape p c → Next [] c d
    go connecting q s = cc
    go connected q s = over s (λ i. subst (λ p. Shape p d) (sym q) i)
    go disconnecting q s = over s (λ i. subst (λ p. Shape p d) (sym q) i)
    go disconnected q (inl s) = over s (λ i. subst (λ p. Shape p d) (sym q) (inl i))
    go disconnected q (inr s) = cc (is_writing-Watches c.handler (nothing s.silent))

pub handle_write-Next :
    (c d : Connection) (w : Write)
    → is_connecting c.state ≡ false
    → Alive c.state c
    → Takes w (readable_bytes c.output)
    → handle_write c w ≡ ok d
    → Next [] c d
handle_write-Next c d (failed errno) h v t e =
    subst (Next [] c) (handle_write_idle c d (failed errno) (inr (inr (errno, refl))) e)
      (same_Next c v)
handle_write-Next c d (count zero) h v t e =
    subst (Next [] c) (handle_write_idle c d (count 0) (inr (inl refl)) e) (same_Next c v)
handle_write-Next c d (count (suc n)) h v t e = elim (Bool-cases (is_writing c.handler)) [
  | inl on ↦ handle_write_on c d n h v t on e
  | inr off ↦ subst (Next [] c) (handle_write_idle c d (count (suc n)) (inl off) e) (same_Next c v)
]

closed_late :
    (c : Connection)
    → (is_connected c.state || is_disconnecting c.state) ≡ false
    → handle_close c ≡ err assertion
unfolding handle_close
closed_late c h = rw h refl

-- `handleClose` passes its assertion only while the connection is up or shutting down.
pub close_alive :
    (c d : Connection)
    → handle_close c ≡ ok d
    → (is_connected c.state || is_disconnecting c.state) ≡ true
close_alive c d e = elim (Bool-cases (is_connected c.state || is_disconnecting c.state)) [
  | inl up ↦ up
  | inr down ↦ cc (closed_late c down)
]

pub handle_close-Next : (c d : Connection) → Alive c.state c → handle_close c ≡ ok d → Next [] c d
handle_close-Next c d v e = go c.state refl v
  where
    up : Inv true c → told c.log ≡ connected ∷ [] → Next [] c d
    up i so =
        let t = Shape-Tracks connected c i in
        let (d', eq, z) = handle_close_lem c t.0 t.1 (close_alive c d e) in
        subst (Next [] c) (ok_inj (sym eq ∙ e)) (record {
          alive =
              subst (λ p. Alive p d') (sym z.state)
                (record {
                  shape =
                      over_Shape d' z.legal z.settled (subst IsValid (sym z.output) i.valid)
                        z.silent;
                  told_so = z.history ∙ ap (λ l. l ++ (disconnected ∷ [])) so;
                });
          streamed = ap₂ (λ l o. l ++ contents o) z.same z.output ∙ sym (append-nil (stream c));
        })

    go : (p : State) → c.state ≡ p → Alive p c → Next [] c d
    go connecting q a = cc (close_alive c d e)
    go connected q a = up a.shape a.told_so
    go disconnecting q a = up a.shape a.told_so
    go disconnected q a = cc (close_alive c d e)

pub handle_error-Next :
    (c : Connection) → is_connecting c.state ≡ false → Alive c.state c → Next [] c (handle_error c)
unfolding handle_error
handle_error-Next c h v = act_Next c get_socket_error h refl refl v

-- With another input buffer the connection is as alive as before.
refilled : Connection → Buffer → Connection
refilled c i = record c { input = i }

refilled-Next :
    (c : Connection) (i : Buffer)
    → is_connecting c.state ≡ false
    → Alive c.state c
    → Next [] c (refilled c i)
unfolding refilled
refilled-Next c i h v = logged_Next c i c.log h refl refl v

after_read-Next :
    (on_message : Buffer → Result Buffer) (c d : Connection) (i : Buffer) (n : Readv)
    → is_connecting c.state ≡ false
    → Alive c.state c
    → after_read on_message (refilled c i) n ≡ ok d
    → Next [] c d
unfolding after_read refilled
after_read-Next on_message c d i (Readv.failed errno) h v e =
    let v' = (refilled-Next c i h v).alive in
    let z = subst (Next [] (refilled c i)) (ok_inj e) (handle_error-Next (refilled c i) h v') in
    record { alive = z.alive; streamed = z.streamed }
after_read-Next on_message c d i (Readv.got []) h v e =
    let z = handle_close-Next (refilled c i) d (refilled-Next c i h v).alive e in
    record { alive = z.alive; streamed = z.streamed }
after_read-Next on_message c d i (Readv.got (x ∷ xs)) h v e =
    let (i', _, last) =
      ok_of_bind (on_message i)
        (λ input. ok (record_act (record c { input = input }) (message_cb (x ∷ xs)))) d e in
    subst (Next [] c) (ok_inj last) (
      logged_Next c i' (c.log ++ (message_cb (x ∷ xs) ∷ [])) h
        (told-append c.log (message_cb (x ∷ xs) ∷ []) ∙ append-nil _)
        (sent-append c.log (message_cb (x ∷ xs) ∷ []) ∙ append-nil _) v)

pub handle_read-Next :
    (on_message : Buffer → Result Buffer) (c d : Connection) (r : Readv)
    → is_connecting c.state ≡ false
    → Alive c.state c
    → handle_read on_message c r ≡ ok d
    → Next [] c d
unfolding handle_read refilled
handle_read-Next on_message c d r h v e =
    let ((n, i), _, rest) =
      ok_of_bind (read_fd c.input r)
        (λ (p : Readv × Buffer). after_read on_message (refilled c p.1) p.0) d e in
    after_read-Next on_message c d i n h v rest
