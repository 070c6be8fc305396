-- ===== src/Connection/Events/Steps.antt =====
-- The events of a connection are steps of its life.
use netframe.Base.{
  ℕ, ◌≡◌, sym, ap, subst, ◌∙◌, Bool, false, ◌||◌, List, [], ◌∷◌, Result, ok, ok_inj, ok_of_bind,
  ok_of_assert, ok_of_if, inl, inr, arith, ltb, ◌==◌,
}
use netframe.Buffer
use netframe.Buffer.{Buffer, readable_bytes, Readv, read_fd}
use netframe.Handler.{
  Handler, Callback, close, error, read, write, without_all, without_writing, is_writing,
  set_revents, handle_event,
}
use netframe.Poller.{Poller, update_handler}
use netframe.Connection.{
  Connection, disconnected, Write, count, failed, wrote, connection_cb, message_cb, close_cb,
  record_act, set_state, update_events, shutdown_in_loop, drained, write_more, handle_close,
  handle_error, after_read, handle_read, handle_write, is_connected, is_connecting,
  is_disconnecting,
}
use netframe.Connection.Local.{after_drain}
use netframe.Connection.Life.{Life, Takes, Step, closes, fails, reads, writes}
use netframe.Connection.Life.Reach.{Reach, next}
use netframe.Connection.Events.{run_callback, run_callbacks, handle_events}

-- A connection that was established stays so.
abbrev Later : Connection → Connection → Type 0
Later c d = is_connecting c.state ≡ false → is_connecting d.state ≡ false

update_events-state :
    (c d : Connection) (h : Handler) → update_events c h ≡ ok d → d.state ≡ c.state
unfolding update_events
update_events-state c d h e =
    let (r, _, last) =
      ok_of_bind (update_handler c.poller h)
        (λ (r : Poller × Handler). ok (record c { poller = r.0; handler = r.1 })) d e in
    sym (ap (λ (x : Connection). x.state) (ok_inj last))

pub handle_close-state : (c d : Connection) → handle_close c ≡ ok d → d.state ≡ disconnected
unfolding handle_close
handle_close-state c d e =
    let (c', eq, last) =
      ok_of_bind (update_events (set_state c disconnected) (without_all c.handler))
        (λ c'. ok (record_act (record_act c' (connection_cb c'.state)) close_cb)) d
        (ok_of_assert (is_connected c.state || is_disconnecting c.state) _ d e) in
    sym (ap (λ (x : Connection). x.state) (ok_inj last))
    ∙ update_events-state (set_state c disconnected) c' (without_all c.handler) eq

after_read-Later :
    (on_message : Buffer → Result Buffer) (c d : Connection) (n : Readv)
    → after_read on_message c n ≡ ok d
    → Later c d
unfolding after_read handle_error
after_read-Later on_message c d (Readv.failed errno) e h =
    ap (λ (x : Connection). is_connecting x.state) (sym (ok_inj e)) ∙ h
after_read-Later on_message c d (Readv.got []) e h = ap is_connecting (handle_close-state c d e)
after_read-Later on_message c d (Readv.got (x ∷ xs)) e h =
    let (input, _, last) =
      ok_of_bind (on_message c.input)
        (λ input. ok (record_act (record c { input = input }) (message_cb (x ∷ xs)))) d e in
    ap (λ (x : Connection). is_connecting x.state) (sym (ok_inj last)) ∙ h

handle_read-Later :
    (on_message : Buffer → Result Buffer) (c d : Connection) (r : Readv)
    → handle_read on_message c r ≡ ok d
    → Later c d
unfolding handle_read
handle_read-Later on_message c d r e =
    let ((n, i), _, rest) = ok_of_bind (read_fd c.input r) _ d e in
    after_read-Later on_message (record c { input = i }) d n rest

after_drain-state : (c : Connection) → (after_drain c).state ≡ c.state
unfolding after_drain shutdown_in_loop
after_drain-state c = ground arith

drained-state : (c d : Connection) → drained c ≡ ok d → d.state ≡ c.state
unfolding drained after_drain
drained-state c d e =
    let (c', eq, last) = ok_of_bind (update_events c (without_writing c.handler)) _ d e in
    ap (λ (x : Connection). x.state) (sym (ok_inj last))
    ∙ after_drain-state c'
    ∙ update_events-state c c' (without_writing c.handler) eq

write_more-state : (c d : Connection) (w : Write) → write_more c w ≡ ok d → d.state ≡ c.state
unfolding write_more
write_more-state c d (failed errno) e = ap (λ (x : Connection). x.state) (sym (ok_inj e))
write_more-state c d (count n) e = elim (ok_of_if (ltb 0 n) _ (ok c) d e) [
  | inl some' ↦
      let (chars, _, rest) =
        ok_of_bind (Buffer.copy_from c.output.bytes (Buffer.peek c.output) n) _ d some' in
      let (output, _, last) = ok_of_bind (Buffer.retrieve c.output n) _ d rest in
      let c' = record_act (record c { output = output }) (wrote chars) in
      elim (ok_of_if (readable_bytes output == 0) (drained c') (ok c') d last) [
        | inl empty ↦ drained-state c' d empty
        | inr more ↦ ap (λ (x : Connection). x.state) (sym (ok_inj more))
      ]
  | inr none' ↦ ap (λ (x : Connection). x.state) (sym (ok_inj none'))
]

handle_write-state : (c d : Connection) (w : Write) → handle_write c w ≡ ok d → d.state ≡ c.state
unfolding handle_write
handle_write-state c d w e = elim (ok_of_if (is_writing c.handler) (write_more c w) (ok c) d e) [
  | inl on ↦ write_more-state c d w on
  | inr off ↦ ap (λ (x : Connection). x.state) (sym (ok_inj off))
]

module _ (on_message : Buffer → Result Buffer) where
  module _ (r : Readv) (w : ℕ → Write) (takes : (n : ℕ) → Takes (w n) n) (id sockfd : ℕ)
      (poller : Poller) (cb : Bool) where
    callback-Step :
        (b : Callback) (s : Life) (d : Connection)
        → s.gone ≡ false
        → is_connecting s.conn.state ≡ false
        → run_callback on_message r w b s.conn ≡ ok d
        → Step on_message s (record s { conn = d }) × (is_connecting d.state ≡ false)
    unfolding handle_error
    callback-Step close s d g h e = (closes d g e, ap is_connecting (handle_close-state s.conn d e))
    callback-Step error s d g h e =
        subst (λ x. Step on_message s (record s { conn = x }) × (is_connecting x.state ≡ false))
          (ok_inj e) (fails g h, h)
    callback-Step read s d g h e = (reads r d g h e, handle_read-Later on_message s.conn d r e h)
    callback-Step write s d g h e = (
      writes (w (readable_bytes s.conn.output)) d g h (takes (readable_bytes s.conn.output)) e,
      ap is_connecting (handle_write-state s.conn d (w (readable_bytes s.conn.output)) e) ∙ h,
    )

    callbacks-Reach :
        (bs : List Callback) (s : Life) (d : Connection)
        → Reach on_message id sockfd poller cb s
        → s.gone ≡ false
        → is_connecting s.conn.state ≡ false
        → run_callbacks on_message r w bs s.conn ≡ ok d
        → Reach on_message id sockfd poller cb (record s { conn = d })
    unfolding run_callbacks
    callbacks-Reach [] s d v g h e =
        subst (λ x. Reach on_message id sockfd poller cb (record s { conn = x })) (ok_inj e) v
    callbacks-Reach (b ∷ bs) s d v g h e =
        let (c, eq, rest) =
          ok_of_bind (run_callback on_message r w b s.conn) (run_callbacks on_message r w bs) d e in
        let (st, h') = callback-Step b s c g h eq in
        callbacks-Reach bs (record s { conn = c }) d (next v st) g h' rest

    -- Whatever events an established connection is called back for, and whatever the system calls
    -- return, as long as a write takes no more than it is given and no assertion fails: the
    -- connection is as in some life of calls, so what holds in every life holds after its
    -- callbacks.
    pub handle_events-Reach :
        (s : Life) (d : Connection) (alive : Bool) (revents : ℕ)
        → Reach on_message id sockfd poller cb s
        → s.gone ≡ false
        → is_connecting s.conn.state ≡ false
        → handle_events on_message r w alive revents s.conn ≡ ok d
        → Reach on_message id sockfd poller cb (record s { conn = d })
    unfolding handle_events
    handle_events-Reach s d alive revents v g h e =
        callbacks-Reach (handle_event (set_revents s.conn.handler revents) alive).1 s d v g h e
