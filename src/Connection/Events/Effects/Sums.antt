-- ===== src/Connection/Events/Effects/Sums.antt =====
-- How much the callbacks of one event add to the log, under a weight of its entries.
use netframe.Epoll
use netframe.Base.{
  ℕ, ◌+◌, ◌≤◌, ◌≡◌, refl, sym, ap, ◌∙◌, Bool, true, false, ◌&&◌, List, [], ◌∷◌, ◌++◌, if◌then◌else◌,
  Result, ok, ok_inj, ok_of_bind, inl, inr, arith,
}
use netframe.Buffer.{Buffer, Readv, readable_bytes}
use netframe.Handler.{
  Handler, Callback, close, error, read, write, has, call_if, dispatch, set_revents, handle_event,
}
use netframe.Connection.{Connection, Act, close_cb, get_socket_error, Write}
use netframe.Connection.Events.{run_callback, run_callbacks, handle_events}
use netframe.Connection.Events.Effects.{only_if, hangs_up, errs, readable, tally}
use netframe.Connection.Events.Effects.Weights.{
  Weighs, read_gain, close_weighs, error_weighs, read_weighs, write_weighs,
}

module _ (m : Act → ℕ) (k : ℕ) (v : Weighs m k) where
  -- What a callback adds, if a write adds `n`.
  abbrev gain : Readv → ℕ → Callback → ℕ
  gain r n close = m close_cb
  gain r n error = m get_socket_error
  gain r n read = read_gain m k v r
  gain r n write = n

  abbrev gains : Readv → ℕ → List Callback → ℕ
  gains r n [] = 0
  gains r n (b ∷ bs) = gain r n b + gains r n bs

  abbrev pub Within : Connection → ℕ → ℕ → Connection → Type 0
  Within c low high d =
      (tally m c.log + low ≤ tally m d.log) × (tally m d.log ≤ tally m c.log + high)

  callback_weighs :
      (on_message : Buffer → Result Buffer) (r : Readv) (w : ℕ → Write) (b : Callback)
      (c d : Connection)
      → run_callback on_message r w b c ≡ ok d
      → Within c (gain r 0 b) (gain r k b) d
  callback_weighs on_message r w close c d e = omega (arith, close_weighs m k v c d e)
  callback_weighs on_message r w error c d e =
      omega (arith, ap (λ (x : Connection). tally m x.log) (ok_inj e), error_weighs m k v c)
  callback_weighs on_message r w read c d e = omega (arith, read_weighs m k v on_message c d r e)
  callback_weighs on_message r w write c d e =
      elim (write_weighs m k v c d (w (readable_bytes c.output)) e) [
        | inl none' ↦ omega (arith, none')
        | inr some' ↦ omega (arith, some')
      ]

  callbacks_weigh :
      (on_message : Buffer → Result Buffer) (r : Readv) (w : ℕ → Write) (bs : List Callback)
      (c d : Connection)
      → run_callbacks on_message r w bs c ≡ ok d
      → Within c (gains r 0 bs) (gains r k bs) d
  unfolding run_callbacks
  callbacks_weigh on_message r w [] c d e =
      omega (arith, ap (λ (x : Connection). tally m x.log) (ok_inj e))
  callbacks_weigh on_message r w (b ∷ bs) c d e =
      let (c', eq, rest) =
        ok_of_bind (run_callback on_message r w b c) (run_callbacks on_message r w bs) d e in
      let (l, h) = callback_weighs on_message r w b c c' eq in
      let (l', h') = callbacks_weigh on_message r w bs c' d rest in
      (omega (arith, l, l'), omega (arith, h, h'))

  gains-call_if :
      (r : Readv) (n : ℕ) (b : Bool) (x : Callback) (l : List Callback)
      → gains r n (call_if (b && true) x ++ l) ≡ only_if b (gain r n x) + gains r n l
  gains-call_if r n true x l = refl
  gains-call_if r n false x l = omega arith

  gains-last :
      (r : Readv) (n : ℕ) (b : Bool) (x : Callback)
      → gains r n (call_if (b && true) x) ≡ only_if b (gain r n x)
  gains-last r n true x = omega arith
  gains-last r n false x = refl

  -- The callbacks of a handler that has them all.
  gains-dispatch :
      (h : Handler) (r : Readv) (n : ℕ)
      → (h.on_close ≡ true) × (h.on_error ≡ true) × (h.on_read ≡ true) × (h.on_write ≡ true)
      → gains r n (dispatch h)
        ≡ only_if (hangs_up h.revents) (m close_cb)
          + only_if (errs h.revents) (m get_socket_error)
          + only_if (readable h.revents) (read_gain m k v r)
          + only_if (has h.revents Epoll.out) n
  unfolding dispatch
  gains-dispatch h r n (c, e, i, o) =
      rw (c, e, i, o)
        (split (hangs_up h.revents) (errs h.revents) (readable h.revents) (has h.revents Epoll.out))
    where
      split :
          (p q x y : Bool)
          → gains r n (
              call_if (p && true) close
              ++ (call_if (q && true) error
                  ++ (call_if (x && true) read ++ call_if (y && true) write)))
            ≡ only_if p (m close_cb)
              + only_if q (m get_socket_error)
              + only_if x (read_gain m k v r)
              + only_if y n
      split p q x y = omega (
        arith,
        gains-call_if r n p close
            (call_if (q && true) error ++ (call_if (x && true) read ++ call_if (y && true) write)),
        gains-call_if r n q error (call_if (x && true) read ++ call_if (y && true) write),
        gains-call_if r n x read (call_if (y && true) write),
        gains-last r n y write,
      )

  -- Between what the event asks for, and that with a write.
  pub event_weighs :
      (on_message : Buffer → Result Buffer) (r : Readv) (w : ℕ → Write) (revents : ℕ)
      (c d : Connection)
      → (c.handler.on_close ≡ true)
        × (c.handler.on_error ≡ true)
        × (c.handler.on_read ≡ true)
        × (c.handler.on_write ≡ true)
      → handle_events on_message r w true revents c ≡ ok d
      → let sure =
          only_if (hangs_up revents) (m close_cb)
          + only_if (errs revents) (m get_socket_error)
          + only_if (readable revents) (read_gain m k v r) in
        Within c sure (sure + only_if (has revents Epoll.out) k) d
  unfolding handle_events handle_event
  event_weighs on_message r w revents c d on e =
      let h = set_revents c.handler revents in
      let (l, u) =
        callbacks_weigh on_message r w (dispatch h) c d
          (ap (λ bs. run_callbacks on_message r w bs c) (sym (called h h.tied)) ∙ e) in
      (
        omega (arith, l, gains-dispatch h r 0 on, nothing (has revents Epoll.out)),
        omega (arith, u, gains-dispatch h r k on),
      )
    where
      nothing : (b : Bool) → only_if b 0 ≡ 0
      nothing true = refl
      nothing false = refl

      both : Handler → Handler × List Callback
      both h = (record h { event_handling = false }, dispatch h)

      called :
          (h : Handler) (b : Bool)
          → (if b then (if true then both h else (h, [])) else both h).1 ≡ dispatch h
      called h true = refl
      called h false = refl
