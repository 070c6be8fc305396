-- ===== src/Connection/Events/Effects/Weights.antt =====
-- How much each callback adds to the log, under a weight of its entries.

use netframe.Base.{
  ℕ, ◌+◌, ◌≡◌, refl, sym, ap, ◌∙◌, Bool, true, false, ◌||◌, List, [], ◌∷◌, ◌++◌, if◌then◌else◌,
  Result, ok, ok_inj, ok_of_bind, ok_of_assert, ok_of_if, inl, inr, ◌⊎◌, length, take, drop, leb,
  ltb, ◌==◌, arith,
}
use netframe.Buffer
use netframe.Buffer.{
  Buffer, Readv, readable_bytes, read_fd, copy_to, begin_write, writable_bytes, append,
}
use netframe.Handler.{Handler, without_all, without_writing, is_writing}
use netframe.Poller.{Poller, update_handler}
use netframe.Connection.{
  Connection, Act, wrote, shut_write, queue_in_loop, connection_cb, message_cb, close_cb,
  get_socket_error, Task, write_complete, State, disconnected, Write, count, failed, record_act,
  set_state, update_events, shutdown_in_loop, drained, write_more, handle_close, handle_error,
  after_read, handle_read, handle_write, is_connected, is_disconnecting, queue_write_complete,
}
use netframe.Connection.Local.{after_drain}
use netframe.Connection.Events.Effects.{tally}

tally-append : (m : Act → ℕ) (l k : List Act) → tally m (l ++ k) ≡ tally m l + tally m k
tally-append m [] k = omega arith
tally-append m (a ∷ l) k = omega (arith, tally-append m l k)

-- A weight that counts only what the callbacks of a handler differ in; a write weighs `k`.
pub record Weighs (m : Act → ℕ) (k : ℕ) : Type 0 where
  pub queued : (t : Task) → m (queue_in_loop t) ≡ 0
  pub shut : m shut_write ≡ 0
  pub down : (s : State) → m (connection_cb s) ≡ 0
  pub written : (xs : List ℕ) → m (wrote xs) ≡ k

update_events-log : (c d : Connection) (h : Handler) → update_events c h ≡ ok d → d.log ≡ c.log
unfolding update_events
update_events-log c d h e =
    let (r, _, last) =
      ok_of_bind (update_handler c.poller h)
        (λ (r : Poller × Handler). ok (record c { poller = r.0; handler = r.1 })) d e in
    sym (ap (λ (x : Connection). x.log) (ok_inj last))

-- `readFd` hands on what `readv` returns.
read_fd-result : (b i : Buffer) (r n : Readv) → read_fd b r ≡ ok (n, i) → n ≡ r
unfolding read_fd
read_fd-result b i (Readv.failed errno) n e = ap (λ (p : Readv × Buffer). p.0) (sym (ok_inj e))
read_fd-result b i (Readv.got xs) n e =
    let writable = writable_bytes b in
    elim (ok_of_if (leb (length xs) writable) _ _ (n, i) e) [
      | inl fits ↦
          let (bytes, _, last) = ok_of_bind (copy_to b.bytes (begin_write b) xs) _ (n, i) fits in
          ap (λ (p : Readv × Buffer). p.0) (sym (ok_inj last))
      | inr spills ↦
          let (bytes, _, rest) =
            ok_of_bind (copy_to b.bytes (begin_write b) (take writable xs)) _ (n, i) spills in
          let (b', _, last) =
            ok_of_bind
              (append (record b { bytes = bytes; writer_index = length bytes }) (drop writable xs))
              (λ b'. ok (Readv.got xs, b')) (n, i) rest in
          ap (λ (p : Readv × Buffer). p.0) (sym (ok_inj last))
    ]

module _ (m : Act → ℕ) (k : ℕ) (v : Weighs m k) where
  pub close_weighs :
      (c d : Connection) → handle_close c ≡ ok d → tally m d.log ≡ tally m c.log + m close_cb
  unfolding handle_close
  close_weighs c d e =
      let (c', eq, last) =
        ok_of_bind (update_events (set_state c disconnected) (without_all c.handler))
          (λ c'. ok (record_act (record_act c' (connection_cb c'.state)) close_cb)) d
          (ok_of_assert (is_connected c.state || is_disconnecting c.state) _ d e) in
      let same : d.log ≡ (c'.log ++ (connection_cb c'.state ∷ [])) ++ (close_cb ∷ []) =
        sym (ap (λ (x : Connection). x.log) (ok_inj last)) in
      omega (
        arith,
        ap (tally m) same,
        ap (tally m) (update_events-log (set_state c disconnected) c' (without_all c.handler) eq),
        tally-append m (c'.log ++ (connection_cb c'.state ∷ [])) (close_cb ∷ []),
        tally-append m c'.log (connection_cb c'.state ∷ []),
        v.down c'.state,
      )

  -- What a read adds.
  abbrev pub read_gain : Readv → ℕ
  read_gain (Readv.got []) = m close_cb
  read_gain (Readv.got (x ∷ xs)) = m (message_cb (x ∷ xs))
  read_gain (Readv.failed errno) = m get_socket_error

  pub error_weighs :
      (c : Connection) → tally m (handle_error c).log ≡ tally m c.log + m get_socket_error
  unfolding handle_error
  error_weighs c = omega (arith, tally-append m c.log (get_socket_error ∷ []))

  after_read_weighs :
      (on_message : Buffer → Result Buffer) (c d : Connection) (r : Readv)
      → after_read on_message c r ≡ ok d
      → tally m d.log ≡ tally m c.log + read_gain r
  unfolding after_read
  after_read_weighs on_message c d (Readv.got []) e = close_weighs c d e
  after_read_weighs on_message c d (Readv.got (x ∷ xs)) e =
      let (input, _, last) =
        ok_of_bind (on_message c.input)
          (λ input. ok (record_act (record c { input = input }) (message_cb (x ∷ xs)))) d e in
      omega (
        arith,
        ap (λ (y : Connection). tally m y.log) (ok_inj last),
        tally-append m c.log (message_cb (x ∷ xs) ∷ []),
      )
  after_read_weighs on_message c d (Readv.failed errno) e =
      ap (λ (y : Connection). tally m y.log) (sym (ok_inj e)) ∙ error_weighs c

  pub read_weighs :
      (on_message : Buffer → Result Buffer) (c d : Connection) (r : Readv)
      → handle_read on_message c r ≡ ok d
      → tally m d.log ≡ tally m c.log + read_gain r
  unfolding handle_read
  read_weighs on_message c d r e =
      let ((n, i), eq, rest) = ok_of_bind (read_fd c.input r) _ d e in
      after_read_weighs on_message (record c { input = i }) d n rest
      ∙ ap (λ x. tally m c.log + read_gain x) (read_fd-result c.input i r n eq)

  -- Nothing, or one write.
  abbrev pub Wrote : Connection → Connection → Type 0
  Wrote c d = (tally m d.log ≡ tally m c.log) ⊎ (tally m d.log ≡ tally m c.log + k)

  if_weighs :
      (b : Bool) (x y : Connection) (n : ℕ)
      → tally m x.log ≡ n
      → tally m y.log ≡ n
      → tally m (if b then x else y).log ≡ n
  if_weighs true x y n p q = p
  if_weighs false x y n p q = q

  queue_weighs : (c : Connection) → tally m (queue_write_complete c).log ≡ tally m c.log
  queue_weighs c =
      if_weighs c.on_write_complete (record_act c (queue_in_loop write_complete)) c (tally m c.log)
        (omega (
          arith,
          tally-append m c.log (queue_in_loop write_complete ∷ []),
          v.queued write_complete,
        ))
        refl

  shutdown_weighs : (c : Connection) → tally m (shutdown_in_loop c).log ≡ tally m c.log
  unfolding shutdown_in_loop
  shutdown_weighs c =
      if_weighs (is_writing c.handler) c (record_act c shut_write) (tally m c.log) refl
        (omega (arith, tally-append m c.log (shut_write ∷ []), v.shut))

  after_drain_weighs : (c : Connection) → tally m (after_drain c).log ≡ tally m c.log
  unfolding after_drain
  after_drain_weighs c =
      let c' = queue_write_complete c in
      if_weighs (is_disconnecting c'.state) (shutdown_in_loop c') c' (tally m c.log)
        (shutdown_weighs c' ∙ queue_weighs c) (queue_weighs c)

  drained_weighs : (c d : Connection) → drained c ≡ ok d → tally m d.log ≡ tally m c.log
  unfolding drained after_drain
  drained_weighs c d e =
      let (c', eq, last) = ok_of_bind (update_events c (without_writing c.handler)) _ d e in
      ap (λ (x : Connection). tally m x.log) (sym (ok_inj last))
      ∙ after_drain_weighs c'
      ∙ ap (tally m) (update_events-log c c' (without_writing c.handler) eq)

  write_more_weighs : (c d : Connection) (w : Write) → write_more c w ≡ ok d → Wrote c d
  unfolding write_more
  write_more_weighs c d (failed errno) e =
      inl (ap (λ (x : Connection). tally m x.log) (sym (ok_inj e)))
  write_more_weighs c d (count n) e = elim (ok_of_if (ltb 0 n) _ (ok c) d e) [
    | inl some' ↦
        let (chars, _, rest) =
          ok_of_bind (Buffer.copy_from c.output.bytes (Buffer.peek c.output) n) _ d some' in
        let (output, _, last) = ok_of_bind (Buffer.retrieve c.output n) _ d rest in
        let c' = record_act (record c { output = output }) (wrote chars) in
        let more : tally m c'.log ≡ tally m c.log + k =
          omega (arith, tally-append m c.log (wrote chars ∷ []), v.written chars) in
        inr (elim (ok_of_if (readable_bytes output == 0) (drained c') (ok c') d last) [
          | inl empty ↦ drained_weighs c' d empty ∙ more
          | inr left ↦ ap (λ (x : Connection). tally m x.log) (sym (ok_inj left)) ∙ more
        ])
    | inr none' ↦ inl (ap (λ (x : Connection). tally m x.log) (sym (ok_inj none')))
  ]

  pub write_weighs : (c d : Connection) (w : Write) → handle_write c w ≡ ok d → Wrote c d
  unfolding handle_write
  write_weighs c d w e = elim (ok_of_if (is_writing c.handler) (write_more c w) (ok c) d e) [
    | inl on ↦ write_more_weighs c d w on
    | inr off ↦ inl (ap (λ (x : Connection). tally m x.log) (sym (ok_inj off)))
  ]
