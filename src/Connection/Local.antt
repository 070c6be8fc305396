-- ===== src/Connection/Local.antt =====
-- What TcpConnection.cpp leaves alone: whenever a call on a connection returns, the poller is as it
-- was on all descriptors but the connection's own.
use netframe.Base.{
  ℕ, ◌≡◌, refl, ap, subst, ◌∙◌, Bool, ◌||◌, List, [], ◌∷◌, length, drop, ltb, ◌==◌, if◌then◌else◌,
  Result, ok, ok_inj, ok_of_bind, ok_of_assert, ok_of_if, arith, inl, inr,
}
use netframe.Buffer
use netframe.Buffer.{Buffer, readable_bytes, sub_size, Readv, read_fd}
use netframe.Handler.{
  Handler, set_tie, is_none_event, is_writing, with_reading, with_writing, without_writing,
  without_all,
}
use netframe.Poller.{Poller, update_handler, remove_handler}
use netframe.Poller.Local.{Own, update_handler-Own, remove_handler-Own}
use netframe.Connection.{
  Connection, Write, count, failed, wrote, connection_cb, message_cb, close_cb, disconnected,
  connected, record_act, set_state, update_events, queue_write_complete, write_now, try_write,
  buffer_rest, send_in_loop, send, shutdown_in_loop, shutdown, connection_established,
  connection_destroyed, handle_close, handle_error, after_read, handle_read, drained, write_more,
  handle_write, is_connected, is_connecting, is_disconnecting,
}

abbrev pub Local : Connection → Connection → Type 0
Local c d = Own c.handler.fd c.handler.id c.poller d.poller d.handler

pub Local-refl : (c : Connection) → Local c c
Local-refl c = record { frame = λ j ne. (refl, refl); same_fd = refl; same_id = refl }

Local-trans : (c d e : Connection) → Local c d → Local d e → Local c e
Local-trans c d e v w = record {
  frame = λ j ne.
      let (l, s) = v.frame j ne in
      let (l', s') = w.frame j (ap (λ n. n == j) v.same_fd ∙ ne) in (l' ∙ l, s' ∙ s);
  same_fd = w.same_fd ∙ v.same_fd;
  same_id = w.same_id ∙ v.same_id;
}

-- Neither the poller nor the handler changes.
abbrev Same : Connection → Connection → Type 0
Same c d = (d.poller ≡ c.poller) × (d.handler ≡ c.handler)

Same-Local : (c d : Connection) → Same c d → Local c d
Same-Local c d (p, h) = record {
  frame = λ j ne. rw p (refl, refl);
  same_fd = ap (λ (k : Handler). k.fd) h;
  same_id = ap (λ (k : Handler). k.id) h;
}

update_events-Own :
    (c d : Connection) (h : Handler)
    → update_events c h ≡ ok d
    → Own h.fd h.id c.poller d.poller d.handler
unfolding update_events
update_events-Own c d h e =
    let ((q, k), eq, last) =
      ok_of_bind (update_handler c.poller h)
        (λ (r : Poller × Handler). ok (record c { poller = r.0; handler = r.1 })) d e in
    subst (λ (x : Connection). Own h.fd h.id c.poller x.poller x.handler) (ok_inj last)
      (update_handler-Own c.poller q h k eq)

pub connection_established-Local : (c d : Connection) → connection_established c ≡ ok d → Local c d
unfolding connection_established
connection_established-Local c d e =
    let h = with_reading (set_tie c.handler) in
    let (c', eq, last) =
      ok_of_bind (update_events (set_state c connected) h)
        (λ c'. ok (record_act c' (connection_cb c'.state))) d
        (ok_of_assert (is_connecting c.state) _ d e) in
    subst (Local c) (ok_inj last) (update_events-Own (set_state c connected) c' h eq)

pub handle_close-Local : (c d : Connection) → handle_close c ≡ ok d → Local c d
unfolding handle_close
handle_close-Local c d e =
    let h = without_all c.handler in
    let (c', eq, last) =
      ok_of_bind (update_events (set_state c disconnected) h)
        (λ c'. ok (record_act (record_act c' (connection_cb c'.state)) close_cb)) d
        (ok_of_assert (is_connected c.state || is_disconnecting c.state) _ d e) in
    subst (Local c) (ok_inj last) (update_events-Own (set_state c disconnected) c' h eq)

pub connection_destroyed-Local : (c d : Connection) → connection_destroyed c ≡ ok d → Local c d
unfolding connection_destroyed
connection_destroyed-Local c d e =
    let h = without_all c.handler in
    let (c', eq, rest) = ok_of_bind (update_events (set_state c disconnected) h) _ d e in
    let c'' = record_act c' (connection_cb c'.state) in
    let ((q, k), eq', last) =
      ok_of_bind (remove_handler c''.poller c''.handler)
        (λ (r : Poller × Handler). ok (record c'' { poller = r.0; handler = r.1 })) d
        (ok_of_assert (is_none_event c''.handler) _ d rest) in
    Local-trans c c' d (update_events-Own (set_state c disconnected) c' h eq)
      (subst (Local c') (ok_inj last) (remove_handler-Own c'.poller q c'.handler k eq'))

shutdown_in_loop-Same : (c : Connection) → Same c (shutdown_in_loop c)
unfolding shutdown_in_loop
shutdown_in_loop-Same c = ground arith

pub shutdown_in_loop-Local : (c : Connection) → Local c (shutdown_in_loop c)
shutdown_in_loop-Local c = Same-Local c (shutdown_in_loop c) (shutdown_in_loop-Same c)

pub shutdown-Local : (c : Connection) (in_loop : Bool) → Local c (shutdown c in_loop)
unfolding shutdown shutdown_in_loop
shutdown-Local c in_loop = Same-Local c (shutdown c in_loop) (ground arith)

try_write-Same : (c : Connection) (xs : List ℕ) (w : Write) → Same c (try_write c xs w).0
unfolding try_write write_now
try_write-Same c xs (count n) = ground arith
try_write-Same c xs (failed errno) = ground arith

buffer_rest-Local : (c d : Connection) (xs : List ℕ) (n : ℕ) → buffer_rest c xs n ≡ ok d → Local c d
unfolding buffer_rest
buffer_rest-Local c d xs n e =
    let remaining = sub_size (length xs) n in
    elim (ok_of_if (ltb 0 remaining) _ (ok c) d (ok_of_assert (ltb remaining (length xs)) _ d e)) [
      | inl some' ↦
          let (output, _, rest) = ok_of_bind (Buffer.append c.output (drop n xs)) _ d some' in
          let c' = record c { output = output } in
          elim (ok_of_if (is_writing c.handler) (ok c') _ d rest) [
            | inl on ↦ subst (Local c) (ok_inj on) (Local-refl c)
            | inr off ↦ update_events-Own c' d (with_writing c.handler) off
          ]
      | inr all ↦ subst (Local c) (ok_inj all) (Local-refl c)
    ]

pub send_in_loop-Local :
    (c d : Connection) (xs : List ℕ) (w : Write) → send_in_loop c xs w ≡ ok d → Local c d
unfolding send_in_loop
send_in_loop-Local c d xs w e =
    let (c', n) = try_write c xs w in
    Local-trans c c' d (Same-Local c c' (try_write-Same c xs w)) (buffer_rest-Local c' d xs n e)

pub send-Local :
    (c d : Connection) (in_loop : Bool) (xs : List ℕ) (w : Write)
    → send c in_loop xs w ≡ ok d
    → Local c d
unfolding send
send-Local c d in_loop xs w e = elim (ok_of_if (is_connected c.state) _ (ok c) d e) [
  | inl up ↦ elim (ok_of_if in_loop (send_in_loop c xs w) _ d up) [
    | inl here ↦ send_in_loop-Local c d xs w here
    | inr there ↦ subst (Local c) (ok_inj there) (Local-refl c)
  ]
  | inr down ↦ subst (Local c) (ok_inj down) (Local-refl c)
]

unfoldable pub after_drain : Connection → Connection
after_drain c =
    let c' = queue_write_complete c in if is_disconnecting c'.state then shutdown_in_loop c' else c'

after_drain-Same : (c : Connection) → Same c (after_drain c)
unfolding after_drain shutdown_in_loop
after_drain-Same c = ground arith

drained-Local : (c d : Connection) → drained c ≡ ok d → Local c d
unfolding drained after_drain
drained-Local c d e =
    let (c', eq, last) = ok_of_bind (update_events c (without_writing c.handler)) _ d e in
    Local-trans c c' d (update_events-Own c c' (without_writing c.handler) eq)
      (Same-Local c' d (subst (Same c') (ok_inj last) (after_drain-Same c')))

write_more-Local : (c d : Connection) (w : Write) → write_more c w ≡ ok d → Local c d
unfolding write_more
write_more-Local c d (failed errno) e = subst (Local c) (ok_inj e) (Local-refl c)
write_more-Local c d (count n) e = elim (ok_of_if (ltb 0 n) _ (ok c) d e) [
  | inl some' ↦
      let (chars, _, rest) =
        ok_of_bind (Buffer.copy_from c.output.bytes (Buffer.peek c.output) n) _ d some' in
      let (output, _, last) = ok_of_bind (Buffer.retrieve c.output n) _ d rest in
      let c' = record_act (record c { output = output }) (wrote chars) in
      elim (ok_of_if (readable_bytes output == 0) (drained c') (ok c') d last) [
        | inl empty ↦ drained-Local c' d empty
        | inr more ↦ subst (Local c) (ok_inj more) (Local-refl c)
      ]
  | inr none' ↦ subst (Local c) (ok_inj none') (Local-refl c)
]

pub handle_write-Local : (c d : Connection) (w : Write) → handle_write c w ≡ ok d → Local c d
unfolding handle_write
handle_write-Local c d w e = elim (ok_of_if (is_writing c.handler) (write_more c w) (ok c) d e) [
  | inl on ↦ write_more-Local c d w on
  | inr off ↦ subst (Local c) (ok_inj off) (Local-refl c)
]

pub handle_error-Local : (c : Connection) → Local c (handle_error c)
unfolding handle_error
handle_error-Local c = Local-refl c

after_read-Local :
    (on_message : Buffer → Result Buffer) (c d : Connection) (n : Readv)
    → after_read on_message c n ≡ ok d
    → Local c d
unfolding after_read
after_read-Local on_message c d (Readv.failed errno) e =
    subst (Local c) (ok_inj e) (handle_error-Local c)
after_read-Local on_message c d (Readv.got []) e = handle_close-Local c d e
after_read-Local on_message c d (Readv.got (x ∷ xs)) e =
    let (input, _, last) =
      ok_of_bind (on_message c.input)
        (λ input. ok (record_act (record c { input = input }) (message_cb (x ∷ xs)))) d e in
    subst (Local c) (ok_inj last) (Local-refl c)

pub handle_read-Local :
    (on_message : Buffer → Result Buffer) (c d : Connection) (r : Readv)
    → handle_read on_message c r ≡ ok d
    → Local c d
unfolding handle_read
handle_read-Local on_message c d r e =
    let ((n, i), _, rest) = ok_of_bind (read_fd c.input r) _ d e in
    after_read-Local on_message (record c { input = i }) d n rest
