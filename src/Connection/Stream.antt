-- ===== src/Connection/Stream.antt =====
-- Sending: the bytes that the kernel took, and then the output buffer, are the bytes handed to
-- `sendInLoop`, in order.
use netframe.Base.{
  ℕ, ◌+◌, ◌-◌, ◌≤◌, ◌<◌, ◌≡◌, refl, sym, ap, ap₂, subst, ◌∙◌, Bool, true, false, not, ◌&&◌, List,
  [], ◌∷◌, ◌++◌, append_assoc, append-nil, length, take, drop, take-append-drop, length-append,
  length-drop, drop_all, arith, ltb, lt→ltb, ◌==◌, if◌then◌else◌, ok, err, assertion, Bool-cases,
  inl, inr,
}
use netframe.Buffer.{Buffer, max_size, readable_bytes, sub_size}
use netframe.Buffer.Contents.{IsValid, contents, length-contents}
use netframe.Buffer.Ops.{append_lem}
use netframe.Handler.{is_writing, with_writing}
use netframe.Handler.Dispatch.{Watches, is_writing-Watches, with_writing-Watches}
use netframe.Connection.{
  Connection, Act, wrote, shut_write, queue_in_loop, connection_cb, message_cb, close_cb,
  get_socket_error, record_act, queue_write_complete, Write, count, failed, write_now, try_write,
  buffer_rest, send_in_loop, update_events, write_complete,
}
use netframe.Connection.Told.{told, told-append, Kept}
use netframe.Connection.Watch.{pending, Inv, Inv-Tracks, update_events_lem}

-- The bytes that went into the kernel.
abbrev pub sent : List Act → List ℕ
sent [] = []
sent (wrote xs ∷ l) = xs ++ sent l
sent (shut_write ∷ l) = sent l
sent (queue_in_loop t ∷ l) = sent l
sent (connection_cb s ∷ l) = sent l
sent (message_cb xs ∷ l) = sent l
sent (close_cb ∷ l) = sent l
sent (get_socket_error ∷ l) = sent l

-- What the connection has promised to deliver.
abbrev pub stream : Connection → List ℕ
stream c = sent c.log ++ contents c.output

pub sent-append : (l m : List Act) → sent (l ++ m) ≡ sent l ++ sent m
sent-append [] m = refl
sent-append (wrote xs ∷ l) m =
    ap (◌++◌ xs) (sent-append l m) ∙ sym (append_assoc xs (sent l) (sent m))
sent-append (shut_write ∷ l) m = sent-append l m
sent-append (queue_in_loop t ∷ l) m = sent-append l m
sent-append (connection_cb s ∷ l) m = sent-append l m
sent-append (message_cb xs ∷ l) m = sent-append l m
sent-append (close_cb ∷ l) m = sent-append l m
sent-append (get_socket_error ∷ l) m = sent-append l m

-- While nothing waits, the output buffer is empty.
pub contents_of_idle :
    (c : Connection) → IsValid c.output → pending c ≡ false → contents c.output ≡ []
contents_of_idle c v e =
    let none' : c.output.writer_index - c.output.reader_index ≡ 0 = ground arith in
    ap (λ n. take n (drop c.output.reader_index c.output.bytes)) none'

pending_of_contents :
    (c : Connection) → IsValid c.output → 0 < length (contents c.output) → pending c ≡ true
pending_of_contents c v h = ground (arith, length-contents c.output v)

-- With output waiting, the descriptor is watched for writing.
watching :
    (c : Connection) (o : Buffer) {reads : Bool}
    → Inv reads c
    → IsValid o
    → 0 < length (contents o)
    → let c' = record c { output = o } in
      (d : Connection) × ((if is_writing c.handler
          then ok c'
          else update_events c' (with_writing c.handler))
        ≡ ok d)
      × Inv reads d
      × (d.output ≡ o)
      × (d.log ≡ c.log)
      × (d.state ≡ c.state)
watching c o {reads} inv v h = elim (Bool-cases (is_writing c.handler)) [
  | inl e ↦ (
    record c { output = o },
    rw e refl,
    record {
      legal = inv.legal;
      settled = inv.settled;
      valid = v;
      watch =
          subst (Watches c.handler.events reads)
            (sym (is_writing-Watches c.handler inv.watch) ∙ e ∙ sym more) inv.watch;
    },
    refl,
    refl,
    refl,
  )
  | inr e ↦
      let (p, k, eq, l, t, same, _, _) =
        update_events_lem (record c { output = o }) (with_writing c.handler) inv.legal
          (Inv-Tracks c inv) refl refl refl in
      (
        record c { output = o; poller = p; handler = k },
        rw (e, eq) refl,
        record {
          legal = l;
          settled = t;
          valid = v;
          watch = rw (same, more) (with_writing-Watches c.handler inv.watch);
        },
        refl,
        refl,
        refl,
      )
]
  where
    more : pending (record c { output = o }) ≡ true
    more = pending_of_contents (record c { output = o }) v h

-- What is left of a message after `nwrote` bytes is put behind what waits.
buffer_rest_lem :
    (c : Connection) (xs : List ℕ) (n : ℕ) {reads : Bool}
    → Inv reads c
    → 0 < n
    → n ≤ length xs
    → c.output.writer_index + length xs ≤ max_size
    → (d : Connection) × (buffer_rest c xs n ≡ ok d)
      × Inv reads d
      × (contents d.output ≡ contents c.output ++ drop n xs)
      × (d.log ≡ c.log)
      × (d.state ≡ c.state)
unfolding buffer_rest
buffer_rest_lem c xs n inv h k room = elim (Bool-cases (ltb 0 (sub_size (length xs) n))) [
  | inl e ↦
      let (o, eq, holds, _) =
        append_lem c.output (drop n xs) inv.valid (omega (arith, length-drop n xs)) in
      let (d, eq', inv', same, logs, stays) = watching c o inv holds.valid (
        ground (
          arith,
          ap length holds.text,
          length-append (contents c.output) (drop n xs),
          length-drop n xs,
        )) in
      (d, rw (enough, e, eq) eq', inv', ap contents same ∙ holds.text, logs, stays)
  | inr e ↦ (
    c,
    rw (enough, e) refl,
    inv,
    sym (ap (◌++◌ (contents c.output)) (drop_all xs n (ground arith)) ∙ append-nil _),
    refl,
    refl,
  )
]
  where
    enough : ltb (sub_size (length xs) n) (length xs) ≡ true
    enough = lt→ltb _ _ (omega arith)

pub queue_write_complete_lem :
    (c : Connection)
    → (l : List Act) × (queue_write_complete c ≡ record c { log = l })
      × (sent l ≡ sent c.log)
      × (told l ≡ told c.log)
queue_write_complete_lem c = elim (Bool-cases c.on_write_complete) [
  | inl e ↦ (
    c.log ++ (queue_in_loop write_complete ∷ []),
    rw e refl,
    sent-append c.log (queue_in_loop write_complete ∷ []) ∙ append-nil _,
    told-append c.log (queue_in_loop write_complete ∷ []) ∙ append-nil _,
  )
  | inr e ↦ (c.log, rw e refl, refl, refl)
]

-- The write itself only adds to the log, and `n` bytes went out.
write_now_lem :
    (c : Connection) (xs : List ℕ) (n : ℕ)
    → (l : List Act) × (write_now c xs (count n) ≡ (record c { log = l }, n))
      × (sent l ≡ sent c.log ++ take n xs)
      × (told l ≡ told c.log)
unfolding write_now
write_now_lem c xs n = elim (Bool-cases (sub_size (length xs) n == 0)) [
  | inl e ↦
      let (l, eq, same, silent) = queue_write_complete_lem (record_act c (wrote (take n xs))) in
      (l, rw (e, eq) refl, same ∙ taken, silent ∙ untold)
  | inr e ↦ (c.log ++ (wrote (take n xs) ∷ []), rw e refl, taken, untold)
]
  where
    taken : sent (c.log ++ (wrote (take n xs) ∷ [])) ≡ sent c.log ++ take n xs
    taken =
        sent-append c.log (wrote (take n xs) ∷ []) ∙ ap (◌++◌ (sent c.log)) (append-nil (take n xs))

    untold : told (c.log ++ (wrote (take n xs) ∷ [])) ≡ told c.log
    untold = told-append c.log (wrote (take n xs) ∷ []) ∙ append-nil _

relog-Inv :
    (c : Connection) (l : List Act) {reads : Bool} → Inv reads c → Inv reads (record c { log = l })
relog-Inv c l inv = record {
  legal = inv.legal;
  settled = inv.settled;
  valid = inv.valid;
  watch = inv.watch;
}

try_write_idle :
    (c : Connection) (xs : List ℕ) (w : Write) {reads : Bool}
    → Inv reads c
    → pending c ≡ false
    → try_write c xs w ≡ write_now c xs w
unfolding try_write
try_write_idle c xs w inv idle = ground (arith, is_writing-Watches c.handler inv.watch)

-- With no output waiting and a write that takes at least one byte, `sendInLoop` returns, keeps the
-- invariant (the kernel watches for what the connection needs), the state and what the client was
-- told, and the stream grows by exactly the message.
pub send_in_loop_lem :
    (c : Connection) (xs : List ℕ) (n : ℕ) {reads : Bool}
    → Inv reads c
    → pending c ≡ false
    → 0 < n
    → n ≤ length xs
    → c.output.writer_index + length xs ≤ max_size
    → (d : Connection) × (send_in_loop c xs (count n) ≡ ok d)
      × Inv reads d
      × (stream d ≡ stream c ++ xs)
      × Kept c d
unfolding send_in_loop
send_in_loop_lem c xs n inv idle h k room =
    let (l, now, took, silent) = write_now_lem c xs n in
    let (d, eq, inv', text, logs, stays) =
      buffer_rest_lem (record c { log = l }) xs n (relog-Inv c l inv) h k room in
    (
      d,
      ap (λ (r : Connection × ℕ). buffer_rest r.0 xs r.1)
            (try_write_idle c xs (count n) inv idle ∙ now)
          ∙ eq,
      inv',
      ap₂ ◌++◌ (ap sent logs ∙ took) text
          ∙ rejoin (sent c.log) (contents c.output) (contents_of_idle c inv.valid idle),
      record { state = stays; told = ap told logs ∙ silent },
    )
  where
    rejoin : (s t : List ℕ) → t ≡ [] → (s ++ take n xs) ++ (t ++ drop n xs) ≡ (s ++ t) ++ xs
    rejoin s t e =
        rw (e, append-nil s)
          (append_assoc s (take n xs) (drop n xs) ∙ ap (◌++◌ s) (take-append-drop n xs))

-- What the assertion on what remains asks of the call.
abbrev pub progress : Connection → List ℕ → Write → Bool
progress c xs (failed errno) = false
progress c xs (count n) =
    not (is_writing c.handler)
    && (readable_bytes c.output == 0)
    && ltb (sub_size (length xs) n) (length xs)

-- Without progress in the call itself the assertion fails: whenever output already waits or writing
-- is watched, when the kernel takes nothing, and when the write fails, also with EWOULDBLOCK.
pub send_in_loop-aborts :
    (c : Connection) (xs : List ℕ) (w : Write)
    → length xs ≤ max_size
    → progress c xs w ≡ false
    → send_in_loop c xs w ≡ err assertion
unfolding send_in_loop try_write write_now buffer_rest
send_in_loop-aborts c xs (failed errno) s e = ground arith
send_in_loop-aborts c xs (count n) s e = ground arith
