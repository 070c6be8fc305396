-- ===== src/Connection/Drain.antt =====
-- `handleWrite`: the output buffer drains in order, and a shutdown waits until it is empty.
pub mod Empty
use netframe.Base.{
  ℕ, suc, ◌+◌, ◌≤◌, ◌<◌, ◌≡◌, refl, sym, ap, ap₂, subst, ◌∙◌, Bool, true, false, not, ◌&&◌, List,
  [], ◌∷◌, ◌++◌, append_assoc, append-nil, take, drop, take-append-drop, take-take, arith, lt→ltb,
  ◌==◌, if◌then◌else◌, Result, ok, Bool-cases, inl, inr, ◌>>=◌,
}
use netframe.Buffer.{Buffer, readable_bytes, copy_from}
use netframe.Buffer.Contents.{IsValid, contents, copy_from_lem}
use netframe.Buffer.Ops.{Holds, retrieve_lem}
use netframe.Handler.{is_writing, without_writing}
use netframe.Handler.Dispatch.{Watches, is_writing-Watches, without_writing-Watches}
use netframe.Poller.Sync.{Legal, Tracks}
use netframe.Connection.{
  Connection, Act, wrote, shut_write, queue_in_loop, connection_cb, message_cb, close_cb,
  get_socket_error, record_act, queue_write_complete, write_complete, count, is_disconnecting,
  shutdown_in_loop, drained, write_more, handle_write,
}
use netframe.Connection.Told.{told, told-append, Kept}
use netframe.Connection.Watch.{pending, Inv, Inv-Tracks, update_events_lem}
use netframe.Connection.Stream.{sent, stream, sent-append}

-- How often the write side has been shut down.
abbrev pub shuts : List Act → ℕ
shuts [] = 0
shuts (wrote xs ∷ l) = shuts l
shuts (shut_write ∷ l) = suc (shuts l)
shuts (queue_in_loop t ∷ l) = shuts l
shuts (connection_cb s ∷ l) = shuts l
shuts (message_cb xs ∷ l) = shuts l
shuts (close_cb ∷ l) = shuts l
shuts (get_socket_error ∷ l) = shuts l

shuts-append : (l m : List Act) → shuts (l ++ m) ≡ shuts l + shuts m
shuts-append [] m = omega arith
shuts-append (wrote xs ∷ l) m = shuts-append l m
shuts-append (shut_write ∷ l) m = omega (arith, shuts-append l m)
shuts-append (queue_in_loop t ∷ l) m = shuts-append l m
shuts-append (connection_cb s ∷ l) m = shuts-append l m
shuts-append (message_cb xs ∷ l) m = shuts-append l m
shuts-append (close_cb ∷ l) m = shuts-append l m
shuts-append (get_socket_error ∷ l) m = shuts-append l m

-- The same connection but for entries of the log that move no byte.
pub record Logged (c : Connection) (n : ℕ) (d : Connection) : Type 0 where
  pub log : List Act
  pub only : d ≡ record c { log = log }
  pub same : sent log ≡ sent c.log
  pub shut : shuts log ≡ shuts c.log + n
  pub told_same : told log ≡ told c.log

queue-Logged : (c : Connection) → Logged c 0 (queue_write_complete c)
queue-Logged c = elim (Bool-cases c.on_write_complete) [
  | inl e ↦ record {
    log = c.log ++ (queue_in_loop write_complete ∷ []);
    only = rw e refl;
    same = sent-append c.log _ ∙ append-nil _;
    shut = shuts-append c.log _;
    told_same = told-append c.log _ ∙ append-nil _;
  }
  | inr e ↦ record {
    log = c.log;
    only = rw e refl;
    same = refl;
    shut = omega arith;
    told_same = refl;
  }
]

pub shutdown-Logged :
    (c : Connection) → is_writing c.handler ≡ false → Logged c 1 (shutdown_in_loop c)
unfolding shutdown_in_loop
shutdown-Logged c e = record {
  log = c.log ++ (shut_write ∷ []);
  only = rw e refl;
  same = sent-append c.log _ ∙ append-nil _;
  shut = shuts-append c.log _;
  told_same = told-append c.log _ ∙ append-nil _;
}

abbrev bit : Bool → ℕ
bit true = 1
bit false = 0

finish-Logged :
    (c : Connection)
    → is_writing c.handler ≡ false
    → Logged c
        (bit (is_disconnecting c.state))
        (if is_disconnecting c.state then shutdown_in_loop c else c)
finish-Logged c e = elim (Bool-cases (is_disconnecting c.state)) [
  | inl d ↦ rw d (shutdown-Logged c e)
  | inr d ↦
      rw d (record { log = c.log; only = refl; same = refl; shut = omega arith; told_same = refl })
]

-- The connection after its last waiting byte has gone.
record Drained (reads : Bool) (c d : Connection) : Type 0 where
  inv : Inv reads d
  kept : Kept c d
  output : d.output ≡ c.output
  same : sent d.log ≡ sent c.log
  shut : shuts d.log ≡ shuts c.log + bit (is_disconnecting c.state)

drained_lem :
    (c : Connection) {reads w : Bool}
    → Legal c.poller.calls
    → Tracks c.handler.state c.poller c.handler
    → IsValid c.output
    → Watches c.handler.events reads w
    → pending c ≡ false
    → (d : Connection) × (drained c ≡ ok d) × Drained reads c d
unfolding drained
drained_lem c {reads} l t v watch idle =
    let (p, k, eq, l', t', same, _, _) =
      update_events_lem c (without_writing c.handler) l t refl refl refl in
    let off : Watches k.events reads false = rw same (without_writing-Watches c.handler watch) in
    let c' = record c { poller = p; handler = k } in
    let first = queue-Logged c' in
    let last = finish-Logged (record c' { log = first.log }) (is_writing-Watches k off) in
    (
      record c' { log = last.log },
      ap (λ r. r >>= finish) eq
          ∙ ap (λ e. ok (if is_disconnecting e.state then shutdown_in_loop e else e)) first.only
          ∙ ap ok last.only,
      record {
        inv = record { legal = l'; settled = t'; valid = v; watch = rw idle off };
        kept = record { state = refl; told = last.told_same ∙ first.told_same };
        output = refl;
        same = last.same ∙ first.same;
        shut = omega (arith, last.shut, first.shut);
      },
    )
  where
    finish : Connection → Result Connection
    finish e =
        let e' = queue_write_complete e in
        ok (if is_disconnecting e'.state then shutdown_in_loop e' else e')

-- The kernel took `n` more bytes off the front of what waited.
abbrev written : Connection → ℕ → Buffer → Connection
written c n o = record_act (record c { output = o }) (wrote (take n (contents c.output)))

pub record Flushed (reads : Bool) (c : Connection) (n : ℕ) (d : Connection) : Type 0 where
  pub inv : Inv reads d
  pub kept : Kept c d
  pub same : stream d ≡ stream c
  pub rest : contents d.output ≡ drop n (contents c.output)
  pub shut : shuts d.log ≡ shuts c.log + bit (not (pending d) && is_disconnecting c.state)

written-stream :
    (c : Connection) (n : ℕ) (o : Buffer)
    → Holds (drop n (contents c.output)) o
    → stream (written c n o) ≡ stream c
written-stream c n o holds =
    ap₂ ◌++◌ (sent-append c.log _ ∙ ap (◌++◌ (sent c.log)) (append-nil _)) holds.text
    ∙ append_assoc (sent c.log) _ _
    ∙ ap (◌++◌ (sent c.log)) (take-append-drop n (contents c.output))

written-shuts : (c : Connection) (n : ℕ) (o : Buffer) → shuts (written c n o).log ≡ shuts c.log
written-shuts c n o = omega (arith, shuts-append c.log (wrote (take n (contents c.output)) ∷ []))

written-told : (c : Connection) (n : ℕ) (o : Buffer) → told (written c n o).log ≡ told c.log
written-told c n o = told-append c.log (wrote (take n (contents c.output)) ∷ []) ∙ append-nil _

Drained-Flushed :
    (c : Connection) (n : ℕ) (o : Buffer) (d : Connection) {reads : Bool}
    → Holds (drop n (contents c.output)) o
    → (readable_bytes o == 0) ≡ true
    → Drained reads (written c n o) d
    → Flushed reads c n d
Drained-Flushed c n o d holds e z = record {
  inv = z.inv;
  kept = record { state = z.kept.state; told = z.kept.told ∙ written-told c n o };
  same = ap₂ ◌++◌ z.same (ap contents z.output) ∙ written-stream c n o holds;
  rest = ap contents z.output ∙ holds.text;
  shut = rw (z.output, e) (omega (arith, z.shut, written-shuts c n o));
}

kept-Flushed :
    (c : Connection) (n : ℕ) (o : Buffer) {reads : Bool}
    → Inv reads c
    → pending c ≡ true
    → Holds (drop n (contents c.output)) o
    → (readable_bytes o == 0) ≡ false
    → Flushed reads c n (written c n o)
kept-Flushed c n o {reads} inv waits holds e = record {
  inv = record {
    legal = inv.legal;
    settled = inv.settled;
    valid = holds.valid;
    watch = subst (Watches c.handler.events reads) (waits ∙ sym (ap not e)) inv.watch;
  };
  kept = record { state = refl; told = written-told c n o };
  same = written-stream c n o holds;
  rest = holds.text;
  shut = rw e (omega (arith, written-shuts c n o));
}

-- `handleWrite` on a connection with output waiting, when the kernel takes `n` bytes: it returns,
-- keeps the invariant, the state, what the client
-- was told and the stream, takes exactly the first `n` bytes off the buffer, and shuts
-- the write side down once if the buffer is empty now and the connection is disconnecting, and
-- not at all otherwise.
pub handle_write_lem :
    (c : Connection) (n : ℕ) {reads : Bool}
    → Inv reads c
    → pending c ≡ true
    → 0 < n
    → n ≤ readable_bytes c.output
    → (d : Connection) × (handle_write c (count n) ≡ ok d) × Flushed reads c n d
unfolding handle_write write_more
handle_write_lem c n inv waits h k =
    let (o, eq, holds) = retrieve_lem c.output n inv.valid k in
    elim (Bool-cases (readable_bytes o == 0)) [
      | inl e ↦
          let (d, eq', z) =
            drained_lem (written c n o) inv.legal (Inv-Tracks c inv) holds.valid inv.watch
              (ap not e) in
          (
            d,
            rw (is_writing-Watches c.handler inv.watch, waits, lt→ltb 0 n h, read, eq, e) eq',
            Drained-Flushed c n o d holds e z,
          )
      | inr e ↦ (
        written c n o,
        rw (is_writing-Watches c.handler inv.watch, waits, lt→ltb 0 n h, read, eq, e) refl,
        kept-Flushed c n o inv waits holds e,
      )
    ]
  where
    read : copy_from c.output.bytes c.output.reader_index n ≡ ok (take n (contents c.output))
    read =
        copy_from_lem c.output.bytes c.output.reader_index n
          (omega (arith, inv.valid.ordered, inv.valid.inside, inv.valid.small))
        ∙ ap ok (
            sym (
              take-take n _ (drop c.output.reader_index c.output.bytes)
                (omega (arith, inv.valid.ordered, inv.valid.inside, inv.valid.small))))
