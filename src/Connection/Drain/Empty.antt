-- ===== src/Connection/Drain/Empty.antt =====
-- TcpConnection.cpp: the output buffer over all the writes until it is empty.
use netframe.Base.{
  ℕ, ◌+◌, ◌-◌, ◌<◌, ◌≡◌, sym, ap, ◌∙◌, Bool, true, not, ◌&&◌, List, [], ◌∷◌, length, length-drop,
  Result, ok, ◌>>=◌, ◌==◌, arith,
}
use netframe.Buffer.{readable_bytes}
use netframe.Buffer.Contents.{contents, length-contents}
use netframe.Connection.{Connection, count, is_disconnecting, handle_write}
use netframe.Connection.Told.{Kept}
use netframe.Connection.Watch.{Inv, pending}
use netframe.Connection.Stream.{stream}
use netframe.Connection.Drain.{Flushed, handle_write_lem, shuts, bit}

-- `handleWrite` for each writable event, with the bytes that the kernel takes at each.
abbrev pub drain : Connection → List ℕ → Result Connection
drain c [] = ok c
drain c (n ∷ ns) = handle_write c (count n) >>= λ d. drain d ns

abbrev pub total : List ℕ → ℕ
total [] = 0
total (n ∷ ns) = n + total ns

-- Each write takes at least one byte.
abbrev pub AllTake : List ℕ → Type 0
AllTake [] = Unit
AllTake (n ∷ ns) = (0 < n) × AllTake ns

pub record Emptied (reads : Bool) (c d : Connection) : Type 0 where
  pub inv : Inv reads d
  pub kept : Kept c d
  pub same : stream d ≡ stream c
  pub empty : readable_bytes d.output ≡ 0
  pub shut : shuts d.log ≡ shuts c.log + bit (is_disconnecting c.state)

Flushed-readable :
    (c d : Connection) (n : ℕ) {reads : Bool}
    → Inv reads c
    → Flushed reads c n d
    → readable_bytes d.output ≡ readable_bytes c.output - n
Flushed-readable c d n inv f =
    sym (length-contents d.output f.inv.valid)
    ∙ ap length f.rest
    ∙ length-drop n (contents c.output)
    ∙ ap (λ m. m - n) (length-contents c.output inv.valid)

last-Emptied :
    (c d : Connection) (n : ℕ) {reads : Bool}
    → Flushed reads c n d
    → readable_bytes d.output ≡ 0
    → Emptied reads c d
last-Emptied c d n f none_left = record {
  inv = f.inv;
  kept = f.kept;
  same = f.same;
  empty = none_left;
  shut =
      f.shut
      ∙ ap (λ m. shuts c.log + bit (not (not (m == 0)) && is_disconnecting c.state)) none_left;
}

then-Emptied :
    (c d k : Connection) (n : ℕ) {reads : Bool}
    → Flushed reads c n d
    → pending d ≡ true
    → Emptied reads d k
    → Emptied reads c k
then-Emptied c d k n f more z = record {
  inv = z.inv;
  kept = record { state = z.kept.state ∙ f.kept.state; told = z.kept.told ∙ f.kept.told };
  same = z.same ∙ f.same;
  empty = z.empty;
  shut =
      z.shut
      ∙ ap (λ s. shuts d.log + bit (is_disconnecting s)) f.kept.state
      ∙ ap (λ j. j + bit (is_disconnecting c.state)) unshut;
}
  where
    unshut : shuts d.log ≡ shuts c.log
    unshut =
        f.shut ∙ ap (λ b. shuts c.log + bit (not b && is_disconnecting c.state)) more ∙ omega arith

-- A connection with output waiting, whose every write takes at least one byte, until the kernel has
-- taken as many as waited: every call returns, and at the end the buffer is empty, nothing is lost
-- or told, the kernel watches for what the connection needs then, and the write side is shut down
-- once if the connection is disconnecting, and not at all otherwise.
pub drain-Emptied :
    (c : Connection) (ns : List ℕ) {reads : Bool}
    → Inv reads c
    → pending c ≡ true
    → AllTake ns
    → total ns ≡ readable_bytes c.output
    → (d : Connection) × (drain c ns ≡ ok d) × Emptied reads c d
drain-Emptied c [] inv waits take' e = absurd (ground arith)
drain-Emptied c (n ∷ []) inv waits take' e =
    let (d, eq, f) = handle_write_lem c n inv waits take'.0 (omega (arith, e)) in
    (
      d,
      ap (λ (r : Result Connection). r >>= λ x. ok x) eq,
      last-Emptied c d n f (omega (arith, Flushed-readable c d n inv f, e)),
    )
drain-Emptied c (n ∷ (m ∷ ns)) inv waits take' e =
    let (d, eq, f) = handle_write_lem c n inv waits take'.0 (omega (arith, e)) in
    let left = Flushed-readable c d n inv f in
    let more : pending d ≡ true = ground (arith, left, e, take'.1.0) in
    let (k, eq', z) = drain-Emptied d (m ∷ ns) f.inv more take'.1 (omega (arith, left, e)) in
    (
      k,
      ap (λ (r : Result Connection). r >>= λ x. drain x (m ∷ ns)) eq ∙ eq',
      then-Emptied c d k n f more z,
    )
