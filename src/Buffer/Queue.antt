-- ===== src/Buffer/Queue.antt =====
-- A Buffer against a queue of bytes, over any sequence of its operations.
use netframe.Base.{
  ℕ, ◌+◌, ◌≤◌, ◌≡◌, refl, sym, ap, subst, ◌∙◌, List, [], ◌∷◌, ◌++◌, length, take, drop, leb, arith,
  Result, ok, ◌>>=◌, ok_inj, ok_of_bind, ok_of_assert,
}
use netframe.Buffer.{
  Buffer, max_size, readable_bytes, append, retrieve, retrieve_all, retrieve_as_string,
  retrieve_all_as_string, copy_from, peek,
}
use netframe.Buffer.Contents.{IsValid, contents, length-contents}
use netframe.Buffer.Ops.{
  Holds, append_lem, retrieve_lem, retrieve_all-Holds, retrieve_as_string_lem,
  retrieve_all_as_string_lem,
}

pub data Op : Type 0 where
  put : List ℕ → Op
  skip : ℕ → Op
  skip_all : Op
  get : ℕ → Op
  get_all : Op

-- What the operation returns, and the buffer after it.
abbrev pub apply : Buffer → Op → Result (List ℕ × Buffer)
apply b (put xs) = append b xs >>= λ c. ok ([], c)
apply b (skip n) = retrieve b n >>= λ c. ok ([], c)
apply b skip_all = ok ([], retrieve_all b)
apply b (get n) = retrieve_as_string b n
apply b get_all = retrieve_all_as_string b

unfoldable pub run : Buffer → List Op → Result (List ℕ × Buffer)
run b [] = ok ([], b)
run b (o ∷ os) = do (text, c) ← apply b o; (texts, d) ← run c os; ok (text ++ texts, d)

-- The queue: bytes come in at its end and go out at its front.
abbrev pub queue_apply : List ℕ → Op → List ℕ × List ℕ
queue_apply q (put xs) = ([], q ++ xs)
queue_apply q (skip n) = ([], drop n q)
queue_apply q skip_all = ([], [])
queue_apply q (get n) = (take n q, drop n q)
queue_apply q get_all = (q, [])

unfoldable pub queue_run : List ℕ → List Op → List ℕ × List ℕ
queue_run q [] = ([], q)
queue_run q (o ∷ os) =
    let (text, q') = queue_apply q o in let (texts, q'') = queue_run q' os in (text ++ texts, q'')

-- No operation asks for more than the queue has.
abbrev pub Allowed : List ℕ → Op → Type 0
Allowed q (put xs) = Unit
Allowed q (skip n) = n ≤ length q
Allowed q skip_all = Unit
Allowed q (get n) = n ≤ length q
Allowed q get_all = Unit

abbrev pub AllAllowed : List ℕ → List Op → Type 0
AllAllowed q [] = Unit
AllAllowed q (o ∷ os) = Allowed q o × AllAllowed (queue_apply q o).1 os

abbrev pub size : Op → ℕ
size (put xs) = length xs
size (skip n) = 0
size skip_all = 0
size (get n) = 0
size get_all = 0

-- The bytes that come in altogether.
abbrev pub volume : List Op → ℕ
volume [] = 0
volume (o ∷ os) = size o + volume os

retrieve-bytes : (b c : Buffer) (n : ℕ) → retrieve b n ≡ ok c → c.bytes ≡ b.bytes
unfolding retrieve
retrieve-bytes b c n e = ground arith

retrieve_as_string-bytes :
    (b c : Buffer) (n : ℕ) (xs : List ℕ) → retrieve_as_string b n ≡ ok (xs, c) → c.bytes ≡ b.bytes
unfolding retrieve_as_string
retrieve_as_string-bytes b c n xs e =
    let (result, _, rest) =
      ok_of_bind (copy_from b.bytes (peek b) n) (λ r. retrieve b n >>= λ b'. ok (r, b')) (xs, c)
        (ok_of_assert (leb n (readable_bytes b)) _ (xs, c) e) in
    let (c', eq, same) = ok_of_bind (retrieve b n) (λ b'. ok (result, b')) (xs, c) rest in
    sym (ap (λ (p : List ℕ × Buffer). p.1.bytes) (ok_inj same)) ∙ retrieve-bytes b c' n eq

record Applied (b : Buffer) (o : Op) (c : Buffer) : Type 0 where
  returns : apply b o ≡ ok ((queue_apply (contents b) o).0, c)
  holds : Holds (queue_apply (contents b) o).1 c
  growth : length c.bytes ≤ length b.bytes + size o

apply_lem :
    (b : Buffer) (o : Op)
    → IsValid b
    → Allowed (contents b) o
    → length b.bytes + size o ≤ max_size
    → (c : Buffer) × Applied b o c
unfolding retrieve_all_as_string
apply_lem b (put xs) v a h =
    let (c, eq, holds, growth) = append_lem b xs v (omega (arith, v.inside)) in
    (c, record { returns = rw eq refl; holds = holds; growth = growth })
apply_lem b (skip n) v a h =
    let (c, eq, holds) = retrieve_lem b n v (omega (arith, length-contents b v)) in
    (
      c,
      record {
        returns = rw eq refl;
        holds = holds;
        growth = omega (arith, ap length (retrieve-bytes b c n eq));
      },
    )
apply_lem b skip_all v a h = (
  retrieve_all b,
  record { returns = refl; holds = retrieve_all-Holds b v; growth = omega arith },
)
apply_lem b (get n) v a h =
    let (c, eq, holds) = retrieve_as_string_lem b n v (omega (arith, length-contents b v)) in
    (
      c,
      record {
        returns = eq;
        holds = holds;
        growth = omega (arith, ap length (retrieve_as_string-bytes b c n _ eq));
      },
    )
apply_lem b get_all v a h =
    let (c, eq, holds) = retrieve_all_as_string_lem b v in
    (
      c,
      record {
        returns = eq;
        holds = holds;
        growth = omega (arith, ap length (retrieve_as_string-bytes b c (readable_bytes b) _ eq));
      },
    )

-- On a valid buffer, any sequence of appends and retrievals, of which none asks for more than there
-- is, and which brings in no more than the vector can grow by, passes its assertions; the bytes
-- that it returns and the bytes that it leaves are those of a queue that started with the readable
-- bytes.
pub run-queue_run :
    (b : Buffer) (os : List Op)
    → IsValid b
    → AllAllowed (contents b) os
    → length b.bytes + volume os ≤ max_size
    → (c : Buffer) × (run b os ≡ ok ((queue_run (contents b) os).0, c))
      × Holds (queue_run (contents b) os).1 c
unfolding run queue_run
run-queue_run b [] v a h = (b, refl, record { valid = v; text = refl })
run-queue_run b (o ∷ os) v a h =
    let (c, z) = apply_lem b o v a.0 (omega arith) in
    let same = z.holds.text in
    let (d, eq, holds) =
      run-queue_run c os z.holds.valid (subst (λ q. AllAllowed q os) (sym same) a.1)
        (omega (arith, z.growth)) in
    (
      d,
      ap (λ (r : Result (List ℕ × Buffer)). r >>= rest) z.returns
          ∙ ap (λ (r : Result (List ℕ × Buffer)). r >>= last (queue_apply (contents b) o).0) eq
          ∙ ap (λ q. ok ((queue_apply (contents b) o).0 ++ (queue_run q os).0, d)) same,
      subst (λ q. Holds (queue_run q os).1 d) same holds,
    )
  where
    last : List ℕ → List ℕ × Buffer → Result (List ℕ × Buffer)
    last text (texts, d) = ok (text ++ texts, d)

    rest : List ℕ × Buffer → Result (List ℕ × Buffer)
    rest (text, c) = run c os >>= last text
