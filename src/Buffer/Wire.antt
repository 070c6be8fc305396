-- ===== src/Buffer/Wire.antt =====
-- Integers written into a Buffer and read back.
use netframe.Base.{
  ℕ, ◌+◌, ◌-◌, ◌^◌, ◌≤◌, ◌<◌, ◌≡◌, refl, sym, ap, subst, ◌∙◌, true, List, [], ◌∷◌, ◌++◌,
  append_assoc, append-nil, map, length, take, drop, slice, length-append, take-take,
  take-append_exact, drop-append_exact, leb, le→leb, Result, ok, ◌>>=◌, arith,
}
use netframe.Buffer.{Buffer, max_size, readable_bytes, copy_from, retrieve, append}
use netframe.Buffer.Contents.{IsValid, contents, length-contents, copy_from_lem}
use netframe.Buffer.Ops.{Holds, append_lem, retrieve_lem}
use netframe.Buffer.Ints.{
  Machine, be16, be32, append_int8, append_int16, append_int32, peek_int8, peek_int16, peek_int32,
  read_int8, read_int16, read_int32, host_to_network16, host_to_network32, network_to_host16,
  network_to_host32,
}

pub data Width : Type 0 where
  w8 w16 w32 : Width

-- A value with the width that it is written in.
pub data Field : Type 0 where
  field : Width → ℕ → Field

abbrev pub width_of : Field → Width
width_of (field w x) = w

abbrev pub InRange : Field → Type 0
InRange (field w8 x) = x < 2 ^ 8
InRange (field w16 x) = x < 2 ^ 16
InRange (field w32 x) = x < 2 ^ 32

abbrev pub AllInRange : List Field → Type 0
AllInRange [] = Unit
AllInRange (f ∷ fs) = InRange f × AllInRange fs

abbrev pub encode : Field → List ℕ
encode (field w8 x) = x ∷ []
encode (field w16 x) = be16 x
encode (field w32 x) = be32 x

abbrev pub encode_all : List Field → List ℕ
encode_all [] = []
encode_all (f ∷ fs) = encode f ++ encode_all fs

-- What stands in front can be copied out, and is dropped by `retrieve`.
front_lem :
    (b : Buffer) (xs rest : List ℕ)
    → Holds (xs ++ rest) b
    → (c : Buffer) × (copy_from b.bytes b.reader_index (length xs) ≡ ok xs)
      × (leb (length xs) (readable_bytes b) ≡ true)
      × (retrieve b (length xs) ≡ ok c)
      × Holds rest c
front_lem b xs rest h =
    let (c, eq, holds) = retrieve_lem b n h.valid enough in
    (
      c,
      copy_from_lem b.bytes b.reader_index n
            (omega (arith, enough, h.valid.ordered, h.valid.inside, h.valid.small))
          ∙ ap ok first,
      le→leb n (readable_bytes b) enough,
      eq,
      subst (λ ys. Holds ys c) (ap (drop n) h.text ∙ drop-append_exact xs rest n refl) holds,
    )
  where
    n : ℕ
    n = length xs

    enough : n ≤ readable_bytes b
    enough = omega (arith, length-contents b h.valid, ap length h.text, length-append xs rest)

    first : slice b.reader_index n b.bytes ≡ xs
    first =
        sym (
          take-take n (b.writer_index - b.reader_index) (drop b.reader_index b.bytes)
            (omega (arith, enough, h.valid.ordered, h.valid.inside, h.valid.small)))
        ∙ ap (take n) h.text
        ∙ take-append_exact xs rest n 0 (omega arith)
        ∙ append-nil xs

module _ (m : Machine) where
  unfoldable pub append_field : Buffer → Field → Result Buffer
  append_field b (field w8 x) = append_int8 b x
  append_field b (field w16 x) = append_int16 m b x
  append_field b (field w32 x) = append_int32 m b x

  unfoldable pub append_fields : Buffer → List Field → Result Buffer
  append_fields b [] = ok b
  append_fields b (f ∷ fs) = append_field b f >>= λ c. append_fields c fs

  unfoldable pub read_value : Buffer → Width → Result (ℕ × Buffer)
  read_value b w8 = read_int8 b
  read_value b w16 = read_int16 m b
  read_value b w32 = read_int32 m b

  unfoldable pub read_fields : Buffer → List Width → Result (List Field × Buffer)
  read_fields b [] = ok ([], b)
  read_fields b (w ∷ ws) = do
    (x, c) ← read_value b w
    (fs, d) ← read_fields c ws
    ok (field w x ∷ fs, d)

  append_field-encode :
      (b : Buffer) (f : Field) → InRange f → append_field b f ≡ append b (encode f)
  unfolding append_field append_int8 append_int16 append_int32 host_to_network16 host_to_network32
  append_field-encode b (field w8 x) h = refl
  append_field-encode b (field w16 x) h = ap (append b) (m.wire16 x h)
  append_field-encode b (field w32 x) h = ap (append b) (m.wire32 x h)

  read_value_lem :
      (b : Buffer) (w : Width) (x : ℕ) (rest : List ℕ)
      → InRange (field w x)
      → Holds (encode (field w x) ++ rest) b
      → (c : Buffer) × (read_value b w ≡ ok (x, c)) × Holds rest c
  unfolding read_value read_int8 read_int16 read_int32 peek_int8 peek_int16 peek_int32
      network_to_host16 network_to_host32
  read_value_lem b w8 x rest h holds =
      let (c, copied, enough, eq, left) = front_lem b (x ∷ []) rest holds in
      (c, rw (enough, copied, eq) refl, left)
  read_value_lem b w16 x rest h holds =
      let (c, copied, enough, eq, left) = front_lem b (be16 x) rest holds in
      (c, rw (enough, copied, eq) (ap (λ v. ok (v, c)) (m.unwire16 x h)), left)
  read_value_lem b w32 x rest h holds =
      let (c, copied, enough, eq, left) = front_lem b (be32 x) rest holds in
      (c, rw (enough, copied, eq) (ap (λ v. ok (v, c)) (m.unwire32 x h)), left)

  append_fields_lem :
      (b : Buffer) (fs : List Field)
      → IsValid b
      → AllInRange fs
      → length b.bytes + length (encode_all fs) ≤ max_size
      → (c : Buffer) × (append_fields b fs ≡ ok c) × Holds (contents b ++ encode_all fs) c
  unfolding append_fields
  append_fields_lem b [] v h k =
      (b, refl, record { valid = v; text = sym (append-nil (contents b)) })
  append_fields_lem b (f ∷ fs) v h k =
      let (c, eq, holds, growth) =
        append_lem b (encode f) v
          (omega (arith, v.inside, length-append (encode f) (encode_all fs))) in
      let (d, eq', holds') =
        append_fields_lem c fs holds.valid h.1
          (omega (arith, growth, length-append (encode f) (encode_all fs))) in
      (
        d,
        rw (append_field-encode b f h.0, eq) eq',
        subst (λ ys. Holds ys d)
            (ap (λ ys. ys ++ encode_all fs) holds.text
              ∙ append_assoc (contents b) (encode f) (encode_all fs))
            holds',
      )

  read_fields_lem :
      (b : Buffer) (fs : List Field) (rest : List ℕ)
      → AllInRange fs
      → Holds (encode_all fs ++ rest) b
      → (c : Buffer) × (read_fields b (map width_of fs) ≡ ok (fs, c)) × Holds rest c
  unfolding read_fields
  read_fields_lem b [] rest h holds = (b, refl, holds)
  read_fields_lem b (field w x ∷ fs) rest h holds =
      let holds₁ =
        subst (λ ys. Holds ys b) (append_assoc (encode (field w x)) (encode_all fs) rest) holds in
      let (c, eq, left) = read_value_lem b w x (encode_all fs ++ rest) h.0 holds₁ in
      let (d, eq', left') = read_fields_lem c fs rest h.1 left in (d, rw (eq, eq') refl, left')

  -- Integers of any widths, appended to a valid buffer whose readable bytes have been taken, come
  -- back in order and unchanged, on a machine of any byte order, and leave the buffer empty.
  pub read_fields-append_fields :
      (b : Buffer) (fs : List Field)
      → IsValid b
      → contents b ≡ []
      → AllInRange fs
      → length b.bytes + length (encode_all fs) ≤ max_size
      → (c d : Buffer) × (append_fields b fs ≡ ok c)
        × (read_fields c (map width_of fs) ≡ ok (fs, d))
        × (contents d ≡ [])
  read_fields-append_fields b fs v e h k =
      let (c, eq, holds) = append_fields_lem b fs v h k in
      let (d, eq', left) = read_fields_lem c fs [] h (
        subst (λ ys. Holds ys c)
          (ap (λ ys. ys ++ encode_all fs) e ∙ sym (append-nil (encode_all fs))) holds) in
      (c, d, eq, eq', left.text)
