-- ===== src/Buffer/View.antt =====
-- Buffer.h: what of a Buffer its client can know, as a quotient of the valid buffers.
use mathlib.Core.Quot
use mathlib.Core.Quot.{Quot, Quot-set}
use native.Mathlib.Bridge.{le_prop}
use std.HLevel.{Σ_prop_path}
use std.Equiv.{Iso}
use std.Univalence.{iso_to_path}
use netframe.Base.{
  ℕ, ◌-◌, ◌≤◌, ◌≡◌, refl, sym, ap, ◌∙◌, List, ◌++◌, length, take, replicate, length-append,
  length-replicate, take-append_exact, append-nil, arith, Result, ok, ok_inj, ◌>>=◌,
}
use netframe.Buffer.{Buffer, max_size, k_cheap_prepend, retrieve_all_as_string}
use netframe.Buffer.Contents.{IsValid, contents, length-contents}
use netframe.Buffer.Ops.{retrieve_all_as_string_lem}

abbrev pub Valid : Type 0
Valid = (b : Buffer) × IsValid b

-- The text that the client gets.
abbrev pub seen : Buffer → Result (List ℕ)
seen b = retrieve_all_as_string b >>= λ (text, c). ok text

-- The client gets the same text of both.
abbrev pub Same : Valid → Valid → Type 0
Same x y = seen x.0 ≡ seen y.0

abbrev pub View : Type 0
View = Quot Same

-- The texts that a vector can hold.
abbrev pub Text : Type 0
Text = (xs : List ℕ) × (length xs ≤ max_size)

pub seen_lem : (b : Buffer) → IsValid b → seen b ≡ ok (contents b)
seen_lem b v = let (c, e, _) = retrieve_all_as_string_lem b v in rw e refl

Text-path : {s t : Text} → s.0 ≡ t.0 → s ≡ t
Text-path = Σ_prop_path (λ xs. le_prop)

Text-set : IsSet Text
Text-set = hlevel (le_prop)

abbrev text_of : Valid → Text
text_of (b, v) = (contents b, omega (arith, length-contents b v, v.inside, v.small))

Same-text_of : (x y : Valid) → Same x y → text_of x ≡ text_of y
Same-text_of (b, v) (c, w) h = Text-path (ok_inj (sym (seen_lem b v) ∙ h ∙ seen_lem c w))

-- A buffer that holds the text from the start of its vector.
abbrev holding : List ℕ → Buffer
holding xs = record {
  bytes = xs ++ replicate (k_cheap_prepend - length xs) 0;
  reader_index = 0;
  writer_index = length xs;
}

holding-IsValid : (t : Text) → IsValid (holding t.0)
holding-IsValid (xs, h) =
    let size = length-append xs (replicate (k_cheap_prepend - length xs) 0) in
    let pad = length-replicate {A = ℕ} (k_cheap_prepend - length xs) 0 in
    record {
      front = omega (arith, size, pad);
      ordered = omega arith;
      inside = omega (arith, size, pad);
      small = omega (arith, size, pad);
    }

contents-holding : (xs : List ℕ) → contents (holding xs) ≡ xs
contents-holding xs =
    ap (λ n. take n (xs ++ replicate (k_cheap_prepend - length xs) 0)) (omega arith)
    ∙ take-append_exact xs _ (length xs) 0 (omega arith)
    ∙ append-nil xs

abbrev view_of : Text → View
view_of t = Quot.mk (holding t.0, holding-IsValid t)

to_text : View → Text
to_text = Quot.lift Text-set text_of Same-text_of

View-Text : Iso View Text
unfolding to_text
View-Text = record {
  fun = to_text;
  inv = view_of;
  rinv = λ t. Text-path (contents-holding t.0);
  linv =
      Quot.ind (λ q. Quot-set _ _)
        (λ (b, v). Quot.sound (
          seen_lem (holding (contents b)) (holding-IsValid (text_of (b, v)))
          ∙ ap ok (contents-holding (contents b))
          ∙ sym (seen_lem b v)));
}

pub views : View ≡ Text
views = iso_to_path View-Text
