-- ===== src/Handler/Dispatch.antt =====
-- Which callbacks run, and what the mask of watched events can be.
use netframe.Base.{ℕ, ◌≡◌, ap, Bool, true, false, bit_and, bit_or}
use netframe.Handler.{Handler, with_reading, with_writing, without_writing, is_writing}

-- Reading is watched, or writing, or both, or nothing.
pub data Watches (e : ℕ) : Bool → Bool → Type 0 where
  nothing : e ≡ 0 → Watches e false false
  reading : e ≡ 3 → Watches e true false
  writing : e ≡ 4 → Watches e false true
  both : e ≡ 7 → Watches e true true

pub with_reading-Watches :
    {r w : Bool} (h : Handler) → Watches h.events r w → Watches (with_reading h).events true w
with_reading-Watches h (nothing e) = reading (ap (λ n. bit_or n 3) e)
with_reading-Watches h (reading e) = reading (ap (λ n. bit_or n 3) e)
with_reading-Watches h (writing e) = both (ap (λ n. bit_or n 3) e)
with_reading-Watches h (both e) = both (ap (λ n. bit_or n 3) e)

pub with_writing-Watches :
    {r w : Bool} (h : Handler) → Watches h.events r w → Watches (with_writing h).events r true
with_writing-Watches h (nothing e) = writing (ap (λ n. bit_or n 4) e)
with_writing-Watches h (reading e) = both (ap (λ n. bit_or n 4) e)
with_writing-Watches h (writing e) = writing (ap (λ n. bit_or n 4) e)
with_writing-Watches h (both e) = both (ap (λ n. bit_or n 4) e)

pub without_writing-Watches :
    {r w : Bool} (h : Handler) → Watches h.events r w → Watches (without_writing h).events r false
without_writing-Watches h (nothing e) = nothing (ap (λ n. bit_and n 0xffff_fffb) e)
without_writing-Watches h (reading e) = reading (ap (λ n. bit_and n 0xffff_fffb) e)
without_writing-Watches h (writing e) = nothing (ap (λ n. bit_and n 0xffff_fffb) e)
without_writing-Watches h (both e) = reading (ap (λ n. bit_and n 0xffff_fffb) e)

pub is_writing-Watches : {r w : Bool} (h : Handler) → Watches h.events r w → is_writing h ≡ w
is_writing-Watches h (nothing e) = rw e
is_writing-Watches h (reading e) = rw e
is_writing-Watches h (writing e) = rw e
is_writing-Watches h (both e) = rw e
