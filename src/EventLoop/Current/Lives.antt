-- ===== src/EventLoop/Current/Lives.antt =====
-- What a thread's own loop may be.
use netframe.Base.{
  ℕ, ◌≡◌, Bool, true, false, not, ◌&&◌, ◌||◌, ◌==◌, List, [], ◌∷◌, Option, none, some, arith,
}
use mathlib.Core.Option.{some-injective}
use netframe.EventLoop.Current.{Event, constructed, destroyed, enter_thread, leave_thread, current}

-- Whether the loop lives after these events, if it lived or not before.
abbrev pub lives : ℕ → Bool → List Event → Bool
lives l b [] = b
lives l b (constructed k ∷ es) = lives l (b || k == l) es
lives l b (destroyed k ∷ es) = lives l (b && not (k == l)) es

current_alive :
    (slot : Option ℕ) (es : List Event) (l : ℕ) (b : Bool)
    → (slot ≡ some l → b ≡ true)
    → current slot es ≡ some l
    → lives l b es ≡ true
unfolding current enter_thread leave_thread
current_alive slot [] l b h e = h e
current_alive none (constructed k ∷ es) l b h e =
    current_alive (some k) es l (b || k == l) (λ f. ground (arith, some-injective _ _ f)) e
current_alive (some m) (constructed k ∷ es) l b h e =
    current_alive (some m) es l (b || k == l) (λ f. ground (arith, h f)) e
current_alive slot (destroyed k ∷ es) l b h e =
    current_alive none es l (b && not (k == l)) (λ f. absurd (cc)) e

-- Whatever loops a thread constructs and destroys, in any order: the loop that it is told is its
-- own has been constructed and not destroyed since.
current-lives : (es : List Event) (l : ℕ) → current none es ≡ some l → lives l false es ≡ true
current-lives es l e = current_alive none es l false (λ f. absurd (cc)) e
