-- ===== src/EventLoop/Run/Lost.antt =====
-- A `quit` that comes before `loop` is entered.
use netframe.Base.{
  ℕ, ◌≡◌, refl, ap, ap₂, ◌∙◌, Bool, true, false, ◌||◌, List, [], ◌∷◌, length, Result, ok, ◌>>=◌,
  arith,
}
use netframe.EventLoop.{enter, request_quit}
use netframe.EventLoop.Run.{Call, Loop, Round, turn, rounds, loop}
use netframe.EventLoop.Run.Calls.{stops, any_stops}
use netframe.EventLoop.Run.Quit.{iterate_lem, due, asked, calls_quit, some_quit, AllSized}

module _ {ℓ} {F : Type ℓ} (script : F → List (Call F))
    (polite : (f : F) → stops (script f) ≡ false) where
  any_stops-polite : (fs : List F) → any_stops script fs ≡ false
  any_stops-polite [] = refl
  any_stops-polite (f ∷ fs) = ap₂ ◌||◌ (polite f) (any_stops-polite fs)

  asked-polite : (l : Loop F) (r : Round F) → calls_quit script r ≡ false → asked script l r ≡ false
  asked-polite l r h = ap₂ ◌||◌ h (any_stops-polite (due script l r))

  or_false : (a b : Bool) → (a || b) ≡ false → (a ≡ false) × (b ≡ false)
  or_false true b e = absurd (cc)
  or_false false b e = (refl, e)

  pub rounds_wait :
      (n : ℕ) (l : Loop F) (rs : List (Round F))
      → length l.poller.handlermap ≡ n
      → l.base.quit ≡ false
      → AllSized script n rs
      → some_quit script rs ≡ false
      → (m : Loop F) × (rounds script l rs ≡ ok (false, m))
  unfolding rounds
  rounds_wait n l [] s q h e = (l, refl)
  rounds_wait n l (r ∷ rs) s q h e =
      let (now, later) = or_false (calls_quit script r) (some_quit script rs) e in
      let (m, eq, z) = iterate_lem script l r (omega (arith, s, h.0)) in
      let off : m.base.quit ≡ false = z.quit ∙ ap₂ ◌||◌ q (asked-polite l r now) in
      let (k, eq') = rounds_wait n m rs (ap length z.same_map ∙ s) off h.1 later in
      (
        k,
        ap (λ (x : Result (Loop F)). x >>= behind) eq
            ∙ ap (λ b. turn b m (rounds script m rs)) off
            ∙ eq',
      )
    where
      behind : Loop F → Result (Bool × Loop F)
      behind m = turn (m.base.quit) m (rounds script m rs)

  -- Another thread calls `quit` before `loop` is entered, and nobody does so afterwards, no functor
  -- either: however many rounds come, `loop` has not returned, if no round reports more handlers
  -- than are registered.
  pub loop-request_quit :
      (l : Loop F) (rs : List (Round F))
      → l.base.looping ≡ false
      → AllSized script (length l.poller.handlermap) rs
      → some_quit script rs ≡ false
      → (m : Loop F) × (loop script (record l { base = request_quit l.base false }) rs
          ≡ ok (false, m))
  unfolding loop enter request_quit
  loop-request_quit l rs off h e =
      let (m, eq) =
        rounds_wait (length l.poller.handlermap)
          (record l { base = record (request_quit l.base false) { looping = true; quit = false } })
          rs refl refl h e in
      (m, rw off eq)
