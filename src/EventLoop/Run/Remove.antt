-- ===== src/EventLoop/Run/Remove.antt =====
-- `removeHandler` while events are handled.
use netframe.Base.{
  ℕ, ◌≡◌, ◌≢◌, refl, ap, ◌∙◌, Bool, true, false, not, ◌||◌, ◌⊎◌, inl, inr, Result, ok, err,
  assertion, ◌>>=◌, Returns_value, Bool-cases, if◌then◌else◌, assert, ◌>>◌,
}
use netframe.Handler.{Handler, new, is_none_event}
use netframe.Poller
use netframe.Poller.{Poller}
use netframe.Poller.Sync.{Legal, Tracks, Removed, remove_handler-Removed}
use netframe.EventLoop.Run.{Loop, is_active, is_current, remove_handler}

module _ {ℓ} {F : Type ℓ} where
  -- The handler may go now: no events are handled, or it is the one that runs, or it is not active.
  abbrev pub may_go : Loop F → ℕ → Bool
  may_go l id =
      not l.base.event_handling
      || (is_current l.current_active_handler id || not (is_active id l.active_handlers))

  -- `removeHandler` on a handler that the poller has, and that asks for no events: it takes the
  -- handler out of the map and off the kernel's list if it may go now, and fails its assertion if
  -- another handler removes it while it still waits for its own turn.
  pub remove_handler_lem :
      (l : Loop F) (h : Handler)
      → Legal l.poller.calls
      → h.state ≢ new
      → Tracks h.state l.poller h
      → is_none_event h ≡ true
      → ((may_go l h.id ≡ true)
          × ((p : Poller) × (k : Handler) × (remove_handler l h ≡ ok (record l { poller = p }, k))
              × Removed l.poller h (p, k)))
        ⊎ ((may_go l h.id ≡ false) × (remove_handler l h ≡ err assertion))
  unfolding remove_handler
  remove_handler_lem l h legal ne t z =
      let ((p, k), eq, r) =
        Returns_value (Poller.remove_handler l.poller h) (Removed l.poller h)
          (remove_handler-Removed l.poller h legal ne t z) in
      elim (Bool-cases (may_go l h.id)) [
        | inl go ↦ inl (
          go,
          (
            p,
            k,
            ap (λ b. assert b >> rest) (tested l.base.event_handling _ ∙ go)
                ∙ ap (λ (x : Result (Poller × Handler)). x >>= last) eq,
            r,
          ),
        )
        | inr stay ↦ inr (stay, ap (λ b. assert b >> rest) (tested l.base.event_handling _ ∙ stay))
      ]
    where
      last : Poller × Handler → Result (Loop F × Handler)
      last (p, k) = ok (record l { poller = p }, k)

      rest : Result (Loop F × Handler)
      rest = Poller.remove_handler l.poller h >>= last

      tested : (b a : Bool) → (if b then a else true) ≡ (not b || a)
      tested true a = refl
      tested false a = refl
