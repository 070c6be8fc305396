-- ===== src/Poller/Growth.antt =====
-- How large the list of events of EPollPoller.cpp becomes.
use netframe.Base.{
  ℕ, ◌*◌, ◌≤◌, ◌≡◌, refl, sym, ap, ◌∙◌, Bool-cases, inl, inr, List, [], ◌∷◌, length, le→leb, ◌==◌,
  Result, ok, ◌>>=◌, arith, subst,
}
use netframe.Poller.{Poller, Waited, poll_event, fill_active_handlers}

-- The events that `epoll_wait` returned.
abbrev pub heard : Waited → List (ℕ × ℕ)
heard (Waited.events evs) = evs
heard Waited.failed = []

unfoldable pub poll_all : Poller → List Waited → Result Poller
poll_all p [] = ok p
poll_all p (w ∷ ws) = do (q, active) ← poll_event p w; poll_all q ws

-- No more events than handlers that are registered, as `fillActiveHandlers` asserts.
abbrev pub AllHeard : ℕ → List Waited → Type 0
AllHeard n [] = Unit
AllHeard n (w ∷ ws) = (length (heard w) ≤ n) × AllHeard n ws

-- After polls on the same handlers: the list of events has grown, but for its first size it is not
-- longer than twice the handlers.
pub record Grown (p q : Poller) : Type 0 where
  pub active : q.handlermap ≡ p.handlermap
  pub grown : p.eventlist_size ≤ q.eventlist_size
  pub bound : (b : ℕ) → p.eventlist_size ≤ b → length p.handlermap * 2 ≤ b → q.eventlist_size ≤ b

pub poll_event-Grown :
    (p : Poller) (w : Waited)
    → length (heard w) ≤ length p.handlermap
    → (q : Poller) × (poll_event p w ≡ ok (q, heard w)) × Grown p q
unfolding poll_event fill_active_handlers
poll_event-Grown p Waited.failed h =
    (p, refl, record { active = refl; grown = omega arith; bound = λ b u v. u })
poll_event-Grown p (Waited.events []) h =
    (p, refl, record { active = refl; grown = omega arith; bound = λ b u v. u })
poll_event-Grown p (Waited.events (e ∷ evs)) h =
    elim (Bool-cases (length (e ∷ evs) == p.eventlist_size)) [
      | inl full ↦
          let same : length (e ∷ evs) ≡ p.eventlist_size = ground (arith, full) in
          (
            record p { eventlist_size = p.eventlist_size * 2 },
            rw (le→leb _ _ h, full) refl,
            record {
              active = refl;
              grown = omega arith;
              bound = λ b u v. omega (arith, same, h, v);
            },
          )
      | inr free ↦ (
        p,
        rw (le→leb _ _ h, free) refl,
        record { active = refl; grown = omega arith; bound = λ b u v. u },
      )
    ]

-- When `epoll_wait` never returns more events than there are handlers, no poll aborts and none
-- changes the handlers; the list of events never shrinks, and however many polls there are it stays
-- within its first size or twice the number of handlers, whichever is more.
poll_all-Grown :
    (p : Poller) (ws : List Waited)
    → AllHeard (length p.handlermap) ws
    → (q : Poller) × (poll_all p ws ≡ ok q) × Grown p q
unfolding poll_all
poll_all-Grown p [] h = (p, refl, record { active = refl; grown = omega arith; bound = λ b u v. u })
poll_all-Grown p (w ∷ ws) h =
    let (q, e, g) = poll_event-Grown p w h.0 in
    let (r, f, k) = poll_all-Grown q ws (subst (λ m. AllHeard (length m) ws) (sym g.active) h.1) in
    (
      r,
      ap (λ z. z >>= λ (x, active). poll_all x ws) e ∙ f,
      record {
        active = k.active ∙ g.active;
        grown = omega (arith, g.grown, k.grown);
        bound = λ b u v. k.bound b (g.bound b u v) (subst (λ m. length m * 2 ≤ b) (sym g.active) v);
      },
    )
