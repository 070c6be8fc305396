-- ===== src/PollingServer/Polling.antt =====
-- Polling.cpp: the epoll descriptor over the life of a Polling, which that of its PollingServer is.
use netframe.Base.{
  ℕ, ◌≡◌, sym, ap, ◌∙◌, refl, Bool, not, ◌&&◌, ◌==◌, if◌then◌else◌, Result, ok, ok_inj, ◌>>◌,
  assert, assertion, err, subst, Bool-cases, inl, inr,
}
use netframe.Socket.{System, Host, minus_one, is_negative, unchecked}
use netframe.Socket.SetUp.Descriptors.{Descriptors, shut}

module _ {W : Type 0} (s : System W) where
  -- The constructor.
  unfoldable pub construct : Host W → Result (ℕ × Host W)
  construct h = do
    let (epollfd, w) = s.epoll_create h.world
    assert (not (epollfd == minus_one))
    ok (epollfd, record h { world = w })

  -- The destructor.
  unfoldable pub destruct : ℕ → Host W → Host W
  destruct epollfd h =
      if not (epollfd == minus_one) then unchecked h (s.close epollfd h.world) else h

  -- Where the system keeps the laws of descriptors: the destructor leaves those open that were open
  -- before the constructor.
  destruct-construct :
      (is_open : W → ℕ → Bool) (laws : Descriptors s is_open) (h k : Host W) (epollfd : ℕ)
      → construct h ≡ ok (epollfd, k)
      → (j : ℕ) → is_open (destruct epollfd k).world j ≡ is_open h.world j
  unfolding construct destruct
  destruct-construct is_open laws h k epollfd e j =
      let fd = (s.epoll_create h.world).0 in
      let made = record h { world = (s.epoll_create h.world).1 } in
      elim (Bool-cases (fd == minus_one)) [
        | inl bad ↦ let failed : construct h ≡ err assertion = rw bad refl in absurd (cc)
        | inr good ↦
            let eq : construct h ≡ ok (fd, made) = rw good refl in
            subst (λ (p : ℕ × Host W). is_open (destruct p.0 p.1).world j ≡ is_open h.world j)
              (ok_inj (sym eq ∙ e))
              (rw good (
                laws.close_closes fd made.world j
                ∙ ap (λ o. not (fd == j) && o) (laws.epoll_opens.opens h.world j)
                ∙ shut fd j (is_negative fd) (is_open h.world j)
                    (λ f. ap (is_open h.world) (sym f) ∙ laws.epoll_opens.fresh h.world)))
      ]
