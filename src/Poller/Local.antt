-- ===== src/Poller/Local.antt =====
-- What EPollPoller.cpp leaves alone: whenever an update or a removal returns, it has worked on the
-- handler's own descriptor only.
use netframe.Base.{
  ℕ, ◌≡◌, refl, subst, Bool, true, false, arith, if◌then◌else◌, ok, ok_inj, ok_of_assert,
}
use netframe.Handler.{Handler, State, new, added, deleted, is_none_event}
use netframe.Poller.{
  Poller, lookup, insert, erase, update_as, update_handler, remove_handler, added_anew, update,
  mod_op, del, is_none, found, is_new, is_added,
}
use netframe.Poller.Sync.{Frame, lookup-insert, lookup-erase}

-- The other descriptors are as they were, and the handler is on the same one.
pub record Own (fd id : ℕ) (p q : Poller) (k : Handler) : Type 0 where
  pub frame : Frame fd p q
  pub same_fd : k.fd ≡ fd
  pub same_id : k.id ≡ id

update_as-Own :
    (s : State) (p q : Poller) (h k : Handler) → update_as s p h ≡ ok (q, k) → Own h.fd h.id p q k
unfolding update_as
update_as-Own new p q h k e =
    subst (λ (r : Poller × Handler). Own h.fd h.id p r.0 r.1)
      (ok_inj (
        ok_of_assert (is_none (lookup h.fd p.handlermap))
          (ok (added_anew (record p { handlermap = insert h.fd h.id p.handlermap }) h)) (q, k) e))
      (record {
        frame = λ j ne. (ground (arith, lookup-insert h.fd j h.id p.handlermap), ground arith);
        same_fd = refl;
        same_id = refl;
      })
update_as-Own deleted p q h k e =
    subst (λ (r : Poller × Handler). Own h.fd h.id p r.0 r.1)
      (ok_inj (ok_of_assert (found (lookup h.fd p.handlermap) h.id) (ok (added_anew p h)) (q, k) e))
      (record { frame = λ j ne. (refl, ground arith); same_fd = refl; same_id = refl })
update_as-Own added p q h k e =
    subst (λ (r : Poller × Handler). Own h.fd h.id p r.0 r.1)
      (ok_inj (
        ok_of_assert (found (lookup h.fd p.handlermap) h.id) (ok (out (is_none_event h))) (q, k) e))
      (go (is_none_event h))
  where
    out : Bool → Poller × Handler
    out b = if b then (update p del h, record h { state = deleted }) else (update p mod_op h, h)

    go : (b : Bool) → Own h.fd h.id p (out b).0 (out b).1
    go true = record { frame = λ j ne. (refl, ground arith); same_fd = refl; same_id = refl }
    go false = record { frame = λ j ne. (refl, ground arith); same_fd = refl; same_id = refl }

pub update_handler-Own :
    (p q : Poller) (h k : Handler) → update_handler p h ≡ ok (q, k) → Own h.fd h.id p q k
unfolding update_handler
update_handler-Own p q h k e = update_as-Own h.state p q h k e

pub remove_handler-Own :
    (p q : Poller) (h k : Handler) → remove_handler p h ≡ ok (q, k) → Own h.fd h.id p q k
unfolding remove_handler
remove_handler-Own p q h k e =
    subst (λ (r : Poller × Handler). Own h.fd h.id p r.0 r.1)
      (ok_inj (
        ok_of_assert (if is_new h.state then false else true) (ok (out (is_added h.state))) (q, k)
          (ok_of_assert (is_none_event h) _ (q, k)
            (ok_of_assert (found (lookup h.fd p.handlermap) h.id) _ (q, k) e))))
      (go (is_added h.state))
  where
    erased : Poller
    erased = record p { handlermap = erase h.fd p.handlermap }

    out : Bool → Poller × Handler
    out b = ((if b then update erased del h else erased), record h { state = new })

    go : (b : Bool) → Own h.fd h.id p (out b).0 (out b).1
    go true = record {
      frame = λ j ne. (ground (arith, lookup-erase h.fd j p.handlermap), ground arith);
      same_fd = refl;
      same_id = refl;
    }
    go false = record {
      frame = λ j ne. (ground (arith, lookup-erase h.fd j p.handlermap), refl);
      same_fd = refl;
      same_id = refl;
    }
