-- ===== src/Core/Request/Once.antt =====
-- browserd/core/browser_controller.cc: a request runs its callback once and is deleted once.
use browserd.Shared.{◌≡◌, inl, inr, refl, Bool-cases, ◌≤◌, true, false, [], length, if_elim, arith}
use browserd.Core.Request.{Request, new_request, complete, set_timer}

module _ {R : Type 0} where
  -- The callback waits and nothing is deleted, or it has run once, the object is deleted once and its
  -- timer does not run.
  pub record IsOnce (s : Request R) : Type 0 where
    pub waits : s.callback ≡ true → (s.replies ≡ []) × (s.deletions ≡ 0)
    pub done : s.callback ≡ false → (length s.replies ≡ 1) × (s.deletions ≡ 1) × (s.timer ≡ false)

  pub IsOnce-at_most :
      (s : Request R) → IsOnce s → (length s.replies ≤ 1) × (s.deletions ≡ length s.replies)
  IsOnce-at_most s v = elim (Bool-cases s.callback) [
    | inl h ↦ (rw ((v.waits h).0) (omega arith), rw ((v.waits h).0, (v.waits h).1) refl)
    | inr h ↦ (omega (arith, (v.done h).0), omega (arith, (v.done h).0, (v.done h).1))
  ]

  pub new_request-IsOnce : IsOnce new_request
  new_request-IsOnce = record { waits = λ _. (refl, refl); done = λ e. cc }

  pub complete-IsOnce : (s : Request R) (r : R) → IsOnce s → IsOnce (complete s r)
  unfolding complete
  complete-IsOnce s r v =
      if_elim IsOnce s.callback
        (λ h. record {
          waits = λ e. cc;
          done = λ _. (rw ((v.waits h).0) refl, rw ((v.waits h).1) refl, refl);
        })
        (λ _. v)

  pub set_timer-IsOnce : (s : Request R) → IsOnce s → IsOnce (set_timer s false)
  set_timer-IsOnce s v = record {
    waits = λ e. v.waits e;
    done = λ e. ((v.done e).0, (v.done e).1, refl);
  }

  pub complete-callback : (s : Request R) (r : R) → (complete s r).callback ≡ false
  unfolding complete
  complete-callback s r = elim (Bool-cases s.callback) [ inl h ↦ rw h refl | inr h ↦ rw h refl ]
