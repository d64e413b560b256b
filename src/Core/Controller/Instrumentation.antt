-- ===== src/Core/Controller/Instrumentation.antt =====
-- browserd/core/browser_controller.cc: the observers of the pages after `RefreshSharedRuntimeBehavior`.
use browserd.Shared.{
  neither_of_or, ap₂, ℕ, ◌≡◌, refl, sym, ◌∙◌, ap, Bool, true, false, ◌&&◌, ◌||◌, Option, none, some,
  List, [], ◌∷◌, ◌++◌, eqb, eqb_iff, if◌then◌else◌, if_elim, Bool-cases, inl, inr, arith,
}
use mathlib.Core.Bool.{or_assoc, or-false, and-false}
use browserd.Core.Controller.State
use browserd.Core.Controller.State.{contains, observes}

-- No page is observed twice.
abbrev pub IsDistinct : List (Option ℕ) → Type 0
IsDistinct [] = Unit
IsDistinct (none ∷ os) = IsDistinct os
IsDistinct (some w ∷ os) = (observes os w ≡ false) × IsDistinct os

-- Each observer observes a page.
abbrev pub IsBusy : List (Option ℕ) → Type 0
IsBusy [] = Unit
IsBusy (none ∷ os) = ⊥
IsBusy (some w ∷ os) = IsBusy os

same_page : (v w : ℕ) → eqb v w ≡ true → v ≡ w
same_page v w h = (eqb_iff v w).0 h

keep-observes :
    (all : List ℕ) (os : List (Option ℕ)) (w : ℕ)
    → observes (State.keep_observers all os) w ≡ (observes os w && contains all w)
unfolding State.keep_observers
keep-observes all [] w = refl
keep-observes all (none ∷ os) w = keep-observes all os w
keep-observes all (some v ∷ os) w = elim (Bool-cases (contains all v)) [
  | inl h ↦
      rw (h, keep-observes all os w)
        (elim (Bool-cases (eqb v w)) [
          | inl e ↦ rw (e, sym (ap (contains all) (same_page v w e)) ∙ h) refl
          | inr e ↦ rw e refl
        ])
  | inr h ↦
      rw (h, keep-observes all os w)
        (elim (Bool-cases (eqb v w)) [
          | inl e ↦
              rw (e, sym (ap (contains all) (same_page v w e)) ∙ h) (and-false (observes os w))
          | inr e ↦ rw e refl
        ])
]

append-observes :
    (os : List (Option ℕ)) (v w : ℕ) → observes (os ++ some v ∷ []) w ≡ (observes os w || eqb v w)
append-observes [] v w = or-false (eqb v w)
append-observes (none ∷ os) v w = append-observes os v w
append-observes (some u ∷ os) v w =
    ap (λ b. eqb u w || b) (append-observes os v w)
    ∙ sym (or_assoc (eqb u w) (observes os w) (eqb v w))

abbrev observe : ℕ → List (Option ℕ) → List (Option ℕ)
observe v os = if observes os v then os else os ++ some v ∷ []

observe-observes :
    (os : List (Option ℕ)) (v w : ℕ) → observes (observe v os) w ≡ (observes os w || eqb v w)
observe-observes os v w =
    if_elim (λ x. observes x w ≡ (observes os w || eqb v w)) (observes os v)
      (λ h. elim (Bool-cases (eqb v w)) [
        | inl e ↦ rw (e, sym (ap (observes os) (same_page v w e)) ∙ h) refl
        | inr e ↦ rw e (sym (or-false (observes os w)))
      ])
      (λ _. append-observes os v w)

observe_each-observes :
    (ws : List ℕ) (os : List (Option ℕ)) (w : ℕ)
    → observes (State.observe_each ws os) w ≡ (observes os w || contains ws w)
unfolding State.observe_each
observe_each-observes [] os w = sym (or-false (observes os w))
observe_each-observes (v ∷ ws) os w =
    observe_each-observes ws (observe v os) w
    ∙ ap (λ b. b || contains ws w) (observe-observes os v w)
    ∙ or_assoc (observes os w) (eqb v w) (contains ws w)

keep-IsDistinct :
    (all : List ℕ) (os : List (Option ℕ)) → IsDistinct os → IsDistinct (State.keep_observers all os)
unfolding State.keep_observers
keep-IsDistinct all [] d = d
keep-IsDistinct all (none ∷ os) d = keep-IsDistinct all os d
keep-IsDistinct all (some v ∷ os) d =
    if_elim IsDistinct (contains all v)
      (λ h.
        (keep-observes all os v ∙ ap (λ b. b && contains all v) d.0, keep-IsDistinct all os d.1))
      (λ _. keep-IsDistinct all os d.1)

keep-IsBusy : (all : List ℕ) (os : List (Option ℕ)) → IsBusy (State.keep_observers all os)
unfolding State.keep_observers
keep-IsBusy all [] = tt
keep-IsBusy all (none ∷ os) = keep-IsBusy all os
keep-IsBusy all (some v ∷ os) =
    if_elim IsBusy (contains all v) (λ _. keep-IsBusy all os) (λ _. keep-IsBusy all os)

eqb-false_sym : (u v : ℕ) → eqb u v ≡ false → eqb v u ≡ false
eqb-false_sym u v h = ground (arith)

absorb : (a b : Bool) → (a && b || b) ≡ b
absorb true true = refl
absorb true false = refl
absorb false b = refl

append-IsDistinct :
    (os : List (Option ℕ)) (v : ℕ)
    → observes os v ≡ false
    → IsDistinct os
    → IsDistinct (os ++ some v ∷ [])
append-IsDistinct [] v h d = (refl, tt)
append-IsDistinct (none ∷ os) v h d = append-IsDistinct os v h d
append-IsDistinct (some u ∷ os) v h d =
    let k = neither_of_or (eqb u v) (observes os v) h in
    (
      append-observes os v u ∙ ap₂ (λ a b. a || b) d.0 (eqb-false_sym u v k.0),
      append-IsDistinct os v k.1 d.1,
    )

append-IsBusy : (os : List (Option ℕ)) (v : ℕ) → IsBusy os → IsBusy (os ++ some v ∷ [])
append-IsBusy [] v b = tt
append-IsBusy (none ∷ os) v b = b
append-IsBusy (some u ∷ os) v b = append-IsBusy os v b

observe_each-IsDistinct :
    (ws : List ℕ) (os : List (Option ℕ)) → IsDistinct os → IsDistinct (State.observe_each ws os)
unfolding State.observe_each
observe_each-IsDistinct [] os d = d
observe_each-IsDistinct (v ∷ ws) os d =
    observe_each-IsDistinct ws (observe v os)
      (if_elim IsDistinct (observes os v) (λ _. d) (λ h. append-IsDistinct os v h d))

observe_each-IsBusy :
    (ws : List ℕ) (os : List (Option ℕ)) → IsBusy os → IsBusy (State.observe_each ws os)
unfolding State.observe_each
observe_each-IsBusy [] os b = b
observe_each-IsBusy (v ∷ ws) os b =
    observe_each-IsBusy ws (observe v os)
      (if_elim IsBusy (observes os v) (λ _. b) (λ h. append-IsBusy os v b))

-- The observers that are left when all pages are `all`.
pub record IsInstrumented (all : List ℕ) (os : List (Option ℕ)) : Type 0 where
  pub observed : (w : ℕ) → observes os w ≡ contains all w
  pub distinct : IsDistinct os
  pub busy : IsBusy os

pub refresh-IsInstrumented :
    (all : List ℕ) (os : List (Option ℕ))
    → IsDistinct os
    → IsInstrumented all (State.observe_each all (State.keep_observers all os))
refresh-IsInstrumented all os d = record {
  observed = λ w.
      observe_each-observes all (State.keep_observers all os) w
      ∙ ap (λ b. b || contains all w) (keep-observes all os w)
      ∙ absorb (observes os w) (contains all w);
  distinct = observe_each-IsDistinct all _ (keep-IsDistinct all os d);
  busy = observe_each-IsBusy all _ (keep-IsBusy all os);
}

forget-observes :
    (w : ℕ) (os : List (Option ℕ)) (v : ℕ)
    → observes os v ≡ false
    → observes (State.forget w os) v ≡ false
unfolding State.forget
forget-observes w [] v h = refl
forget-observes w (none ∷ os) v h = forget-observes w os v h
forget-observes w (some u ∷ os) v h =
    let k = neither_of_or (eqb u v) (observes os v) h in
    elim (Bool-cases (eqb u w)) [
      | inl e ↦ rw e (forget-observes w os v k.1)
      | inr e ↦ rw (e, k.0) (forget-observes w os v k.1)
    ]

pub forget-IsDistinct :
    (w : ℕ) (os : List (Option ℕ)) → IsDistinct os → IsDistinct (State.forget w os)
unfolding State.forget
forget-IsDistinct w [] d = tt
forget-IsDistinct w (none ∷ os) d = forget-IsDistinct w os d
forget-IsDistinct w (some u ∷ os) d = elim (Bool-cases (eqb u w)) [
  | inl e ↦ rw e (forget-IsDistinct w os d.1)
  | inr e ↦ rw e (forget-observes w os u d.0, forget-IsDistinct w os d.1)
]
