-- ===== src/Core/Interactions/Typing/Induction.antt =====
-- browserd/core/browser_interactions.cc: induction on a run of the tasks of a typing.
use browserd.Shared.{
  ℕ, suc, ◌≡◌, refl, sym, ap, ◌∙◌, Bool, true, false, List, [], ◌∷◌, ◌++◌, Text, drop, subst,
}
use browserd.Core.Interactions.Keys.{map_character}
use browserd.Core.Interactions.Typing
use browserd.Core.Interactions.Typing.Strokes.{at, end, drop-cons, drop-nil, next-some, next-none}

reporting_stays :
    (s : Text) (i : ℕ) (keys : List Typing.KeyEvent) (vs : List Bool)
    → Typing.run_tasks (end s i keys) vs ≡ end s i keys
unfolding Typing.run_tasks Typing.run_task
reporting_stays s i keys [] = refl
reporting_stays s i keys (v ∷ vs) = reporting_stays s i keys vs

-- A typing that is answered since there is no render view.
abbrev pub lost : Text → ℕ → List Typing.KeyEvent → Typing.Typing
lost s i keys = record {
  text = s;
  index = i;
  stage = Typing.answered Typing.no_render_view;
  keys = keys;
}

lost_stays :
    (s : Text) (i : ℕ) (keys : List Typing.KeyEvent) (vs : List Bool)
    → Typing.run_tasks (lost s i keys) vs ≡ lost s i keys
unfolding Typing.run_tasks Typing.run_task
lost_stays s i keys [] = refl
lost_stays s i keys (v ∷ vs) = lost_stays s i keys vs

-- A typing that has put the key of `c` down.
abbrev pub held : Text → ℕ → ℕ → List Typing.KeyEvent → Typing.Typing
held s i c keys = record {
  text = s;
  index = i;
  stage = Typing.release (map_character c);
  keys = keys ++ Typing.raw_key_down (map_character c) ∷ Typing.char_event c ∷ [];
}

-- The keys of a typing, after the key of `c` is up again.
abbrev pub typed : ℕ → List Typing.KeyEvent → List Typing.KeyEvent
typed c keys =
    (keys ++ Typing.raw_key_down (map_character c) ∷ Typing.char_event c ∷ [])
    ++ Typing.key_up (map_character c) ∷ []

held-lost :
    (s : Text) (i c : ℕ) (keys : List Typing.KeyEvent)
    → Typing.run_task (held s i c keys) false ≡ lost s i (held s i c keys).keys
unfolding Typing.run_task Typing.release_key
held-lost s i c keys = refl

held-typed :
    (s : Text) (i c : ℕ) (keys : List Typing.KeyEvent)
    → Typing.run_task (held s i c keys) true ≡ at s (suc i) (typed c keys)
unfolding Typing.run_task Typing.release_key
held-typed s i c keys = refl

-- What holds at the end of each run holds of a run from an index, by induction on what is left.
module _ (P : Text → List Bool → List Typing.KeyEvent → Typing.Typing → Type 0)
    (stops : (s : Text) (i : ℕ) (r : Text) (keys : List Typing.KeyEvent)
      → P r [] keys (at s i keys))
    (reports : (s : Text) (i : ℕ) (v : Bool) (vs : List Bool) (keys : List Typing.KeyEvent)
      → P [] (v ∷ vs) keys (end s i keys))
    (loses : (s : Text) (i c : ℕ) (r : Text) (vs : List Bool) (keys : List Typing.KeyEvent)
      → P (c ∷ r) (false ∷ vs) keys (lost s i keys))
    (holds : (s : Text) (i c : ℕ) (r : Text) (keys : List Typing.KeyEvent)
      → P (c ∷ r) (true ∷ []) keys (held s i c keys))
    (loses_held : (s : Text) (i c : ℕ) (r : Text) (vs : List Bool) (keys : List Typing.KeyEvent)
      → P (c ∷ r) (true ∷ false ∷ vs) keys (lost s i (held s i c keys).keys))
    (goes_on : (c : ℕ) (r : Text) (vs : List Bool) (keys : List Typing.KeyEvent) (t : Typing.Typing)
      → P r vs (typed c keys) t
      → P (c ∷ r) (true ∷ true ∷ vs) keys t) where
  pub run_tasks_ind :
      (s : Text) (i : ℕ) (r : Text) (keys : List Typing.KeyEvent) (vs : List Bool)
      → drop i s ≡ r
      → P r vs keys (Typing.run_tasks (at s i keys) vs)
  unfolding Typing.run_tasks
  run_tasks_ind s i r keys [] e = stops s i r keys
  run_tasks_ind s i [] keys (v ∷ vs) e =
      subst (P [] (v ∷ vs) keys)
        (sym (
          ap (λ x. Typing.run_tasks x vs) (next-none s i keys v (drop-nil s i e))
          ∙ reporting_stays s i keys vs))
        (reports s i v vs keys)
  run_tasks_ind s i (c ∷ r) keys (false ∷ vs) e =
      subst (P (c ∷ r) (false ∷ vs) keys)
        (sym (
          ap (λ x. Typing.run_tasks x vs) (next-some s i c keys false (drop-cons s i c r e).0)
          ∙ lost_stays s i keys vs))
        (loses s i c r vs keys)
  run_tasks_ind s i (c ∷ r) keys (true ∷ []) e =
      subst (P (c ∷ r) (true ∷ []) keys) (sym (next-some s i c keys true (drop-cons s i c r e).0))
        (holds s i c r keys)
  run_tasks_ind s i (c ∷ r) keys (true ∷ false ∷ vs) e =
      subst (P (c ∷ r) (true ∷ false ∷ vs) keys)
        (sym (
          ap (λ x. Typing.run_tasks (Typing.run_task x false) vs)
            (next-some s i c keys true (drop-cons s i c r e).0)
          ∙ ap (λ x. Typing.run_tasks x vs) (held-lost s i c keys)
          ∙ lost_stays s i (held s i c keys).keys vs))
        (loses_held s i c r vs keys)
  run_tasks_ind s i (c ∷ r) keys (true ∷ true ∷ vs) e =
      let d = drop-cons s i c r e in
      subst (P (c ∷ r) (true ∷ true ∷ vs) keys)
        (sym (
          ap (λ x. Typing.run_tasks (Typing.run_task x true) vs) (next-some s i c keys true d.0)
          ∙ ap (λ x. Typing.run_tasks x vs) (held-typed s i c keys)))
        (goes_on c r vs keys (Typing.run_tasks (at s (suc i) (typed c keys)) vs)
          (run_tasks_ind s (suc i) r (typed c keys) vs d.1))
