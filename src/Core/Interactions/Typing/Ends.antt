-- ===== src/Core/Interactions/Typing/Ends.antt =====
-- browserd/core/browser_interactions.cc: typing on a page whose render view may go.
use browserd.Shared.{
  ℕ, ◌+◌, ◌*◌, ◌≤◌, ◌≡◌, ◌⊎◌, inl, inr, refl, sym, ap, ◌∙◌, Bool, List, [], ◌∷◌, ◌++◌, append-nil,
  Text, length, arith,
}
use browserd.Core.Interactions.Keys.{map_character}
use browserd.Core.Interactions.Typing
use browserd.Core.Interactions.Typing.Strokes.{strokes, append-strokes}
use browserd.Core.Interactions.Typing.Induction.{run_tasks_ind}

-- A typing that waits for no task.
abbrev pub IsEnded : Typing.Stage → Type 0
IsEnded stage = (stage ≡ Typing.reporting) ⊎ (stage ≡ Typing.answered Typing.no_render_view)

-- A text of `n` characters is typed, or given up, within `2 * n + 1` tasks, whatever becomes of the
-- render view.
pub type-IsEnded :
    (s : Text) (vs : List Bool)
    → 2 * length s + 1 ≤ length vs
    → IsEnded (Typing.run_tasks (Typing.new_typing s) vs).stage
type-IsEnded s vs =
    run_tasks_ind (λ r us keys t. 2 * length r + 1 ≤ length us → IsEnded t.stage)
      (λ s i r keys n. absurd (omega arith)) (λ s i v us keys n. inl refl)
      (λ s i c r us keys n. inr refl) (λ s i c r keys n. absurd (omega arith))
      (λ s i c r us keys n. inr refl) (λ c r us keys t h n. h (omega arith)) s 0 s [] vs refl

abbrev pub IsBeginning : List Typing.KeyEvent → List Typing.KeyEvent → Type 0
IsBeginning a b = (rest : List Typing.KeyEvent) × (a ++ rest ≡ b)

append_held :
    (keys : List Typing.KeyEvent) (c : ℕ) (r : Text)
    → (keys ++ Typing.raw_key_down (map_character c) ∷ Typing.char_event c ∷ [])
        ++ Typing.key_up (map_character c) ∷ strokes r
      ≡ keys ++ strokes (c ∷ r)
append_held [] c r = refl
append_held (k ∷ keys) c r = ap (λ x. k ∷ x) (append_held keys c r)

-- Whatever becomes of the render view, what the page gets at any time is a beginning of the strokes
-- of the text.
pub type-IsBeginning :
    (s : Text) (vs : List Bool)
    → IsBeginning (Typing.run_tasks (Typing.new_typing s) vs).keys (strokes s)
type-IsBeginning s vs =
    run_tasks_ind (λ r us keys t. IsBeginning t.keys (keys ++ strokes r))
      (λ s i r keys. (strokes r, refl)) (λ s i v us keys. ([], refl))
      (λ s i c r us keys. (strokes (c ∷ r), refl))
      (λ s i c r keys. (Typing.key_up (map_character c) ∷ strokes r, append_held keys c r))
      (λ s i c r us keys. (Typing.key_up (map_character c) ∷ strokes r, append_held keys c r))
      (λ c r us keys t h. (h.0, h.1 ∙ append-strokes keys c r)) s 0 s [] vs refl

-- Whatever becomes of the render view, the change is reported only when the whole text is typed.
pub type-reporting :
    (s : Text) (vs : List Bool)
    → (Typing.run_tasks (Typing.new_typing s) vs).stage ≡ Typing.reporting
    → (Typing.run_tasks (Typing.new_typing s) vs).keys ≡ strokes s
type-reporting s vs =
    run_tasks_ind (λ r us keys t. t.stage ≡ Typing.reporting → t.keys ≡ keys ++ strokes r)
      (λ s i r keys n. cc) (λ s i v us keys n. sym (append-nil keys)) (λ s i c r us keys n. cc)
      (λ s i c r keys n. cc) (λ s i c r us keys n. cc)
      (λ c r us keys t h n. h n ∙ append-strokes keys c r) s 0 s [] vs refl
