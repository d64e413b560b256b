-- ===== src/Core/Interactions/Typing/Strokes.antt =====
-- browserd/core/browser_interactions.cc: what is typed, and that typing ends.
use browserd.Shared.{
  drop, if◌then◌else◌, ℕ, zero, suc, ◌+◌, ◌≡◌, refl, sym, ap, ◌∙◌, Bool, true, none, some, List, [],
  ◌∷◌, ◌++◌, append-nil, Text, length, get_elem?, arith, not,
}
use browserd.Core.Interactions.Keys.{map_character}
use browserd.Core.Interactions.Typing

-- The events that type a text: each key goes down, gives its character and comes up.
abbrev pub strokes : Text → List Typing.KeyEvent
strokes [] = []
strokes (c ∷ s) =
    Typing.raw_key_down (map_character c)
    ∷ Typing.char_event c
    ∷ Typing.key_up (map_character c)
    ∷ strokes s

-- The tasks that type a text on a page whose render view stays: two for each byte, and one more.
abbrev pub tasks : Text → List Bool
tasks [] = true ∷ []
tasks (c ∷ s) = true ∷ true ∷ tasks s

pub drop-cons :
    (s : Text) (i c : ℕ) (r : Text)
    → drop i s ≡ c ∷ r
    → (get_elem? s i ≡ some c) × (drop (suc i) s ≡ r)
drop-cons [] zero c r e = cc
drop-cons [] (suc i) c r e = cc
drop-cons (x ∷ s) zero c r e = (cc, cc)
drop-cons (x ∷ s) (suc i) c r e = drop-cons s i c r e

pub drop-nil : (s : Text) (i : ℕ) → drop i s ≡ [] → get_elem? s i ≡ none
drop-nil [] i e = refl
drop-nil (x ∷ s) zero e = cc
drop-nil (x ∷ s) (suc i) e = drop-nil s i e

-- A typing at an index, that waits for its next character.
abbrev pub at : Text → ℕ → List Typing.KeyEvent → Typing.Typing
at s i keys = record { text = s; index = i; stage = Typing.next_char; keys = keys }

pub next-some :
    (s : Text) (i c : ℕ) (keys : List Typing.KeyEvent) (v : Bool)
    → get_elem? s i ≡ some c
    → Typing.run_task (at s i keys) v ≡ (
        if not v
        then record (at s i keys) { stage = Typing.answered Typing.no_render_view }
        else record (at s i keys) {
          stage = Typing.release (map_character c);
          keys = keys ++ Typing.raw_key_down (map_character c) ∷ Typing.char_event c ∷ [];
        })
unfolding Typing.run_task Typing.type_next_char
next-some s i c keys v e = rw e refl

pub next-none :
    (s : Text) (i : ℕ) (keys : List Typing.KeyEvent) (v : Bool)
    → get_elem? s i ≡ none
    → Typing.run_task (at s i keys) v ≡ record (at s i keys) { stage = Typing.reporting }
unfolding Typing.run_task Typing.type_next_char
next-none s i keys v e = rw e refl

-- The end of a typing.
abbrev pub end : Text → ℕ → List Typing.KeyEvent → Typing.Typing
end s i keys = record { text = s; index = i; stage = Typing.reporting; keys = keys }

pub append-strokes :
    (keys : List Typing.KeyEvent) (c : ℕ) (r : Text)
    → ((keys ++ Typing.raw_key_down (map_character c) ∷ Typing.char_event c ∷ [])
          ++ Typing.key_up (map_character c) ∷ [])
        ++ strokes r
      ≡ keys ++ strokes (c ∷ r)
append-strokes [] c r = refl
append-strokes (k ∷ keys) c r = ap (λ x. k ∷ x) (append-strokes keys c r)

type_release :
    (s : Text) (i c : ℕ) (r : Text) (keys : List Typing.KeyEvent)
    → Typing.run_tasks
        (Typing.run_task
          (record (at s i keys) {
            stage = Typing.release (map_character c);
            keys = keys ++ Typing.raw_key_down (map_character c) ∷ Typing.char_event c ∷ [];
          })
          true)
        (tasks r)
      ≡ Typing.run_tasks
          (at s (suc i) (
            (keys ++ Typing.raw_key_down (map_character c) ∷ Typing.char_event c ∷ [])
            ++ Typing.key_up (map_character c) ∷ []))
          (tasks r)
unfolding Typing.run_task Typing.release_key
type_release s i c r keys = refl

add_suc : (m n : ℕ) → suc m + n ≡ m + suc n
add_suc m n = omega arith

type_all :
    (s : Text) (i : ℕ) (r : Text) (keys : List Typing.KeyEvent)
    → drop i s ≡ r
    → Typing.run_tasks (at s i keys) (tasks r) ≡ end s (i + length r) (keys ++ strokes r)
unfolding Typing.run_tasks
type_all s i [] keys e =
    let stays : i ≡ i + 0 = omega arith in
    next-none s i keys true (drop-nil s i e)
    ∙ ap (λ n. end s n keys) stays
    ∙ ap (λ k. end s (i + 0) k) (sym (append-nil keys))
type_all s i (c ∷ r) keys e =
    let d = drop-cons s i c r e in
    ap (λ x. Typing.run_tasks (Typing.run_task x true) (tasks r)) (next-some s i c keys true d.0)
    ∙ type_release s i c r keys
    ∙ type_all s (suc i) r
        ((keys ++ Typing.raw_key_down (map_character c) ∷ Typing.char_event c ∷ [])
          ++ Typing.key_up (map_character c) ∷ [])
        d.1
    ∙ ap (λ k. end s (suc i + length r) k) (append-strokes keys c r)
    ∙ ap (λ n. end s n (keys ++ strokes (c ∷ r))) (add_suc i (length r))

-- A text that `TypeNextChar` types on a page whose render view stays gives the page the strokes of its
-- bytes, in their order, and the change is reported after the last one.
pub type-strokes :
    (s : Text)
    → ((Typing.run_tasks (Typing.new_typing s) (tasks s)).keys ≡ strokes s)
      × ((Typing.run_tasks (Typing.new_typing s) (tasks s)).stage ≡ Typing.reporting)
type-strokes s = let all = type_all s 0 s [] refl in (ap (λ t. t.keys) all, ap (λ t. t.stage) all)
