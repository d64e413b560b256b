-- ===== src/Core/Interactions/Typing/Ascii.antt =====
-- browserd/core/browser_interactions.cc: what the page gets of a text in printable ASCII.
use browserd.Shared.{
  ℕ, ◌≤◌, ◌≡◌, refl, ap, ◌∙◌, subst, sym, true, some, List, [], ◌∷◌, All, Text, arith, ltb, if_true,
  eqb, ap₂, if_elim,
}
use browserd.Platform.Json.{pos}
use browserd.Core.Interactions.Keys
use browserd.Core.Interactions.Keys.Layout
use browserd.Core.Interactions.Typing
use browserd.Core.Interactions.Typing.Strokes

abbrev pub IsPrintable : ℕ → Type 0
IsPrintable c = (32 ≤ c) × (c ≤ 126)

-- The events type the characters of a text: each has a key that gives it on the keyboard of the United
-- States, with the modifier, and this key goes down, gives the character, and comes up.
pub data Types : Text → List Typing.KeyEvent → Type 0 where
  nothing : Types [] []
  character :
      (c : ℕ) (key : Keys.KeyMapping) (s : Text) (events : List Typing.KeyEvent)
      → Layout.character_of key ≡ some c
      → key.dom_key ≡ Keys.of_character c
      → Types s events
      → Types
          (c ∷ s)
          (Typing.raw_key_down key ∷ Typing.char (pos c) c key ∷ Typing.key_up key ∷ events)

char_event-ascii :
    (c : ℕ) → c ≤ 126 → Typing.char_event c ≡ Typing.char (pos c) c (Keys.map_character c)
unfolding Keys.sign_extend
char_event-ascii c h =
    let small : ltb c 128 ≡ true = ground (arith, h) in
    ap₂ (λ k t. Typing.char k t (Keys.map_character c)) (if_true _ _ _ small) (if_true _ _ _ small)

-- Every key has the `DomKey` of its character.
record HasCharacter (c : ℕ) (key : Keys.KeyMapping) : Type 0 where
  has : key.dom_key ≡ Keys.of_character (Keys.sign_extend 32 c)

switch-HasCharacter : (cases : List Keys.Case) (c : ℕ) → HasCharacter c (Keys.switch cases c)
unfolding Keys.switch
switch-HasCharacter [] c = record { has = refl }
switch-HasCharacter (x ∷ xs) c =
    if_elim (HasCharacter c) (eqb c x.character) (λ _. record { has = refl })
      (λ _. switch-HasCharacter xs c)

map_character-HasCharacter : (c : ℕ) → HasCharacter c (Keys.map_character c)
unfolding Keys.map_character
map_character-HasCharacter c =
    if_elim (HasCharacter c) (Keys.between 97 122 c) (λ _. record { has = refl })
      (λ _.
        if_elim (HasCharacter c) (Keys.between 65 90 c) (λ _. record { has = refl })
          (λ _.
            if_elim (HasCharacter c) (Keys.between 48 57 c) (λ _. record { has = refl })
              (λ _.
                if_elim (HasCharacter c) (eqb c 32) (λ _. record { has = refl })
                  (λ _. switch-HasCharacter Keys.symbols c))))

map_character-dom_key : (c : ℕ) → c ≤ 126 → (Keys.map_character c).dom_key ≡ Keys.of_character c
unfolding Keys.sign_extend
map_character-dom_key c h =
    let small : ltb c 128 ≡ true = ground (arith, h) in
    (map_character-HasCharacter c).has ∙ ap Keys.of_character (if_true _ _ _ small)

strokes-Types : (s : Text) → All IsPrintable s → Types s (Strokes.strokes s)
strokes-Types [] h = nothing
strokes-Types (c ∷ s) (p, h) =
    let key = Keys.map_character c in
    subst (λ e. Types (c ∷ s) (Typing.raw_key_down key ∷ e ∷ Typing.key_up key ∷ Strokes.strokes s))
      (sym (char_event-ascii c p.1))
      (character c key s (Strokes.strokes s) (Layout.map_character-character_of c p.0 p.1)
        (map_character-dom_key c p.1) (strokes-Types s h))

-- A text in printable ASCII that `TypeNextChar` types, on a page whose render view stays, reaches the
-- page character by character, each by the key, and with the shift, that give it; and after the last
-- one the change is reported.
pub type-Types :
    (s : Text)
    → All IsPrintable s
    → Types s (Typing.run_tasks (Typing.new_typing s) (Strokes.tasks s)).keys
      × ((Typing.run_tasks (Typing.new_typing s) (Strokes.tasks s)).stage ≡ Typing.reporting)
type-Types s h =
    let typed = Strokes.type-strokes s in
    (subst (Types s) (sym typed.0) (strokes-Types s h), typed.1)
