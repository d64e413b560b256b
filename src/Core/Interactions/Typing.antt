-- ===== src/Core/Interactions/Typing.antt =====
-- browserd/core/browser_interactions.cc: `TypeNextChar`, the loop of delayed tasks that types a text.
pub mod Ascii
pub mod Ends
pub mod Induction
pub mod Strokes
mod Tests
use browserd.Shared.{
  ℕ, suc, ◌-◌, ltb, Bool, true, false, Option, none, some, List, [], ◌∷◌, ◌++◌, String, Text,
  get_elem?, if◌then◌else◌, not,
}
use browserd.Platform.Json.{ℤ, pos, negsuc}
use browserd.Core.Result.{
  BrowserStatus, BrowserResult, success, failure, ok_status, error_status, internal_error,
}
use browserd.Core.Interactions.Keys
use browserd.Core.Interactions.Keys.{KeyMapping, map_character, sign_extend}

-- The keyboard events that are forwarded; `char` has the key code, an `int`, and the text, of one
-- `char16_t`.
pub data KeyEvent : Type 0 where
  raw_key_down : KeyMapping → KeyEvent
  char : ℤ → ℕ → KeyMapping → KeyEvent
  key_up : KeyMapping → KeyEvent

-- The `int` that a byte converts to.
abbrev pub signed : ℕ → ℤ
signed c = if ltb c 128 then pos c else negsuc (255 - c)

abbrev pub char_event : ℕ → KeyEvent
char_event c = char (signed c) (sign_extend 16 c) (map_character c)

abbrev pub no_render_view : BrowserStatus
no_render_view = error_status internal_error "No render view"

-- What the typing waits for: its next character, the release of a key, the script that reports the
-- change, or nothing, with its answer.
pub data Stage : Type 0 where
  next_char : Stage
  release : KeyMapping → Stage
  reporting : Stage
  answered : BrowserStatus → Stage

-- `TypeState`, the stage, and the events that the page got.
pub record Typing : Type 0 where
  pub text : Text
  pub index : ℕ
  pub stage : Stage
  pub keys : List KeyEvent

abbrev pub new_typing : Text → Typing
new_typing text = record { text = text; index = 0; stage = next_char; keys = [] }

-- `has_view` says whether the page has a render view when the task runs.
unfoldable pub type_next_char : Typing → Bool → Typing
type_next_char s has_view = elim (get_elem? s.text s.index) [
  | none ↦ record s { stage = reporting }
  | some c ↦ if not has_view then record s { stage = answered no_render_view } else record s {
    stage = release (map_character c);
    keys = s.keys ++ raw_key_down (map_character c) ∷ char_event c ∷ [];
  }
]

unfoldable pub release_key : Typing → KeyMapping → Bool → Typing
release_key s mapping has_view =
    if not has_view
    then record s { stage = answered no_render_view }
    else record s { stage = next_char; keys = s.keys ++ key_up mapping ∷ []; index = suc s.index }

-- The delayed task that is posted runs.
unfoldable pub run_task : Typing → Bool → Typing
run_task s has_view = elim s.stage [
  | next_char ↦ type_next_char s has_view
  | release mapping ↦ release_key s mapping has_view
  | reporting ↦ s
  | answered status ↦ s
]

unfoldable pub run_tasks : Typing → List Bool → Typing
run_tasks s [] = s
run_tasks s (v ∷ vs) = run_tasks (run_task s v) vs

-- The callback of the script that reports the change.
unfoldable pub change_status : {A : Type 0} → BrowserResult A → BrowserStatus
change_status (failure code message) = error_status code message
change_status (success a) = ok_status
