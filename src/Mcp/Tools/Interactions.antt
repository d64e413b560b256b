-- ===== src/Mcp/Tools/Interactions.antt =====
-- browserd/mcp/tools/interaction_tools.cc: the tools that act on the elements of a page.
use browserd.Shared.{String, false, Option, none, some, List, [], ◌∷◌, concat, value_or}
use browserd.Platform.Json.{Json, pos, find_string, find_bool, find_int, find_list}
use browserd.Platform.Urls.{Urls}
use browserd.Mcp.Tools.Calls
use browserd.Mcp.Tools.Calls.{ToolCall, says, fails, complete_status}

module _ (U : Urls) (J : Json) where
  -- The two parameters that a handler takes together, or its error.
  abbrev pub with_two {ℓ κ} :
      {A : Type ℓ} {B : Type κ} → Option A → Option B → String → (A → B → ToolCall U) → ToolCall U
  with_two (some a) (some b) error next = next a b
  with_two (some a) none error next = Calls.answers (fails error)
  with_two none b error next = Calls.answers (fails error)

  unfoldable pub handle_click : J.Dict → ToolCall U
  handle_click args = elim (find_string J args "ref") [
    | none ↦ Calls.answers (fails "Missing required parameter: ref")
    | some ref ↦ Calls.click ref (complete_status "Clicked element")
  ]

  unfoldable pub handle_hover : J.Dict → ToolCall U
  handle_hover args = elim (find_string J args "ref") [
    | none ↦ Calls.answers (fails "Missing required parameter: ref")
    | some ref ↦ Calls.hover ref (complete_status "Hovered over element")
  ]

  unfoldable pub handle_type : J.Dict → ToolCall U
  handle_type args =
      with_two (find_string J args "ref") (find_string J args "text")
        "Missing required parameters: ref, text"
        (λ ref text.
          Calls.type_text
            (record { ref = ref; text = text; clear = value_or (find_bool J args "clear") false })
            (complete_status "Typed text"))

  unfoldable pub handle_press_key : J.Dict → ToolCall U
  handle_press_key args = elim (find_string J args "key") [
    | none ↦ Calls.answers (fails "Missing required parameter: key")
    | some key ↦ Calls.press_key key (complete_status (concat "Pressed key: " key))
  ]

  -- The values of a list that are strings.
  pub string_values : List J.Value → List String
  string_values [] = []
  string_values (v ∷ vs) = elim (J.as_string v) [
    | none ↦ string_values vs
    | some s ↦ s ∷ string_values vs
  ]

  unfoldable pub handle_select_option : J.Dict → ToolCall U
  handle_select_option args =
      with_two (find_string J args "ref") (find_list J args "values")
        "Missing required parameters: ref, values"
        (λ ref values.
          Calls.select_option (record { ref = ref; values = string_values values })
            (complete_status "Options selected"))

  unfoldable pub handle_drag_and_drop : J.Dict → ToolCall U
  handle_drag_and_drop args =
      with_two (find_string J args "startRef") (find_string J args "endRef")
        "Missing required parameters: startRef, endRef"
        (λ start_ref end_ref.
          Calls.drag start_ref end_ref (complete_status "Drag and drop completed"))

  unfoldable pub handle_scroll : J.Dict → ToolCall U
  handle_scroll args =
      Calls.scroll (value_or (find_int J args "deltaX") (pos 0))
        (value_or (find_int J args "deltaY") (pos 0)) (complete_status "Scrolled page")
