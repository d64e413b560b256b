-- ===== src/Mcp/Tools/Handlers.antt =====
-- browserd/mcp/tools: the tools for tabs, navigation, scripts, pictures and waiting.
use browserd.Shared.{
  ℕ, ◌+◌, String, false, none, some, List, [], ◌∷◌, concat, value_or, if◌then◌else◌, ◌==◌,
}
use browserd.Platform.Json.{Json, ℤ, pos, find_string, find_int}
use browserd.Platform.Urls.{Urls}
use browserd.Core.Result.{BrowserStatus, BrowserResult, success, failure}
use browserd.Core.Runtime.{TabInfo}
use browserd.Core.Evaluation.{EvaluateResult, undefined, json}
use browserd.Core.Screenshot.{Bytes}
use browserd.Core.Controller.Pages.{WaitOptions}
use browserd.Mcp.Tools.Calls
use browserd.Mcp.Tools.Calls.{ToolCall, ToolAnswer, says, fails, complete_status}

-- `number` is `base::NumberToString`, `base64_encode` is `base::Base64Encode`.
module _ (U : Urls) (J : Json) (number : ℤ → String) (base64_encode : Bytes → String) where
  pub tab_lines : ℕ → List TabInfo → String
  tab_lines index [] = ""
  tab_lines index (t ∷ ts) =
      concat (concat (concat (concat "[" (number (pos index))) "] ") t.title) (
        concat (concat (concat " (" t.url) ")") (
          concat (concat (concat " [id=" t.target_id) "]")
            (concat "\n" (tab_lines (index + 1) ts))))

  unfoldable pub complete_tabs : BrowserResult (List TabInfo) → ToolAnswer
  complete_tabs (failure code message) = fails message
  complete_tabs (success ts) =
      says (if tab_lines 0 ts == "" then "No tabs open" else tab_lines 0 ts)

  unfoldable pub complete_create_tab : BrowserResult TabInfo → ToolAnswer
  complete_create_tab (failure code message) = fails message
  complete_create_tab (success t) = says (concat "Created new tab: " t.target_id)

  unfoldable pub handle_tabs : J.Dict → ToolCall U
  handle_tabs args = Calls.list_tabs complete_tabs

  unfoldable pub handle_new_tab : J.Dict → ToolCall U
  handle_new_tab args =
      Calls.create_tab (U.of_string (value_or (find_string J args "url") "about:blank"))
        complete_create_tab

  unfoldable pub handle_close : J.Dict → ToolCall U
  handle_close args = elim (find_string J args "targetId") [
    | none ↦ Calls.close_tab none (complete_status "Current tab closed")
    | some id ↦ Calls.close_tab (some id) (complete_status "Tab closed")
  ]

  unfoldable pub handle_resize : J.Dict → ToolCall U
  handle_resize args =
      let width = value_or (find_int J args "width") (pos 1280) in
      let height = value_or (find_int J args "height") (pos 720) in
      Calls.resize_active width height (
        complete_status (concat "Resized to " (concat (number width) (concat "x" (number height)))))

  unfoldable pub handle_navigate : J.Dict → ToolCall U
  handle_navigate args = elim (find_string J args "url") [
    | none ↦ Calls.answers (fails "Missing required parameter: url")
    | some url ↦ Calls.navigate (U.of_string url) (complete_status "Navigated to page")
  ]

  unfoldable pub handle_navigate_back : J.Dict → ToolCall U
  handle_navigate_back args = Calls.navigate_back (complete_status "Navigated back")

  unfoldable pub handle_navigate_forward : J.Dict → ToolCall U
  handle_navigate_forward args = Calls.navigate_forward (complete_status "Navigated forward")

  unfoldable pub handle_reload : J.Dict → ToolCall U
  handle_reload args = Calls.reload (complete_status "Page reloaded")

  unfoldable pub complete_evaluate : BrowserResult EvaluateResult → ToolAnswer
  complete_evaluate (failure code message) = fails message
  complete_evaluate (success undefined) = says "undefined"
  complete_evaluate (success (json s)) = says s

  -- `CompleteConsoleMessages` and `CompleteSnapshot`
  unfoldable pub complete_text : BrowserResult String → ToolAnswer
  complete_text (failure code message) = fails message
  complete_text (success s) = says s

  unfoldable pub handle_evaluate : J.Dict → ToolCall U
  handle_evaluate args = elim (find_string J args "expression") [
    | none ↦ Calls.answers (fails "Missing required parameter: expression")
    | some js ↦ Calls.evaluate js complete_evaluate
  ]

  unfoldable pub handle_console_messages : J.Dict → ToolCall U
  handle_console_messages args = Calls.console_messages complete_text

  unfoldable pub handle_snapshot : J.Dict → ToolCall U
  handle_snapshot args = Calls.snapshot complete_text

  unfoldable pub complete_screenshot : BrowserResult Bytes → ToolAnswer
  complete_screenshot (failure code message) = fails message
  complete_screenshot (success bytes) = record {
    content = Calls.image (base64_encode bytes) "image/png";
    is_error = false;
  }

  unfoldable pub handle_screenshot : J.Dict → ToolCall U
  handle_screenshot args = Calls.screenshot complete_screenshot

  unfoldable pub complete_wait : String → BrowserStatus → ToolAnswer
  complete_wait wait_desc s = complete_status (concat "Wait satisfied for " wait_desc) s

  abbrev wait_options : J.Dict → WaitOptions
  wait_options args = record {
    selector = find_string J args "selector";
    text = find_string J args "text";
    timeout_ms = value_or (find_int J args "timeout") (pos 30000);
  }

  unfoldable pub handle_wait_for : J.Dict → ToolCall U
  handle_wait_for args = elim (find_string J args "selector") [
    | some s ↦ Calls.wait_for (wait_options args) (complete_wait (concat "selector: " s))
    | none ↦ elim (find_string J args "text") [
      | some s ↦ Calls.wait_for (wait_options args) (complete_wait (concat "text: " s))
      | none ↦ Calls.answers (fails "Must provide either selector or text to wait for")
    ]
  ]
