-- ===== src/Mcp/Tools/Calls.antt =====
-- browserd/mcp/tools: what the handler of a tool does. It answers, or it calls the controller, whose
-- result completes the call. All but `close_tab` call it for the active tab.
use browserd.Shared.{String, Bool, Option, List, not, if◌then◌else◌, true, false}
use browserd.Platform.Json.{ℤ}
use browserd.Platform.Urls.{Urls}
use browserd.Core.Result.{BrowserStatus, BrowserResult, is_ok}
use browserd.Core.Runtime.{TabInfo}
use browserd.Core.Evaluation.{EvaluateResult}
use browserd.Core.Screenshot.{Bytes}
use browserd.Core.Controller.Pages.{WaitOptions}

-- What `TextContent` and `ImageContent` are made of, and whether the answer is an error.
pub data Content : Type 0 where
  text : String → Content
  image : String → String → Content

pub record ToolAnswer : Type 0 where
  pub content : Content
  pub is_error : Bool

abbrev pub says : String → ToolAnswer
says s = record { content = text s; is_error = false }

abbrev pub fails : String → ToolAnswer
fails s = record { content = text s; is_error = true }

pub record TypeOptions : Type 0 where
  pub ref : String
  pub text : String
  pub clear : Bool

pub record SelectOptions : Type 0 where
  pub ref : String
  pub values : List String

pub data ToolCall (U : Urls) : Type 0 where
  answers : ToolAnswer → ToolCall U
  list_tabs : (BrowserResult (List TabInfo) → ToolAnswer) → ToolCall U
  create_tab : U.Url → (BrowserResult TabInfo → ToolAnswer) → ToolCall U
  close_tab : Option String → (BrowserStatus → ToolAnswer) → ToolCall U
  resize_active : ℤ → ℤ → (BrowserStatus → ToolAnswer) → ToolCall U
  navigate : U.Url → (BrowserStatus → ToolAnswer) → ToolCall U
  navigate_back : (BrowserStatus → ToolAnswer) → ToolCall U
  navigate_forward : (BrowserStatus → ToolAnswer) → ToolCall U
  reload : (BrowserStatus → ToolAnswer) → ToolCall U
  evaluate : String → (BrowserResult EvaluateResult → ToolAnswer) → ToolCall U
  console_messages : (BrowserResult String → ToolAnswer) → ToolCall U
  snapshot : (BrowserResult String → ToolAnswer) → ToolCall U
  screenshot : (BrowserResult Bytes → ToolAnswer) → ToolCall U
  wait_for : WaitOptions → (BrowserStatus → ToolAnswer) → ToolCall U
  click : String → (BrowserStatus → ToolAnswer) → ToolCall U
  hover : String → (BrowserStatus → ToolAnswer) → ToolCall U
  type_text : TypeOptions → (BrowserStatus → ToolAnswer) → ToolCall U
  press_key : String → (BrowserStatus → ToolAnswer) → ToolCall U
  select_option : SelectOptions → (BrowserStatus → ToolAnswer) → ToolCall U
  drag : String → String → (BrowserStatus → ToolAnswer) → ToolCall U
  scroll : ℤ → ℤ → (BrowserStatus → ToolAnswer) → ToolCall U

-- `CompleteStatus`
unfoldable pub complete_status : String → BrowserStatus → ToolAnswer
complete_status success_message s =
    if not (is_ok s.code) then fails s.message else says success_message
