-- ===== src/Core/Controller/Outcomes.antt =====
-- browserd/core/browser_controller.cc: what a call of the controller leads to. It is answered, or a
-- request is started whose callback gives the answer.
use browserd.Shared.{ℕ, Bool, Option, List, String}
use browserd.Platform.Json.{Json, ℤ}
use browserd.Platform.Urls.{Urls}
use browserd.Platform.Cookies.{CookieStore}
use browserd.Core.Result.{BrowserResult, BrowserStatus, CookieInfo}
use browserd.Core.Runtime.{TabInfo}
use browserd.Core.Evaluation
use browserd.Core.Evaluation.{EvaluateResult}
use browserd.Core.Screenshot.{Bytes}

-- What the callback of a call is run with.
pub data Reply : Type 0 where
  status : BrowserStatus → Reply
  tabs : BrowserResult (List TabInfo) → Reply
  tab : BrowserResult TabInfo → Reply
  evaluation : BrowserResult EvaluateResult → Reply
  text : BrowserResult String → Reply
  picture : BrowserResult Bytes → Reply
  cookies : BrowserResult (List CookieInfo) → Reply
  cookie : BrowserResult CookieInfo → Reply

-- `network::mojom::CookieDeletionFilter`
pub record DeletionFilter (Url : Type 0) : Type 0 where
  pub cookie_name : Option String
  pub url : Option Url
  pub host_name : Option String

-- A page as a call finds it: the state of a `content::WebContents`. `view` is its render view, with
-- whether that has a render widget host.
pub record PageState (Url : Type 0) : Type 0 where
  pub last_committed_url : Url
  pub can_go_back : Bool
  pub can_go_forward : Bool
  pub has_cookie_manager : Bool
  pub view : Option Bool

module _ (U : Urls) (J : Json) (is_none : J.Value → Bool) (write_json : J.Value → String)
    (K : CookieStore U.Url) where
  -- The number is the web contents that the request is for. A tab that was created is answered for by
  -- `finish_create_tab`, with the target id that is named here.
  pub data Outcome : Type 0 where
    replies : Reply → Outcome
    goes_back : ℕ → Reply → Outcome
    goes_forward : ℕ → Reply → Outcome
    navigates : ℕ → U.Url → (BrowserStatus → Reply) → Outcome
    opens : ℕ → U.Url → String → Outcome
    reloads : ℕ → (BrowserStatus → Reply) → Outcome
    evaluates :
        ℕ → String → Bool → ℤ → (Evaluation.EvaluationResult J is_none write_json → Reply) → Outcome
    captures : ℕ → Bool → (BrowserResult Bytes → Reply) → Outcome
    lists_cookies : ℕ → Option U.Url → (List K.Cookie → Reply) → Outcome
    sets_cookie : ℕ → K.Cookie → U.Url → (Bool → Reply) → Outcome
    deletes_cookies : ℕ → DeletionFilter U.Url → (ℕ → Reply) → Outcome
