-- ===== src/Core/Controller/Pages.antt =====
-- browserd/core/browser_controller.cc: the calls that navigate a page, run scripts in it and show it.
use browserd.Shared.{
  ℕ, zero, suc, ◌+◌, ◌-◌, ◌^◌, Bool, true, not, Option, none, some, String, concat, ltb,
  if◌then◌else◌, ◌==◌, has_value, value_or,
}
use browserd.Platform.Json.{Json, ℤ, pos, negsuc}
use browserd.Platform.Urls.{Urls}
use browserd.Platform.Cookies.{CookieStore}
use browserd.Core.Result.{
  BrowserStatus, BrowserResult, success, failure, ok_status, error_status, invalid_argument,
  internal_error, not_found, screenshot_failed, timeout,
}
use browserd.Core.Runtime.{BrowserRuntime}
use browserd.Core.Evaluation
use browserd.Core.Controller.State
use browserd.Core.Controller.State.{not_ready_status, tab_not_found_status}
use browserd.Core.Controller.Outcomes
use browserd.Core.Controller.Outcomes.{PageState}

-- `WaitOptions`
pub record WaitOptions : Type 0 where
  pub selector : Option String
  pub text : Option String
  pub timeout_ms : ℤ

-- An `int` sum of numbers that are not negative, as it wraps around at 32 bits.
unfoldable pub add_int : ℕ → ℕ → ℤ
add_int a b = if ltb (a + b) (2 ^ 31) then pos (a + b) else negsuc (2 ^ 32 - 1 - (a + b))

-- The time that a wait is given, in milliseconds, and that of its script's request.
unfoldable pub wait_timeout : ℤ → ℕ
wait_timeout (pos zero) = 30000
wait_timeout (pos (suc n)) = suc n
wait_timeout (negsuc n) = 30000

unfoldable pub wait_limit : ℤ → ℤ
wait_limit t = add_int (wait_timeout t) 1000

abbrev console_script : String
console_script = concat "(() => {" (
    concat "  if (!window.__browserdLogs) return '[]';"
      (concat "  return JSON.stringify(window.__browserdLogs);" "})()"))

abbrev wait_head : String → String
wait_head number =
    concat "new Promise((resolve, reject) => {" (concat "  const timeout = " (concat number ";"))

abbrev wait_tail : String
wait_tail =
    concat "    if (Date.now() - start > timeout) { reject(new Error('timeout')); return; }"
      (concat "    setTimeout(check, 100);" (concat "  };" (concat "  check();" "})")))

abbrev wait_start : String
wait_start = concat ";" (concat "  const start = Date.now();" "  const check = () => {")

-- The scripts that wait for an element and for a text.
pub selector_script : String → String → String
selector_script number quoted = concat (wait_head number) (
    concat "  const selector = " (
      concat quoted (
        concat wait_start (
          concat "    const el = document.querySelector(selector);"
            (concat "    if (el) { resolve('found'); return; }" wait_tail)))))

pub text_script : String → String → String
text_script number quoted = concat (wait_head number) (
    concat "  const text = " (
      concat quoted (
        concat wait_start (
          concat
            "    if (document.body && document.body.innerText.includes(text)) { resolve('found'); return; }"
            wait_tail))))

-- `snapshot_script` is `kDomSnapshotScript`; `quoted` is `base::GetQuotedJSONString`, `number` is
-- `base::NumberToString`.
module _ (U : Urls) (J : Json) (is_none : J.Value → Bool) (write_json : J.Value → String)
    (K : CookieStore U.Url) (R : BrowserRuntime U.Url) where
  abbrev pub Controller : Type 0
  Controller = State.Controller R

  abbrev pub Outcome : Type 0
  Outcome = Outcomes.Outcome U J is_none write_json K

  abbrev pub EvaluationResult : Type 0
  EvaluationResult = Evaluation.EvaluationResult J is_none write_json

  -- The guard that the calls on a page begin with.
  unfoldable pub with_page :
      Option Controller → Option String → (BrowserStatus → Outcomes.Reply) → (ℕ → Outcome) → Outcome
  with_page none id answer next = Outcomes.replies (answer not_ready_status)
  with_page (some c) id answer next = elim (State.resolve_web_contents R c id) [
    | none ↦ Outcomes.replies (answer (tab_not_found_status id))
    | some w ↦ next w
  ]

  -- `Error` of the code and the message of a status.
  abbrev pub error_result : {A : Type 0} → BrowserStatus → BrowserResult A
  error_result s = failure s.code s.message

  unfoldable pub navigate : Option Controller → Option String → U.Url → Outcome
  navigate none id url = Outcomes.replies (Outcomes.status not_ready_status)
  navigate (some c) id url =
      if not (has_value c.runtime)
      then Outcomes.replies (Outcomes.status not_ready_status)
      else if not (U.is_valid url)
      then Outcomes.replies (Outcomes.status (error_status invalid_argument "Invalid URL"))
      else with_page (some c) id Outcomes.status (λ w. Outcomes.navigates w url Outcomes.status)

  unfoldable pub navigate_back : (ℕ → PageState U.Url) → Option Controller → Option String → Outcome
  navigate_back page self id = with_page self id Outcomes.status (λ w.
      if not (page w).can_go_back
      then Outcomes.replies (Outcomes.status (error_status not_found "Cannot go back"))
      else Outcomes.goes_back w (Outcomes.status ok_status))

  unfoldable pub navigate_forward :
      (ℕ → PageState U.Url) → Option Controller → Option String → Outcome
  navigate_forward page self id = with_page self id Outcomes.status (λ w.
      if not (page w).can_go_forward
      then Outcomes.replies (Outcomes.status (error_status not_found "Cannot go forward"))
      else Outcomes.goes_forward w (Outcomes.status ok_status))

  unfoldable pub reload : Option Controller → Option String → Outcome
  reload self id = with_page self id Outcomes.status (λ w. Outcomes.reloads w Outcomes.status)

  unfoldable pub evaluate_reply : EvaluationResult → Outcomes.Reply
  evaluate_reply (failure code message) = Outcomes.evaluation (failure code message)
  evaluate_reply (success v) =
      Outcomes.evaluation (success (Evaluation.to_evaluate_result J is_none write_json v))

  unfoldable pub evaluate : Option Controller → Option String → String → Outcome
  evaluate self id js =
      with_page self id (λ s. Outcomes.evaluation (error_result s))
        (λ w. Outcomes.evaluates w js true (pos 10000) evaluate_reply)

  pub console_reply : EvaluationResult → Outcomes.Reply
  console_reply (failure code message) = Outcomes.text (failure code message)
  console_reply (success v) = Outcomes.text (success (value_or (J.as_string v.value) "[]"))

  unfoldable pub console_messages : Option Controller → Option String → Outcome
  console_messages self id =
      with_page self id (λ s. Outcomes.text (error_result s))
        (λ w. Outcomes.evaluates w console_script true (pos 10000) console_reply)

  pub snapshot_reply : EvaluationResult → Outcomes.Reply
  snapshot_reply (failure code message) = Outcomes.text (failure code message)
  snapshot_reply (success v) = elim (J.as_string v.value) [
    | none ↦ Outcomes.text (failure internal_error "DOM snapshot returned no text")
    | some s ↦ Outcomes.text (success s)
  ]

  unfoldable pub snapshot : String → Option Controller → Option String → Outcome
  snapshot snapshot_script self id =
      with_page self id (λ s. Outcomes.text (error_result s))
        (λ w. Outcomes.evaluates w snapshot_script true (pos 10000) snapshot_reply)

  unfoldable pub screenshot : (ℕ → PageState U.Url) → Option Controller → Option String → Outcome
  screenshot page self id =
      with_page self id (λ s. Outcomes.picture (error_result s))
        (λ w. elim (page w).view [
          | none ↦
              Outcomes.replies
                (Outcomes.picture (failure screenshot_failed "No render view available"))
          | some has_widget ↦ Outcomes.captures w has_widget Outcomes.picture
        ])

  unfoldable pub wait_reply : EvaluationResult → Outcomes.Reply
  wait_reply (failure code message) = Outcomes.status (error_status code message)
  wait_reply (success v) = elim (J.as_string v.value) [
    | none ↦ Outcomes.status (error_status timeout "Wait timeout")
    | some s ↦
        if s == "found"
        then Outcomes.status ok_status
        else Outcomes.status (error_status timeout "Wait timeout")
  ]

  abbrev wait_in : ℕ → String → ℤ → Outcome
  wait_in w script t = Outcomes.evaluates w script true (wait_limit t) wait_reply

  unfoldable pub wait_for :
      (String → String) → (ℕ → String) → Option Controller → Option String → WaitOptions → Outcome
  wait_for quoted number self id options = with_page self id Outcomes.status (λ w.
      elim options.selector [
        | some s ↦
            wait_in w (selector_script (number (wait_timeout options.timeout_ms)) (quoted s))
              options.timeout_ms
        | none ↦ elim options.text [
          | some s ↦
              wait_in w (text_script (number (wait_timeout options.timeout_ms)) (quoted s))
                options.timeout_ms
          | none ↦ Outcomes.replies (
              Outcomes.status
                (error_status invalid_argument "Must provide either selector or text to wait for"))
        ]
      ])
