-- ===== src/Core/Evaluation.antt =====
-- browserd/core/browser_controller.cc: `JavaScriptEvaluationRequest`, which evaluates a script in a page.
pub mod Answers
mod Tests
use browserd.Shared.{
  ℕ, zero, suc, Bool, true, false, not, Option, none, some, List, [], ◌∷◌, ◌++◌, String,
  if◌then◌else◌, ◌||◌, has_value, value_or,
}
use browserd.Platform.Json.{Json, ℤ, pos, negsuc}
use browserd.Core.Result.{
  BrowserResult, success, failure, tab_not_found, no_active_frame, internal_error, timeout,
}
use browserd.Core.Request.{Request, new_request, complete, set_timer}

-- `TimeDelta::is_positive`, for milliseconds.
abbrev pub is_positive : ℤ → Bool
is_positive (pos zero) = false
is_positive (pos (suc n)) = true
is_positive (negsuc n) = false

-- A script that a page was asked to run.
pub record Script : Type 0 where
  pub page : ℕ
  pub expression : String
  pub await_promise : Bool

-- `EvaluateResult`
pub data EvaluateResult : Type 0 where
  undefined : EvaluateResult
  json : String → EvaluateResult

-- `is_none` is `base::Value::is_none`, `write_json` what `base::JSONWriter::Write` writes.
module _ (J : Json) (is_none : J.Value → Bool) (write_json : J.Value → String) where
  -- `DevToolsEvaluationResult`
  pub record EvaluationValue : Type 0 where
    pub value : J.Value
    pub is_undefined : Bool

  abbrev pub EvaluationResult : Type 0
  EvaluationResult = BrowserResult EvaluationValue

  pub to_evaluate_result : EvaluationValue → EvaluateResult
  to_evaluate_result r =
      if r.is_undefined || is_none r.value then undefined else json (write_json r.value)

  -- `executed` are the scripts that the request has handed to its page.
  pub record Evaluation : Type 0 where
    pub web_contents : Option ℕ
    pub expression : String
    pub await_promise : Bool
    pub time_limit : ℤ
    pub request : Request EvaluationResult
    pub executed : List Script

  pub new_evaluation : Option ℕ → String → Bool → ℤ → Evaluation
  new_evaluation w js await limit = record {
    web_contents = w;
    expression = js;
    await_promise = await;
    time_limit = limit;
    request = new_request;
    executed = [];
  }

  abbrev pub finish : Evaluation → EvaluationResult → Evaluation
  finish e r = record e { request = complete e.request r }

  abbrev execute : Evaluation → ℕ → Evaluation
  execute e w = record e {
    executed =
        e.executed
        ++ record { page = w; expression = e.expression; await_promise = e.await_promise } ∷ [];
  }

  -- `is_live` says whether a page has a primary main frame whose render frame is live.
  pub start : (ℕ → Bool) → Evaluation → Evaluation
  start is_live e = elim e.web_contents [
    | none ↦ finish e (failure tab_not_found "Tab not found")
    | some w ↦
        if not (is_live w)
        then finish e (failure no_active_frame "No active frame")
        else execute
            (if is_positive e.time_limit
              then record e { request = set_timer e.request true }
              else e)
            w
  ]

  -- The message of an exception, and the result of a script that returned.
  pub exception_message : J.Value → String
  exception_message value = value_or (J.as_string value) (write_json value)

  pub returned : J.Value → EvaluationValue
  returned value =
      if is_none value
      then record { value = J.null; is_undefined = true }
      else record { value = value; is_undefined = false }

  pub result_of : Bool → J.Value → EvaluationResult
  result_of is_success value =
      if not is_success
      then failure internal_error (exception_message value)
      else success (returned value)

  pub on_result : Evaluation → Bool → J.Value → Evaluation
  on_result e is_success value = finish e (result_of is_success value)

  pub on_timeout : Evaluation → Evaluation
  on_timeout e = finish e (failure timeout "JavaScript evaluation timeout")

  -- The page answers, or the timer fires.
  pub data Event : Type 0 where
    script_result : Bool → J.Value → Event
    timer_fires : Event

  pub step : Evaluation → Event → Evaluation
  step e (script_result is_success value) = on_result e is_success value
  step e timer_fires =
      if e.request.timer then on_timeout (record e { request = set_timer e.request false }) else e

  pub run : Evaluation → List Event → Evaluation
  run e [] = e
  run e (x ∷ xs) = run (step e x) xs

  -- `EvaluateWithDevTools`
  pub evaluate_with_dev_tools : (ℕ → Bool) → Option ℕ → String → Bool → ℤ → Evaluation
  evaluate_with_dev_tools is_live w js await limit = start is_live (new_evaluation w js await limit)
