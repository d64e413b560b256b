-- ===== src/Core/Evaluation/Tests.antt =====
-- A script that returns a text just before its time is up.
use browserd.Shared.{◌≡◌, Bool, true, false, some, List, [], ◌∷◌, String}
use browserd.Platform.Json.{pos}
use browserd.Platform.Samples.{json, Value, str, null}
use browserd.Core.Evaluation
use browserd.Core.Evaluation.Answers

abbrev is_none : Value → Bool
is_none null = true
is_none v = false

abbrev write_json : Value → String
write_json (str s) = s
write_json v = "null"

abbrev events : List (Evaluation.Event json is_none write_json)
events =
    Evaluation.script_result true (str "found")
    ∷ Evaluation.timer_fires
    ∷ Evaluation.script_result false null
    ∷ []

run-first_answer_example :
    (Evaluation.run json is_none write_json
      (Evaluation.evaluate_with_dev_tools json is_none write_json
        (λ w. true)
        (some 1)
        "1"
        true
        (pos 10000))
      events).request.replies
    ≡ Answers.first_answer json is_none write_json (λ w. true) (some 1) (pos 10000) events
run-first_answer_example =
    Answers.run-first_answer json is_none write_json (λ w. true) (some 1) "1" true (pos 10000)
      events
