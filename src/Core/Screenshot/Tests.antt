-- ===== src/Core/Screenshot/Tests.antt =====
-- The browser's picture comes late; the script has drawn the page.
use browserd.Shared.{◌≡◌, Bool, true, false, Option, some, List, [], ◌∷◌, String, Text, length}
use browserd.Platform.Samples.{json, Value, str, null}
use browserd.Core.Evaluation
use browserd.Core.Screenshot
use browserd.Core.Screenshot.{Bytes}
use browserd.Core.Screenshot.Once

abbrev is_none : Value → Bool
is_none null = true
is_none v = false

abbrev write_json : Value → String
write_json v = "null"

abbrev decode : Text → Option Bytes
decode s = some (137 ∷ s)

abbrev Event : Type 0
Event = Screenshot.Event json is_none write_json decode "draw()"

abbrev late : List Event
late =
    Screenshot.snapshot
      (record { is_empty_image = false; draws_nothing = false; png = some (1 ∷ []) })
    ∷ []

abbrev drawn : Evaluation.Event json is_none write_json
drawn = Evaluation.script_result true (str "data:image/png;base64,A")

abbrev events : List Event
events = Screenshot.timer_fires (λ w. true) ∷ Screenshot.in_fallback drawn ∷ late

capture-ends_example :
    length
      (Screenshot.run json is_none write_json decode "draw()"
        (Once.started json is_none write_json decode "draw()" (some 1) (some true))
        events).request.replies
    ≡ 1
capture-ends_example =
    Once.capture-ends json is_none write_json decode "draw()" (some 1) (some true) [] [] late
      (λ w. true) drawn
