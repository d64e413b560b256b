-- ===== src/Core/Interactions/Elements.antt =====
-- browserd/core/browser_interactions.cc: the references to elements, and the scripts that act on one.
use browserd.Shared.{
  ℕ, Bool, true, false, ◌||◌, Option, none, some, [], ◌∷◌, String, Text, codes, eqb, if◌then◌else◌,
}
use browserd.Platform.Json.{ℤ, pos, negsuc}
use browserd.Core.Result.{
  BrowserStatus, BrowserResult, success, failure, ok_status, error_status, internal_error,
  invalid_argument, no_active_frame, not_found,
}

-- What follows a prefix, of a text that has it.
unfoldable pub after_prefix : Text → Text → Option Text
after_prefix [] s = some s
after_prefix (c ∷ p) [] = none
after_prefix (c ∷ p) (d ∷ s) = let rest = after_prefix p s in if eqb c d then rest else none

-- `find`, of which only is asked whether it finds anything.
unfoldable pub contains : Text → Text → Bool
contains [] needle = elim (after_prefix needle []) [ none ↦ false | some rest ↦ true ]
contains (c ∷ s) needle =
    let later = contains s needle in
    elim (after_prefix needle (c ∷ s)) [ none ↦ later | some rest ↦ true ]

abbrev pub invalid_ref : BrowserStatus
invalid_ref = error_status invalid_argument "Invalid ref"

abbrev pub no_frame : BrowserStatus
no_frame = error_status no_active_frame "No active frame"

abbrev pub no_element : BrowserStatus
no_element = error_status not_found "Element not found"

-- `string_to_int` is `base::StringToInt`, with the number where it succeeds.
module _ (string_to_int : Text → Option ℤ) where
  unfoldable pub parse_ref : Text → Option ℤ
  parse_ref ref = string_to_int ref

  abbrev natural : Option ℤ → Option ℕ
  natural (some (pos n)) = some n
  natural (some (negsuc n)) = none
  natural none = none

  unfoldable pub parse_dom_ref : Text → Option ℕ
  parse_dom_ref ref = elim (after_prefix (codes "dom:") ref) [
    | none ↦ none
    | some rest ↦ natural (string_to_int rest)
  ]

-- The callback of `EvalStatusJS`, on what the script gives: the value where that is a string.
unfoldable pub eval_status : BrowserResult (Option String) → BrowserStatus
eval_status (failure code message) = error_status code message
eval_status (success none) = ok_status
eval_status (success (some s)) =
    if contains (codes s) (codes "Error") || contains (codes s) (codes "not found")
    then error_status internal_error s
    else ok_status
