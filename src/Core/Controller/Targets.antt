-- ===== src/Core/Controller/Targets.antt =====
-- browserd/core/browser_controller.cc: `Navigate`, and what it is answered without a page.
use browserd.Shared.{
  ℕ, ◌≡◌, refl, ap, ◌∙◌, Bool, true, false, not, Option, none, some, String, has_value, if_true,
  if_false,
}
use browserd.Platform.Json.{Json}
use browserd.Platform.Urls.{Urls}
use browserd.Platform.Cookies.{CookieStore}
use browserd.Core.Result
use browserd.Core.Runtime.{BrowserRuntime}
use browserd.Core.Controller.State
use browserd.Core.Controller.Outcomes
use browserd.Core.Controller.Pages
use browserd.Core.Controller.Calls

module _ (U : Urls) (J : Json) (is_none : J.Value → Bool) (write_json : J.Value → String)
    (K : CookieStore U.Url) (R : BrowserRuntime U.Url) (snapshot_script : String)
    (quoted : String → String) (number : ℕ → String) where
  abbrev Controller : Type 0
  Controller = State.Controller R

  abbrev Outcome : Type 0
  Outcome = Outcomes.Outcome U J is_none write_json K

  abbrev Refused : Result.StatusCode → Outcome → Type 0
  Refused = Calls.RefusedWith U J is_none write_json K R snapshot_script quoted number

  -- `Navigate` looks at the runtime, then at the URL, and last at the target.
  navigate-target :
      (id : Option String) (url : U.Url) (c : Controller)
      → Refused Result.session_not_ready (Pages.navigate U J is_none write_json K R none id url)
        × (has_value c.runtime ≡ false
            → Refused Result.session_not_ready
                (Pages.navigate U J is_none write_json K R (some c) id url))
        × (has_value c.runtime ≡ true
            → U.is_valid url ≡ false
            → Refused Result.invalid_argument
                (Pages.navigate U J is_none write_json K R (some c) id url))
        × (has_value c.runtime ≡ true
            → U.is_valid url ≡ true
            → State.resolve_web_contents R c id ≡ none
            → Refused Result.tab_not_found
                (Pages.navigate U J is_none write_json K R (some c) id url))
  unfolding Pages.navigate Pages.with_page
  navigate-target id url c = (
    record { reply = _; only = refl; coded = refl },
    λ r. record { reply = _; only = if_true _ _ _ (ap not r); coded = refl },
    λ r v. record {
      reply = _;
      only = if_false _ _ _ (ap not r) ∙ if_true _ _ _ (ap not v);
      coded = refl;
    },
    λ r v n. record {
      reply = Outcomes.status (State.tab_not_found_status id);
      only =
          if_false _ _ _ (ap not r)
          ∙ if_false _ _ _ (ap not v)
          ∙ ap (λ (o : Option ℕ). target_case o) n;
      coded = Calls.tab_not_found-code U J is_none write_json K R snapshot_script quoted number id;
    },
  )
    where
      target_case : Option ℕ → Outcome
      target_case none = Outcomes.replies (Outcomes.status (State.tab_not_found_status id))
      target_case (some w) = Outcomes.navigates w url Outcomes.status
