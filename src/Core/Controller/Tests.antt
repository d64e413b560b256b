-- ===== src/Core/Controller/Tests.antt =====
-- A controller of a headless browser with one tab.
use browserd.Shared.{
  ℕ, ◌<◌, ◌+◌, ◌^◌, ◌≡◌, ◌≢◌, ◌↔◌, refl, Bool, true, false, none, some, List, [], ◌∷◌, String,
  length, arith,
}
use browserd.Platform.Json.{pos}
use browserd.Platform.Samples.{json, Value}
use browserd.Platform.Samples.Pages.{urls}
use browserd.Platform.Samples.Tabs.{contexts, tab}
use browserd.Platform.Cookies.{CookieStore, CookieParts}
use browserd.Core.Result
use browserd.Core.Result.{BrowserResult, success, failure, not_found, CookieInfo}
use browserd.Core.Evaluation
use browserd.Core.Controller.State
use browserd.Core.Controller.Outcomes
use browserd.Core.Controller.Outcomes.{PageState}
use browserd.Core.Controller.Pages
use browserd.Core.Controller.Tabs
use browserd.Core.Controller.Histories
use browserd.Core.Controller.Calls
use browserd.Core.Controller.Waits
use browserd.Headless
use browserd.Headless.Interface

abbrev is_none : Value → Bool
is_none v = false

abbrev write_json : Value → String
write_json v = "null"

abbrev store : CookieStore String
store = record {
  Cookie = CookieParts String;
  name = λ c. c.name;
  value = λ c. c.value;
  domain = λ c. c.domain;
  path = λ c. c.path;
  is_secure = λ c. c.secure;
  is_http_only = λ c. c.http_only;
  create_sanitized_cookie = λ c. some c;
}

abbrev browser : Headless.Runtime contexts
browser = record { browser_context = some (1 ∷ []); active_web_contents = some 1; shutdowns = 0 }

abbrev controller : State.Controller (Interface.runtime urls contexts)
controller = record { runtime = some browser; instrumentation = []; simulated = none }

abbrev page : ℕ → PageState String
page w = record {
  last_committed_url = "https://example.org/";
  can_go_back = false;
  can_go_forward = false;
  has_cookie_manager = true;
  view = some true;
}

abbrev events :
    List (Histories.Event urls json is_none write_json store (Interface.runtime urls contexts))
events =
    Histories.create_tab "https://example.org/"
    ∷ Histories.page_destroyed 1
    ∷ Histories.close_tab (some "x")
    ∷ []

run-Follows_example :
    Histories.Follows urls json is_none write_json store
      (Interface.runtime urls contexts)
      (Tabs.list_tabs urls json is_none write_json store (Interface.runtime urls contexts) (
        Histories.run urls json is_none write_json store
          (Interface.runtime urls contexts)
          (some (State.new_controller (Interface.runtime urls contexts) (some browser)))
          events)).0
run-Follows_example =
    Histories.run-Follows urls json is_none write_json store (Interface.runtime urls contexts)
      (some browser) events

call_page-target_example :
    Calls.RefusedWith urls json is_none write_json store
      (Interface.runtime urls contexts)
      ""
      (λ s. s)
      (λ n. "1")
      Result.session_not_ready
      (Calls.call_page urls json is_none write_json store
        (Interface.runtime urls contexts)
        ""
        (λ s. s)
        (λ n. "1")
        page
        none
        (some "x")
        (Calls.evaluate "1"))
    × (State.resolve_web_contents (Interface.runtime urls contexts) controller (some "x") ≡ none
        → Calls.RefusedWith urls json is_none write_json store
            (Interface.runtime urls contexts)
            ""
            (λ s. s)
            (λ n. "1")
            Result.tab_not_found
            (Calls.call_page urls json is_none write_json store
              (Interface.runtime urls contexts)
              ""
              (λ s. s)
              (λ n. "1")
              page
              (some controller)
              (some "x")
              (Calls.evaluate "1")))
    × ((w : ℕ)
        → State.resolve_web_contents (Interface.runtime urls contexts) controller (some "x")
          ≡ some w
        → Calls.Reaches urls json is_none write_json store
            (Interface.runtime urls contexts)
            ""
            (λ s. s)
            (λ n. "1")
            w
            (Calls.call_page urls json is_none write_json store
              (Interface.runtime urls contexts)
              ""
              (λ s. s)
              (λ n. "1")
              page
              (some controller)
              (some "x")
              (Calls.evaluate "1")))
call_page-target_example =
    Calls.call_page-target urls json is_none write_json store (Interface.runtime urls contexts) ""
      (λ s. s) (λ n. "1") page (some "x") (Calls.evaluate "1") controller

below : Pages.wait_timeout (pos 2147483647) < 2 ^ 31
unfolding Pages.wait_timeout
below = omega arith

wait_limit_iff_example :
    ((Pages.wait_limit (pos 2147483647) ≡ pos (Pages.wait_timeout (pos 2147483647) + 1000))
      ↔ (Pages.wait_timeout (pos 2147483647) + 1000 < 2 ^ 31))
    × ((Evaluation.is_positive (Pages.wait_limit (pos 2147483647)) ≡ true)
        ↔ (Pages.wait_timeout (pos 2147483647) + 1000 < 2 ^ 31))
wait_limit_iff_example = Waits.wait_limit_iff (pos 2147483647) below

abbrev named : String → String → CookieInfo
named n v = record {
  name = n;
  value = v;
  domain = "example.org";
  path = "/";
  secure = true;
  http_only = false;
}

room : Pages.wait_timeout (pos 500) + 1000 < 2 ^ 31
unfolding Pages.wait_timeout
room = omega arith

abbrev wait : Pages.WaitOptions
wait = record { selector = some "#main"; text = none; timeout_ms = pos 500 }

active : State.resolve_web_contents (Interface.runtime urls contexts) controller none ≡ some 1
unfolding State.resolve_web_contents
active = refl

wait_for-answered_example :
    (js : String) × (Pages.wait_for urls json is_none write_json store
        (Interface.runtime urls contexts)
        (λ s. s)
        (λ n. "500")
        (some controller)
        none
        wait
      ≡ Outcomes.evaluates 1 js true
          (Pages.wait_limit (pos 500))
          (Pages.wait_reply urls json is_none write_json store (Interface.runtime urls contexts)))
    × ((es : List (Evaluation.Event json is_none write_json))
        → es ≢ []
        → length
            (Waits.waited urls json is_none write_json store
              (Interface.runtime urls contexts)
              (λ s. s)
              (λ n. "500")
              (λ w. true)
              1
              js
              (pos 500)
              es).request.replies
          ≡ 1)
wait_for-answered_example =
    Waits.wait_for-answered urls json is_none write_json store (Interface.runtime urls contexts)
      (λ s. s) (λ n. "500") controller none 1 wait (λ w. true) active refl room refl

create_tab-opens_example :
    (Tabs.create_tab urls json is_none write_json store
      (Interface.runtime urls contexts)
      (some controller)
      "https://example.org/").1
    ≡ Outcomes.opens 2 "https://example.org/" "xx"
create_tab-opens_example =
    Interface.create_tab-opens urls contexts json is_none write_json store controller browser
      (1 ∷ []) (2 ∷ 1 ∷ []) (tab 2) 2 "https://example.org/" refl refl refl refl (λ e. cc) refl
      (λ e. cc)
