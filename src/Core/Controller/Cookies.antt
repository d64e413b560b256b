-- ===== src/Core/Controller/Cookies.antt =====
-- browserd/core/browser_controller.cc: the calls on the cookies of a page's browser context.
use browserd.Shared.{
  ℕ, Bool, not, ltb, Option, none, some, List, [], ◌∷◌, String, concat, map, if◌then◌else◌, ◌==◌,
  value_or,
}
use browserd.Platform.Json.{Json}
use browserd.Platform.Urls.{Urls}
use browserd.Platform.Cookies.{CookieStore, CookieParts}
use browserd.Core.Result.{
  BrowserStatus, BrowserResult, success, failure, ok_status, error_status, invalid_argument,
  internal_error, not_found, CookieInfo, CookieSetOptions, CookieDeleteOptions,
}
use browserd.Core.Runtime.{BrowserRuntime}
use browserd.Core.Controller.Outcomes
use browserd.Core.Controller.Outcomes.{PageState, DeletionFilter}
use browserd.Core.Controller.Pages

-- The loop of `GetCookie`.
unfoldable pub find_cookie : List CookieInfo → String → Option CookieInfo
find_cookie [] name = none
find_cookie (c ∷ cs) name = if c.name == name then some c else find_cookie cs name

unfoldable pub get_cookie_result :
    String → BrowserResult (List CookieInfo) → BrowserResult CookieInfo
get_cookie_result name (failure code message) = failure code message
get_cookie_result name (success cs) = elim (find_cookie cs name) [
  | none ↦ failure not_found (concat (concat "Cookie '" name) "' not found")
  | some c ↦ success c
]

module _ (U : Urls) (J : Json) (is_none : J.Value → Bool) (write_json : J.Value → String)
    (K : CookieStore U.Url) (R : BrowserRuntime U.Url) where
  abbrev Controller : Type 0
  Controller = Pages.Controller U J is_none write_json K R

  abbrev Outcome : Type 0
  Outcome = Outcomes.Outcome U J is_none write_json K

  abbrev with_page :
      Option Controller → Option String → (BrowserStatus → Outcomes.Reply) → (ℕ → Outcome) → Outcome
  with_page = Pages.with_page U J is_none write_json K R

  pub to_cookie_info : K.Cookie → CookieInfo
  to_cookie_info c = record {
    name = K.name c;
    value = K.value c;
    domain = K.domain c;
    path = K.path c;
    secure = K.is_secure c;
    http_only = K.is_http_only c;
  }

  -- The callback of `ListCookies` is given: `GetCookie` calls it too.
  unfoldable pub list_cookies :
      (ℕ → PageState U.Url)
      → Option Controller
      → Option String
      → Option String
      → (BrowserResult (List CookieInfo) → Outcomes.Reply)
      → Outcome
  list_cookies page self id url answer =
      with_page self id (λ s. answer (failure s.code s.message))
        (λ w.
          if not (page w).has_cookie_manager
          then Outcomes.replies (answer (failure internal_error "No cookie manager"))
          else elim url [
            | some u ↦
                Outcomes.lists_cookies w (some (U.of_string u))
                  (λ cs. answer (success (map to_cookie_info cs)))
            | none ↦ Outcomes.lists_cookies w none (λ cs. answer (success (map to_cookie_info cs)))
          ])

  unfoldable pub get_cookie :
      (ℕ → PageState U.Url) → Option Controller → Option String → String → Outcome
  get_cookie page self id name =
      list_cookies page self id none (λ r. Outcomes.cookie (get_cookie_result name r))

  abbrev pub with_manager : (ℕ → PageState U.Url) → ℕ → Outcome → Outcome
  with_manager page w next =
      if not (page w).has_cookie_manager
      then Outcomes.replies (Outcomes.status (error_status internal_error "No cookie manager"))
      else next

  pub set_reply : Bool → Outcomes.Reply
  set_reply is_include =
      if is_include
      then Outcomes.status ok_status
      else Outcomes.status (error_status internal_error "Failed to set cookie")

  pub cookie_parts : PageState U.Url → CookieSetOptions → CookieParts U.Url
  cookie_parts page o = record {
    source_url = U.of_string (value_or o.url (U.spec page.last_committed_url));
    name = o.name;
    value = o.value;
    domain = value_or o.domain "";
    path = value_or o.path "/";
    secure = o.secure;
    http_only = o.http_only;
  }

  unfoldable pub set_cookie :
      (ℕ → PageState U.Url) → Option Controller → Option String → CookieSetOptions → Outcome
  set_cookie page self id o = with_page self id Outcomes.status (λ w.
      with_manager page w (elim (K.create_sanitized_cookie (cookie_parts (page w) o)) [
        | none ↦ Outcomes.replies (Outcomes.status (error_status invalid_argument "Invalid cookie"))
        | some c ↦ Outcomes.sets_cookie w c (cookie_parts (page w) o).source_url set_reply
      ]))

  pub deletion_filter : CookieDeleteOptions → DeletionFilter U.Url
  deletion_filter o = record {
    cookie_name = some o.name;
    url = elim o.url [ none ↦ none | some u ↦ some (U.of_string u) ];
    host_name = o.domain;
  }

  pub delete_reply : ℕ → Outcomes.Reply
  delete_reply deleted =
      if ltb 0 deleted
      then Outcomes.status ok_status
      else Outcomes.status (error_status not_found "Cookie not found")

  unfoldable pub delete_cookie :
      (ℕ → PageState U.Url) → Option Controller → Option String → CookieDeleteOptions → Outcome
  delete_cookie page self id o =
      with_page self id Outcomes.status
        (λ w. with_manager page w (Outcomes.deletes_cookies w (deletion_filter o) delete_reply))

  unfoldable pub clear_cookies : (ℕ → PageState U.Url) → Option Controller → Option String → Outcome
  clear_cookies page self id = with_page self id Outcomes.status (λ w. with_manager page w (
      Outcomes.deletes_cookies w (record { cookie_name = none; url = none; host_name = none })
        (λ deleted. Outcomes.status ok_status)))
