-- ===== src/Mcp/Tools/Cookies.antt =====
-- browserd/mcp/tools/cookie_tools.cc: the arguments of the cookie tools, and what they answer.
pub mod Answers
mod Tests
use browserd.Shared.{
  Bool, true, false, not, ◌&&◌, Option, none, some, List, [], ◌∷◌, String, concat, value_or,
  has_value, is_empty, if◌then◌else◌,
}
use browserd.Core.Result.{
  CookieSetOptions, CookieDeleteOptions, StatusCode, BrowserStatus, is_ok, is_not_found, CookieInfo,
  BrowserResult, success, failure,
}
use browserd.Platform.Json.{Json, find_string, find_bool}

-- The text of a tool's answer, and whether it is an error.
abbrev pub Answer : Type 0
Answer = String × Bool

abbrev print_bool : Bool → String
print_bool b = if b then "true" else "false"

pub print_cookies : List CookieInfo → String
print_cookies [] = ""
print_cookies (c ∷ cs) =
    concat
      (concat (concat (concat (concat c.name "=") c.value) (concat " (domain=" c.domain))
        (concat (concat ", path=" c.path) ")"))
      (concat "\n" (print_cookies cs))

pub format_cookie_list : BrowserResult (List CookieInfo) → Answer
unfolding print_cookies
format_cookie_list (failure code message) = (message, true)
format_cookie_list (success cookies) =
    if is_empty cookies then ("No cookies found", false) else (print_cookies cookies, false)

pub format_cookie_get : BrowserResult CookieInfo → Answer
format_cookie_get (failure code message) = (message, not (is_not_found code))
format_cookie_get (success c) = (
  concat (concat (concat (concat c.name "=") c.value) (concat "\ndomain: " c.domain)) (
      concat (concat "\npath: " c.path) (
        concat (concat "\nsecure: " (print_bool c.secure))
          (concat "\nhttpOnly: " (print_bool c.http_only)))),
  false,
)

pub complete_status : String → BrowserStatus → Answer
complete_status success_message status =
    if not (is_ok status.code) then (status.message, true) else (success_message, false)

pub complete_delete : String → BrowserStatus → Answer
complete_delete cookie_name status =
    if not (is_ok status.code) && not (is_not_found status.code)
    then (status.message, true)
    else (concat (concat "Cookie '" cookie_name) "' deleted", false)

-- What a handler does: it answers, or calls the controller, whose result completes the call.
pub data Action : Type 0 where
  answers : Answer → Action
  list_cookies : Option String → (BrowserResult (List CookieInfo) → Answer) → Action
  get_cookie : String → (BrowserResult CookieInfo → Answer) → Action
  set_cookie : CookieSetOptions → (BrowserStatus → Answer) → Action
  delete_cookie : CookieDeleteOptions → (BrowserStatus → Answer) → Action
  clear_cookies : (BrowserStatus → Answer) → Action

-- `url_is_valid` is `GURL(url).is_valid()`.
module _ (J : Json) (url_is_valid : String → Bool) where
  unfoldable pub handle_cookie_list : J.Dict → Action
  unfolding format_cookie_list
  handle_cookie_list args = elim (find_string J args "url") [
    | none ↦ list_cookies none format_cookie_list
    | some url ↦
        if not (url_is_valid url)
        then answers ("Invalid URL", true)
        else list_cookies (some url) format_cookie_list
  ]

  unfoldable pub handle_cookie_get : J.Dict → Action
  unfolding format_cookie_get
  handle_cookie_get args = elim (find_string J args "name") [
    | none ↦ answers ("Missing required parameter: name", true)
    | some name ↦ get_cookie name format_cookie_get
  ]

  pub set_options : J.Dict → String → String → CookieSetOptions
  set_options args name value = record {
    name = name;
    value = value;
    domain = find_string J args "domain";
    path = find_string J args "path";
    url = find_string J args "url";
    secure = value_or (find_bool J args "secure") false;
    http_only = value_or (find_bool J args "httpOnly") false;
  }

  abbrev pub with_both : Option String → Option String → (String → String → Action) → Action
  with_both (some name) (some value) next = next name value
  with_both (some name) none next = answers ("Missing required parameters: name, value", true)
  with_both none v next = answers ("Missing required parameters: name, value", true)

  unfoldable pub handle_cookie_set : J.Dict → Action
  unfolding complete_status set_options
  handle_cookie_set args =
      with_both (find_string J args "name") (find_string J args "value") (λ name v.
        set_cookie (set_options args name v)
          (complete_status (concat (concat "Cookie '" name) "' set")))

  unfoldable pub handle_cookie_delete : J.Dict → Action
  unfolding complete_delete
  handle_cookie_delete args = elim (find_string J args "name") [
    | none ↦ answers ("Missing required parameter: name", true)
    | some name ↦
        delete_cookie
          (record {
            name = name;
            url = find_string J args "url";
            domain = find_string J args "domain";
          })
          (complete_delete name)
  ]

  unfoldable pub handle_cookie_clear : J.Dict → Action
  unfolding complete_status
  handle_cookie_clear args = clear_cookies (complete_status "All cookies cleared")
