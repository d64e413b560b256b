-- ===== src/Mcp/Tools/Cookies/Tests.antt =====
-- A cookie that is set, and is secure.
use browserd.Shared.{◌≡◌, ◌↔◌, refl, true, false, none}
use browserd.Platform.Samples.{json}
use browserd.Core.Result
use browserd.Mcp.Tools.Cookies
use browserd.Mcp.Tools.Cookies.Answers

abbrev options : Result.CookieSetOptions
options = record {
  name = "theme";
  value = "dark";
  domain = none;
  path = none;
  url = none;
  secure = true;
  http_only = false;
}

-- The flag httpOnly is false, and the arguments leave it out.
abbrev args : json.Dict
args =
    json.set
      (json.set (json.set json.empty "name" (json.of_string "theme")) "value"
        (json.of_string "dark"))
      "secure" (json.of_bool true)

handle_cookie_set-Holds_iff_example :
    ((k : Result.BrowserStatus → Cookies.Answer) × (Cookies.handle_cookie_set json
          (λ url. true)
          args
        ≡ Cookies.set_cookie options k))
    ↔ Answers.Holds json (λ url. true) args options
handle_cookie_set-Holds_iff_example =
    Answers.handle_cookie_set-Holds_iff json (λ url. true) args options

-- The right-hand side holds of them.
args-Holds : Answers.Holds json (λ url. true) args options
args-Holds = record {
  name = refl;
  value = refl;
  domain = refl;
  path = refl;
  url = refl;
  secure = ((λ e. refl), (λ e. refl));
  http_only = ((λ e. cc), (λ e. cc));
}
