-- ===== src/Core/Result.antt =====
-- browserd/core/browser_result.h: the statuses and results that the controller answers with.
use browserd.Shared.{String, Bool, true, false, Option}

-- `BrowserStatusCode`
pub data StatusCode : Type 0 where
  ok : StatusCode
  invalid_argument : StatusCode
  session_not_ready : StatusCode
  tab_not_found : StatusCode
  no_active_frame : StatusCode
  navigation_failed : StatusCode
  screenshot_failed : StatusCode
  internal_error : StatusCode
  timeout : StatusCode
  not_found : StatusCode

pub record BrowserStatus : Type 0 where
  pub code : StatusCode
  pub message : String

abbrev pub is_ok : StatusCode → Bool
is_ok ok = true
is_ok c = false

abbrev pub is_not_found : StatusCode → Bool
is_not_found not_found = true
is_not_found c = false

-- The fields of a `CookieInfo` that the tools show.
pub record CookieInfo : Type 0 where
  pub name : String
  pub value : String
  pub domain : String
  pub path : String
  pub secure : Bool
  pub http_only : Bool

-- A `BrowserResult` that is ok has a value.
pub data BrowserResult (A : Type 0) : Type 0 where
  success : A → BrowserResult A
  failure : StatusCode → String → BrowserResult A

-- `BrowserStatus::Ok` and `BrowserStatus::Error`
abbrev pub ok_status : BrowserStatus
ok_status = record { code = ok; message = "" }

abbrev pub error_status : StatusCode → String → BrowserStatus
error_status c s = record { code = c; message = s }

pub record CookieSetOptions : Type 0 where
  pub name : String
  pub value : String
  pub domain : Option String
  pub path : Option String
  pub url : Option String
  pub secure : Bool
  pub http_only : Bool

pub record CookieDeleteOptions : Type 0 where
  pub name : String
  pub url : Option String
  pub domain : Option String
