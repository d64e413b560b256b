-- ===== src/Platform/Cookies.antt =====
-- The part of Chromium's cookie store that browserd uses: `net::CanonicalCookie`.
use browserd.Shared.{String, Bool, Option}

-- What `CreateSanitizedCookie` is given, but for the times and the constants.
pub record CookieParts (Url : Type 0) : Type 0 where
  pub source_url : Url
  pub name : String
  pub value : String
  pub domain : String
  pub path : String
  pub secure : Bool
  pub http_only : Bool

pub record CookieStore (Url : Type 0) : Type 1 where
  pub Cookie : Type 0
  pub name : Cookie → String
  pub value : Cookie → String
  pub domain : Cookie → String
  pub path : Cookie → String
  pub is_secure : Cookie → Bool
  pub is_http_only : Cookie → Bool
  pub create_sanitized_cookie : CookieParts Url → Option Cookie
