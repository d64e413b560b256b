-- ===== src/Platform/Urls.antt =====
-- The part of Chromium's url/gurl.h that browserd uses: `GURL`.
use browserd.Shared.{String, Bool, true, ◌≡◌, ◌≢◌}

-- `same` is `operator==`, that compares specs; `is_http_or_https` is `SchemeIsHTTPOrHTTPS`.
pub record Urls : Type 1 where
  pub Url : Type 0
  pub of_string : String → Url
  pub spec : Url → String
  pub is_valid : Url → Bool
  pub is_http_or_https : Url → Bool
  pub host : Url → String
  pub same : Url → Url → Bool
  pub same-refl : (u : Url) → same u u ≡ true
  pub same-spec : (u v : Url) → same u v ≡ true → spec u ≡ spec v
  pub http-not_blank : (u : Url) → is_http_or_https u ≡ true → spec u ≢ "about:blank"
