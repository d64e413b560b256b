-- ===== src/Platform/Samples/Pages.antt =====
-- URLs that are their own hosts, for the tests.
use browserd.Shared.{String, not, ◌==◌, eq_iff, eq_refl, ne_of_not}
use browserd.Platform.Urls.{Urls}

abbrev pub urls : Urls
urls = record {
  Url = String;
  of_string = λ s. s;
  spec = λ s. s;
  is_valid = λ s. not (s == "");
  is_http_or_https = λ s. not (s == "about:blank");
  host = λ s. s;
  same = λ s t. s == t;
  same-refl = λ s. eq_refl s;
  same-spec = λ s t h. (eq_iff s t).0 h;
  http-not_blank = λ s h. ne_of_not s "about:blank" h;
}
