-- ===== src/Mcp/Tools/Cookies/Answers.antt =====
-- browserd/mcp/tools/cookie_tools.cc: the options that a call sets, and which answers are errors.
use browserd.Shared.{
  false, value_or, some-injective, sym, ap, subst, ◌≡◌, ◌≢◌, ◌↔◌, refl, Bool, true, not, ◌&&◌,
  Option, none, some, String, concat, if◌then◌else◌, if_elim, Option-cases, inl, inr, ◌==◌, arith,
}
use browserd.Platform.Json.{Json, find_string, find_bool}
use browserd.Core.Result
use browserd.Mcp.Tools.Cookies

fails_iff :
    (c : Result.StatusCode)
    → (not (Result.is_ok c) && not (Result.is_not_found c) ≡ true)
      ↔ ((c ≢ Result.ok) × (c ≢ Result.not_found))
fails_iff Result.ok = ((λ h. cc), (λ h. absurd (h.0 refl)))
fails_iff Result.not_found = ((λ h. cc), (λ h. absurd (h.1 refl)))
fails_iff c = ((λ _. ((λ e. cc), (λ e. cc))), (λ _. refl))

-- Deleting a cookie gives an error exactly when it fails for another reason than that there is none.
pub complete_delete-error_iff :
    (name : String) (status : Result.BrowserStatus)
    → ((Cookies.complete_delete name status).1 ≡ true)
      ↔ ((status.code ≢ Result.ok) × (status.code ≢ Result.not_found))
unfolding Cookies.complete_delete
complete_delete-error_iff name status = ground (arith, fails_iff status.code)

module _ (J : Json) (url_is_valid : String → Bool) where
  abbrev with_option : J.Dict → String → Option String → J.Dict
  with_option d k none = d
  with_option d k (some s) = J.set d k (J.of_string s)

  -- The arguments of a call that asks for these options.
  abbrev pub encode : Result.CookieSetOptions → J.Dict
  encode o =
      let named = J.set (J.set J.empty "name" (J.of_string o.name)) "value" (J.of_string o.value) in
      let d₁ = with_option named "domain" o.domain in
      let d₂ = with_option d₁ "path" o.path in
      let d₃ = with_option d₂ "url" o.url in
      J.set (J.set d₃ "secure" (J.of_bool o.secure)) "httpOnly" (J.of_bool o.http_only)

  find-with_option :
      (d : J.Dict) (k j : String) (o : Option String)
      → J.find (with_option d k o) j ≡ (
          if k == j
          then (elim o [ none ↦ J.find d j | some s ↦ some (J.of_string s) ])
          else J.find d j)
  find-with_option d k j none =
      if_elim (λ (x : Option J.Value). J.find d j ≡ x) (k == j) (λ _. refl) (λ _. refl)
  find-with_option d k j (some s) = J.find-set d k j (J.of_string s)

  module _ (o : Result.CookieSetOptions) where
    name_of : find_string J (encode o) "name" ≡ some o.name
    name_of = simp (J.find-set, find-with_option, J.as_string-of_string)

    value_of : find_string J (encode o) "value" ≡ some o.value
    value_of = simp (J.find-set, find-with_option, J.as_string-of_string)

    secure_of : find_bool J (encode o) "secure" ≡ some o.secure
    secure_of = simp (J.find-set, J.as_bool-of_bool)

    http_only_of : find_bool J (encode o) "httpOnly" ≡ some o.http_only
    http_only_of = simp (J.find-set, J.as_bool-of_bool)

    domain_of : find_string J (encode o) "domain" ≡ o.domain
    domain_of = elim (Option-cases o.domain) [
      | inl e ↦ simp (e, J.find-set, find-with_option, J.find-empty)
      | inr (s, e) ↦ simp (e, J.find-set, find-with_option, J.as_string-of_string)
    ]

    path_of : find_string J (encode o) "path" ≡ o.path
    path_of = elim (Option-cases o.path) [
      | inl e ↦ simp (e, J.find-set, find-with_option, J.find-empty)
      | inr (s, e) ↦ simp (e, J.find-set, find-with_option, J.as_string-of_string)
    ]

    url_of : find_string J (encode o) "url" ≡ o.url
    url_of = elim (Option-cases o.url) [
      | inl e ↦ simp (e, J.find-set, find-with_option, J.find-empty)
      | inr (s, e) ↦ simp (e, J.find-set, find-with_option, J.as_string-of_string)
    ]

    set_options-encode : Cookies.set_options J url_is_valid (encode o) o.name o.value ≡ o
    unfolding Cookies.set_options
    set_options-encode = rw (domain_of, path_of, url_of, secure_of, http_only_of) refl

  -- The arguments that `encode` writes ask for the options that they are written from.
  pub handle_cookie_set-encode :
      (o : Result.CookieSetOptions)
      → (k : Result.BrowserStatus → Cookies.Answer) × (Cookies.handle_cookie_set J url_is_valid
            (encode o)
          ≡ Cookies.set_cookie o k)
  unfolding Cookies.handle_cookie_set Cookies.set_options
  handle_cookie_set-encode o = (
    Cookies.complete_status (concat (concat "Cookie '" o.name) "' set"),
    rw (Cookies.handle_cookie_set, name_of o, value_of o, set_options-encode o) refl,
  )

  -- The arguments hold these options: a flag is set where its key has the value true, and not where the
  -- key is absent, false, or of another type.
  pub record Holds (args : J.Dict) (o : Result.CookieSetOptions) : Type 0 where
    pub name : find_string J args "name" ≡ some o.name
    pub value : find_string J args "value" ≡ some o.value
    pub domain : find_string J args "domain" ≡ o.domain
    pub path : find_string J args "path" ≡ o.path
    pub url : find_string J args "url" ≡ o.url
    pub secure : (o.secure ≡ true) ↔ (find_bool J args "secure" ≡ some true)
    pub http_only : (o.http_only ≡ true) ↔ (find_bool J args "httpOnly" ≡ some true)

  flag_iff : (f : Option Bool) → (value_or f false ≡ true) ↔ (f ≡ some true)
  flag_iff none = ((λ e. cc), (λ e. cc))
  flag_iff (some b) = (ap some, some-injective b true)

  flag_unique : (f : Option Bool) (b : Bool) → (b ≡ true) ↔ (f ≡ some true) → value_or f false ≡ b
  flag_unique none true h = cc (h.0 refl)
  flag_unique none false h = refl
  flag_unique (some true) b h = sym (h.1 refl)
  flag_unique (some false) true h = cc (h.0 refl)
  flag_unique (some false) false h = refl

  set_options-Holds :
      (args : J.Dict) (name value : String)
      → find_string J args "name" ≡ some name
      → find_string J args "value" ≡ some value
      → Holds args (Cookies.set_options J url_is_valid args name value)
  unfolding Cookies.set_options
  set_options-Holds args name value n v = record {
    name = n;
    value = v;
    domain = refl;
    path = refl;
    url = refl;
    secure = flag_iff (find_bool J args "secure");
    http_only = flag_iff (find_bool J args "httpOnly");
  }

  set_options_unique :
      (args : J.Dict) (o : Result.CookieSetOptions)
      → Holds args o
      → Cookies.set_options J url_is_valid args o.name o.value ≡ o
  unfolding Cookies.set_options
  set_options_unique args o h =
      rw
        (
          h.domain,
          h.path,
          h.url,
          flag_unique (find_bool J args "secure") o.secure h.secure,
          flag_unique (find_bool J args "httpOnly") o.http_only h.http_only,
        )
        refl

  abbrev asked_options : Cookies.Action → Option Result.CookieSetOptions
  asked_options (Cookies.set_cookie o k) = some o
  asked_options a = none

  asked-Holds :
      (args : J.Dict) (o : Result.CookieSetOptions) (name value : Option String)
      → find_string J args "name" ≡ name
      → find_string J args "value" ≡ value
      → (k : String → Result.BrowserStatus → Cookies.Answer)
      → asked_options (
          Cookies.with_both J url_is_valid name value
            (λ n v. Cookies.set_cookie (Cookies.set_options J url_is_valid args n v) (k n)))
        ≡ some o
      → Holds args o
  asked-Holds args o none v hn hv k e = cc
  asked-Holds args o (some n) none hn hv k e = cc
  asked-Holds args o (some n) (some v) hn hv k e =
      subst (Holds args) (some-injective _ _ e) (set_options-Holds args n v hn hv)

  -- The controller is asked to set a cookie of these options exactly where the arguments hold them.
  pub handle_cookie_set-Holds_iff :
      (args : J.Dict) (o : Result.CookieSetOptions)
      → ((k : Result.BrowserStatus → Cookies.Answer) × (Cookies.handle_cookie_set J url_is_valid
              args
            ≡ Cookies.set_cookie o k))
        ↔ Holds args o
  unfolding Cookies.handle_cookie_set
  handle_cookie_set-Holds_iff args o = (
    λ asks. asked-Holds args o _ _ refl refl _ (ap asked_options asks.1),
    λ h. (
      Cookies.complete_status (concat (concat "Cookie '" o.name) "' set"),
      rw (Cookies.handle_cookie_set, h.name, h.value, set_options_unique args o h) refl,
    ),
  )
