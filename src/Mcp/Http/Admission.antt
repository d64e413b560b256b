-- ===== src/Mcp/Http/Admission.antt =====
-- mcp_http_transport.cc: the checks of a request, as conditions on its headers.
use browserd.Shared.{
  some, subst, ℕ, ◌≡◌, ◌≢◌, ◌↔◌, ◌⊎◌, inl, inr, refl, sym, ap, ◌∙◌, Bool, true, false, ◌&&◌, List,
  [], ◌∷◌, ◌++◌, map, Text, codes, text_eq_iff, eqb, eqb_iff, is_empty, All, if_elim, if◌then◌else◌,
  both_of_and, if_true, if_false, false≢true, or_iff, or_iff3,
}
use browserd.Platform.Json.{Json}
use browserd.Platform.Strings.{Strings, lower}
use browserd.Mcp.Http
use browserd.Mcp.Http.Access.{HasToken, is_authorized_iff}
use browserd.Mcp.Http.Requests
use mathlib.Core.List.Memᴰ
use mathlib.Core.List.{Memᴰ}

-- The same text, but for the case of its ASCII letters.
abbrev pub SameLetters : Text → Text → Type 0
SameLetters a b = map lower a ≡ map lower b

-- `m` is the media type of an item of a header: what stands before its first semicolon, trimmed, or the
-- whole item where it has none.
abbrev pub IsMediaType : Strings → Text → Text → Type 0
IsMediaType S item m =
    (All (λ c. c ≢ b';') item × (m ≡ item))
    ⊎ ((name : Text) × (parameters : Text) × (item ≡ name ++ b';' ∷ parameters)
        × All (λ c. c ≢ b';') name
        × (m ≡ S.trim name))

abbrev Cut : Text → Text × Bool → Type 0
Cut s r =
    ((r.1 ≡ false) × All (λ c. c ≢ b';') s)
    ⊎ ((r.1 ≡ true)
        × ((parameters : Text) × (s ≡ r.0 ++ b';' ∷ parameters) × All (λ c. c ≢ b';') r.0))

ne_of_test : (c : ℕ) → eqb c b';' ≡ false → c ≢ b';'
ne_of_test c e k = false≢true (sym e ∙ (eqb_iff c b';').1 k)

module _ (S : Strings) where
  before_semicolon-Cut : (s : Text) → Cut s (Http.before_semicolon S s)
  unfolding Http.before_semicolon
  before_semicolon-Cut [] = inl (refl, tt)
  before_semicolon-Cut (c ∷ s) =
      if_elim (Cut (c ∷ s)) (eqb c b';')
        (λ e. inr (refl, (s, ap (λ x. x ∷ s) ((eqb_iff c b';').0 e), tt)))
        (λ e. elim (before_semicolon-Cut s) [
          | inl (cut, free) ↦ inl (cut, (ne_of_test c e, free))
          | inr (cut, rest) ↦ inr (cut, (rest.0, ap (λ l. c ∷ l) rest.1, (ne_of_test c e, rest.2)))
        ])

  media_type_of-IsMediaType : (item : Text) → IsMediaType S item (Http.media_type_of S item)
  unfolding Http.media_type_of
  media_type_of-IsMediaType item = elim (before_semicolon-Cut item) [
    | inl (whole, free) ↦ inl (free, if_false _ _ _ whole)
    | inr (cut, rest) ↦
        inr ((Http.before_semicolon S item).0, rest.0, rest.1, rest.2, if_true _ _ _ cut)
  ]

  before_semicolon-whole :
      (s : Text) → All (λ c. c ≢ b';') s → (Http.before_semicolon S s).1 ≡ false
  unfolding Http.before_semicolon
  before_semicolon-whole [] free = refl
  before_semicolon-whole (c ∷ s) free =
      if_elim (λ (r : Text × Bool). r.1 ≡ false) (eqb c b';')
        (λ e. absurd (free.0 ((eqb_iff c b';').0 e))) (λ e. before_semicolon-whole s free.1)

  before_semicolon-name :
      (name rest : Text)
      → All (λ c. c ≢ b';') name
      → Http.before_semicolon S (name ++ b';' ∷ rest) ≡ (name, true)
  unfolding Http.before_semicolon
  before_semicolon-name [] rest free = refl
  before_semicolon-name (c ∷ name) rest free =
      if_elim (λ (r : Text × Bool). r ≡ (c ∷ name, true)) (eqb c b';')
        (λ e. absurd (free.0 ((eqb_iff c b';').0 e)))
        (λ e. ap (λ (r : Text × Bool). (c ∷ r.0, r.1)) (before_semicolon-name name rest free.1))

  media_type_of_unique : (item m : Text) → IsMediaType S item m → Http.media_type_of S item ≡ m
  unfolding Http.media_type_of
  media_type_of_unique item m (inl (free, same)) =
      if_false _ _ _ (before_semicolon-whole item free) ∙ sym same
  media_type_of_unique item m (inr (name, rest, split, free, same)) =
      let cut : Http.before_semicolon S item ≡ (name, true) =
        ap (Http.before_semicolon S) split ∙ before_semicolon-name name rest free in
      if_true _ _ _ (ap (λ (r : Text × Bool). r.1) cut)
      ∙ ap (λ (r : Text × Bool). S.trim r.0) cut
      ∙ sym same

  -- The media types that stand for JSON.
  abbrev pub TakesJson : Text → Type 0
  TakesJson m =
      SameLetters m (codes "application/json")
      ⊎ SameLetters m (codes "*/*")
      ⊎ SameLetters m (codes "application/*")

  matches_iff :
      (item : Text)
      → (Http.matches_mime_type S item (codes "application/json") ≡ true)
        ↔ TakesJson (Http.media_type_of S item)
  unfolding Http.matches_mime_type
  matches_iff item =
      let m = Http.media_type_of S item in
      or_iff3 _ _ _ (S.equals_ci_iff m (codes "application/json")) (S.equals_ci_iff m (codes "*/*"))
        (S.equals_ci_iff m (codes "application/*"))

  -- The Accept header asks for JSON: one of its items has such a media type.
  abbrev pub AsksForJson : Text → Type 0
  AsksForJson header =
      (item : Text) × (m : Text) × Memᴰ item (S.split header) × IsMediaType S item m × TakesJson m

  any_matches_iff :
      (items : List Text)
      → (Http.any_matches S items (codes "application/json") ≡ true)
        ↔ ((item : Text) × (m : Text) × Memᴰ item items × IsMediaType S item m × TakesJson m)
  unfolding Http.any_matches
  any_matches_iff [] = ((λ e. cc), (λ h. absurd (Memᴰ.not-nil h.2)))
  any_matches_iff (x ∷ items) = (
    λ e. elim ((or_iff _ _ (matches_iff x) (any_matches_iff items)).0 e) [
      | inl json ↦ (x, Http.media_type_of S x, Memᴰ.head refl, media_type_of-IsMediaType x, json)
      | inr h ↦ (h.0, h.1, Memᴰ.tail h.2, h.3, h.4)
    ],
    λ h. (or_iff _ _ (matches_iff x) (any_matches_iff items)).1 (elim (Memᴰ.cases_cons h.2) [
      | inl here ↦ inl (
          subst TakesJson
            (sym (ap (Http.media_type_of S) (sym here) ∙ media_type_of_unique h.0 h.1 h.3)) h.4)
      | inr later ↦ inr (h.0, h.1, later, h.3, h.4)
    ]),
  )

  -- A host of the machine itself.
  abbrev pub IsLoopback : Text → Type 0
  IsLoopback host =
      (host ≡ codes "127.0.0.1") ⊎ (host ≡ codes "::1") ⊎ SameLetters host (codes "localhost")

  is_loopback_origin_host_iff :
      (host : Text) → (Http.is_loopback_origin_host S host ≡ true) ↔ IsLoopback host
  unfolding Http.is_loopback_origin_host
  is_loopback_origin_host_iff host =
      or_iff3 _ _ _ (text_eq_iff host (codes "127.0.0.1")) (text_eq_iff host (codes "::1"))
        (S.equals_ci_iff host (codes "localhost"))

  module _ (J : Json) (C : Http.Codec J) where
    -- There is no Origin header, or it is a valid URL of a host of the machine itself.
    abbrev pub HasLocalOrigin : Http.RequestInfo → Type 0
    HasLocalOrigin info =
        (info.header "origin" ≡ [])
        ⊎ ((C.url_is_valid (info.header "origin") ≡ true)
            × IsLoopback (C.url_host (info.header "origin")))

    is_allowed_origin_iff :
        (info : Http.RequestInfo) → (Http.is_allowed_origin S J C info ≡ true) ↔ HasLocalOrigin info
    unfolding Http.is_allowed_origin
    is_allowed_origin_iff info = origin_iff (info.header "origin")
      where
        origin_iff :
            (origin : Text)
            → ((if is_empty origin
                  then true
                  else C.url_is_valid origin && Http.is_loopback_origin_host S (C.url_host origin))
                ≡ true)
              ↔ ((origin ≡ []) ⊎ ((C.url_is_valid origin ≡ true) × IsLoopback (C.url_host origin)))
        origin_iff [] = ((λ e. inl refl), (λ h. refl))
        origin_iff (c ∷ s) = (
          λ e.
              let both = both_of_and _ _ e in
              inr (both.0, (is_loopback_origin_host_iff _).0 both.1),
          λ h. elim h [ inl e ↦ cc | inr v ↦ rw (v.0, (is_loopback_origin_host_iff _).1 v.1) refl ],
        )

    -- What a request must be for its message to be handed on: a POST to /mcp from the machine itself or
    -- from no page, with the server's token, that asks for JSON, and whose body is the message.
    pub record IsAdmitted (token : Text) (info : Http.RequestInfo) (m : J.Dict) : Type 0 where
      pub path : info.path ≡ "/mcp"
      pub origin : HasLocalOrigin info
      pub authorization : HasToken S J C token info
      pub method : info.method ≡ "POST"
      pub accept : AsksForJson (info.header "accept")
      pub json : C.read_dict info.body ≡ some m

    -- A message is posted, for the request's own connection, exactly when the request is a POST to /mcp
    -- with no Origin header or one of the machine itself, with "Bearer " and the server's token as its
    -- authorization, with an Accept header that has JSON or a wildcard for it among its media types, and
    -- with a body that is this message.
    pub on_http_request-admits_iff :
        (s : Http.HttpTransport S J C) (c : ℕ) (info : Http.RequestInfo) (m : J.Dict)
        → ((Http.on_http_request S J C s c info).posted ≡ s.posted ++ (m, c) ∷ [])
          ↔ IsAdmitted s.token info m
    unfolding Http.accepts_json Http.header_contains_mime_type
    on_http_request-admits_iff s c info m =
        let posts = Requests.on_http_request-posts_iff S J C s c info m in
        (
          λ e.
              let v = posts.0 e in
              record {
                path = v.path;
                origin = (is_allowed_origin_iff info).0 v.origin;
                authorization = (is_authorized_iff S J C s info).0 v.token;
                method = v.method;
                accept = (any_matches_iff (S.split (info.header "accept"))).0 v.accept;
                json = v.json;
              },
          λ a. posts.1 (record {
            path = a.path;
            origin = (is_allowed_origin_iff info).1 a.origin;
            token = (is_authorized_iff S J C s info).1 a.authorization;
            method = a.method;
            accept = (any_matches_iff (S.split (info.header "accept"))).1 a.accept;
            json = a.json;
          }),
        )
