-- ===== src/Mcp/Http/Requests.antt =====
-- mcp_http_transport.cc: what becomes of a request.
use browserd.Shared.{
  ℕ, String, ◌≡◌, ◌≢◌, ◌↔◌, ◌⊎◌, inl, inr, refl, true, false, not, Option, none, some, List, [],
  ◌∷◌, ◌++◌, Text, codes, length, length-append, arith, sym, ap, subst, some-injective, ◌∙◌,
  false≢true, ◌==◌, if_elim, of_not-true, of_not-false, ne_of_not, eq_of_not,
}
use browserd.Platform.Json.{Json}
use browserd.Platform.Strings.{Strings}
use browserd.Mcp.Http
use browserd.Mcp.Http.{contains}

append-ne_self {ℓ} : {A : Type ℓ} (xs : List A) (x : A) → xs ≡ xs ++ x ∷ [] → ⊥
append-ne_self xs x e = absurd (omega (arith, ap (λ l. length l) e, length-append xs (x ∷ [])))

last-injective {ℓ} : {A : Type ℓ} (xs : List A) {x y : A} → xs ++ x ∷ [] ≡ xs ++ y ∷ [] → x ≡ y
last-injective [] e = ground (arith)
last-injective (z ∷ xs) e = last-injective xs (ground (arith))

module _ (S : Strings) (J : Json) (C : Http.Codec J) where
  open J use {Dict}

  abbrev pub Transport : Type 0
  Transport = Http.HttpTransport S J C

  -- All that the transport asks of a request before it hands the message on.
  pub record IsServed (s : Transport) (info : Http.RequestInfo) (m : Dict) : Type 0 where
    pub path : info.path ≡ "/mcp"
    pub origin : Http.is_allowed_origin S J C info ≡ true
    pub token : Http.is_authorized S J C s info ≡ true
    pub method : info.method ≡ "POST"
    pub accept : Http.accepts_json S J C info ≡ true
    pub json : C.read_dict info.body ≡ some m

  -- One of the headers has this name and value.
  abbrev pub HasHeader : String → String → List (String × String) → Type 0
  HasHeader name value [] = ⊥
  HasHeader name value ((n, v) ∷ headers) =
      ((n ≡ name) × (v ≡ value)) ⊎ HasHeader name value headers

  abbrev pub IsUncached : List (String × String) → Type 0
  IsUncached = HasHeader "Cache-Control" "no-store"

  -- One more response, to this connection, if it is still open.
  pub record Responds (s : Transport) (c : ℕ) (code : Http.Status) (s' : Transport) : Type 0 where
    pub open_case :
        contains s.open_connections c ≡ true
        → (r : Http.Response) × (s'.sent ≡ s.sent ++ r ∷ [])
          × (r.connection_id ≡ c)
          × (r.status ≡ code)
          × IsUncached r.headers
    pub closed_case : contains s.open_connections c ≡ false → s'.sent ≡ s.sent
    pub posted : s'.posted ≡ s.posted
    pub connections : s'.open_connections ≡ s.open_connections
    pub token : s'.token ≡ s.token

  -- The checks before this one pass, and this one fails; no other status is a refusal.
  abbrev pub Refuses : Transport → Http.RequestInfo → Http.Status → Type 0
  Refuses s info Http.not_found = info.path ≢ "/mcp"
  Refuses s info Http.forbidden = (info.path ≡ "/mcp") × (Http.is_allowed_origin S J C info ≡ false)
  Refuses s info Http.unauthorized =
      (info.path ≡ "/mcp")
      × (Http.is_allowed_origin S J C info ≡ true)
      × (Http.is_authorized S J C s info ≡ false)
  Refuses s info Http.method_not_allowed =
      (info.path ≡ "/mcp")
      × (Http.is_allowed_origin S J C info ≡ true)
      × (Http.is_authorized S J C s info ≡ true)
      × (info.method ≢ "POST")
  Refuses s info Http.not_acceptable =
      (info.path ≡ "/mcp")
      × (Http.is_allowed_origin S J C info ≡ true)
      × (Http.is_authorized S J C s info ≡ true)
      × (info.method ≡ "POST")
      × (Http.accepts_json S J C info ≡ false)
  Refuses s info Http.bad_request =
      (info.path ≡ "/mcp")
      × (Http.is_allowed_origin S J C info ≡ true)
      × (Http.is_authorized S J C s info ≡ true)
      × (info.method ≡ "POST")
      × (Http.accepts_json S J C info ≡ true)
      × (C.read_dict info.body ≡ none)
  Refuses s info _ = ⊥

  abbrev pub post : Transport → Dict → ℕ → Transport
  post s m c = record s { posted = s.posted ++ (m, c) ∷ [] }

  pub respond-Responds :
      (s : Transport) (c : ℕ) (code : Http.Status) (headers : List (String × String)) (body : Text)
      (content_type : String)
      → IsUncached headers
      → Responds s c code (Http.respond S J C s c code headers body content_type)
  respond-Responds s c code headers body content_type h =
      if_elim (Responds s c code) (contains s.open_connections c)
        (λ live. record {
          open_case = λ e. (_, refl, refl, refl, h);
          closed_case = λ e. absurd (false≢true (sym e ∙ live));
          posted = refl;
          connections = refl;
          token = refl;
        })
        (λ gone. record {
          open_case = λ e. absurd (false≢true (sym gone ∙ e));
          closed_case = λ e. refl;
          posted = refl;
          connections = refl;
          token = refl;
        })

  abbrev pub Outcome : Transport → ℕ → Http.RequestInfo → Transport → Type 0
  Outcome s c info s' =
      ((code : Http.Status) × Refuses s info code × Responds s c code s')
      ⊎ ((m : Dict) × IsServed s info m × (s' ≡ post s m c))

  -- A request is answered with the status of the first check that it fails, in the order path, origin,
  -- token, method, Accept header, JSON body; one that passes them all is posted to the main thread, and
  -- nothing else is.
  pub on_http_request_cases :
      (s : Transport) (c : ℕ) (info : Http.RequestInfo)
      → Outcome s c info (Http.on_http_request S J C s c info)
  unfolding Http.on_http_request
  on_http_request_cases s c info =
      if_elim P (not (info.path == "/mcp"))
        (λ p.
          inl (Http.not_found, ne_of_not _ _ p, respond-Responds s c _ _ _ _ (inl (refl, refl))))
        λ p.
          let path = eq_of_not _ _ p in
          if_elim P (not (Http.is_allowed_origin S J C info))
            (λ o. inl (
              Http.forbidden,
              (path, of_not-true _ o),
              respond-Responds s c _ _ _ _ (inl (refl, refl)),
            ))
            λ o.
              let origin = of_not-false _ o in
              if_elim P (not (Http.is_authorized S J C s info))
                (λ t. inl (
                  Http.unauthorized,
                  (path, origin, of_not-true _ t),
                  respond-Responds s c _ _ _ _ (inr (inl (refl, refl))),
                ))
                λ t.
                  let token = of_not-false _ t in
                  if_elim P (not (info.method == "POST"))
                    (λ m. inl (
                      Http.method_not_allowed,
                      (path, origin, token, ne_of_not _ _ m),
                      respond-Responds s c _ _ _ _ (inr (inl (refl, refl))),
                    ))
                    λ m.
                      let method = eq_of_not _ _ m in
                      if_elim P (not (Http.accepts_json S J C info))
                        (λ a. inl (
                          Http.not_acceptable,
                          (path, origin, token, method, of_not-true _ a),
                          respond-Responds s c _ _ _ _ (inl (refl, refl)),
                        ))
                        λ a.
                          parsed (path, origin, token, method, of_not-false _ a)
                            (C.read_dict info.body) refl
    where
      P : Transport → Type 0
      P = Outcome s c info

      parsed :
          (info.path ≡ "/mcp")
            × (Http.is_allowed_origin S J C info ≡ true)
            × (Http.is_authorized S J C s info ≡ true)
            × (info.method ≡ "POST")
            × (Http.accepts_json S J C info ≡ true)
          → (o : Option Dict) → C.read_dict info.body ≡ o
          → P (elim o [
            | none ↦
                Http.send_text_response S J C s c Http.bad_request
                  (codes "Invalid JSON")
                  (Http.plain S J C)
            | some m ↦ post s m c
          ])
      parsed k none e = inl (
        Http.bad_request,
        (k.0, k.1, k.2, k.3, k.4, e),
        respond-Responds s c _ _ _ _ (inl (refl, refl)),
      )
      parsed k (some m) e = inr (
        m,
        record { path = k.0; origin = k.1; token = k.2; method = k.3; accept = k.4; json = e },
        refl,
      )

  Refuses-not_served :
      (s : Transport) (info : Http.RequestInfo) (code : Http.Status) (m : Dict)
      → IsServed s info m
      → Refuses s info code
      → ⊥
  Refuses-not_served s info Http.not_found m v r = r v.path
  Refuses-not_served s info Http.forbidden m v r = false≢true (sym r.1 ∙ v.origin)
  Refuses-not_served s info Http.unauthorized m v r = false≢true (sym r.2 ∙ v.token)
  Refuses-not_served s info Http.method_not_allowed m v r = r.3 v.method
  Refuses-not_served s info Http.not_acceptable m v r = false≢true (sym r.4 ∙ v.accept)
  Refuses-not_served s info Http.bad_request m v r = cc (r.5, v.json)
  Refuses-not_served s info Http.ok m v r = r
  Refuses-not_served s info Http.accepted m v r = r
  Refuses-not_served s info Http.internal_server_error m v r = r

  -- A message is posted, for the request's own connection, exactly when the request passes every check
  -- and the message is what its body holds.
  pub on_http_request-posts_iff :
      (s : Transport) (c : ℕ) (info : Http.RequestInfo) (m : Dict)
      → ((Http.on_http_request S J C s c info).posted ≡ s.posted ++ (m, c) ∷ []) ↔ IsServed s info m
  on_http_request-posts_iff s c info m = (
    λ e. elim (on_http_request_cases s c info) [
      | inl (code, refuses, responds) ↦ absurd (append-ne_self _ _ (sym responds.posted ∙ e))
      | inr (m', v, same) ↦
          let last : m' ≡ m =
            ap (λ p. p.0)
              (last-injective s.posted (sym (ap (λ (t : Transport). t.posted) same) ∙ e)) in
          subst (IsServed s info) last v
    ],
    λ v. elim (on_http_request_cases s c info) [
      | inl (code, refuses, responds) ↦ absurd (Refuses-not_served s info code m v refuses)
      | inr (m', w, same) ↦
          let eq : m' ≡ m = some-injective _ _ (sym w.json ∙ v.json) in
          ap (λ (t : Transport). t.posted) same ∙ ap (λ m. s.posted ++ (m, c) ∷ []) eq
    ],
  )
