-- ===== src/Mcp/Http/Access.antt =====
-- mcp_http_transport.cc: who may talk to the server, and where it listens.
use browserd.Shared.{
  of_not-false, if_elim, refl, not, ℕ, Bool, false, ◌≡◌, ◌↔◌, ◌⊎◌, refl, Bool, true, false, not,
  List, [], ◌∷◌, ◌++◌, map, Text, codes, text_eq, text_eq_iff, length, take, drop, arith,
  take-append-drop, sym, ap, subst, length-map, length-append, ◌≤◌, if◌then◌else◌, ◌∙◌,
}
use browserd.Platform.Json.{Json}
use browserd.Platform.Strings.{Strings, lower}
use browserd.Mcp.Http

take_append_eq {ℓ} : {A : Type ℓ} (p r : List A) → take (length p) (p ++ r) ≡ p
take_append_eq [] r = refl
take_append_eq (x ∷ p) r = ap (λ l. x ∷ l) (take_append_eq p r)

drop_append_eq {ℓ} : {A : Type ℓ} (p r : List A) → drop (length p) (p ++ r) ≡ r
drop_append_eq [] r = refl
drop_append_eq (x ∷ p) r = drop_append_eq p r

both_true : (b c : Bool) → (if not b then false else c) ≡ true → (b ≡ true) × (c ≡ true)
both_true true c h = (refl, h)
both_true false c h = cc

true_both : (b c : Bool) → b ≡ true → c ≡ true → (if not b then false else c) ≡ true
true_both b c hb hc = rw hb hc

module _ (S : Strings) where
  open S use {equals_ci, starts_with_ci, equals_ci_iff, starts_with_ci_iff}

  -- The four addresses that the server can listen on.
  abbrev pub IsListenAddress : Text → Type 0
  IsListenAddress a =
      (a ≡ codes "127.0.0.1") ⊎ (a ≡ codes "0.0.0.0") ⊎ (a ≡ codes "::1") ⊎ (a ≡ codes "::")

  -- A host that is let through is one of the four addresses when it has been normalised; nothing is
  -- left to a name lookup.
  pub normalize_listen_host-IsListenAddress :
      (host : Text)
      → Http.is_allowed_listen_host S host ≡ true
      → IsListenAddress (Http.normalize_listen_host S host)
  unfolding Http.is_allowed_listen_host Http.normalize_listen_host
  normalize_listen_host-IsListenAddress host h = ground (
    arith,
    text_eq_iff host (codes "127.0.0.1"),
    text_eq_iff host (codes "0.0.0.0"),
    text_eq_iff host (codes "::1"),
    text_eq_iff host (codes "::"),
  )

  module _ (J : Json) (C : Http.Codec J) where
    -- `Authorization` is a scheme that reads "Bearer " but for the case of its letters, then the token.
    abbrev pub HasToken : Text → Http.RequestInfo → Type 0
    HasToken token info =
        (scheme : Text) × (info.header "authorization" ≡ scheme ++ token)
        × (map lower scheme ≡ map lower (codes "Bearer "))

    -- A request is authorized exactly when it has the token.
    pub is_authorized_iff :
        (s : Http.HttpTransport S J C) (info : Http.RequestInfo)
        → (Http.is_authorized S J C s info ≡ true) ↔ HasToken s.token info
    unfolding Http.is_authorized
    is_authorized_iff s info = (
      λ h.
          let (starts, rest) =
            both_true (starts_with_ci auth prefix) (text_eq (drop 7 auth) s.token) h in
          (
            take 7 auth,
            sym (take-append-drop 7 auth)
                ∙ ap (λ l. take 7 auth ++ l) ((text_eq_iff (drop 7 auth) s.token).0 rest),
            ((starts_with_ci_iff auth prefix).0 starts).1,
          ),
      λ t.
          let seven : length t.0 ≡ 7 =
            sym (length-map t.0 lower) ∙ ap (λ (l : Text). length l) t.2 in
          let front : take 7 auth ≡ t.0 =
            ap (take 7) t.1
            ∙ subst (λ n. take n (t.0 ++ s.token) ≡ t.0) seven (take_append_eq t.0 s.token) in
          let back : drop 7 auth ≡ s.token =
            ap (drop 7) t.1
            ∙ subst (λ n. drop n (t.0 ++ s.token) ≡ s.token) seven (drop_append_eq t.0 s.token) in
          let long : 7 ≤ length auth =
            omega (arith, ap (λ (l : Text). length l) t.1, length-append t.0 s.token, seven) in
          true_both (starts_with_ci auth prefix) (text_eq (drop 7 auth) s.token)
            ((starts_with_ci_iff auth prefix).1 (long, ap (map lower) front ∙ t.2))
            ((text_eq_iff _ _).1 back),
    )
      where
        auth : Text
        auth = info.header "authorization"

        prefix : Text
        prefix = codes "Bearer "

    -- A transport that has started listens on one of the four addresses and holds the token.
    pub start-IsListenAddress :
        (listen : Text → ℕ → Bool) (thread_starts : Bool) (s : Http.HttpTransport S J C)
        (host : Text) (port : ℕ) (token : Text)
        → (Http.start S J C listen thread_starts s host port token).1 ≡ true
        → IsListenAddress (Http.normalize_listen_host S host)
          × (listen (Http.normalize_listen_host S host) port ≡ true)
          × ((Http.start S J C listen thread_starts s host port token).0.token ≡ token)
    unfolding Http.start Http.start_on_http_thread
    start-IsListenAddress listen thread_starts s host port token =
        if_elim Starts (not (Http.is_allowed_listen_host S host)) (λ _ e. cc)
          (λ allowed.
            if_elim Starts (not thread_starts) (λ _ e. cc)
              (λ _.
                if_elim Starts (not (listen (Http.normalize_listen_host S host) port)) (λ _ e. cc)
                  (λ listens e. (
                    normalize_listen_host-IsListenAddress host
                        (of_not-false (Http.is_allowed_listen_host S host) allowed),
                    of_not-false (listen (Http.normalize_listen_host S host) port) listens,
                    refl,
                  ))))
      where
        Starts : Http.HttpTransport S J C × Bool → Type 0
        Starts r =
            r.1 ≡ true
            → IsListenAddress (Http.normalize_listen_host S host)
              × (listen (Http.normalize_listen_host S host) port ≡ true)
              × (r.0.token ≡ token)
