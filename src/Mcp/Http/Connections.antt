-- ===== src/Mcp/Http/Connections.antt =====
-- mcp_http_transport.cc over histories: which connections get responses.
use browserd.Shared.{
  ℕ, String, ◌≡◌, ◌≢◌, ◌⊎◌, inl, inr, refl, true, false, not, ◌||◌, ◌&&◌, none, some, List, [], ◌∷◌,
  ◌++◌, Text, All, arith, sym, ap, ◌∙◌, Bool-cases, Option-cases, eqb, false≢true, if◌then◌else◌,
}
use browserd.Platform.Json.{Json}
use browserd.Platform.Strings.{Strings}
use browserd.Mcp.Http
use browserd.Mcp.Http.{contains}
use browserd.Mcp.Http.Requests

contains-insert :
    (x y : ℕ) (xs : List ℕ) → contains (Http.insert y xs) x ≡ (eqb y x || contains xs x)
unfolding Http.insert
contains-insert x y xs = ground (arith)

contains-erase :
    (x y : ℕ) (xs : List ℕ) → contains (Http.erase y xs) x ≡ (not (eqb y x) && contains xs x)
unfolding Http.erase
contains-erase x y [] = ground arith
contains-erase x y (z ∷ xs) = ground (arith, contains-erase x y xs)

module _ (S : Strings) (J : Json) (C : Http.Codec J) where
  open J use {Dict}

  abbrev Transport : Type 0
  Transport = Http.HttpTransport S J C

  -- At most one more response, to an open connection, and one that no cache may keep.
  pub record Delivers (s s' : Transport) : Type 0 where
    pub delivers :
        (s'.sent ≡ s.sent)
        ⊎ ((r : Http.Response) × (s'.sent ≡ s.sent ++ r ∷ [])
            × (contains s.open_connections r.connection_id ≡ true)
            × Requests.IsUncached S J C r.headers)

  Responds-Delivers :
      (s s' : Transport) (c : ℕ) (code : Http.Status)
      → Requests.Responds S J C s c code s'
      → Delivers s s'
  Responds-Delivers s s' c code h = elim (Bool-cases (contains s.open_connections c)) [
    | inl live ↦
        let (r, sent, own, status, uncached) = h.open_case live in
        record { delivers = inr (r, sent, ap (contains s.open_connections) own ∙ live, uncached) }
    | inr gone ↦ record { delivers = inl (h.closed_case gone) }
  ]

  responds :
      (s : Transport) (c : ℕ) (code : Http.Status) (body : Text) (content_type : String)
      → Delivers s
          (Http.respond S J C s c code (("Cache-Control", "no-store") ∷ []) body content_type)
  responds s c code body content_type =
      Responds-Delivers s _ c code
        (Requests.respond-Responds S J C s c code _ body content_type (inl (refl, refl)))

  -- Whatever happens on the HTTP thread, a response goes to a connection that is open then, and tells
  -- caches not to store it.
  pub step-Delivers : (s : Transport) (e : Http.HttpEvent S J C) → Delivers s (Http.step S J C s e)
  unfolding Http.step
  step-Delivers s (Http.connect c) = record { delivers = inl refl }
  step-Delivers s (Http.close c) = record { delivers = inl refl }
  step-Delivers s (Http.request c info) = elim (Requests.on_http_request_cases S J C s c info) [
    | inl (code, _, h) ↦ Responds-Delivers s _ c code h
    | inr (m, _, same) ↦ record { delivers = inl (ap (λ (t : Transport). t.sent) same) }
  ]
  step-Delivers s (Http.web_socket_request c info) = responds s c _ _ _
  step-Delivers s (Http.web_socket_message c message) = responds s c _ _ _
  step-Delivers s (Http.mcp_response c none) = responds s c _ _ _
  step-Delivers s (Http.mcp_response c (some response)) = elim (Option-cases (C.write response)) [
    | inl failed ↦ rw (failed, Http.send_mcp_response) (responds s c _ _ _)
    | inr (json, written) ↦ rw (written, Http.send_mcp_response) (responds s c _ _ _)
  ]
  step-Delivers s Http.stop = record { delivers = inl refl }

  abbrev pub IsNoConnect : ℕ → Http.HttpEvent S J C → Type 0
  IsNoConnect c (Http.connect d) = d ≢ c
  IsNoConnect c _ = Unit

  -- A connection that is not open stays so until it connects.
  step-closed :
      (s : Transport) (e : Http.HttpEvent S J C) (c : ℕ)
      → IsNoConnect c e
      → contains s.open_connections c ≡ false
      → contains (Http.step S J C s e).open_connections c ≡ false
  unfolding Http.step
  step-closed s (Http.connect d) c h gone = ground (arith, contains-insert c d s.open_connections)
  step-closed s (Http.close d) c h gone = ground (arith, contains-erase c d s.open_connections)
  step-closed s (Http.request d info) c h gone =
      elim (Requests.on_http_request_cases S J C s d info) [
        | inl (code, _, k) ↦ ap (λ l. contains l c) k.connections ∙ gone
        | inr (m, _, same) ↦ ap (λ (t : Transport). contains t.open_connections c) same ∙ gone
      ]
  step-closed s (Http.web_socket_request d info) c h gone = ground arith
  step-closed s (Http.web_socket_message d message) c h gone = ground arith
  step-closed s (Http.mcp_response d none) c h gone = ground arith
  step-closed s (Http.mcp_response d (some response)) c h gone = ground arith
  step-closed s Http.stop c h gone = refl

  -- The responses that one connection got.
  abbrev pub to_connection : ℕ → List Http.Response → List Http.Response
  to_connection c [] = []
  to_connection c (r ∷ rs) =
      if eqb r.connection_id c then r ∷ to_connection c rs else to_connection c rs

  to_connection-append :
      (c : ℕ) (rs : List Http.Response) (r : Http.Response)
      → r.connection_id ≢ c
      → to_connection c (rs ++ r ∷ []) ≡ to_connection c rs
  to_connection-append c [] r h = ground arith
  to_connection-append c (x ∷ rs) r h = ground (arith, to_connection-append c rs r h)

  step-to_connection :
      (s s' : Transport) (c : ℕ)
      → contains s.open_connections c ≡ false
      → Delivers s s'
      → to_connection c s'.sent ≡ to_connection c s.sent
  step-to_connection s s' c gone d = elim d.delivers [
    | inl same ↦ ap (to_connection c) same
    | inr (r, sent, live, _) ↦
        ap (to_connection c) sent
        ∙ to_connection-append c s.sent r
            (λ e. false≢true (sym gone ∙ ap (contains s.open_connections) (sym e) ∙ live))
  ]

  -- Once a connection is closed, and until it connects again, it gets no response, also not for a
  -- request of its that the main thread answers later.
  pub run-to_connection :
      (s : Transport) (es : List (Http.HttpEvent S J C)) (c : ℕ)
      → contains s.open_connections c ≡ false
      → All (IsNoConnect c) es
      → to_connection c (Http.run S J C s es).sent ≡ to_connection c s.sent
  unfolding Http.run
  run-to_connection s [] c gone h = refl
  run-to_connection s (e ∷ es) c gone (h, hs) =
      run-to_connection (Http.step S J C s e) es c (step-closed s e c h gone) hs
      ∙ step-to_connection s _ c gone (step-Delivers s e)
