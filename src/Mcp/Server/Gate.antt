-- ===== src/Mcp/Server/Gate.antt =====
-- mcp_server.cc: the initialization handshake.
use browserd.Shared.{
  ℕ, String, ◌≡◌, ◌≢◌, false, Option, none, some, List, [], ◌∷◌, arith, All, inl, inr, Option-cases,
  eq_iff, value_or, ap, ◌∙◌,
}
use browserd.Platform.Json.{Json, find_string, find_dict}
use browserd.Mcp.Server

module _ (J : Json) where
  open J use {Value, Dict, find}

  -- Neither of the two messages that open the server.
  abbrev pub IsNoGreeting : Server.Event J → Type 0
  IsNoGreeting (Server.message m reply_to) =
      (find_string J m "method" ≢ some "initialize")
      × (find_string J m "method" ≢ some "notifications/initialized")
  IsNoGreeting (Server.complete i content is_error) = Unit
  IsNoGreeting Server.closed = Unit

  pub record IsIdle (s : Server.Server J) : Type 0 where
    pub uninitialized : s.initialized ≡ false
    pub nothing_queued : s.tool_call_queue ≡ []
    pub nothing_running : s.running ≡ []

  dispatch-IsIdle :
      (s : Server.Server J) (method : String) (params : Dict) (id : Option Value) (reply_to : ℕ)
      → method ≢ "initialize"
      → method ≢ "notifications/initialized"
      → IsIdle s
      → IsIdle (Server.dispatch J s method params id reply_to)
  unfolding Server.dispatch Server.send_error Server.send_result Server.send_no_response
  dispatch-IsIdle s method params none reply_to a b v =
      ground (arith, eq_iff method "initialize", eq_iff method "notifications/initialized")
  dispatch-IsIdle s method params (some id) reply_to a b v =
      ground (arith, eq_iff method "initialize", eq_iff method "notifications/initialized")

  step-IsIdle :
      (s : Server.Server J) (e : Server.Event J)
      → IsNoGreeting e
      → IsIdle s
      → IsIdle (Server.step J s e)
  unfolding Server.step Server.on_message Server.on_transport_closed Server.send_error
  step-IsIdle s (Server.message m reply_to) (a, b) v =
      elim (Option-cases (find_string J m "method")) [
        | inl unnamed ↦ ground arith
        | inr (method, named) ↦
            rw (named, Server.on_message)
              (dispatch-IsIdle s method (value_or (find_dict J m "params") J.empty) (find m "id")
                reply_to (λ e. a (named ∙ ap some e)) (λ e. b (named ∙ ap some e)) v)
      ]
  step-IsIdle s (Server.complete i content is_error) h v = ground arith
  step-IsIdle s Server.closed h v = ground arith

  -- From a server that is not initialized and has no call waiting or running: until a message has the
  -- method `initialize` or `notifications/initialized`, no tool call is queued or started and the
  -- server stays uninitialized, whatever else arrives.
  pub run-IsIdle :
      (s : Server.Server J) (es : List (Server.Event J))
      → All IsNoGreeting es
      → IsIdle s
      → IsIdle (Server.run J s es)
  unfolding Server.run
  run-IsIdle s [] h v = v
  run-IsIdle s (e ∷ es) (h, hs) v = run-IsIdle (Server.step J s e) es hs (step-IsIdle s e h v)
