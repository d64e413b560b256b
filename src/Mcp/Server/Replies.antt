-- ===== src/Mcp/Server/Replies.antt =====
-- mcp_server.cc: the form of the responses, and whose request each one answers.
use browserd.Shared.{
  ℕ, String, ◌≡◌, true, not, Option, none, some, List, [], ◌∷◌, All, All-append, inl, inr, ◌⊎◌,
  if_elim, ◌==◌, Option-cases,
}
use browserd.Platform.Json.{Json, ℤ, find_string}
use browserd.Mcp.Server

module _ (J : Json) where
  open J use {Value, Dict, find, find-set, find-empty, of_string, of_dict, of_int, set, empty}

  -- A JSON-RPC 2.0 response to the request `id`: it has a result or an error, and not both; an error has
  -- a code that is an integer and a message that is a string.
  pub record IsResponse (id : Value) (d : Dict) : Type 0 where
    pub version : find d "jsonrpc" ≡ some (of_string "2.0")
    pub request : find d "id" ≡ some id
    pub outcome :
        ((r : Dict) × (find d "result" ≡ some (of_dict r)) × (find d "error" ≡ none))
        ⊎ ((e : Dict) × (code : ℤ) × (message : String) × (find d "error" ≡ some (of_dict e))
            × (find e "code" ≡ some (of_int code))
            × (find e "message" ≡ some (of_string message))
            × (find d "result" ≡ none))

  result_response-IsResponse :
      (id : Value) (r : Dict) → IsResponse id (Server.result_response J id r)
  unfolding Server.result_response
  result_response-IsResponse id r = record {
    version = simp find-set;
    request = simp find-set;
    outcome = inl (r, simp find-set, simp (find-set, find-empty));
  }

  error_response-IsResponse :
      (id : Value) (code : ℤ) (message : String)
      → IsResponse id (Server.error_response J id code message)
  unfolding Server.error_response
  error_response-IsResponse id code message = record {
    version = simp find-set;
    request = simp find-set;
    outcome = inr (
      set (set empty "code" (of_int code)) "message" (of_string message),
      code,
      message,
      simp find-set,
      simp find-set,
      simp find-set,
      simp (find-set, find-empty),
    );
  }

  -- `ids` says which request each callback belongs to.
  module _ (ids : ℕ → Value) where
    -- No response, or one to the callback's own request.
    abbrev pub Answers : Server.Reply J → Type 0
    Answers r = elim r.response [ none ↦ Unit {0} | some d ↦ IsResponse (ids r.reply_to) d ]

    pub record Matched (s : Server.Server J) : Type 0 where
      pub sent : All Answers s.replies
      pub queued : All (λ (c : Server.PendingToolCall J). c.id ≡ ids c.reply_to) s.tool_call_queue
      pub held : All (λ (c : Server.RunningCall J). c.id ≡ ids c.reply_to) s.running

    pub callback-Matched :
        (s : Server.Server J) (reply_to : ℕ) (response : Option Dict)
        → Matched s
        → Answers (record { reply_to = reply_to; response = response })
        → Matched (Server.run_callback J s reply_to response)
    callback-Matched s reply_to response m a = record {
      sent = All-append Answers s.replies _ m.sent (a, tt);
      queued = m.queued;
      held = m.held;
    }

    abbrev pub Good : Value → ℕ → Type 0
    Good id reply_to = id ≡ ids reply_to

    pub result-Answers :
        (id : Value) (r : Dict) (reply_to : ℕ)
        → Good id reply_to
        → IsResponse (ids reply_to) (Server.result_response J id r)
    result-Answers id r reply_to e = rw (← e) (result_response-IsResponse id r)

    pub error-Answers :
        (id : Value) (code : ℤ) (message : String) (reply_to : ℕ)
        → Good id reply_to
        → IsResponse (ids reply_to) (Server.error_response J id code message)
    error-Answers id code message reply_to e = rw (← e) (error_response-IsResponse id code message)

    pub execute_queue-Matched :
        (s : Server.Server J) (q : List (Server.PendingToolCall J))
        → Matched s
        → All (λ (c : Server.PendingToolCall J). c.id ≡ ids c.reply_to) q
        → Matched (Server.execute_queue J s q)
    unfolding Server.execute_queue Server.send_tool_result Server.send_error Server.send_result
    execute_queue-Matched s [] m h = record { sent = m.sent; queued = tt; held = m.held }
    execute_queue-Matched s (call ∷ rest) m (e, h) =
        if_elim Matched (not s.has_controller)
          (λ _.
            execute_queue-Matched (Server.refuse_call J taken call) rest
              (callback-Matched taken call.reply_to _ still
                (result-Answers call.id _ call.reply_to e))
              h)
          λ _. found (Server.find_tool J s.tools call.name) (
            execute_queue-Matched (Server.unknown_tool J taken call) rest
              (callback-Matched taken call.reply_to _ still
                (error-Answers call.id _ _ call.reply_to e))
              h)
      where
        taken : Server.Server J
        taken = Server.take_call J s rest

        still : Matched taken
        still = record { sent = m.sent; queued = h; held = m.held }

        found :
            (o : Option (Server.ToolDef J))
            → Matched (Server.execute_queue J (Server.unknown_tool J taken call) rest)
            → Matched (elim o [
              | some tool ↦ Server.start_call J taken call tool
              | none ↦ Server.execute_queue J (Server.unknown_tool J taken call) rest
            ])
        found none refused = refused
        found (some tool) refused = record { sent = m.sent; queued = h; held = (e, m.held) }

    tools_call-Matched :
        (s : Server.Server J) (params : Dict) (id : Value) (reply_to : ℕ)
        → Good id reply_to
        → Matched s
        → Matched (Server.handle_tools_call J s params id reply_to)
    unfolding Server.handle_tools_call Server.send_error Server.enqueue_call
    tools_call-Matched s params id reply_to e m =
        elim (Option-cases (find_string J params "name")) [
          | inl unnamed ↦
              rw (unnamed, Server.handle_tools_call)
                (callback-Matched s reply_to _ m (error-Answers id _ _ reply_to e))
          | inr (name, named) ↦
              let longer = All-append IsGood s.tool_call_queue _ m.queued (e, tt) in
              rw (named, Server.handle_tools_call)
                (if_elim Matched (not s.tool_call_in_progress)
                  (λ _.
                    execute_queue-Matched _ _
                      (record { sent = m.sent; queued = longer; held = m.held }) longer)
                  (λ _. record { sent = m.sent; queued = longer; held = m.held }))
        ]
      where
        IsGood : Server.PendingToolCall J → Type 0
        IsGood c = c.id ≡ ids c.reply_to

    pub dispatch-Matched :
        (s : Server.Server J) (method : String) (params : Dict) (id : Value) (reply_to : ℕ)
        → Good id reply_to
        → Matched s
        → Matched (Server.dispatch J s method params (some id) reply_to)
    unfolding Server.dispatch
    dispatch-Matched s method params id reply_to e m =
        if_elim Matched (method == "initialize")
          (λ _.
            callback-Matched (record s { initialized = true }) reply_to _ flagged
              (result-Answers id _ reply_to e))
          λ _.
            if_elim Matched (method == "notifications/initialized")
              (λ _. callback-Matched (record s { initialized = true }) reply_to none flagged tt)
              λ _.
                if_elim Matched (method == "ping") (λ _. result _)
                  λ _.
                    if_elim Matched (not s.initialized) (λ _. error _ _)
                      λ _.
                        if_elim Matched (method == "tools/list") (λ _. result _)
                          λ _.
                            if_elim Matched (method == "tools/call")
                              (λ _. tools_call-Matched s params id reply_to e m) (λ _. error _ _)
      where
        flagged : Matched (record s { initialized = true })
        flagged = record { sent = m.sent; queued = m.queued; held = m.held }

        result : (r : Dict) → Matched (Server.send_result J s id r reply_to)
        result r = callback-Matched s reply_to _ m (result-Answers id r reply_to e)

        error : (code : ℤ) (text : String) → Matched (Server.send_error J s id code text reply_to)
        error code text = callback-Matched s reply_to _ m (error-Answers id code text reply_to e)
