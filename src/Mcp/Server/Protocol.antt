-- ===== src/Mcp/Server/Protocol.antt =====
-- mcp_server.cc: what a client of the protocol may rely on.
use browserd.Shared.{
  ℕ, String, ◌≡◌, refl, Bool, true, not, none, some, List, [], ◌∷◌, ◌++◌, All, value_or,
  All-get_elem?, All-remove_at, ◌&&◌, inl, inr, if_elim, ◌==◌, Option-cases, get_elem?, remove_at,
  subst, sym,
}
use browserd.Platform.Json.{Json, find_string, find_dict}
use browserd.Mcp.Server
use browserd.Mcp.Server.Replies
use browserd.Mcp.Server.Replies.{Answers, Matched}

module _ (J : Json) where
  open J use {Value, Dict, find}

  -- The same server with one more reply, and maybe initialized.
  pub record RepliesOnly (s : Server.Server J) (r : Server.Reply J) (s' : Server.Server J)
      : Type 0 where
    pub replies : s'.replies ≡ s.replies ++ r ∷ []
    pub queue : s'.tool_call_queue ≡ s.tool_call_queue
    pub running : s'.running ≡ s.running
    pub progress : s'.tool_call_in_progress ≡ s.tool_call_in_progress
    pub tools : s'.tools ≡ s.tools

  abbrev silence : ℕ → Server.Reply J
  silence reply_to = record { reply_to = reply_to; response = none }

  silent :
      (s : Server.Server J) (flag : Bool) (reply_to : ℕ)
      → RepliesOnly s
          (silence reply_to)
          (Server.send_no_response J (record s { initialized = flag }) reply_to)
  unfolding Server.send_no_response
  silent s flag reply_to = record {
    replies = refl;
    queue = refl;
    running = refl;
    progress = refl;
    tools = refl;
  }

  dispatch_notification :
      (s : Server.Server J) (method : String) (params : Dict) (reply_to : ℕ)
      → RepliesOnly s (silence reply_to) (Server.dispatch J s method params none reply_to)
  unfolding Server.dispatch
  dispatch_notification s method params reply_to =
      if_elim P (method == "initialize") (λ _. same)
        λ _.
          if_elim P (method == "notifications/initialized") (λ _. silent s true reply_to)
            λ _.
              if_elim P (method == "ping") (λ _. same)
                λ _.
                  if_elim P (not s.initialized) (λ _. same)
                    λ _.
                      if_elim P (method == "tools/list") (λ _. same)
                        λ _. if_elim P (method == "tools/call") (λ _. same) (λ _. same)
    where
      P : Server.Server J → Type 0
      P = RepliesOnly s (silence reply_to)

      same : P (Server.send_no_response J s reply_to)
      same = silent s s.initialized reply_to

  -- A message with no `id` is answered by no response, whatever its method, and starts and queues no
  -- tool call.
  pub on_message-notification :
      (s : Server.Server J) (m : Dict) (reply_to : ℕ)
      → find m "id" ≡ none
      → RepliesOnly s (silence reply_to) (Server.on_message J s m reply_to)
  unfolding Server.on_message
  on_message-notification s m reply_to e = elim (Option-cases (find_string J m "method")) [
    | inl unnamed ↦ rw (unnamed, Server.on_message) (rw e (silent s s.initialized reply_to))
    | inr (method, named) ↦
        rw (named, Server.on_message)
          (rw e
            (dispatch_notification s method (value_or (find_dict J m "params") J.empty) reply_to))
  ]

  -- Each message of the history that has an id has the one that `ids` gives for its callback.
  abbrev pub Consistent : (ℕ → Value) → List (Server.Event J) → Type 0
  Consistent ids [] = Unit
  Consistent ids (Server.message m reply_to ∷ es) =
      ((id : Value) → find m "id" ≡ some id → id ≡ ids reply_to) × Consistent ids es
  Consistent ids (Server.complete i content is_error ∷ es) = Consistent ids es
  Consistent ids (Server.closed ∷ es) = Consistent ids es

  module _ (ids : ℕ → Value) where
    RepliesOnly-Matched :
        (s s' : Server.Server J) (reply_to : ℕ)
        → RepliesOnly s (silence reply_to) s'
        → Matched J ids s
        → Matched J ids s'
    RepliesOnly-Matched s s' reply_to k m = record {
      sent =
          subst (All (Answers J ids)) (sym k.replies)
            (Replies.callback-Matched J ids s reply_to none m tt).sent;
      queued =
          subst (All (λ (c : Server.PendingToolCall J). c.id ≡ ids c.reply_to)) (sym k.queue)
            m.queued;
      held =
          subst (All (λ (c : Server.RunningCall J). c.id ≡ ids c.reply_to)) (sym k.running) m.held;
    }

    on_message-Matched :
        (s : Server.Server J) (m : Dict) (reply_to : ℕ)
        → ((id : Value) → find m "id" ≡ some id → id ≡ ids reply_to)
        → Matched J ids s
        → Matched J ids (Server.on_message J s m reply_to)
    unfolding Server.on_message Server.send_error
    on_message-Matched s m reply_to known v = elim (Option-cases (find m "id")) [
      | inl absent ↦
          RepliesOnly-Matched s _ reply_to (on_message-notification s m reply_to absent) v
      | inr (id, present) ↦ elim (Option-cases (find_string J m "method")) [
        | inl unnamed ↦
            rw (unnamed, Server.on_message)
              (rw present (
                Replies.callback-Matched J ids s reply_to _ v
                  (Replies.error-Answers J ids id _ _ reply_to (known id present))))
        | inr (method, named) ↦
            rw (named, Server.on_message)
              (rw present
                (Replies.dispatch-Matched J ids s method _ id reply_to (known id present) v))
      ]
    ]

    complete-Matched :
        (s : Server.Server J) (i : ℕ) (content : List Value) (is_error : Bool)
        → Matched J ids s
        → Matched J ids (Server.step J s (Server.complete i content is_error))
    unfolding Server.step Server.on_tool_call_complete Server.execute_next_tool_call
        Server.send_tool_result Server.send_result
    complete-Matched s i content is_error v = elim (Option-cases (get_elem? s.running i)) [
      | inl absent ↦ rw (absent, Server.step) v
      | inr (call, present) ↦
          rw (present, Server.step)
            (Replies.execute_queue-Matched J ids _ s.tool_call_queue
              (Replies.callback-Matched J ids (record s { running = remove_at s.running i })
                call.reply_to _
                (record {
                  sent = v.sent;
                  queued = v.queued;
                  held = All-remove_at IsGood s.running i v.held;
                })
                (Replies.result-Answers J ids call.id _ call.reply_to
                  (All-get_elem? IsGood s.running i v.held present)))
              v.queued)
    ]
      where
        IsGood : Server.RunningCall J → Type 0
        IsGood c = c.id ≡ ids c.reply_to

    closed-Matched :
        (s : Server.Server J) → Matched J ids s → Matched J ids (Server.step J s Server.closed)
    unfolding Server.step Server.on_transport_closed
    closed-Matched s v =
        if_elim (Matched J ids) (s.shutdown_on_stdio_close && s.has_controller)
          (λ _. record { sent = v.sent; queued = v.queued; held = v.held }) (λ _. v)

    -- Where the requests carry the ids that `ids` gives their callbacks, every response sent in a history
    -- is a JSON-RPC 2.0 response, with a result or else an error that has a code and a message, and carries the id
    -- of its callback's request, also where it is sent when a tool call completes later; and the calls
    -- that wait or run carry theirs, if these things hold at the start.
    pub run-Matched :
        (s : Server.Server J) (es : List (Server.Event J))
        → Consistent ids es
        → Matched J ids s
        → Matched J ids (Server.run J s es)
    unfolding Server.run Server.step
    run-Matched s [] c v = v
    run-Matched s (Server.message m reply_to ∷ es) (c, cs) v =
        run-Matched (Server.on_message J s m reply_to) es cs (on_message-Matched s m reply_to c v)
    run-Matched s (Server.complete i content is_error ∷ es) cs v =
        run-Matched (Server.step J s (Server.complete i content is_error)) es cs
          (complete-Matched s i content is_error v)
    run-Matched s (Server.closed ∷ es) cs v =
        run-Matched (Server.step J s Server.closed) es cs (closed-Matched s v)
