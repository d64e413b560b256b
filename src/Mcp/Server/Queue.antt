-- ===== src/Mcp/Server/Queue.antt =====
-- mcp_server.cc: the queue of tool calls, and what each message does to it.
use browserd.Shared.{
  ℕ, ◌≤◌, ◌≡◌, refl, ◌∙◌, Bool, true, not, Option, none, some, List, [], ◌∷◌, ◌++◌, map,
  append_assoc, map-append, is_empty, length, arith, Bool-cases, if_elim, ◌==◌, Option-cases, inl,
  inr, ◌⊎◌, String,
}
use browserd.Platform.Json.{Json, negsuc, find_string}
use browserd.Mcp.Server

module _ (J : Json) where
  open J use {Value, Dict}

  -- The callbacks that have run, in order.
  abbrev pub answered : Server.Server J → List ℕ
  answered s = map (λ r. r.reply_to) s.replies

  -- The callbacks of the tool calls that are running or queued, in order.
  abbrev pub waiting : Server.Server J → List ℕ
  waiting s = map (λ r. r.reply_to) s.running ++ map (λ c. c.reply_to) s.tool_call_queue

  abbrev pub timeline : Server.Server J → List ℕ
  timeline s = answered s ++ waiting s

  -- At most one call runs, the flag says whether one does, and none waits while none runs.
  pub record Inv (s : Server.Server J) : Type 0 where
    pub single : length s.running ≤ 1
    pub flagged : s.tool_call_in_progress ≡ not (is_empty s.running)
    pub drained : s.running ≡ [] → s.tool_call_queue ≡ []

  pub execute_queue-Inv :
      (s : Server.Server J) (q : List (Server.PendingToolCall J))
      → s.running ≡ []
      → Inv (Server.execute_queue J s q)
  unfolding Server.execute_queue Server.send_tool_result Server.send_error Server.send_result
  execute_queue-Inv s [] h = ground arith
  execute_queue-Inv s (call ∷ rest) h = ground (
    arith,
    execute_queue-Inv (Server.refuse_call J (Server.take_call J s rest) call) rest h,
    execute_queue-Inv (Server.unknown_tool J (Server.take_call J s rest) call) rest h,
  )

  pub answered-add :
      (s : Server.Server J) (r : Server.Reply J) (ys : List ℕ)
      → map (λ (r : Server.Reply J). r.reply_to) (s.replies ++ r ∷ []) ++ ys
        ≡ answered s ++ r.reply_to ∷ ys
  answered-add s r ys = simp (map-append, append_assoc)

  -- Emptying the queue answers or starts its calls in order.
  pub timeline-execute_queue :
      (s : Server.Server J) (q : List (Server.PendingToolCall J))
      → s.running ≡ []
      → timeline (Server.execute_queue J s q) ≡ answered s ++ map (λ c. c.reply_to) q
  unfolding Server.execute_queue Server.send_tool_result Server.send_error Server.send_result
  timeline-execute_queue s [] h = rw h refl
  timeline-execute_queue s (call ∷ rest) h = ground (
    arith,
    timeline-execute_queue (Server.refuse_call J (Server.take_call J s rest) call) rest h
        ∙ answered-add s _ _,
    timeline-execute_queue (Server.unknown_tool J (Server.take_call J s rest) call) rest h
        ∙ answered-add s _ _,
  )

  new_server-Inv : Inv (Server.new_server J)
  unfolding Server.new_server
  new_server-Inv = ground arith

  pub enqueue_call-Inv :
      (s : Server.Server J) (call : Server.PendingToolCall J)
      → Inv s
      → Inv (Server.enqueue_call J s call)
  unfolding Server.enqueue_call
  enqueue_call-Inv s call v = elim (Bool-cases s.tool_call_in_progress) [
    | inl busy ↦ rw (busy, Server.enqueue_call) (ground arith)
    | inr free ↦
        rw (free, Server.enqueue_call)
          (execute_queue-Inv _ (s.tool_call_queue ++ call ∷ []) (ground arith))
  ]

  -- A call that is queued comes last.
  pub timeline-enqueue_call :
      (s : Server.Server J) (call : Server.PendingToolCall J)
      → Inv s
      → timeline (Server.enqueue_call J s call) ≡ timeline s ++ call.reply_to ∷ []
  unfolding Server.enqueue_call
  timeline-enqueue_call s call v =
      let queued = record s { tool_call_queue = s.tool_call_queue ++ call ∷ [] } in
      let last : timeline queued ≡ timeline s ++ call.reply_to ∷ [] =
        simp (map-append, append_assoc) in
      elim (Bool-cases s.tool_call_in_progress) [
        | inl busy ↦ ground (arith, last)
        | inr free ↦
            let idle : s.running ≡ [] = ground arith in
            ground (arith, last, timeline-execute_queue queued queued.tool_call_queue idle)
      ]

  -- A message is answered at once and moves nothing in the queue, or it is queued and comes last.
  abbrev pub Takes : Server.Server J → ℕ → Server.Server J → Type 0
  Takes s reply_to s' =
      ((answered s' ≡ answered s ++ reply_to ∷ []) × (waiting s' ≡ waiting s))
      ⊎ (timeline s' ≡ timeline s ++ reply_to ∷ [])

  callback-Takes :
      (s : Server.Server J) (reply_to : ℕ) (response : Option Dict)
      → Takes s reply_to (Server.run_callback J s reply_to response)
  callback-Takes s reply_to response = inl (map-append _ s.replies _, refl)

  -- What a message does to the queue of a server in a good state, which it leaves in one.
  pub record Keeps (s : Server.Server J) (reply_to : ℕ) (s' : Server.Server J) : Type 0 where
    pub takes : Takes s reply_to s'
    pub valid : Inv s'

  -- An answer at once, by a server that may have set its `initialized` flag.
  callback-Keeps :
      (s : Server.Server J) (flag : Bool) (reply_to : ℕ) (response : Option Dict)
      → Inv s
      → Keeps s reply_to (Server.run_callback J (record s { initialized = flag }) reply_to response)
  callback-Keeps s flag reply_to response v = record {
    takes = callback-Takes s reply_to response;
    valid = ground arith;
  }

  handle_tools_call-Keeps :
      (s : Server.Server J) (params : Dict) (id : Value) (reply_to : ℕ)
      → Inv s
      → Keeps s reply_to (Server.handle_tools_call J s params id reply_to)
  unfolding Server.handle_tools_call Server.send_error
  handle_tools_call-Keeps s params id reply_to v =
      elim (Option-cases (find_string J params "name")) [
        | inl unnamed ↦
            rw (unnamed, Server.handle_tools_call) (callback-Keeps s s.initialized reply_to _ v)
        | inr (name, named) ↦
            rw (named, Server.handle_tools_call)
              (record { takes = inr (timeline-enqueue_call s _ v); valid = enqueue_call-Inv s _ v })
      ]

  dispatch-Keeps :
      (s : Server.Server J) (method : String) (params : Dict) (id : Option Value) (reply_to : ℕ)
      → Inv s
      → Keeps s reply_to (Server.dispatch J s method params id reply_to)
  unfolding Server.dispatch
  dispatch-Keeps s method params none reply_to v =
      if_elim P (method == "initialize") (λ _. same none)
        λ _.
          if_elim P (method == "notifications/initialized")
            (λ _. callback-Keeps s true reply_to none v)
            λ _.
              if_elim P (method == "ping") (λ _. same none)
                λ _.
                  if_elim P (not s.initialized) (λ _. same none)
                    λ _.
                      if_elim P (method == "tools/list") (λ _. same none)
                        λ _. if_elim P (method == "tools/call") (λ _. same none) (λ _. same none)
    where
      P : Server.Server J → Type 0
      P = Keeps s reply_to

      same : (response : Option Dict) → Keeps s reply_to (Server.run_callback J s reply_to response)
      same response = callback-Keeps s s.initialized reply_to response v
  dispatch-Keeps s method params (some id) reply_to v =
      if_elim P (method == "initialize") (λ _. callback-Keeps s true reply_to _ v)
        λ _.
          if_elim P (method == "notifications/initialized")
            (λ _. callback-Keeps s true reply_to none v)
            λ _.
              if_elim P (method == "ping") (λ _. same _)
                λ _.
                  if_elim P (not s.initialized) (λ _. same _)
                    λ _.
                      if_elim P (method == "tools/list") (λ _. same _)
                        λ _.
                          if_elim P (method == "tools/call")
                            (λ _. handle_tools_call-Keeps s params id reply_to v) (λ _. same _)
    where
      P : Server.Server J → Type 0
      P = Keeps s reply_to

      same : (response : Option Dict) → Keeps s reply_to (Server.run_callback J s reply_to response)
      same response = callback-Keeps s s.initialized reply_to response v

  pub on_message-Keeps :
      (s : Server.Server J) (m : Dict) (reply_to : ℕ)
      → Inv s
      → Keeps s reply_to (Server.on_message J s m reply_to)
  unfolding Server.on_message
  on_message-Keeps s m reply_to v = elim (Option-cases (find_string J m "method")) [
    | inl unnamed ↦ rw (unnamed, Server.on_message) (refused (J.find m "id"))
    | inr (method, named) ↦ rw (named, Server.on_message) (dispatch-Keeps s method _ _ reply_to v)
  ]
    where
      refused :
          (id : Option Value)
          → Keeps s reply_to (
              Server.if_request J s id reply_to
                (λ i. Server.send_error J s i (negsuc 32599) "Invalid Request" reply_to))
      refused none = callback-Keeps s s.initialized reply_to _ v
      refused (some i) = callback-Keeps s s.initialized reply_to _ v
