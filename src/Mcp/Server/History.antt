-- ===== src/Mcp/Server/History.antt =====
-- mcp_server.cc over whole histories of messages and completions.
use mathlib.Core.List.{Perm, perm_middle, perm_append_comm}
use mathlib.Core.List.Perm
use browserd.Shared.{
  ℕ, zero, suc, ◌-◌, ◌≤◌, ◌≡◌, refl, ◌∙◌, sym, ap, subst, Bool, List, [], ◌∷◌, ◌++◌, append-nil,
  append_assoc, length, length-map, arith, inl, inr,
}
use browserd.Platform.Json.{Json}
use browserd.Mcp.Server
use browserd.Mcp.Server.Queue
use browserd.Mcp.Server.Queue.{answered, waiting, timeline, Inv, Takes, Keeps}

nil_of_length {ℓ} : {A : Type ℓ} (xs : List A) → length xs ≤ 0 → xs ≡ []
nil_of_length [] h = refl
nil_of_length (x ∷ xs) h = absurd (omega arith)

module _ (J : Json) where
  open J use {Value, Dict}

  -- The call that completes, with the state in which its answer has been sent.
  abbrev finished : Server.Server J → Server.RunningCall J → List Value → Bool → Server.Server J
  finished s call content is_error =
      Server.send_tool_result J (record s { running = [] }) call.id call.reply_to content is_error

  abbrev Completed : Server.Server J → Server.Server J → Type 0
  Completed s s' = (timeline J s' ≡ timeline J s) × Inv J s'

  complete-Completed :
      (s : Server.Server J) (r : List (Server.RunningCall J)) (i : ℕ) (content : List Value)
      (is_error : Bool)
      → s.running ≡ r
      → Inv J s
      → Completed s (Server.step J s (Server.complete i content is_error))
  unfolding Server.step Server.on_tool_call_complete Server.execute_next_tool_call
      Server.send_tool_result Server.send_result
  complete-Completed s [] i content is_error e v = (ground arith, ground arith)
  complete-Completed s (call ∷ []) zero content is_error e v = (
    ground (
      arith,
      Queue.timeline-execute_queue J (finished s call content is_error) s.tool_call_queue refl
          ∙ Queue.answered-add J s _ _,
    ),
    ground (
      arith,
      Queue.execute_queue-Inv J (finished s call content is_error) s.tool_call_queue refl,
    ),
  )
  complete-Completed s (call ∷ []) (suc i) content is_error e v = (ground arith, ground arith)
  complete-Completed s (call ∷ more ∷ rest) i content is_error e v =
      absurd (ground (arith, v.single))

  abbrev arrival : Server.Event J → List ℕ
  arrival (Server.message m reply_to) = reply_to ∷ []
  arrival (Server.complete i content is_error) = []
  arrival Server.closed = []

  -- The callbacks that a history of events brings, in order.
  abbrev pub arrivals : List (Server.Event J) → List ℕ
  arrivals [] = []
  arrivals (e ∷ es) = arrival e ++ arrivals es

  closed-Completed : (s : Server.Server J) → Inv J s → Completed s (Server.step J s Server.closed)
  unfolding Server.step Server.on_transport_closed
  closed-Completed s v = (ground arith, ground arith)

  step-Inv : (s : Server.Server J) (e : Server.Event J) → Inv J s → Inv J (Server.step J s e)
  unfolding Server.step
  step-Inv s (Server.message m reply_to) v = (Queue.on_message-Keeps J s m reply_to v).valid
  step-Inv s (Server.complete i content is_error) v =
      (complete-Completed s s.running i content is_error refl v).1
  step-Inv s Server.closed v = (closed-Completed s v).1

  -- Whatever messages and completions come, in any order, three things stay true if they were so at
  -- the start: at most one tool call runs, the `tool_call_in_progress_` flag is set exactly while one
  -- does, and no call waits in the queue while none runs.
  pub run-Inv :
      (s : Server.Server J) (es : List (Server.Event J)) → Inv J s → Inv J (Server.run J s es)
  unfolding Server.run
  run-Inv s [] v = v
  run-Inv s (e ∷ es) v = run-Inv (Server.step J s e) es (step-Inv s e v)

  Takes-perm :
      (s s' : Server.Server J) (reply_to : ℕ)
      → Takes J s reply_to s'
      → Perm (timeline J s') (reply_to ∷ timeline J s)
  Takes-perm s s' reply_to (inl (a, w)) =
      subst (λ l. Perm l (reply_to ∷ timeline J s))
        (ap (λ l. l ++ waiting J s) (sym a) ∙ ap (λ l. answered J s' ++ l) (sym w))
        (rw append_assoc (perm_middle (answered J s) (waiting J s)))
  Takes-perm s s' reply_to (inr e) = rw e (perm_append_comm (timeline J s) (reply_to ∷ []))

  step-perm :
      (s : Server.Server J) (e : Server.Event J)
      → Inv J s
      → Perm (timeline J (Server.step J s e)) (arrival e ++ timeline J s)
  unfolding Server.step
  step-perm s (Server.message m reply_to) v =
      Takes-perm s (Server.on_message J s m reply_to) reply_to
        (Queue.on_message-Keeps J s m reply_to v).takes
  step-perm s (Server.complete i content is_error) v =
      rw (complete-Completed s s.running i content is_error refl v).0 (Perm.refl _)
  step-perm s Server.closed v = rw (closed-Completed s v).0 (Perm.refl _)

  -- Over any history from a state in which `Inv` holds, the callbacks that have run and those that wait
  -- are together those of the messages that came and those of the start, each as often: none is lost,
  -- none is run twice.
  pub run-perm :
      (s : Server.Server J) (es : List (Server.Event J))
      → Inv J s
      → Perm (timeline J (Server.run J s es)) (arrivals es ++ timeline J s)
  unfolding Server.run
  run-perm s [] v = Perm.refl _
  run-perm s (e ∷ es) v = Perm.trans (run-perm (Server.step J s e) es (step-Inv s e v)) (
      Perm.trans (Perm.append_left (arrivals es) (step-perm s e v)) (
        rw (← append_assoc)
          (Perm.append_right (timeline J s) (perm_append_comm (arrivals es) (arrival e)))))

  waiting-execute_queue :
      (s : Server.Server J) (q : List (Server.PendingToolCall J))
      → s.running ≡ []
      → length (waiting J (Server.execute_queue J s q)) ≤ length q
  unfolding Server.execute_queue Server.send_tool_result Server.send_error Server.send_result
  waiting-execute_queue s [] h = ground arith
  waiting-execute_queue s (call ∷ rest) h = ground (
    arith,
    waiting-execute_queue (Server.refuse_call J (Server.take_call J s rest) call) rest h,
    waiting-execute_queue (Server.unknown_tool J (Server.take_call J s rest) call) rest h,
    length-map rest (λ (c : Server.PendingToolCall J). c.reply_to),
  )

  pub completions : List (List Value × Bool) → List (Server.Event J)
  completions [] = []
  completions ((content, is_error) ∷ cs) = Server.complete 0 content is_error ∷ completions cs

  complete-waiting :
      (s : Server.Server J) (r : List (Server.RunningCall J)) (content : List Value)
      (is_error : Bool)
      → s.running ≡ r
      → Inv J s
      → length (waiting J (Server.step J s (Server.complete 0 content is_error)))
        ≤ length (waiting J s) - 1
  unfolding Server.step Server.on_tool_call_complete Server.execute_next_tool_call
      Server.send_tool_result Server.send_result
  complete-waiting s [] content is_error e v = ground arith
  complete-waiting s (call ∷ []) content is_error e v = ground (
    arith,
    waiting-execute_queue (finished s call content is_error) s.tool_call_queue refl,
    length-map s.tool_call_queue (λ (c : Server.PendingToolCall J). c.reply_to),
  )
  complete-waiting s (call ∷ more ∷ rest) content is_error e v = absurd (ground (arith, v.single))

  waiting-run :
      (s : Server.Server J) (cs : List (List Value × Bool))
      → Inv J s
      → (timeline J (Server.run J s (completions cs)) ≡ timeline J s)
        × (length (waiting J (Server.run J s (completions cs))) ≤ length (waiting J s) - length cs)
  unfolding Server.run completions
  waiting-run s [] v = (refl, omega arith)
  waiting-run s ((content, is_error) ∷ cs) v =
      let (same, fewer) =
        waiting-run (Server.step J s (Server.complete 0 content is_error)) cs
          (step-Inv s (Server.complete 0 content is_error) v) in
      (
        same ∙ (complete-Completed s s.running 0 content is_error refl v).0,
        omega (arith, fewer, complete-waiting s s.running content is_error refl v),
      )

  -- From a state in which `Inv` holds, when the running call has completed as often as callbacks were
  -- waiting and nothing else comes, every callback has run, the waiting ones in the order in which
  -- they waited.
  pub run-answers_all :
      (s : Server.Server J) (cs : List (List Value × Bool))
      → Inv J s
      → length (waiting J s) ≤ length cs
      → answered J (Server.run J s (completions cs)) ≡ timeline J s
  run-answers_all s cs v h =
      let (same, fewer) = waiting-run s cs v in
      sym (append-nil _)
      ∙ ap (λ l. answered J (Server.run J s (completions cs)) ++ l)
          (sym (nil_of_length (waiting J (Server.run J s (completions cs))) (omega (arith, fewer))))
      ∙ same
