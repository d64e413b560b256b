-- ===== src/Core/Evaluation/Answers.antt =====
-- browserd/core/browser_controller.cc: the answer to the evaluation of a script.
use browserd.Shared.{
  ◌⊎◌, if_false, String, ℕ, ◌≡◌, refl, ap, ◌∙◌, sym, Bool, true, false, not, Option, none, some,
  List, [], ◌∷◌, take, if◌then◌else◌, if_elim, Bool-cases, inl, inr,
}
use browserd.Platform.Json.{Json, ℤ}
use browserd.Core.Result.{failure, tab_not_found, no_active_frame, timeout}
use browserd.Core.Request.{complete, set_timer}
use browserd.Core.Evaluation

module _ (J : Json) (is_none : J.Value → Bool) (write_json : J.Value → String) where
  abbrev Running : Type 0
  Running = Evaluation.Evaluation J is_none write_json

  abbrev Event : Type 0
  Event = Evaluation.Event J is_none write_json

  abbrev Result : Type 0
  Result = Evaluation.EvaluationResult J is_none write_json

  -- What each event answers, if the request has a time limit or not.
  abbrev pub answers : Bool → List Event → List Result
  answers b [] = []
  answers b (Evaluation.script_result ok v ∷ es) =
      Evaluation.result_of J is_none write_json ok v ∷ answers b es
  answers b (Evaluation.timer_fires ∷ es) =
      if b then failure timeout "JavaScript evaluation timeout" ∷ answers b es else answers b es

  record Answered (rs : List Result) (e : Running) : Type 0 where
    over : e.request.callback ≡ false
    replies : e.request.replies ≡ rs

  complete-Answered :
      (e : Running) (r : Result)
      → e.request.callback ≡ true
      → e.request.replies ≡ []
      → Answered (r ∷ []) (Evaluation.finish J is_none write_json e r)
  unfolding complete
  complete-Answered e r h n = rw (h, n) (record { over = refl; replies = refl })

  finish-Answered :
      (e : Running) (r : Result) (rs : List Result)
      → Answered rs e
      → Answered rs (Evaluation.finish J is_none write_json e r)
  unfolding complete
  finish-Answered e r rs a = rw (a.over) (record { over = refl; replies = a.replies })

  step-Answered :
      (e : Running) (x : Event) (rs : List Result)
      → Answered rs e
      → Answered rs (Evaluation.step J is_none write_json e x)
  unfolding Evaluation.step Evaluation.on_result Evaluation.on_timeout
  step-Answered e (Evaluation.script_result ok v) rs a = finish-Answered e _ rs a
  step-Answered e Evaluation.timer_fires rs a =
      if_elim (Answered rs) e.request.timer
        (λ _.
          finish-Answered (record e { request = set_timer e.request false }) _ rs
            (record { over = a.over; replies = a.replies }))
        (λ _. a)

  run-Answered :
      (e : Running) (es : List Event) (rs : List Result)
      → Answered rs e
      → (Evaluation.run J is_none write_json e es).request.replies ≡ rs
  unfolding Evaluation.run
  run-Answered e [] rs a = a.replies
  run-Answered e (x ∷ es) rs a =
      run-Answered (Evaluation.step J is_none write_json e x) es rs (step-Answered e x rs a)

  run-answers :
      (e : Running) (es : List Event)
      → e.request.callback ≡ true
      → e.request.replies ≡ []
      → (Evaluation.run J is_none write_json e es).request.replies
        ≡ take 1 (answers e.request.timer es)
  unfolding Evaluation.run Evaluation.step Evaluation.on_result Evaluation.on_timeout
  run-answers e [] h n = n
  run-answers e (Evaluation.script_result ok v ∷ es) h n =
      run-Answered _ es _ (complete-Answered e _ h n)
  run-answers e (Evaluation.timer_fires ∷ es) h n = elim (Bool-cases e.request.timer) [
    | inl t ↦ rw t (
        run-Answered _ es _
          (complete-Answered (record e { request = set_timer e.request false }) _ h n))
    | inr t ↦
        ap (λ x. (Evaluation.run J is_none write_json x es).request.replies)
          (if_false e.request.timer _ e t)
        ∙ run-answers e es h n
        ∙ sym (
            ap (take 1) (
              if_false e.request.timer
                (failure timeout "JavaScript evaluation timeout" ∷ answers e.request.timer es)
                (answers e.request.timer es) t))
  ]

  -- What a script gets: an error at once where there is no page or no live frame in it, else the first
  -- answer, and the timer counts only where the time limit is positive.
  abbrev pub first_answer : (ℕ → Bool) → Option ℕ → ℤ → List Event → List Result
  first_answer is_live none limit es = failure tab_not_found "Tab not found" ∷ []
  first_answer is_live (some w) limit es =
      if not (is_live w)
      then failure no_active_frame "No active frame" ∷ []
      else take 1 (answers (Evaluation.is_positive limit) es)

  -- Whatever the page and the timer do, the callback of an evaluation gets the first answer and no other.
  pub run-first_answer :
      (is_live : ℕ → Bool) (w : Option ℕ) (js : String) (await : Bool) (limit : ℤ) (es : List Event)
      → (Evaluation.run J is_none write_json
          (Evaluation.evaluate_with_dev_tools J is_none write_json is_live w js await limit)
          es).request.replies
        ≡ first_answer is_live w limit es
  unfolding Evaluation.evaluate_with_dev_tools Evaluation.start Evaluation.new_evaluation complete
  run-first_answer is_live none js await limit es =
      run-Answered _ es _ (record { over = refl; replies = refl })
  run-first_answer is_live (some w) js await limit es = elim (Bool-cases (not (is_live w))) [
    | inl h ↦ rw h (run-Answered _ es _ (record { over = refl; replies = refl }))
    | inr h ↦ elim (Bool-cases (Evaluation.is_positive limit)) [
      | inl t ↦ rw (h, t) (run-answers _ es refl refl)
      | inr t ↦ rw (h, t) (run-answers _ es refl refl)
    ]
  ]

  -- A script's request that waits under its time limit.
  abbrev pub Pending : Running → Type 0
  Pending f = (f.request.callback ≡ true) × (f.request.replies ≡ []) × (f.request.timer ≡ true)

  -- It is over with the next event.
  pub step-Pending :
      (f : Running) (e : Event)
      → Pending f
      → (r : Result) × ((Evaluation.step J is_none write_json f e).request.replies ≡ r ∷ [])
  unfolding Evaluation.step Evaluation.on_result Evaluation.on_timeout complete
  step-Pending f (Evaluation.script_result ok v) p =
      (Evaluation.result_of J is_none write_json ok v, rw (p.0, p.1) refl)
  step-Pending f Evaluation.timer_fires p =
      (failure timeout "JavaScript evaluation timeout", rw (p.0, p.1, p.2) refl)

  -- A script with a time limit is answered at once or waits.
  pub evaluate-Pending :
      (is_live : ℕ → Bool) (w : ℕ) (js : String) (await : Bool) (limit : ℤ)
      → Evaluation.is_positive limit ≡ true
      → ((r : Result) × ((Evaluation.evaluate_with_dev_tools J is_none write_json is_live
              (some w)
              js
              await
              limit).request.replies
            ≡ r ∷ []))
        ⊎ Pending (
            Evaluation.evaluate_with_dev_tools J is_none write_json is_live (some w) js await limit)
  unfolding Evaluation.evaluate_with_dev_tools Evaluation.start Evaluation.new_evaluation complete
  evaluate-Pending is_live w js await limit t = elim (Bool-cases (not (is_live w))) [
    | inl h ↦ inl (failure no_active_frame "No active frame", rw h refl)
    | inr h ↦ inr (rw (h, t) (refl, refl, refl))
  ]
