-- ===== src/Core/Screenshot/Phases.antt =====
-- browserd/core/browser_controller.cc: what a capture waits for.
use browserd.Shared.{
  Option_elim, ℕ, ◌≡◌, ◌⊎◌, inl, inr, refl, ap, subst, ◌∙◌, sym, Bool, true, false, Option, none,
  some, some-injective, List, [], ◌∷◌, String, Text, length, drop, if_elim, Bool-cases, false≢true,
}
use browserd.Platform.Json.{Json, pos}
use browserd.Core.Result.{BrowserResult, success, failure}
use browserd.Core.Request.{set_timer}
use browserd.Core.Request.Once.{IsOnce, complete-IsOnce, set_timer-IsOnce, complete-callback}
use browserd.Core.Evaluation
use browserd.Core.Evaluation.Answers.{Pending, step-Pending, evaluate-Pending}
use browserd.Core.Screenshot
use browserd.Core.Screenshot.{Bytes}

module _ (J : Json) (is_none : J.Value → Bool) (write_json : J.Value → String)
    (base64_decode : Text → Option Bytes) (canvas_script : String) where
  abbrev pub Capture : Type 0
  Capture = Screenshot.Capture J is_none write_json base64_decode canvas_script

  abbrev pub Event : Type 0
  Event = Screenshot.Event J is_none write_json base64_decode canvas_script

  abbrev pub Fallback : Type 0
  Fallback = Screenshot.Fallback J is_none write_json base64_decode canvas_script

  abbrev pub FallbackResult : Type 0
  FallbackResult = Screenshot.FallbackResult J is_none write_json base64_decode canvas_script

  abbrev pub step : Capture → Event → Capture
  step = Screenshot.step J is_none write_json base64_decode canvas_script

  abbrev pub deliver : Capture → List FallbackResult → Capture
  deliver = Screenshot.deliver J is_none write_json base64_decode canvas_script

  pub record Draws (s : Capture) : Type 0 where
    pub stopped : s.request.timer ≡ false
    pub script : Fallback
    pub drawing : s.fallback ≡ some script
    pub pending : Pending J is_none write_json script

  pub record Waits (s : Capture) : Type 0 where
    pub running : s.request.timer ≡ true
    pub alone : s.fallback ≡ none

  pub record IsDrawing (s : Capture) : Type 0 where
    pub once : IsOnce s.request
    pub draws : s.request.callback ≡ true → Draws s

  -- A capture that is not answered waits for the browser, with its timer on, or for the script.
  pub record IsCapturing (s : Capture) : Type 0 where
    pub once : IsOnce s.request
    pub live : s.request.callback ≡ true → Waits s ⊎ Draws s

  abbrev pub IsDone : Capture → Type 0
  IsDone s = IsOnce s.request × (s.request.callback ≡ false)

  done-IsDrawing : (s : Capture) → IsDone s → IsDrawing s
  done-IsDrawing s d = record { once = d.0; draws = λ h. absurd (false≢true (sym d.1 ∙ h)) }

  IsDrawing-IsCapturing : (s : Capture) → IsDrawing s → IsCapturing s
  IsDrawing-IsCapturing s v = record { once = v.once; live = λ h. inr (v.draws h) }

  finish-IsDone :
      (s : Capture) (r : BrowserResult Bytes)
      → IsOnce s.request
      → IsDone (Screenshot.finish J is_none write_json base64_decode canvas_script s r)
  finish-IsDone s r o = (complete-IsOnce s.request r o, complete-callback s.request r)

  on_dom_fallback-IsDone :
      (s : Capture) (r : FallbackResult)
      → IsOnce s.request
      → IsDone (Screenshot.on_dom_fallback J is_none write_json base64_decode canvas_script s r)
  unfolding Screenshot.on_dom_fallback
  on_dom_fallback-IsDone s (failure c m) o = finish-IsDone s (failure c m) o
  on_dom_fallback-IsDone s (success v) o = finish-IsDone s _ o

  deliver-IsDone : (s : Capture) (rs : List FallbackResult) → IsDone s → IsDone (deliver s rs)
  unfolding Screenshot.deliver
  deliver-IsDone s [] d = d
  deliver-IsDone s (r ∷ rs) d =
      deliver-IsDone
        (Screenshot.on_dom_fallback J is_none write_json base64_decode canvas_script s r) rs
        (on_dom_fallback-IsDone s r d.0)

  -- An answer of the script ends the capture, and what comes later changes nothing of that.
  advance-IsDone :
      (s : Capture) (before : List FallbackResult) (f : Fallback)
      → IsOnce s.request
      → (s.request.callback ≡ false)
        ⊎ ((r : FallbackResult) × (drop (length before) f.request.replies ≡ r ∷ []))
      → IsDone (Screenshot.advance J is_none write_json base64_decode canvas_script s before f)
  unfolding Screenshot.advance Screenshot.deliver
  advance-IsDone s before f o (inl h) =
      deliver-IsDone (record s { fallback = some f }) (drop (length before) f.request.replies)
        (o, h)
  advance-IsDone s before f o (inr (r, e)) =
      rw e (on_dom_fallback-IsDone (record s { fallback = some f }) r o)

  begin-IsDrawing :
      (s : Capture) (f : Fallback)
      → IsOnce s.request
      → s.request.timer ≡ false
      → ((r : FallbackResult) × (f.request.replies ≡ r ∷ [])) ⊎ Pending J is_none write_json f
      → IsDrawing (Screenshot.advance J is_none write_json base64_decode canvas_script s [] f)
  unfolding Screenshot.advance Screenshot.deliver
  begin-IsDrawing s f o t (inl r) = done-IsDrawing _ (advance-IsDone s [] f o (inr r))
  begin-IsDrawing s f o t (inr p) =
      subst (λ rs. IsDrawing (deliver (record s { fallback = some f }) rs)) (sym p.1)
        (record {
          once = o;
          draws = λ h. record { stopped = t; script = f; drawing = refl; pending = p };
        })

  start_dom_fallback-IsDrawing :
      (is_live : ℕ → Bool) (s : Capture)
      → IsOnce s.request
      → s.request.timer ≡ false
      → IsDrawing
          (Screenshot.start_dom_fallback J is_none write_json base64_decode canvas_script is_live s)
  unfolding Screenshot.start_dom_fallback
  start_dom_fallback-IsDrawing is_live s o t =
      Option_elim IsDrawing s.web_contents (λ e. done-IsDrawing _ (finish-IsDone s _ o))
        (λ w e.
          begin-IsDrawing s _ o t
            (evaluate-Pending J is_none write_json is_live w canvas_script true (pos 10000) refl))

  pub step-IsDone : (s : Capture) (e : Event) → IsDone s → IsDone (step s e)
  unfolding Screenshot.step Screenshot.on_snapshot_from_browser
  step-IsDone s (Screenshot.snapshot image) d = finish-IsDone s (Screenshot.encoded image) d.0
  step-IsDone s (Screenshot.timer_fires is_live) d =
      if_elim IsDone s.request.timer (λ h. absurd (false≢true (sym (d.0.done d.1).2 ∙ h))) (λ _. d)
  step-IsDone s (Screenshot.in_fallback e) d =
      Option_elim IsDone s.fallback (λ _. d)
        (λ f _. advance-IsDone s f.request.replies _ d.0 (inl d.1))

  -- An event of the script that draws ends the capture.
  Draws-IsDone :
      (s : Capture) (e : Evaluation.Event J is_none write_json)
      → IsOnce s.request
      → Draws s
      → IsDone (step s (Screenshot.in_fallback e))
  unfolding Screenshot.step
  Draws-IsDone s e o d =
      Option_elim IsDone s.fallback (λ n. cc)
        (λ f q.
          let p =
            subst (Pending J is_none write_json) (some-injective _ _ (sym d.drawing ∙ q))
              d.pending in
          let next = step-Pending J is_none write_json f e p in
          advance-IsDone s f.request.replies _ o (
            inr (
              next.0,
              ap
                    (λ (rs : List FallbackResult).
                      drop (length rs) (Evaluation.step J is_none write_json f e).request.replies)
                    p.1
                  ∙ next.1,
            )))

  pub in_fallback-IsDone :
      (s : Capture) (e : Evaluation.Event J is_none write_json)
      → IsDrawing s
      → IsDone (step s (Screenshot.in_fallback e))
  in_fallback-IsDone s e v = elim (Bool-cases s.request.callback) [
    | inr h ↦ step-IsDone s (Screenshot.in_fallback e) (v.once, h)
    | inl h ↦ Draws-IsDone s e v.once (v.draws h)
  ]

  -- When its timer fires, a capture is over or the script draws.
  pub timer-IsDrawing :
      (s : Capture) (is_live : ℕ → Bool)
      → IsCapturing s
      → IsDrawing (step s (Screenshot.timer_fires is_live))
  unfolding Screenshot.step Screenshot.on_timeout
  timer-IsDrawing s is_live v =
      if_elim IsDrawing s.request.timer
        (λ h.
          start_dom_fallback-IsDrawing is_live (record s { request = set_timer s.request false })
            (set_timer-IsOnce s.request v.once) refl)
        (λ o. record {
          once = v.once;
          draws =
              λ h. elim (v.live h) [ inl w ↦ absurd (false≢true (sym o ∙ w.running)) | inr d ↦ d ];
        })

  pub step-IsDrawing : (s : Capture) (e : Event) → IsDrawing s → IsDrawing (step s e)
  unfolding Screenshot.step Screenshot.on_snapshot_from_browser
  step-IsDrawing s (Screenshot.snapshot image) v =
      done-IsDrawing _ (finish-IsDone s (Screenshot.encoded image) v.once)
  step-IsDrawing s (Screenshot.timer_fires is_live) v =
      timer-IsDrawing s is_live (IsDrawing-IsCapturing s v)
  step-IsDrawing s (Screenshot.in_fallback e) v =
      done-IsDrawing (step s (Screenshot.in_fallback e)) (in_fallback-IsDone s e v)

  -- Before the timer fires there is no script.
  Waits-IsCapturing :
      (s : Capture) (e : Evaluation.Event J is_none write_json)
      → IsCapturing s
      → Waits s
      → IsCapturing (step s (Screenshot.in_fallback e))
  unfolding Screenshot.step
  Waits-IsCapturing s e v w = Option_elim IsCapturing s.fallback (λ _. v) (λ f q. cc)

  pub step-IsCapturing : (s : Capture) (e : Event) → IsCapturing s → IsCapturing (step s e)
  unfolding Screenshot.step Screenshot.on_snapshot_from_browser
  step-IsCapturing s (Screenshot.snapshot image) v =
      IsDrawing-IsCapturing _ (done-IsDrawing _ (finish-IsDone s (Screenshot.encoded image) v.once))
  step-IsCapturing s (Screenshot.timer_fires is_live) v =
      IsDrawing-IsCapturing _ (timer-IsDrawing s is_live v)
  step-IsCapturing s (Screenshot.in_fallback e) v = elim (Bool-cases s.request.callback) [
    | inr h ↦
        IsDrawing-IsCapturing _
          (done-IsDrawing _ (step-IsDone s (Screenshot.in_fallback e) (v.once, h)))
    | inl h ↦ elim (v.live h) [
      | inl w ↦ Waits-IsCapturing s e v w
      | inr d ↦ IsDrawing-IsCapturing _ (done-IsDrawing _ (Draws-IsDone s e v.once d))
    ]
  ]
