-- ===== src/Core/Screenshot/Once.antt =====
-- browserd/core/browser_controller.cc: a screenshot is answered once, and in the end.
use browserd.Shared.{
  ℕ, ◌≤◌, ◌≡◌, inl, refl, Bool, true, false, Option, none, some, List, [], ◌∷◌, ◌++◌, String, Text,
  length,
}
use browserd.Platform.Json.{Json}
use browserd.Core.Request.{complete}
use browserd.Core.Request.Once.{IsOnce-at_most}
use browserd.Core.Evaluation
use browserd.Core.Screenshot
use browserd.Core.Screenshot.Phases
use browserd.Core.Screenshot.{Bytes}

module _ (J : Json) (is_none : J.Value → Bool) (write_json : J.Value → String)
    (base64_decode : Text → Option Bytes) (canvas_script : String) where
  abbrev Capture : Type 0
  Capture = Phases.Capture J is_none write_json base64_decode canvas_script

  abbrev Event : Type 0
  Event = Phases.Event J is_none write_json base64_decode canvas_script

  abbrev IsCapturing : Capture → Type 0
  IsCapturing = Phases.IsCapturing J is_none write_json base64_decode canvas_script

  abbrev IsDrawing : Capture → Type 0
  IsDrawing = Phases.IsDrawing J is_none write_json base64_decode canvas_script

  abbrev IsDone : Capture → Type 0
  IsDone = Phases.IsDone J is_none write_json base64_decode canvas_script

  abbrev step : Capture → Event → Capture
  step = Screenshot.step J is_none write_json base64_decode canvas_script

  abbrev run : Capture → List Event → Capture
  run = Screenshot.run J is_none write_json base64_decode canvas_script

  run-IsCapturing : (s : Capture) (es : List Event) → IsCapturing s → IsCapturing (run s es)
  unfolding Screenshot.run
  run-IsCapturing s [] v = v
  run-IsCapturing s (e ∷ es) v =
      run-IsCapturing (step s e) es
        (Phases.step-IsCapturing J is_none write_json base64_decode canvas_script s e v)

  run-IsDrawing : (s : Capture) (es : List Event) → IsDrawing s → IsDrawing (run s es)
  unfolding Screenshot.run
  run-IsDrawing s [] v = v
  run-IsDrawing s (e ∷ es) v =
      run-IsDrawing (step s e) es
        (Phases.step-IsDrawing J is_none write_json base64_decode canvas_script s e v)

  run-IsDone : (s : Capture) (es : List Event) → IsDone s → IsDone (run s es)
  unfolding Screenshot.run
  run-IsDone s [] d = d
  run-IsDone s (e ∷ es) d =
      run-IsDone (step s e) es
        (Phases.step-IsDone J is_none write_json base64_decode canvas_script s e d)

  run-append : (s : Capture) (es fs : List Event) → run s (es ++ fs) ≡ run (run s es) fs
  unfolding Screenshot.run
  run-append s [] fs = refl
  run-append s (e ∷ es) fs = run-append (step s e) es fs

  abbrev pub started : Option ℕ → Option Bool → Capture
  started w view =
      Screenshot.start J is_none write_json base64_decode canvas_script
        (Screenshot.new_capture J is_none write_json base64_decode canvas_script w view)

  start-IsCapturing : (w : Option ℕ) (view : Option Bool) → IsCapturing (started w view)
  unfolding Screenshot.start Screenshot.new_capture complete
  start-IsCapturing w none = record {
    once = record { waits = λ h. cc; done = λ h. (refl, refl, refl) };
    live = λ h. cc;
  }
  start-IsCapturing w (some false) = record {
    once = record { waits = λ h. cc; done = λ h. (refl, refl, refl) };
    live = λ h. cc;
  }
  start-IsCapturing w (some true) = record {
    once = record { waits = λ h. (refl, refl); done = λ h. cc };
    live = λ h. inl (record { running = refl; alone = refl });
  }

  -- A screenshot is answered at most once, and its object is deleted as often, whatever happens.
  pub capture-once :
      (w : Option ℕ) (view : Option Bool) (es : List Event)
      → (length (run (started w view) es).request.replies ≤ 1)
        × ((run (started w view) es).request.deletions
            ≡ length (run (started w view) es).request.replies)
  capture-once w view es =
      IsOnce-at_most _ (run-IsCapturing (started w view) es (start-IsCapturing w view)).once

  -- A screenshot whose timer fires, and after that the script that draws the page returns or times out,
  -- is answered exactly once, whatever happens before, between and after.
  pub capture-ends :
      (w : Option ℕ) (view : Option Bool) (before between later : List Event) (is_live : ℕ → Bool)
      (e : Evaluation.Event J is_none write_json)
      → length
          (run (started w view) (
            before
            ++ Screenshot.timer_fires is_live
              ∷ (between ++ Screenshot.in_fallback e ∷ later))).request.replies
        ≡ 1
  unfolding Screenshot.run
  capture-ends w view before between later is_live e =
      let capturing = run-IsCapturing (started w view) before (start-IsCapturing w view) in
      let drawing = run-IsDrawing _ between (
        Phases.timer-IsDrawing J is_none write_json base64_decode canvas_script _ is_live
          capturing) in
      let d =
        run-IsDone _ later (
          Phases.in_fallback-IsDone J is_none write_json base64_decode canvas_script _ e drawing) in
      rw
        (
          run-append (started w view) before
              (Screenshot.timer_fires is_live ∷ (between ++ Screenshot.in_fallback e ∷ later)),
          run-append (step (run (started w view) before) (Screenshot.timer_fires is_live)) between
              (Screenshot.in_fallback e ∷ later),
        )
        ((d.0.done d.1).0)
