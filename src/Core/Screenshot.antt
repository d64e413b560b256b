-- ===== src/Core/Screenshot.antt =====
-- browserd/core/browser_controller.cc: `ScreenshotCaptureRequest`, which takes a picture of a page and,
-- when that takes too long, has a script draw one.
pub mod Phases
pub mod Once
mod Tests
use browserd.Shared.{
  ◌+◌, ℕ, Bool, true, false, not, ◌||◌, Option, none, some, List, [], ◌∷◌, String, Text, codes,
  text_eq, is_empty, has_value, length, take, drop, if◌then◌else◌,
}
use browserd.Platform.Json.{Json, pos}
use browserd.Core.Result.{BrowserResult, success, failure, screenshot_failed, timeout}
use browserd.Core.Request.{Request, new_request, complete, set_timer}
use browserd.Core.Evaluation

abbrev pub Bytes : Type 0
Bytes = List ℕ

-- A `gfx::Image`; `png` is what `EncodeBGRASkBitmap` makes of its bitmap.
pub record Image : Type 0 where
  pub is_empty_image : Bool
  pub draws_nothing : Bool
  pub png : Option Bytes

abbrev pub png_data_url_prefix : String
png_data_url_prefix = "data:image/png;base64,"

-- `rfind(prefix, 0) == 0`
pub starts_with : Text → Text → Bool
starts_with s prefix = text_eq (take (length prefix) s) prefix

-- The bytes of a decoded picture; no bytes are an error.
pub decoded : Option Bytes → BrowserResult Bytes
decoded none = failure screenshot_failed "Screenshot fallback PNG decode failed"
decoded (some bytes) =
    if is_empty bytes
    then failure screenshot_failed "Screenshot fallback PNG decode failed"
    else success bytes

pub encoded : Image → BrowserResult Bytes
encoded image =
    if image.is_empty_image
    then failure screenshot_failed "Screenshot failed"
    else if image.draws_nothing
    then failure screenshot_failed "Screenshot is empty"
    else elim image.png [
      | none ↦ failure screenshot_failed "PNG encoding failed"
      | some bytes ↦ success bytes
    ]

module _ (J : Json) (is_none : J.Value → Bool) (write_json : J.Value → String)
    (base64_decode : Text → Option Bytes) (canvas_script : String) where
  abbrev pub Fallback : Type 0
  Fallback = Evaluation.Evaluation J is_none write_json

  abbrev pub FallbackResult : Type 0
  FallbackResult = Evaluation.EvaluationResult J is_none write_json

  -- `view` is the render view, with whether it has a render widget host; `snapshots` counts the calls of
  -- `GetSnapshotFromBrowser`; `fallback` is the evaluation that draws the page, once there is one.
  pub record Capture : Type 0 where
    pub web_contents : Option ℕ
    pub view : Option Bool
    pub request : Request (BrowserResult Bytes)
    pub snapshots : ℕ
    pub fallback : Option Fallback

  pub new_capture : Option ℕ → Option Bool → Capture
  new_capture w view = record {
    web_contents = w;
    view = view;
    request = new_request;
    snapshots = 0;
    fallback = none;
  }

  abbrev pub finish : Capture → BrowserResult Bytes → Capture
  finish s r = record s { request = complete s.request r }

  pub start : Capture → Capture
  start s = elim s.view [
    | none ↦ finish s (failure screenshot_failed "No render view available")
    | some has_widget ↦
        if not has_widget
        then finish s (failure screenshot_failed "No render widget available")
        else record s { request = set_timer s.request true; snapshots = s.snapshots + 1 }
  ]

  pub on_snapshot_from_browser : Capture → Image → Capture
  on_snapshot_from_browser s image = finish s (encoded image)

  -- What is made of the text that the script gives.
  pub picture : Option String → BrowserResult Bytes
  picture none = failure screenshot_failed "Screenshot fallback returned no data"
  picture (some data_url) =
      if not (starts_with (codes data_url) (codes png_data_url_prefix))
      then failure screenshot_failed "Screenshot fallback returned invalid data"
      else decoded (base64_decode (drop (length (codes png_data_url_prefix)) (codes data_url)))

  pub on_dom_fallback : Capture → FallbackResult → Capture
  on_dom_fallback s (failure code message) = finish s (failure code message)
  on_dom_fallback s (success v) = finish s (picture (J.as_string v.value))

  -- The script's request, with what its callback has been run with since it was `before`.
  pub deliver : Capture → List FallbackResult → Capture
  deliver s [] = s
  deliver s (r ∷ rs) = deliver (on_dom_fallback s r) rs

  pub advance : Capture → List FallbackResult → Fallback → Capture
  advance s before f =
      deliver (record s { fallback = some f }) (drop (length before) f.request.replies)

  pub start_dom_fallback : (ℕ → Bool) → Capture → Capture
  start_dom_fallback is_live s = elim s.web_contents [
    | none ↦ finish s (failure timeout "Screenshot timed out")
    | some w ↦ advance s [] (
        Evaluation.evaluate_with_dev_tools J is_none write_json is_live (some w) canvas_script true
          (pos 10000))
  ]

  pub on_timeout : (ℕ → Bool) → Capture → Capture
  on_timeout is_live s = start_dom_fallback is_live s

  -- The browser gives its picture, the timer fires (`is_live` says which frames live then), or
  -- something happens to the script.
  pub data Event : Type 0 where
    snapshot : Image → Event
    timer_fires : (ℕ → Bool) → Event
    in_fallback : Evaluation.Event J is_none write_json → Event

  pub step : Capture → Event → Capture
  step s (snapshot image) = on_snapshot_from_browser s image
  step s (timer_fires is_live) =
      if s.request.timer
      then on_timeout is_live (record s { request = set_timer s.request false })
      else s
  step s (in_fallback e) = elim s.fallback [
    | none ↦ s
    | some f ↦ advance s f.request.replies (Evaluation.step J is_none write_json f e)
  ]

  pub run : Capture → List Event → Capture
  run s [] = s
  run s (e ∷ es) = run (step s e) es
