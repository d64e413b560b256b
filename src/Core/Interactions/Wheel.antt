-- ===== src/Core/Interactions/Wheel.antt =====
-- browserd/core/browser_interactions.cc: `Scroll` and `ScrollStep`, the loop of delayed tasks that turns the wheel.
pub mod Chunks
pub mod Directions
mod Tests
use browserd.Shared.{
  ℕ, zero, suc, ◌+◌, ◌-◌, ◌^◌, Bool, Option, none, some, List, [], ◌∷◌, ◌++◌, ltb, eqb,
  if◌then◌else◌, not,
}
use browserd.Platform.Json.{ℤ, pos, negsuc}
use browserd.Core.Result.{BrowserStatus, ok_status}
use browserd.Core.Interactions.Typing.{no_render_view}

-- The deltas of the `WebMouseWheelEvent` that is forwarded.
pub record Wheel : Type 0 where
  pub delta_x : ℤ
  pub delta_y : ℤ

-- `ScrollState`, the events that the page got, and the answer.
pub record Scrolling : Type 0 where
  pub remaining : ℕ
  pub wheels : List Wheel
  pub answer : Option BrowserStatus

-- What the next task meets: the value of `RandInt(0, 40)`, and whether there is a render view.
pub record Meeting : Type 0 where
  pub random : ℕ
  pub has_view : Bool

unfoldable pub min : ℕ → ℕ → ℕ
min a b = if ltb b a then b else a

-- `std::max` on `int`.
unfoldable pub max : ℤ → ℤ → ℤ
max (pos a) (pos b) = if ltb a b then pos b else pos a
max (pos a) (negsuc b) = pos a
max (negsuc a) (pos b) = pos b
max (negsuc a) (negsuc b) = if ltb b a then negsuc b else negsuc a

-- `std::abs` on `int`; of the least one, which C++ leaves undefined, it is that number again, as the
-- negation wraps around.
unfoldable pub abs : ℤ → ℤ
abs (pos n) = pos n
abs (negsuc n) = if eqb n (2 ^ 31 - 1) then negsuc n else pos (suc n)

unfoldable pub neg : ℕ → ℤ
neg zero = pos 0
neg (suc n) = negsuc n

-- The delta of the wheel, `-step_x` or `-step_y`, for a delta of the page.
unfoldable pub wheel_delta : ℤ → ℕ → ℤ
wheel_delta (pos zero) chunk = pos 0
wheel_delta (pos (suc n)) chunk = neg chunk
wheel_delta (negsuc n) chunk = pos chunk

unfoldable pub wheel : ℤ → ℤ → ℕ → Wheel
wheel delta_x delta_y chunk = record {
  delta_x = wheel_delta delta_x chunk;
  delta_y = wheel_delta delta_y chunk;
}

-- The chunk is taken off what remains, and the wheel is turned by it.
unfoldable pub turn : ℤ → ℤ → Scrolling → ℕ → Scrolling
turn delta_x delta_y s chunk = record s {
  remaining = s.remaining - chunk;
  wheels = s.wheels ++ wheel delta_x delta_y chunk ∷ [];
}

unfoldable pub scroll_step : ℤ → ℤ → Scrolling → Meeting → Scrolling
scroll_step delta_x delta_y s m =
    if eqb s.remaining 0
    then record s { answer = some ok_status }
    else if not m.has_view
    then record s { answer = some no_render_view }
    else turn delta_x delta_y s (min s.remaining (40 + m.random))

-- The delayed task runs, unless the scrolling is answered and none is posted.
unfoldable pub run_step : ℤ → ℤ → Scrolling → Meeting → Scrolling
run_step delta_x delta_y s m = elim s.answer [
  | none ↦ scroll_step delta_x delta_y s m
  | some status ↦ s
]

unfoldable pub run_steps : ℤ → ℤ → Scrolling → List Meeting → Scrolling
run_steps delta_x delta_y s [] = s
run_steps delta_x delta_y s (m ∷ ms) = run_steps delta_x delta_y (run_step delta_x delta_y s m) ms

abbrev pub new_scrolling : ℕ → Scrolling
new_scrolling total = record { remaining = total; wheels = []; answer = none }

-- `Scroll` of a tab that resolves, with the tasks that follow: the first step runs at once. What
-- remains of a negative total ends the steps as 0 does.
unfoldable pub scroll : ℤ → ℤ → List Meeting → Scrolling
scroll delta_x delta_y ms = elim (max (abs delta_x) (abs delta_y)) [
  | pos total ↦
      if eqb total 0
      then record (new_scrolling 0) { answer = some ok_status }
      else run_steps delta_x delta_y (new_scrolling total) ms
  | negsuc n ↦ run_steps delta_x delta_y (new_scrolling 0) ms
]
