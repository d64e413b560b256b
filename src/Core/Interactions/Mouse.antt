-- ===== src/Core/Interactions/Mouse.antt =====
-- browserd/core/browser_interactions.cc: the delayed tasks of `AnimateMousePath`, `Click` in a tab that
-- resolves, and the tasks of `Hover` when the node and the path to it are found.
pub mod Clicks
pub mod Outcomes
mod Tests
use browserd.Shared.{
  ℕ, Option, none, some, String, Text, Bool, true, false, not, List, [], ◌∷◌, ◌++◌, if◌then◌else◌,
}
use browserd.Platform.Json.{ℤ}
use browserd.Core.Interactions.Elements.{
  parse_dom_ref, parse_ref, eval_status, invalid_ref, no_frame, no_element,
}
use browserd.Core.Result.{BrowserStatus, BrowserResult, ok_status}
use browserd.Core.Interactions.Typing.{no_render_view}

-- The events that `ForwardMouseMove` and `ForwardMouseButton` forward.
pub data MouseEvent (Point : Type 0) : Type 0 where
  mouse_move : Point → MouseEvent Point
  mouse_down : Point → MouseEvent Point
  mouse_up : Point → MouseEvent Point

-- The task that is posted: a point of the path, the press or the release of the button, or none.
pub data Stage (Point : Type 0) : Type 0 where
  moving : List Point → Stage Point
  pressing : Stage Point
  releasing : Stage Point
  answered : BrowserStatus → Stage Point

-- `mouse` is the `MouseState`.
pub record Pointing (Point : Type 0) : Type 0 where
  pub mouse : Point
  pub stage : Stage Point
  pub events : List (MouseEvent Point)

module _ {Point : Type 0} where
  unfoldable pub forward_mouse_move : Point → Pointing Point → Pointing Point
  forward_mouse_move p s = record s { mouse = p; events = s.events ++ mouse_move p ∷ [] }

  -- `on_done` runs in the task that ends the path, with its render view.
  unfoldable pub animate_mouse_path :
      List Point → (Bool → Pointing Point → Pointing Point) → Bool → Pointing Point → Pointing Point
  animate_mouse_path [] on_done has_view s = on_done has_view s
  animate_mouse_path (p ∷ path) on_done has_view s =
      if not has_view
      then on_done has_view s
      else record (forward_mouse_move p s) { stage = moving path }

  unfoldable pub reach : Bool → Pointing Point → Pointing Point
  reach has_view s =
      if not has_view
      then record s { stage = answered no_render_view }
      else record s { stage = pressing }

  unfoldable pub press : Point → Bool → Pointing Point → Pointing Point
  press target has_view s =
      if not has_view
      then record s { stage = answered no_render_view }
      else record s { stage = releasing; events = s.events ++ mouse_down target ∷ [] }

  unfoldable pub release : Point → Bool → Pointing Point → Pointing Point
  release target has_view s =
      if not has_view
      then record s { stage = answered no_render_view }
      else record s { stage = answered ok_status; events = s.events ++ mouse_up target ∷ [] }

  -- The delayed task of a click at the target.
  unfoldable pub click_task : Point → Pointing Point → Bool → Pointing Point
  click_task target s has_view = elim s.stage [
    | moving path ↦ animate_mouse_path path reach has_view s
    | pressing ↦ press target has_view s
    | releasing ↦ release target has_view s
    | answered status ↦ s
  ]

  unfoldable pub click_tasks : Point → Pointing Point → List Bool → Pointing Point
  click_tasks target s [] = s
  click_tasks target s (v ∷ vs) = click_tasks target (click_task target s v) vs

  -- The delayed task of a hover: the path's end, and its loss, are both a success.
  unfoldable pub arrive : Bool → Pointing Point → Pointing Point
  arrive has_view s = record s { stage = answered ok_status }

  unfoldable pub hover_task : Pointing Point → Bool → Pointing Point
  hover_task s has_view = elim s.stage [
    | moving path ↦ animate_mouse_path path arrive has_view s
    | pressing ↦ s
    | releasing ↦ s
    | answered status ↦ s
  ]

  unfoldable pub hover_tasks : Pointing Point → List Bool → Pointing Point
  hover_tasks s [] = s
  hover_tasks s (v ∷ vs) = hover_tasks (hover_task s v) vs

  abbrev pub new_pointing : Point → List Point → Pointing Point
  new_pointing mouse path = record { mouse = mouse; stage = moving path; events = [] }

-- What a click meets on its page: what the script gives that clicks the element of an index, whether
-- there is a primary main frame, and for a node that is in the accessibility tree the point that is
-- clicked, with the path that `GenerateMousePath` gives to it. A node is scrolled into view first, which
-- is no event of the mouse.
pub record ClickPage (Point : Type 0) : Type 0 where
  pub script : ℕ → BrowserResult (Option String)
  pub has_frame : Bool
  pub node : ℤ → Option (Point × List Point)

module _ {Point : Type 0} (string_to_int : Text → Option ℤ) where
  -- An answer without an event of the mouse.
  abbrev pub answers : Point → BrowserStatus → Pointing Point
  answers mouse status = record { mouse = mouse; stage = answered status; events = [] }

  unfoldable pub click_node : ClickPage Point → Point → ℤ → List Bool → Pointing Point
  click_node page mouse node_id vs =
      if not page.has_frame then answers mouse no_frame else elim (page.node node_id) [
        | none ↦ answers mouse no_element
        | some found ↦ click_tasks found.0 (new_pointing mouse found.1) vs
      ]

  -- `Click` in a tab that resolves, with the delayed tasks that follow; the first runs at once.
  unfoldable pub click : ClickPage Point → Point → Text → List Bool → Pointing Point
  click page mouse ref vs = elim (parse_dom_ref string_to_int ref) [
    | some dom_index ↦ answers mouse (eval_status (page.script dom_index))
    | none ↦ elim (parse_ref string_to_int ref) [
      | none ↦ answers mouse invalid_ref
      | some node_id ↦ click_node page mouse node_id vs
    ]
  ]
