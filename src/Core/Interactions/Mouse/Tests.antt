-- ===== src/Core/Interactions/Mouse/Tests.antt =====
-- A click whose points are numbers, on a page that keeps its render view.
use browserd.Shared.{
  Option, some, none, Text, codes, text_eq, if◌then◌else◌, ℕ, ◌≡◌, refl, Bool, true, false, List,
  [], ◌∷◌,
}
use browserd.Platform.Json.{ℤ, pos}
use browserd.Core.Result.{ok_status, success}
use browserd.Core.Interactions.Elements
use browserd.Core.Interactions.Mouse
use browserd.Core.Interactions.Mouse.Outcomes

abbrev views : List Bool
views = true ∷ true ∷ true ∷ true ∷ true ∷ []

-- A reader that knows one number, and a page with one node.
abbrev reader : Text → Option ℤ
reader s = if text_eq s (codes "7") then some (pos 7) else none

abbrev page : Mouse.ClickPage ℕ
page = record {
  script = λ i. success (some "Clicked element");
  has_frame = true;
  node = λ n. some (9, 4 ∷ 8 ∷ []);
}

node_clicked : (Mouse.click reader page 1 (codes "7") views).stage ≡ Mouse.answered ok_status
unfolding Mouse.click Mouse.click_node Mouse.click_tasks Mouse.click_task Mouse.animate_mouse_path
    Mouse.reach Mouse.forward_mouse_move Mouse.press Mouse.release Elements.parse_dom_ref
    Elements.parse_ref Elements.after_prefix text_eq
node_clicked = refl

click-DoneBy_example :
    Outcomes.DoneBy reader page (codes "7") (Mouse.click reader page 1 (codes "7") views).events
click-DoneBy_example = Outcomes.click-DoneBy reader page 1 (codes "7") views node_clicked

script_clicked : (Mouse.click reader page 1 (codes "dom:7") []).stage ≡ Mouse.answered ok_status
unfolding Mouse.click Elements.parse_dom_ref Elements.eval_status Elements.contains
    Elements.after_prefix text_eq
script_clicked = refl

-- The render view is gone before the mouse has moved, and the hover is a success.
hover_lost :
    (Mouse.hover_tasks {Point = ℕ} (Mouse.new_pointing 1 (4 ∷ 8 ∷ [])) (false ∷ [])).stage
    ≡ Mouse.answered ok_status
unfolding Mouse.hover_tasks Mouse.hover_task Mouse.animate_mouse_path Mouse.arrive
hover_lost = refl
