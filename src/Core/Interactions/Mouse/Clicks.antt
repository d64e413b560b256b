-- ===== src/Core/Interactions/Mouse/Clicks.antt =====
-- browserd/core/browser_interactions.cc: what the page gets of a click.
use browserd.Shared.{
  ◌≡◌, refl, sym, ap, ◌∙◌, subst, Bool, true, false, List, [], ◌∷◌, ◌++◌, map, append_assoc, length,
  ◌+◌, ◌≤◌, arith, ◌⊎◌, inl, inr,
}
use browserd.Core.Result.{BrowserStatus, ok_status}
use browserd.Core.Interactions.Typing.{no_render_view}
use browserd.Core.Interactions.Mouse

module _ {Point : Type 0} (target : Point) where
  -- A click that is on its way.
  abbrev on_way : Point → List (Mouse.MouseEvent Point) → Mouse.Stage Point → Mouse.Pointing Point
  on_way m es stage = record { mouse = m; stage = stage; events = es }

  abbrev click_events : List Point → List (Mouse.MouseEvent Point)
  click_events path =
      map Mouse.mouse_move path ++ Mouse.mouse_down target ∷ Mouse.mouse_up target ∷ []

  answered_stays :
      (m : Point) (es : List (Mouse.MouseEvent Point)) (status : BrowserStatus) (vs : List Bool)
      → Mouse.click_tasks target (on_way m es (Mouse.answered status)) vs
        ≡ on_way m es (Mouse.answered status)
  unfolding Mouse.click_tasks Mouse.click_task
  answered_stays m es status [] = refl
  answered_stays m es status (v ∷ vs) = answered_stays m es status vs

  -- A click answered `ok_status` gave the page these events more.
  abbrev Gives :
      List (Mouse.MouseEvent Point) → List (Mouse.MouseEvent Point) → Mouse.Pointing Point → Type 0
  Gives es more s = s.stage ≡ Mouse.answered ok_status → s.events ≡ es ++ more

  -- A click that is answered with an error gives nothing of which this speaks.
  lost-Gives :
      (m : Point) (es fs more : List (Mouse.MouseEvent Point)) (vs : List Bool)
      → Gives es more (Mouse.click_tasks target (on_way m fs (Mouse.answered no_render_view)) vs)
  lost-Gives m es fs more vs =
      subst (Gives es more) (sym (answered_stays m fs no_render_view vs)) (λ e. cc)

  release-Gives :
      (m : Point) (es : List (Mouse.MouseEvent Point)) (vs : List Bool)
      → Gives es
          (Mouse.mouse_up target ∷ [])
          (Mouse.click_tasks target (on_way m es Mouse.releasing) vs)
  unfolding Mouse.click_tasks Mouse.click_task Mouse.release
  release-Gives m es [] = λ e. cc
  release-Gives m es (true ∷ vs) = λ e. ap (λ s. s.events) (answered_stays m _ ok_status vs)
  release-Gives m es (false ∷ vs) = lost-Gives m es es _ vs

  press-Gives :
      (m : Point) (es : List (Mouse.MouseEvent Point)) (vs : List Bool)
      → Gives es
          (Mouse.mouse_down target ∷ Mouse.mouse_up target ∷ [])
          (Mouse.click_tasks target (on_way m es Mouse.pressing) vs)
  unfolding Mouse.click_tasks Mouse.click_task Mouse.press
  press-Gives m es [] = λ e. cc
  press-Gives m es (true ∷ vs) = λ e.
      release-Gives m (es ++ Mouse.mouse_down target ∷ []) vs e
      ∙ append_assoc es (Mouse.mouse_down target ∷ []) (Mouse.mouse_up target ∷ [])
  press-Gives m es (false ∷ vs) = lost-Gives m es es _ vs

  move-Gives :
      (m : Point) (es : List (Mouse.MouseEvent Point)) (path : List Point) (vs : List Bool)
      → Gives es (click_events path) (Mouse.click_tasks target (on_way m es (Mouse.moving path)) vs)
  unfolding Mouse.click_tasks Mouse.click_task Mouse.animate_mouse_path Mouse.reach
      Mouse.forward_mouse_move
  move-Gives m es path [] = λ e. cc
  move-Gives m es [] (true ∷ vs) = press-Gives m es vs
  move-Gives m es [] (false ∷ vs) = lost-Gives m es es _ vs
  move-Gives m es (p ∷ path) (true ∷ vs) = λ e.
      move-Gives p (es ++ Mouse.mouse_move p ∷ []) path vs e
      ∙ append_assoc es (Mouse.mouse_move p ∷ []) (click_events path)
  move-Gives m es (p ∷ path) (false ∷ vs) = lost-Gives m es es _ vs

  -- A click that is answered with success moved the mouse along the path, and then pressed and
  -- released the button once, at the target.
  pub click-presses :
      (mouse : Point) (path : List Point) (vs : List Bool)
      → (Mouse.click_tasks target (Mouse.new_pointing mouse path) vs).stage
        ≡ Mouse.answered ok_status
      → (Mouse.click_tasks target (Mouse.new_pointing mouse path) vs).events
        ≡ map Mouse.mouse_move path ++ Mouse.mouse_down target ∷ Mouse.mouse_up target ∷ []
  click-presses mouse path vs = move-Gives mouse [] path vs

  IsAnswered : Mouse.Stage Point → Type 0
  IsAnswered stage = (stage ≡ Mouse.answered ok_status) ⊎ (stage ≡ Mouse.answered no_render_view)

  -- A click is answered within one task for each point of the path and three more, whatever
  -- becomes of the render view.
  click-IsAnswered :
      (m : Point) (es : List (Mouse.MouseEvent Point)) (path : List Point) (vs : List Bool)
      → length path + 3 ≤ length vs
      → IsAnswered (Mouse.click_tasks target (on_way m es (Mouse.moving path)) vs).stage
  unfolding IsAnswered Mouse.click_tasks Mouse.click_task Mouse.animate_mouse_path Mouse.reach
      Mouse.forward_mouse_move Mouse.press Mouse.release
  click-IsAnswered m es path [] h = absurd (omega arith)
  click-IsAnswered m es [] (true ∷ []) h = absurd (omega arith)
  click-IsAnswered m es [] (true ∷ true ∷ []) h = absurd (omega arith)
  click-IsAnswered m es [] (true ∷ true ∷ true ∷ vs) h =
      inl (ap (λ s. s.stage) (answered_stays m _ ok_status vs))
  click-IsAnswered m es [] (true ∷ true ∷ false ∷ vs) h =
      inr (ap (λ s. s.stage) (answered_stays m _ no_render_view vs))
  click-IsAnswered m es [] (true ∷ false ∷ vs) h =
      inr (ap (λ s. s.stage) (answered_stays m es no_render_view vs))
  click-IsAnswered m es [] (false ∷ vs) h =
      inr (ap (λ s. s.stage) (answered_stays m es no_render_view vs))
  click-IsAnswered m es (p ∷ path) (true ∷ vs) h =
      click-IsAnswered p (es ++ Mouse.mouse_move p ∷ []) path vs (omega arith)
  click-IsAnswered m es (p ∷ path) (false ∷ vs) h =
      inr (ap (λ s. s.stage) (answered_stays m es no_render_view vs))
