-- ===== src/Core/Interactions/Mouse/Outcomes.antt =====
-- browserd/core/browser_interactions.cc: what a click did that is answered with success.
use browserd.Shared.{
  ℕ, Option, none, some, String, Text, codes, Bool, true, false, not, List, [], ◌∷◌, ◌++◌, ◌||◌,
  map, ◌≡◌, ◌≢◌, refl, sym, ap, ◌∙◌, eqb_iff, if_elim, if_true, Option_elim, of_not-false,
  false≢true, neither_of_or, subst, some-injective,
}
use browserd.Platform.Json.{ℤ}
use browserd.Core.Result.{BrowserStatus, BrowserResult, success, failure, ok_status, ok, StatusCode}
use browserd.Core.Interactions.Elements
use browserd.Core.Interactions.Elements.{parse_dom_ref, parse_ref}
use browserd.Core.Interactions.Mouse
use browserd.Core.Interactions.Mouse.Clicks

after_prefix-append : (p s : Text) → Elements.after_prefix p (p ++ s) ≡ some s
unfolding Elements.after_prefix
after_prefix-append [] s = refl
after_prefix-append (c ∷ p) s = if_true _ _ _ ((eqb_iff c c).1 refl) ∙ after_prefix-append p s

contains_here :
    (s needle rest : Text)
    → Elements.after_prefix needle s ≡ some rest
    → Elements.contains s needle ≡ true
unfolding Elements.contains
contains_here [] needle rest e = rw (Elements.contains, e) refl
contains_here (c ∷ s) needle rest e = rw (Elements.contains, e) refl

-- A text that has another one in it.
contains-append :
    (before needle after : Text) → Elements.contains (before ++ needle ++ after) needle ≡ true
unfolding Elements.contains
contains-append [] needle after =
    contains_here (needle ++ after) needle after (after_prefix-append needle after)
contains-append (c ∷ before) needle after =
    Option_elim (λ b. b ≡ true) (Elements.after_prefix needle (c ∷ (before ++ needle ++ after)))
      (λ _. contains-append before needle after) (λ _ _. refl)

-- There is no such part in a text.
abbrev pub Lacks : Text → Text → Type 0
Lacks s needle = (before after : Text) → s ≢ before ++ needle ++ after

contains-Lacks : (s needle : Text) → Elements.contains s needle ≡ false → Lacks s needle
contains-Lacks s needle h before after e =
    false≢true
      (sym h ∙ ap (λ t. Elements.contains t needle) e ∙ contains-append before needle after)

-- A script did not fail, with a code that is an error's, and gave no string that speaks of an error.
pub record Succeeds (r : BrowserResult (Option String)) : Type 0 where
  pub ran : (code : StatusCode) (message : String) → r ≡ failure code message → code ≡ ok
  pub no_error : (s : String) → r ≡ success (some s) → Lacks (codes s) (codes "Error")
  pub found : (s : String) → r ≡ success (some s) → Lacks (codes s) (codes "not found")

code_of : BrowserResult (Option String) → StatusCode
code_of (failure c m) = c
code_of (success v) = ok

string_of : BrowserResult (Option String) → Option String
string_of (failure c m) = none
string_of (success v) = v

-- The string of a script that is answered with success.
Quiet : String → BrowserStatus → Type 0
Quiet s status =
    status ≡ ok_status → Lacks (codes s) (codes "Error") × Lacks (codes s) (codes "not found")

string-Quiet : (s : String) → Quiet s (Elements.eval_status (success (some s)))
unfolding Elements.eval_status Quiet
string-Quiet s =
    if_elim (Quiet s)
      (Elements.contains (codes s) (codes "Error")
        || Elements.contains (codes s) (codes "not found"))
      (λ _ e. cc)
      (λ h e.
        let both = neither_of_or _ _ h in
        (
          contains-Lacks (codes s) (codes "Error") both.0,
          contains-Lacks (codes s) (codes "not found") both.1,
        ))

eval_status-Succeeds :
    (r : BrowserResult (Option String)) → Elements.eval_status r ≡ ok_status → Succeeds r
unfolding Elements.eval_status code_of string_of Quiet
eval_status-Succeeds (failure c m) h = record {
  ran = λ code message e. sym (ap code_of e) ∙ ap (λ (s : BrowserStatus). s.code) h;
  no_error = λ s e. cc;
  found = λ s e. cc;
}
eval_status-Succeeds (success none) h = record {
  ran = λ code message e. cc;
  no_error = λ s e. cc;
  found = λ s e. cc;
}
eval_status-Succeeds (success (some t)) h =
    let quiet = string-Quiet t h in
    record {
      ran = λ code message e. cc;
      no_error = λ s e.
          subst (λ u. Lacks (codes u) (codes "Error")) (some-injective t s (ap string_of e))
            quiet.0;
      found = λ s e.
          subst (λ u. Lacks (codes u) (codes "not found")) (some-injective t s (ap string_of e))
            quiet.1;
    }

status_of : {Point : Type 0} → Mouse.Stage Point → BrowserStatus
status_of (Mouse.answered status) = status
status_of s = ok_status

module _ {Point : Type 0} (string_to_int : Text → Option ℤ) where
  -- The script for an element with an index did the click, and the mouse nothing; or the mouse went
  -- along the path to the node, and its button was pressed and released once, there.
  pub data DoneBy (page : Mouse.ClickPage Point) (ref : Text)
      : List (Mouse.MouseEvent Point) → Type 0 where
    by_script :
        (i : ℕ)
        → parse_dom_ref string_to_int ref ≡ some i
        → Succeeds (page.script i)
        → DoneBy page ref []
    by_mouse :
        (n : ℤ) (target : Point) (path : List Point)
        → parse_dom_ref string_to_int ref ≡ none
        → parse_ref string_to_int ref ≡ some n
        → page.has_frame ≡ true
        → page.node n ≡ some (target, path)
        → DoneBy page ref
            (map Mouse.mouse_move path ++ Mouse.mouse_down target ∷ Mouse.mouse_up target ∷ [])

  Done : Mouse.ClickPage Point → Text → Mouse.Pointing Point → Type 0
  Done page ref s = s.stage ≡ Mouse.answered ok_status → DoneBy page ref s.events

  -- A click that is answered with success was done by the script of its page, which ran and gave no
  -- error, where its reference is one of the page's index, and else by the mouse, which moved along the
  -- path to the node, and then pressed and released the button once, at its point.
  pub click-DoneBy :
      (page : Mouse.ClickPage Point) (mouse : Point) (ref : Text) (vs : List Bool)
      → (Mouse.click string_to_int page mouse ref vs).stage ≡ Mouse.answered ok_status
      → DoneBy page ref (Mouse.click string_to_int page mouse ref vs).events
  unfolding Mouse.click Mouse.click_node Done status_of
  click-DoneBy page mouse ref vs =
      Option_elim (Done page ref) (parse_dom_ref string_to_int ref)
        (λ by_node.
          Option_elim (Done page ref) (parse_ref string_to_int ref) (λ _ h. cc)
            (λ n node.
              if_elim (Done page ref) (not page.has_frame) (λ _ h. cc)
                (λ framed.
                  Option_elim (Done page ref) (page.node n) (λ _ h. cc)
                    (λ found e h.
                      subst (DoneBy page ref)
                        (sym (Clicks.click-presses found.0 mouse found.1 vs h))
                        (by_mouse n found.0 found.1 by_node node (of_not-false _ framed) e)))))
        (λ i indexed h. by_script i indexed (eval_status-Succeeds (page.script i) (ap status_of h)))
