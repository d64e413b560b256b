-- ===== src/Core/Controller/State.antt =====
-- browserd/core/browser_controller.cc: the controller's state, and how it follows the runtime's tabs.
use browserd.Shared.{
  ℕ, Bool, false, not, ◌||◌, Option, none, some, List, [], ◌∷◌, ◌++◌, String, eqb, ◌==◌,
  if◌then◌else◌, concat,
}
use browserd.Core.Runtime.{BrowserRuntime}
use browserd.Core.Result.{BrowserStatus, error_status, tab_not_found, session_not_ready}

abbrev pub contains : List ℕ → ℕ → Bool
contains [] w = false
contains (v ∷ vs) w = eqb v w || contains vs w

-- `TabNotFound` and the status of a browser that is not there.
unfoldable pub tab_not_found_status : Option String → BrowserStatus
tab_not_found_status none = error_status tab_not_found "No active tab"
tab_not_found_status (some id) = error_status tab_not_found (concat "Tab not found: " id)

abbrev pub not_ready_status : BrowserStatus
not_ready_status = error_status session_not_ready "Browser session not ready"

-- A `PageInstrumentation` is the web contents that it observes, while it does.
abbrev pub observes : List (Option ℕ) → ℕ → Bool
observes [] w = false
observes (none ∷ os) w = observes os w
observes (some v ∷ os) w = eqb v w || observes os w

-- The observers that `remove_if` keeps.
unfoldable pub keep_observers : List ℕ → List (Option ℕ) → List (Option ℕ)
keep_observers all [] = []
keep_observers all (none ∷ os) = keep_observers all os
keep_observers all (some w ∷ os) =
    let rest = keep_observers all os in if contains all w then some w ∷ rest else rest

unfoldable pub observe_each : List ℕ → List (Option ℕ) → List (Option ℕ)
observe_each [] os = os
observe_each (w ∷ ws) os = observe_each ws (if observes os w then os else os ++ some w ∷ [])

-- `WebContentsDestroyed` of the observers of a page and of the simulator.
unfoldable pub forget : ℕ → List (Option ℕ) → List (Option ℕ)
forget w [] = []
forget w (none ∷ os) = none ∷ forget w os
forget w (some v ∷ os) = (if eqb v w then none else some v) ∷ forget w os

abbrev forget_active : ℕ → Option ℕ → Option ℕ
forget_active w none = none
forget_active w (some v) = if eqb v w then none else some v

module _ {Url : Type 0} (R : BrowserRuntime Url) where
  -- `simulated` is the web contents that the behavior simulator observes.
  pub record Controller : Type 0 where
    pub runtime : Option R.Runtime
    pub instrumentation : List (Option ℕ)
    pub simulated : Option ℕ

  unfoldable pub resolve_web_contents : Controller → Option String → Option ℕ
  resolve_web_contents c target_id = elim c.runtime [
    | none ↦ none
    | some rt ↦ elim target_id [
      | none ↦ R.active_web_contents rt
      | some id ↦
          if not (id == "") then R.get_web_contents_by_target_id rt id else R.active_web_contents rt
    ]
  ]

  unfoldable pub refresh_shared_runtime_behavior : Controller → Controller
  refresh_shared_runtime_behavior c = elim c.runtime [
    | none ↦ record c { instrumentation = []; simulated = none }
    | some rt ↦ record c {
      instrumentation =
          observe_each (R.all_web_contents rt)
            (keep_observers (R.all_web_contents rt) c.instrumentation);
      simulated = R.active_web_contents rt;
    }
  ]

  -- The constructor.
  unfoldable pub new_controller : Option R.Runtime → Controller
  new_controller rt =
      refresh_shared_runtime_behavior
        (record { runtime = rt; instrumentation = []; simulated = none })

  unfoldable pub web_contents_destroyed : Controller → ℕ → Controller
  web_contents_destroyed c w = record c {
    instrumentation = forget w c.instrumentation;
    simulated = forget_active w c.simulated;
  }
