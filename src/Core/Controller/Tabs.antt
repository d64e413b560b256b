-- ===== src/Core/Controller/Tabs.antt =====
-- browserd/core/browser_controller.cc: the calls that list, create, close and resize tabs.
use browserd.Shared.{
  ℕ, Bool, not, Option, none, some, List, [], ◌∷◌, String, concat, if◌then◌else◌, ◌==◌,
}
use browserd.Platform.Json.{Json}
use browserd.Platform.Urls.{Urls}
use browserd.Platform.Cookies.{CookieStore}
use browserd.Core.Result.{
  BrowserStatus, success, failure, is_ok, ok_status, session_not_ready, invalid_argument,
  internal_error, tab_not_found,
}
use browserd.Core.Runtime.{BrowserRuntime, TabInfo}
use browserd.Core.Controller.State
use browserd.Core.Controller.State.{not_ready_status, tab_not_found_status}
use browserd.Core.Controller.Outcomes

-- The loop over the tabs that are listed.
pub find_tab : List TabInfo → String → Option TabInfo
find_tab [] id = none
find_tab (t ∷ ts) id = if t.target_id == id then some t else find_tab ts id

module _ (U : Urls) (J : Json) (is_none : J.Value → Bool) (write_json : J.Value → String)
    (K : CookieStore U.Url) (R : BrowserRuntime U.Url) where
  abbrev pub Controller : Type 0
  Controller = State.Controller R

  abbrev pub Outcome : Type 0
  Outcome = Outcomes.Outcome U J is_none write_json K

  -- The controller, if it is still there, and what the call leads to.
  abbrev pub Step : Type 0
  Step = Option Controller × Outcome

  abbrev refresh : Controller → Controller
  refresh = State.refresh_shared_runtime_behavior R

  abbrev refuse : Option Controller → Outcomes.Reply → Step
  refuse self r = (self, Outcomes.replies r)

  -- A call on the controller and its runtime, if both are there.
  abbrev pub with_runtime :
      Option Controller → Outcomes.Reply → (Controller → R.Runtime → Step) → Step
  with_runtime none r next = refuse none r
  with_runtime (some c) r next = elim c.runtime [ none ↦ refuse (some c) r | some rt ↦ next c rt ]

  unfoldable pub list_tabs : Option Controller → Step
  list_tabs self =
      with_runtime self (Outcomes.tabs (failure session_not_ready "Browser session not ready"))
        (λ c rt. (some (refresh c), Outcomes.replies (Outcomes.tabs (success (R.list_tabs rt)))))

  -- `CreateTab`, once the runtime has made the tab or not.
  unfoldable pub tab_created : Controller → U.Url → Option TabInfo → Outcome
  tab_created c url none =
      Outcomes.replies (Outcomes.tab (failure internal_error "Failed to create tab"))
  tab_created c url (some t) =
      if U.spec url == "about:blank"
      then Outcomes.replies (Outcomes.tab (success t))
      else elim (State.resolve_web_contents R c (some t.target_id)) [
        | none ↦
            Outcomes.replies (Outcomes.tab (failure tab_not_found "New tab web contents not found"))
        | some w ↦ Outcomes.opens w url t.target_id
      ]

  unfoldable pub create_tab : Option Controller → U.Url → Step
  create_tab self url =
      with_runtime self (Outcomes.tab (failure session_not_ready "Browser session not ready"))
        (λ c rt.
          if not (U.is_valid url)
          then refuse self (Outcomes.tab (failure invalid_argument "Invalid URL"))
          else let made = R.create_tab rt url in
            let c' = refresh (record c { runtime = some made.0 }) in
            (some c', tab_created c' url made.1))

  -- The callback of the waiter of a tab that was created.
  unfoldable pub finish_create_tab :
      Option Controller → String → BrowserStatus → Option Controller × Outcomes.Reply
  finish_create_tab self target_id s =
      if not (is_ok s.code) then (self, Outcomes.tab (failure s.code s.message)) else elim self [
        | none ↦ (none, Outcomes.tab (failure session_not_ready "Browser session not ready"))
        | some c ↦ elim c.runtime [
          | none ↦ (some c, Outcomes.tab (failure session_not_ready "Browser session not ready"))
          | some rt ↦ (
            some (refresh c),
            elim (find_tab (R.list_tabs rt) target_id) [
              | none ↦ Outcomes.tab (failure tab_not_found (concat "Tab not found: " target_id))
              | some t ↦ Outcomes.tab (success t)
            ],
          )
        ]
      ]

  unfoldable pub close_tab : Option Controller → Option String → Step
  close_tab self target_id = with_runtime self (Outcomes.status not_ready_status) (λ c rt.
      let closed = R.close_tab rt target_id in
      let c' = record c { runtime = some closed.0 } in
      if not closed.1
      then (some c', Outcomes.replies (Outcomes.status (tab_not_found_status target_id)))
      else (some (refresh c'), Outcomes.replies (Outcomes.status ok_status)))

  unfoldable pub resize_active : Option Controller → ℕ → ℕ → Step
  resize_active self width height = with_runtime self (Outcomes.status not_ready_status) (λ c rt. (
    some (record c { runtime = some (R.resize_active rt width height) }),
    Outcomes.replies (Outcomes.status ok_status),
  ))

  -- `Shutdown` has no callback.
  unfoldable pub shutdown : Option Controller → Option Controller
  shutdown none = none
  shutdown (some c) = elim c.runtime [
    | none ↦ some c
    | some rt ↦ some (record c { runtime = some (R.shutdown rt) })
  ]
