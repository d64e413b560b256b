-- ===== src/Core/Controller/Histories.antt =====
-- browserd/core/browser_controller.cc: a controller over the calls on its tabs, while pages close.
use browserd.Shared.{
  subst, sym, ◌∙◌, ℕ, ◌≡◌, refl, Bool, not, Option, none, some, some-injective, List, [], ◌∷◌,
  String, if_elim, Option_elim,
}
use browserd.Platform.Json.{Json}
use browserd.Platform.Urls.{Urls}
use browserd.Platform.Cookies.{CookieStore}
use browserd.Core.Result.{BrowserStatus, is_ok}
use browserd.Core.Runtime.{BrowserRuntime}
use browserd.Core.Controller.State
use browserd.Core.Controller.Tabs
use browserd.Core.Controller.Outcomes
use browserd.Core.Controller.Instrumentation.{
  IsDistinct, IsInstrumented, refresh-IsInstrumented, forget-IsDistinct,
}

module _ (U : Urls) (J : Json) (is_none : J.Value → Bool) (write_json : J.Value → String)
    (K : CookieStore U.Url) (R : BrowserRuntime U.Url) where
  abbrev Controller : Type 0
  Controller = State.Controller R

  -- A call, the end of a tab's first navigation, or a page that is destroyed.
  pub data Event : Type 0 where
    list_tabs : Event
    create_tab : U.Url → Event
    tab_loaded : String → BrowserStatus → Event
    close_tab : Option String → Event
    resize_active : ℕ → ℕ → Event
    shutdown : Event
    page_destroyed : ℕ → Event

  abbrev destroy : Option Controller → ℕ → Option Controller
  destroy none w = none
  destroy (some c) w = some (State.web_contents_destroyed R c w)

  pub step : Option Controller → Event → Option Controller
  step s list_tabs = (Tabs.list_tabs U J is_none write_json K R s).0
  step s (create_tab url) = (Tabs.create_tab U J is_none write_json K R s url).0
  step s (tab_loaded id status) = (Tabs.finish_create_tab U J is_none write_json K R s id status).0
  step s (close_tab id) = (Tabs.close_tab U J is_none write_json K R s id).0
  step s (resize_active width height) =
      (Tabs.resize_active U J is_none write_json K R s width height).0
  step s shutdown = Tabs.shutdown U J is_none write_json K R s
  step s (page_destroyed w) = destroy s w

  pub run : Option Controller → List Event → Option Controller
  run s [] = s
  run s (e ∷ es) = run (step s e) es

  abbrev Valid : Controller → Type 0
  Valid c = IsDistinct c.instrumentation

  -- No page is observed twice.
  abbrev pub IsValid : Option Controller → Type 0
  IsValid none = Unit
  IsValid (some c) = Valid c

  -- The observers and the simulator follow the runtime: each of its pages has one observer, and there
  -- are no others.
  pub record IsFollowing (rt : R.Runtime) (c : Controller) : Type 0 where
    pub observers : IsInstrumented (R.all_web_contents rt) c.instrumentation
    pub simulator : c.simulated ≡ R.active_web_contents rt

  abbrev pub Follows : Option Controller → Type 0
  Follows none = Unit
  Follows (some c) = (rt : R.Runtime) → c.runtime ≡ some rt → IsFollowing rt c

  refresh-Follows :
      (c : Controller) → Valid c → Follows (some (State.refresh_shared_runtime_behavior R c))
  unfolding State.refresh_shared_runtime_behavior
  refresh-Follows c v =
      Option_elim (λ (x : Controller). Follows (some x)) c.runtime (λ n rt e. cc)
        (λ rt e rt' e'.
          subst
            (λ r. IsFollowing r (record c {
              instrumentation =
                  State.observe_each (R.all_web_contents rt)
                    (State.keep_observers (R.all_web_contents rt) c.instrumentation);
              simulated = R.active_web_contents rt;
            }))
            (some-injective _ _ (sym e ∙ e'))
            (record {
              observers = refresh-IsInstrumented (R.all_web_contents rt) c.instrumentation v;
              simulator = refl;
            }))

  refresh-Valid : (c : Controller) → Valid c → Valid (State.refresh_shared_runtime_behavior R c)
  unfolding State.refresh_shared_runtime_behavior
  refresh-Valid c v =
      Option_elim Valid c.runtime (λ _. tt)
        (λ rt _. (refresh-IsInstrumented (R.all_web_contents rt) c.instrumentation v).distinct)

  abbrev ValidStep : Tabs.Step U J is_none write_json K R → Type 0
  ValidStep x = IsValid x.0

  with_runtime-IsValid :
      (s : Option Controller) (r : Outcomes.Reply)
      (next : Controller → R.Runtime → Tabs.Step U J is_none write_json K R)
      → IsValid s
      → ((c : Controller) (rt : R.Runtime) → Valid c → IsValid (next c rt).0)
      → IsValid (Tabs.with_runtime U J is_none write_json K R s r next).0
  with_runtime-IsValid none r next v f = tt
  with_runtime-IsValid (some c) r next v f =
      Option_elim ValidStep c.runtime (λ _. v) (λ rt _. f c rt v)

  finish-IsValid :
      (s : Option Controller) (id : String) (status : BrowserStatus)
      → IsValid s
      → IsValid (Tabs.finish_create_tab U J is_none write_json K R s id status).0
  unfolding Tabs.finish_create_tab
  finish-IsValid none id status v =
      if_elim (λ (x : Option Controller × Outcomes.Reply). IsValid x.0) (not (is_ok status.code))
        (λ _. tt) (λ _. tt)
  finish-IsValid (some c) id status v =
      if_elim (λ (x : Option Controller × Outcomes.Reply). IsValid x.0) (not (is_ok status.code))
        (λ _. v)
        (λ _.
          Option_elim (λ (x : Option Controller × Outcomes.Reply). IsValid x.0) c.runtime (λ _. v)
            (λ rt _. refresh-Valid c v))

  shutdown-IsValid :
      (s : Option Controller) → IsValid s → IsValid (Tabs.shutdown U J is_none write_json K R s)
  unfolding Tabs.shutdown
  shutdown-IsValid none v = tt
  shutdown-IsValid (some c) v = Option_elim IsValid c.runtime (λ _. v) (λ _ _. v)

  destroy-IsValid : (s : Option Controller) (w : ℕ) → IsValid s → IsValid (destroy s w)
  unfolding State.web_contents_destroyed
  destroy-IsValid none w v = tt
  destroy-IsValid (some c) w v = forget-IsDistinct w c.instrumentation v

  step-IsValid : (s : Option Controller) (e : Event) → IsValid s → IsValid (step s e)
  unfolding step Tabs.list_tabs Tabs.create_tab Tabs.close_tab Tabs.resize_active
  step-IsValid s list_tabs v = with_runtime-IsValid s _ _ v (λ c _ d. refresh-Valid c d)
  step-IsValid s (create_tab url) v = with_runtime-IsValid s _ _ v (λ c rt d.
      if_elim ValidStep (not (U.is_valid url)) (λ _. v)
        (λ _. refresh-Valid (record c { runtime = some (R.create_tab rt url).0 }) d))
  step-IsValid s (tab_loaded id status) v = finish-IsValid s id status v
  step-IsValid s (close_tab id) v = with_runtime-IsValid s _ _ v (λ c rt d.
      if_elim ValidStep (not (R.close_tab rt id).1) (λ _. d)
        (λ _. refresh-Valid (record c { runtime = some (R.close_tab rt id).0 }) d))
  step-IsValid s (resize_active width height) v = with_runtime-IsValid s _ _ v (λ c rt d. d)
  step-IsValid s shutdown v = shutdown-IsValid s v
  step-IsValid s (page_destroyed w) v = destroy-IsValid s w v

  run-IsValid : (s : Option Controller) (es : List Event) → IsValid s → IsValid (run s es)
  unfolding run
  run-IsValid s [] v = v
  run-IsValid s (e ∷ es) v = run-IsValid (step s e) es (step-IsValid s e v)

  new_controller-IsValid : (rt : Option R.Runtime) → IsValid (some (State.new_controller R rt))
  unfolding State.new_controller
  new_controller-IsValid rt =
      refresh-Valid (record { runtime = rt; instrumentation = []; simulated = none }) tt

  list_tabs-Follows :
      (s : Option Controller) → IsValid s → Follows (Tabs.list_tabs U J is_none write_json K R s).0
  unfolding Tabs.list_tabs
  list_tabs-Follows none v = tt
  list_tabs-Follows (some c) v =
      Option_elim (λ (x : Tabs.Step U J is_none write_json K R). Follows x.0) c.runtime
        (λ n rt e. cc) (λ rt _. refresh-Follows c v)

  -- Whatever calls are made on the tabs of a new controller and whatever pages close meanwhile, once the
  -- tabs are listed each page of the runtime has exactly one observer, no other page has one, and the
  -- simulator is on the active page.
  pub run-Follows :
      (rt : Option R.Runtime) (es : List Event)
      → Follows
          (Tabs.list_tabs U J is_none write_json K R (run (some (State.new_controller R rt)) es)).0
  run-Follows rt es = list_tabs-Follows _ (run-IsValid _ es (new_controller-IsValid rt))
