-- ===== src/Core/Runtime.antt =====
-- browserd/browser_runtime.h: what the controller asks of a runtime.
use browserd.Shared.{ℕ, Bool, false, String, Option, List, ◌≡◌}

-- `BrowserTabInfo`
pub record TabInfo : Type 0 where
  pub target_id : String
  pub title : String
  pub url : String

-- `BrowserRuntime`, with the law that a runtime which closes no tab stays as it is. A web contents is
-- its address.
pub record BrowserRuntime (Url : Type 0) : Type 1 where
  pub Runtime : Type 0
  pub active_web_contents : Runtime → Option ℕ
  pub get_web_contents_by_target_id : Runtime → String → Option ℕ
  pub all_web_contents : Runtime → List ℕ
  pub list_tabs : Runtime → List TabInfo
  pub create_tab : Runtime → Url → Runtime × Option TabInfo
  pub close_tab : Runtime → Option String → Runtime × Bool
  pub resize_active : Runtime → ℕ → ℕ → Runtime
  pub shutdown : Runtime → Runtime
  pub close_tab-none :
      (s : Runtime) (id : Option String) → (close_tab s id).1 ≡ false → (close_tab s id).0 ≡ s
