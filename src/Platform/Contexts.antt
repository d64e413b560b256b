-- ===== src/Platform/Contexts.antt =====
-- The part of Chromium's headless library that browserd uses: a browser context and its tabs.
use browserd.Shared.{ℕ, String, Option, some, List, [], ◌∷◌, ◌≡◌, ◌≢◌, ◌⊎◌, ◌↔◌}

-- A `HeadlessWebContents`: its address, its `content::WebContents`, and the title and the last committed
-- URL of that.
pub record Tab : Type 0 where
  pub contents : ℕ
  pub web_contents : Option ℕ
  pub title : String
  pub url : String

abbrev pub Has : Tab → List Tab → Type 0
Has t [] = ⊥
Has t (u ∷ us) = (t ≡ u) ⊎ Has t us

-- `all` is `GetAllWebContents`, in the order of the context; `build` is the builder's `Build` for a URL,
-- `close` is `Close`, `from` is `HeadlessWebContentsImpl::From`, `target_id` is an address as `%p`
-- prints it.
pub record Contexts : Type 1 where
  pub Context : Type 0
  pub all : Context → List Tab
  pub build : Context → String → Option (Context × Tab)
  pub close : Context → ℕ → Context
  pub from : Context → ℕ → Option Tab
  pub target_id : ℕ → String
  pub target_id-injective : (a b : ℕ) → target_id a ≡ target_id b → a ≡ b
  pub same :
      (c : Context) (t u : Tab) → Has t (all c) → Has u (all c) → t.contents ≡ u.contents → t ≡ u
  pub from-all : (c : Context) (w : ℕ) (t : Tab) → from c w ≡ some t → Has t (all c)
  pub close-all :
      (c : Context) (a : ℕ) (t : Tab) → Has t (all (close c a)) ↔ (Has t (all c) × (t.contents ≢ a))
  pub build-all :
      (c c' : Context) (url : String) (t u : Tab)
      → build c url ≡ some (c', t)
      → Has u (all c') ↔ ((u ≡ t) ⊎ Has u (all c))
