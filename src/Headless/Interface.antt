-- ===== src/Headless/Interface.antt =====
-- browserd/headless_runtime.h: the headless browser as the runtime of a controller.
use browserd.Shared.{
  ◌⊎◌, if_true, ℕ, ◌≡◌, ◌≢◌, refl, sym, ◌∙◌, ap, Bool, true, false, not, Option, some, String, inl,
  Option_elim, ◌==◌, Bool-cases, inr, eq_iff,
}
use browserd.Platform.Contexts.{Contexts, Tab, Has}
use browserd.Platform.Json.{Json}
use browserd.Platform.Urls.{Urls}
use browserd.Platform.Cookies.{CookieStore}
use browserd.Core.Runtime.{BrowserRuntime, TabInfo}
use browserd.Core.Controller.State
use browserd.Core.Controller.Tabs
use browserd.Core.Controller.Outcomes
use browserd.Headless
use browserd.Headless.Tabs as HeadlessTabs

module _ (U : Urls) (K : Contexts) where
  pub close_tab-none :
      (s : Headless.Runtime K) (id : Option String)
      → (Headless.close_tab K s id).1 ≡ false
      → (Headless.close_tab K s id).0 ≡ s
  unfolding Headless.close_tab
  close_tab-none s id =
      Option_elim (λ (x : Headless.Runtime K × Bool). x.1 ≡ false → x.0 ≡ s)
        (Headless.target K s id) (λ _ _. refl) (λ t _ e. cc)

  abbrev pub runtime : BrowserRuntime U.Url
  runtime = record {
    Runtime = Headless.Runtime K;
    active_web_contents = λ s. s.active_web_contents;
    get_web_contents_by_target_id = λ s id. Headless.get_web_contents_by_target_id K s id;
    all_web_contents = λ s. Headless.all_web_contents K s;
    list_tabs = λ s. Headless.list_tabs K s;
    create_tab = λ s url. Headless.create_tab K s (U.spec url);
    close_tab = λ s id. Headless.close_tab K s id;
    resize_active = λ s width height. s;
    shutdown = λ s. Headless.shutdown K s;
    close_tab-none = λ s id. close_tab-none s id;
  }

  module _ (J : Json) (is_none : J.Value → Bool) (write_json : J.Value → String)
      (B : CookieStore U.Url) where
    abbrev Controller : Type 0
    Controller = State.Controller runtime

    tab_created-opens :
        (c : Controller) (url : U.Url) (i : TabInfo) (w : ℕ)
        → U.spec url ≢ "about:blank"
        → State.resolve_web_contents runtime c (some i.target_id) ≡ some w
        → Tabs.tab_created U J is_none write_json B runtime c url (some i)
          ≡ Outcomes.opens w url i.target_id
    unfolding Tabs.tab_created
    tab_created-opens c url i w n r = elim (Bool-cases (U.spec url == "about:blank")) [
      | inl h ↦ absurd (n ((eq_iff (U.spec url) "about:blank").0 h))
      | inr h ↦ rw (h, r) refl
    ]

    resolve-made :
        (c : Controller) (s : Headless.Runtime K) (x : K.Context) (t : Tab) (w : ℕ)
        → c.runtime ≡ some s
        → s.browser_context ≡ some x
        → Has t (K.all x)
        → t.web_contents ≡ some w
        → K.target_id t.contents ≢ ""
        → State.resolve_web_contents runtime c (some (Headless.make_tab_info K t).target_id)
          ≡ some w
    unfolding State.resolve_web_contents Headless.get_web_contents_by_target_id
    resolve-made c s x t w e f m h i = rw e (
        if_true (not ((Headless.make_tab_info K t).target_id == ""))
          (Headless.get_web_contents_by_target_id K s (Headless.make_tab_info K t).target_id)
          s.active_web_contents (not_empty (Bool-cases _))
        ∙ rw
            (
              Headless.get_web_contents_by_target_id,
              HeadlessTabs.find_by_target_id-make_tab_info K s x t f m,
            )
            h)
      where
        not_empty :
            (((Headless.make_tab_info K t).target_id == "") ≡ true)
              ⊎ (((Headless.make_tab_info K t).target_id == "") ≡ false)
            → not ((Headless.make_tab_info K t).target_id == "") ≡ true
        not_empty (inl q) =
            absurd (i (sym (HeadlessTabs.make_tab_info-target K t) ∙ (eq_iff _ "").0 q))
        not_empty (inr q) = rw q refl

    create-made :
        (s : Headless.Runtime K) (x x' : K.Context) (t : Tab) (url : String)
        → s.browser_context ≡ some x
        → K.build x url ≡ some (x', t)
        → Headless.create_tab K s url ≡ (
          record s { browser_context = some x'; active_web_contents = t.web_contents },
          some (Headless.make_tab_info K t),
        )
    unfolding Headless.create_tab
    create-made s x x' t url f b = rw (Headless.create_tab, f, b) refl

    create_tab-runs :
        (c : Controller) (s : Headless.Runtime K) (url : U.Url)
        → c.runtime ≡ some s
        → U.is_valid url ≡ true
        → (Tabs.create_tab U J is_none write_json B runtime (some c) url).1
          ≡ Tabs.tab_created U J is_none write_json B runtime
              (State.refresh_shared_runtime_behavior runtime
                (record c { runtime = some (Headless.create_tab K s (U.spec url)).0 }))
              url
              (Headless.create_tab K s (U.spec url)).1
    unfolding Tabs.create_tab
    create_tab-runs c s url e v = rw (e, v) refl

    -- A tab that the headless browser makes for a URL other than about:blank, with a target id and web
    -- contents, is waited for in these web contents, and under this id.
    pub create_tab-opens :
        (c : State.Controller runtime) (s : Headless.Runtime K) (x x' : K.Context) (t : Tab) (w : ℕ)
        (url : U.Url)
        → c.runtime ≡ some s
        → s.browser_context ≡ some x
        → K.build x (U.spec url) ≡ some (x', t)
        → t.web_contents ≡ some w
        → K.target_id t.contents ≢ ""
        → U.is_valid url ≡ true
        → U.spec url ≢ "about:blank"
        → (Tabs.create_tab U J is_none write_json B runtime (some c) url).1
          ≡ Outcomes.opens w url (K.target_id t.contents)
    unfolding State.refresh_shared_runtime_behavior
    create_tab-opens c s x x' t w url e f b h i v n =
        create_tab-runs c s url e v
        ∙ rw (create-made s x x' t (U.spec url) f b) (
            tab_created-opens _ url (Headless.make_tab_info K t) w n (
              resolve-made _ _ x' t w refl refl ((K.build-all x x' (U.spec url) t t b).1 (inl refl))
                h i)
            ∙ ap (Outcomes.opens w url) (HeadlessTabs.make_tab_info-target K t))
