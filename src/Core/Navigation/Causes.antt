-- ===== src/Core/Navigation/Causes.antt =====
-- browserd/core/browser_controller.cc: what an event says of a page, and an answer of the events.
use browserd.Shared.{
  both_of_and, neither_of_or, eq-false, of_not-false, ◌≡◌, ◌≢◌, refl, ◌∙◌, Bool, true, false, not,
  ◌&&◌, ◌||◌, List, [], ◌∷◌, String, All, if_elim, ◌==◌, eq_iff,
}
use mathlib.Core.List.{Memᴰ}
use browserd.Platform.Urls.{Urls}
use browserd.Core.Result.{BrowserStatus, ok_status, error_status, tab_not_found, timeout, is_ok}
use browserd.Core.Navigation

module _ (U : Urls) where
  abbrev pub Event : Type 0
  Event = Navigation.Event U

  abbrev Waiter : Type 0
  Waiter = Navigation.Waiter U

  -- A page counts as the one that was asked for where it has its URL, or one of its host.
  pub data Shows (target url : U.Url) : Type 0 where
    exactly :
        U.is_valid url ≡ true
        → U.spec url ≢ "about:blank"
        → U.same url target ≡ true
        → Shows target url
    same_host :
        U.is_valid url ≡ true
        → U.spec url ≢ "about:blank"
        → U.is_http_or_https target ≡ true
        → U.is_http_or_https url ≡ true
        → U.host url ≡ U.host target
        → Shows target url

  pub is_requested_navigation-Shows :
      (target url : U.Url)
      → Navigation.is_requested_navigation U target url ≡ true
      → Shows target url
  unfolding Navigation.is_requested_navigation
  is_requested_navigation-Shows target url =
      if_elim (λ b. b ≡ true → Shows target url)
        (not (U.is_valid url) || (U.spec url == "about:blank")) (λ _ h. cc)
        (λ o.
          let known = neither_of_or (not (U.is_valid url)) (U.spec url == "about:blank") o in
          let valid = of_not-false (U.is_valid url) known.0 in
          let shown = eq-false (U.spec url) "about:blank" known.1 in
          if_elim (λ b. b ≡ true → Shows target url) (U.same url target)
            (λ s _. exactly valid shown s)
            (λ _ h.
              let t = both_of_and (U.is_http_or_https target && U.is_http_or_https url) _ h in
              let u = both_of_and (U.is_http_or_https target) (U.is_http_or_https url) t.0 in
              same_host valid shown u.0 u.1 ((eq_iff (U.host url) (U.host target)).0 t.1)))

  -- An event that shows the page.
  pub data Arrives (target : U.Url) : Event → Type 0 where
    finished :
        {h : Navigation.Handle U} {page : Navigation.Page U}
        → h.in_primary_main_frame ≡ true
        → h.has_committed ≡ true
        → Shows target h.url
        → Arrives target (Navigation.finish_navigation h page)
    stopped :
        {page : Navigation.Page U}
        → Shows target page.last_committed_url
        → Arrives target (Navigation.stop_loading page)
    checked :
        {page : Navigation.Page U}
        → Shows target page.last_committed_url
        → Arrives target (Navigation.check page)

  -- An event that says that the page failed to load, with its error.
  pub data Fails (target : U.Url) : Event → String → Type 0 where
    error_page :
        {h : Navigation.Handle U} {page : Navigation.Page U}
        → h.is_error_page ≡ true
        → Shows target h.url
        → Fails target (Navigation.finish_navigation h page) h.net_error
    load :
        {primary : Bool} {url : U.Url} {e : String}
        → Shows target url
        → Fails target (Navigation.fail_load primary url e) e

  -- Why a history of events justifies an answer.
  pub data Explains (target : U.Url) (es : List Event) : BrowserStatus → Type 0 where
    arrived : (e : Event) → Memᴰ e es → Arrives target e → Explains target es ok_status
    failed :
        (e : Event) (error : String)
        → Memᴰ e es
        → Fails target e error
        → Explains target es (Navigation.navigation_error U error)
    closed :
        Memᴰ Navigation.destroyed es
        → Explains target es (error_status tab_not_found "Tab closed during navigation")
    timed_out :
        Memᴰ Navigation.timer_fires es
        → Explains target es (error_status timeout "Navigation timed out")

  blank-Shows : (target url : U.Url) → U.spec target ≡ "about:blank" → ¬ Shows target url
  blank-Shows target url b (exactly v n s) = n (U.same-spec url target s ∙ b)
  blank-Shows target url b (same_host v n t u h) = U.http-not_blank target t b

  blank-Arrives : (target : U.Url) (e : Event) → U.spec target ≡ "about:blank" → ¬ Arrives target e
  blank-Arrives target e b (finished p c s) = blank-Shows target _ b s
  blank-Arrives target e b (stopped s) = blank-Shows target _ b s
  blank-Arrives target e b (checked s) = blank-Shows target _ b s

  blank-Explains :
      (target : U.Url) (es : List Event) (s : BrowserStatus)
      → U.spec target ≡ "about:blank"
      → Explains target es s
      → is_ok s.code ≡ false
  blank-Explains target es s b (arrived e m a) = absurd (blank-Arrives target e b a)
  blank-Explains target es s b (failed e x m f) = refl
  blank-Explains target es s b (closed m) = refl
  blank-Explains target es s b (timed_out m) = refl

  pub All-blank :
      (target : U.Url) (es : List Event) (ss : List BrowserStatus)
      → U.spec target ≡ "about:blank"
      → All (Explains target es) ss
      → All (λ s. is_ok s.code ≡ false) ss
  All-blank target es [] b h = tt
  All-blank target es (s ∷ ss) b h =
      (blank-Explains target es s b h.0, All-blank target es ss b h.1)
