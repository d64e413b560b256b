-- ===== src/Core/Navigation/Outcomes.antt =====
-- browserd/core/browser_controller.cc: what a navigation's answer says of the page.
use browserd.Shared.{
  neither_of_or, of_not-false, ◌≡◌, refl, subst, Bool, true, false, not, ◌&&◌, ◌||◌, List, [], ◌∷◌,
  String, All, All-append, if_elim,
}
use mathlib.Core.List.{Memᴰ}
use browserd.Platform.Urls.{Urls}
use browserd.Core.Result.{BrowserStatus, is_ok}
use browserd.Core.Request.{complete, set_timer}
use browserd.Core.Navigation
use browserd.Core.Navigation.Causes
use browserd.Core.Navigation.Causes.{
  finished, stopped, checked, error_page, load, arrived, failed, closed, timed_out,
}

module _ (U : Urls) where
  abbrev Event : Type 0
  Event = Navigation.Event U

  abbrev Waiter : Type 0
  Waiter = Navigation.Waiter U

  abbrev Shows : U.Url → U.Url → Type 0
  Shows = Causes.Shows U

  abbrev Arrives : U.Url → Event → Type 0
  Arrives = Causes.Arrives U

  abbrev Explains : U.Url → List Event → BrowserStatus → Type 0
  Explains = Causes.Explains U

  -- The state of a waiter for `target` after some of the events `es`.
  record Explained (target : U.Url) (es : List Event) (w : Waiter) : Type 0 where
    for_target : w.target_url ≡ target
    seen : w.seen_requested_navigation ≡ true → (e : Event) × (Memᴰ e es) × Arrives target e
    answers : All (Explains target es) w.request.replies

  module _ (target : U.Url) (es : List Event) where
    abbrev Holds : Waiter → Type 0
    Holds w = Explained target es w

    complete-Explained :
        (w : Waiter) (s : BrowserStatus)
        → Explains target es s
        → Explained target es w
        → Explained target es (Navigation.complete_navigation U w s)
    unfolding Navigation.complete_navigation complete
    complete-Explained w s x v =
        if_elim (Explained target es) w.request.callback
          (λ h. record {
            for_target = v.for_target;
            seen = v.seen;
            answers =
                rw h (All-append (Explains target es) w.request.replies (s ∷ []) v.answers (x, tt));
          })
          (λ _. v)

    see-Explained :
        (w : Waiter) (e : Event)
        → Memᴰ e es
        → Arrives target e
        → Explained target es w
        → Explained target es (Navigation.see U w)
    see-Explained w e m a v = record {
      for_target = v.for_target;
      seen = λ _. (e, m, a);
      answers = v.answers;
    }

    requested-Shows :
        (w : Waiter) (url : U.Url)
        → Explained target es w
        → not (Navigation.is_requested_navigation U w.target_url url) ≡ false
        → Shows target url
    requested-Shows w url v h = Causes.is_requested_navigation-Shows U target url (
        subst (λ t. Navigation.is_requested_navigation U t url ≡ true) v.for_target
          (of_not-false _ h))

    did_finish_navigation-Explained :
        (w : Waiter) (h : Navigation.Handle U) (page : Navigation.Page U)
        → Memᴰ (Navigation.finish_navigation h page) es
        → Explained target es w
        → Explained target es (Navigation.did_finish_navigation U w h page)
    unfolding Navigation.did_finish_navigation
    did_finish_navigation-Explained w h page m v =
        if_elim Holds (not h.in_primary_main_frame || not h.has_committed) (λ _. v)
          (λ committed.
            if_elim Holds (not (Navigation.is_requested_navigation U w.target_url h.url)) (λ _. v)
              (λ r.
                let x = requested-Shows w h.url v r in
                let c =
                  neither_of_or (not h.in_primary_main_frame) (not h.has_committed) committed in
                let a = finished (of_not-false _ c.0) (of_not-false _ c.1) x in
                let seen = see-Explained w (Navigation.finish_navigation h page) m a v in
                if_elim Holds h.is_error_page
                  (λ e.
                    complete-Explained (Navigation.see U w) _
                      (failed (Navigation.finish_navigation h page) _ m (error_page e x)) seen)
                  (λ _.
                    if_elim Holds (not w.observing || not page.is_loading)
                      (λ _.
                        complete-Explained (Navigation.see U w) _
                          (arrived (Navigation.finish_navigation h page) m a) seen)
                      (λ _. seen))))

    did_stop_loading-Explained :
        (w : Waiter) (page : Navigation.Page U)
        → Memᴰ (Navigation.stop_loading page) es
        → Explained target es w
        → Explained target es (Navigation.did_stop_loading U w page)
    unfolding Navigation.did_stop_loading
    did_stop_loading-Explained w page m v =
        if_elim Holds w.seen_requested_navigation
          (λ s. let known = v.seen s in complete-Explained w _ (arrived known.0 known.1 known.2) v)
          (λ _.
            if_elim Holds
              (not w.observing
                || not (Navigation.is_requested_navigation U w.target_url page.last_committed_url))
              (λ _. v)
              (λ o.
                let a = stopped (
                  requested-Shows w page.last_committed_url v
                    (neither_of_or (not w.observing) _ o).1) in
                complete-Explained (Navigation.see U w) _
                  (arrived (Navigation.stop_loading page) m a)
                  (see-Explained w (Navigation.stop_loading page) m a v)))

    did_fail_load-Explained :
        (w : Waiter) (primary : Bool) (url : U.Url) (error : String)
        → Memᴰ (Navigation.fail_load primary url error) es
        → Explained target es w
        → Explained target es (Navigation.did_fail_load U w primary url error)
    unfolding Navigation.did_fail_load
    did_fail_load-Explained w primary url error m v =
        if_elim Holds (w.observing && not primary) (λ _. v)
          (λ _.
            if_elim Holds (not (Navigation.is_requested_navigation U w.target_url url)) (λ _. v)
              (λ r.
                complete-Explained w _
                  (failed (Navigation.fail_load primary url error) error m
                    (load (requested-Shows w url v r)))
                  v))

    check_current_state-Explained :
        (w : Waiter) (page : Navigation.Page U)
        → Memᴰ (Navigation.check page) es
        → Explained target es w
        → Explained target es (Navigation.check_current_state U w page)
    unfolding Navigation.check_current_state
    check_current_state-Explained w page m v =
        if_elim Holds
          (not w.observing
            || not (Navigation.is_requested_navigation U w.target_url page.last_committed_url))
          (λ _. v)
          (λ o.
            let a = checked (
              requested-Shows w page.last_committed_url v
                (neither_of_or (not w.observing) _ o).1) in
            let seen = see-Explained w (Navigation.check page) m a v in
            if_elim Holds (not page.is_loading)
              (λ _.
                complete-Explained (Navigation.see U w) _ (arrived (Navigation.check page) m a)
                  seen)
              (λ _. seen))

    step-Explained :
        (w : Waiter) (e : Event)
        → Memᴰ e es
        → Explained target es w
        → Explained target es (Navigation.step U w e)
    unfolding Navigation.step Navigation.web_contents_destroyed Navigation.on_timeout
    step-Explained w (Navigation.finish_navigation h page) m v =
        if_elim Holds w.observing (λ _. did_finish_navigation-Explained w h page m v) (λ _. v)
    step-Explained w (Navigation.stop_loading page) m v =
        if_elim Holds w.observing (λ _. did_stop_loading-Explained w page m v) (λ _. v)
    step-Explained w (Navigation.fail_load primary url e) m v =
        if_elim Holds w.observing (λ _. did_fail_load-Explained w primary url e m v) (λ _. v)
    step-Explained w Navigation.destroyed m v =
        if_elim Holds w.observing
          (λ _.
            let x = complete-Explained w _ (closed m) v in
            record { for_target = x.for_target; seen = x.seen; answers = x.answers })
          (λ _. v)
    step-Explained w (Navigation.check page) m v = check_current_state-Explained w page m v
    step-Explained w Navigation.timer_fires m v =
        if_elim Holds w.request.timer
          (λ _.
            complete-Explained (record w { request = set_timer w.request false }) _ (timed_out m)
              (record { for_target = v.for_target; seen = v.seen; answers = v.answers }))
          (λ _. v)

    run-Explained :
        (w : Waiter) (later : List Event)
        → ((e : Event) → Memᴰ e later → Memᴰ e es)
        → Explained target es w
        → Explained target es (Navigation.run U w later)
    unfolding Navigation.run
    run-Explained w [] inside v = v
    run-Explained w (e ∷ later) inside v =
        run-Explained (Navigation.step U w e) later (λ x m. inside x (Memᴰ.tail m))
          (step-Explained w e (inside e (Memᴰ.head refl)) v)

  -- Each answer to a navigation has its cause among the events of the page: it is ok only where an event
  -- showed the URL that was asked for or another one of its host, a failure only where that failed to
  -- load, with the error of it, and else the tab was closed or the timer fired.
  pub run-explains :
      (target : U.Url) (es : List Event)
      → All
          (Explains target es)
          (Navigation.run U (Navigation.new_waiter U target) es).request.replies
  unfolding Navigation.new_waiter
  run-explains target es =
      (run-Explained target es (Navigation.new_waiter U target) es (λ e m. m)
        (record { for_target = refl; seen = λ h. cc; answers = tt })).answers

  -- A navigation to about:blank is never answered with success, whatever the page does.
  pub run-about_blank :
      (target : U.Url) (es : List Event)
      → U.spec target ≡ "about:blank"
      → All
          (λ s. is_ok s.code ≡ false)
          (Navigation.run U (Navigation.new_waiter U target) es).request.replies
  run-about_blank target es b = Causes.All-blank U target es _ b (run-explains target es)
