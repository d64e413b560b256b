-- ===== src/Core/Navigation/Once.antt =====
-- browserd/core/browser_controller.cc: a navigation is answered once, and in the end.
use browserd.Shared.{
  ◌≡◌, inl, inr, refl, subst, sym, ◌∙◌, ◌≤◌, Bool, true, false, not, ◌&&◌, ◌||◌, List, [], ◌∷◌,
  length, if_elim, false≢true, Bool-cases,
}
use mathlib.Core.List.{Memᴰ}
use browserd.Platform.Urls.{Urls}
use browserd.Core.Result.{BrowserStatus}
use browserd.Core.Request.{complete, set_timer}
use browserd.Core.Request.Once.{IsOnce, complete-IsOnce, set_timer-IsOnce, IsOnce-at_most}
use browserd.Core.Navigation

module _ (U : Urls) where
  abbrev Waiter : Type 0
  Waiter = Navigation.Waiter U

  -- A waiter is answered at most once; it observes while it waits, and its timer runs.
  pub record IsWaiting (w : Waiter) : Type 0 where
    pub once : IsOnce w.request
    pub live : w.request.callback ≡ true → (w.observing ≡ true) × (w.request.timer ≡ true)
    pub closed : w.request.callback ≡ false → w.observing ≡ false

  complete_navigation-IsWaiting :
      (w : Waiter) (s : BrowserStatus)
      → IsOnce w.request
      → (w.request.callback ≡ false → w.observing ≡ false)
      → IsWaiting (Navigation.complete_navigation U w s)
  unfolding Navigation.complete_navigation complete
  complete_navigation-IsWaiting w s o c =
      if_elim IsWaiting w.request.callback
        (λ h. record { once = complete-IsOnce w.request s o; live = λ e. cc; closed = λ e. refl })
        (λ h. record { once = o; live = λ e. cc; closed = c })

  complete_navigation-callback :
      (w : Waiter) (s : BrowserStatus)
      → (Navigation.complete_navigation U w s).request.callback ≡ false
  unfolding Navigation.complete_navigation complete
  complete_navigation-callback w s = elim (Bool-cases w.request.callback) [
    | inl h ↦ rw h refl
    | inr h ↦ rw h refl
  ]

  completes :
      (w : Waiter) (s : BrowserStatus)
      → IsWaiting w
      → IsWaiting (Navigation.complete_navigation U w s)
  completes w s v = complete_navigation-IsWaiting w s v.once v.closed

  see-IsWaiting : (w : Waiter) → IsWaiting w → IsWaiting (Navigation.see U w)
  see-IsWaiting w v = record { once = v.once; live = v.live; closed = v.closed }

  abbrev Keeps : Waiter → Waiter → Type 0
  Keeps w w' = IsWaiting w → IsWaiting w'

  did_finish_navigation-IsWaiting :
      (w : Waiter) (h : Navigation.Handle U) (page : Navigation.Page U)
      → IsWaiting w
      → IsWaiting (Navigation.did_finish_navigation U w h page)
  unfolding Navigation.did_finish_navigation
  did_finish_navigation-IsWaiting w h page v =
      if_elim IsWaiting (not h.in_primary_main_frame || not h.has_committed) (λ _. v)
        (λ _.
          if_elim IsWaiting (not (Navigation.is_requested_navigation U w.target_url h.url)) (λ _. v)
            (λ _.
              if_elim IsWaiting h.is_error_page
                (λ _. completes (Navigation.see U w) _ (see-IsWaiting w v))
                (λ _.
                  if_elim IsWaiting (not w.observing || not page.is_loading)
                    (λ _. completes (Navigation.see U w) _ (see-IsWaiting w v))
                    (λ _. see-IsWaiting w v))))

  did_stop_loading-IsWaiting :
      (w : Waiter) (page : Navigation.Page U)
      → IsWaiting w
      → IsWaiting (Navigation.did_stop_loading U w page)
  unfolding Navigation.did_stop_loading
  did_stop_loading-IsWaiting w page v =
      if_elim IsWaiting w.seen_requested_navigation (λ _. completes w _ v)
        (λ _.
          if_elim IsWaiting
            (not w.observing
              || not (Navigation.is_requested_navigation U w.target_url page.last_committed_url))
            (λ _. v) (λ _. completes (Navigation.see U w) _ (see-IsWaiting w v)))

  did_fail_load-IsWaiting :
      (w : Waiter) (primary : Bool) (url : U.Url) (e : _)
      → IsWaiting w
      → IsWaiting (Navigation.did_fail_load U w primary url e)
  unfolding Navigation.did_fail_load
  did_fail_load-IsWaiting w primary url e v =
      if_elim IsWaiting (w.observing && not primary) (λ _. v)
        (λ _.
          if_elim IsWaiting (not (Navigation.is_requested_navigation U w.target_url url)) (λ _. v)
            (λ _. completes w _ v))

  check_current_state-IsWaiting :
      (w : Waiter) (page : Navigation.Page U)
      → IsWaiting w
      → IsWaiting (Navigation.check_current_state U w page)
  unfolding Navigation.check_current_state
  check_current_state-IsWaiting w page v =
      if_elim IsWaiting
        (not w.observing
          || not (Navigation.is_requested_navigation U w.target_url page.last_committed_url))
        (λ _. v)
        (λ _.
          if_elim IsWaiting (not page.is_loading)
            (λ _. completes (Navigation.see U w) _ (see-IsWaiting w v)) (λ _. see-IsWaiting w v))

  step-IsWaiting :
      (w : Waiter) (e : Navigation.Event U) → IsWaiting w → IsWaiting (Navigation.step U w e)
  unfolding Navigation.step Navigation.web_contents_destroyed Navigation.on_timeout
  step-IsWaiting w (Navigation.finish_navigation h page) v =
      if_elim IsWaiting w.observing (λ _. did_finish_navigation-IsWaiting w h page v) (λ _. v)
  step-IsWaiting w (Navigation.stop_loading page) v =
      if_elim IsWaiting w.observing (λ _. did_stop_loading-IsWaiting w page v) (λ _. v)
  step-IsWaiting w (Navigation.fail_load primary url e) v =
      if_elim IsWaiting w.observing (λ _. did_fail_load-IsWaiting w primary url e v) (λ _. v)
  step-IsWaiting w Navigation.destroyed v =
      if_elim IsWaiting w.observing
        (λ _. record {
          once = (completes w _ v).once;
          live = λ e. absurd (false≢true (sym (complete_navigation-callback w _) ∙ e));
          closed = λ e. refl;
        })
        (λ _. v)
  step-IsWaiting w (Navigation.check page) v = check_current_state-IsWaiting w page v
  step-IsWaiting w Navigation.timer_fires v =
      if_elim IsWaiting w.request.timer
        (λ _.
          complete_navigation-IsWaiting (record w { request = set_timer w.request false }) _
            (set_timer-IsOnce w.request v.once) v.closed)
        (λ _. v)

  pub run-IsWaiting :
      (w : Waiter) (es : List (Navigation.Event U))
      → IsWaiting w
      → IsWaiting (Navigation.run U w es)
  unfolding Navigation.run
  run-IsWaiting w [] v = v
  run-IsWaiting w (e ∷ es) v = run-IsWaiting (Navigation.step U w e) es (step-IsWaiting w e v)

  pub new_waiter-IsWaiting : (url : U.Url) → IsWaiting (Navigation.new_waiter U url)
  unfolding Navigation.new_waiter
  new_waiter-IsWaiting url = record {
    once = record { waits = λ _. (refl, refl); done = λ e. cc };
    live = λ e. (refl, refl);
    closed = λ e. cc;
  }

  -- Once the callback has run, nothing changes.
  step-answered :
      (w : Waiter) (e : Navigation.Event U)
      → IsWaiting w
      → w.request.callback ≡ false
      → Navigation.step U w e ≡ w
  unfolding Navigation.step Navigation.check_current_state
  step-answered w (Navigation.check page) v h = rw (v.closed h) refl
  step-answered w Navigation.timer_fires v h = rw ((v.once.done h).2) refl
  step-answered w e v h = rw (v.closed h) refl

  run-answered :
      (w : Waiter) (es : List (Navigation.Event U))
      → IsWaiting w
      → w.request.callback ≡ false
      → Navigation.run U w es ≡ w
  unfolding Navigation.run
  run-answered w [] v h = refl
  run-answered w (e ∷ es) v h = rw (step-answered w e v h) (run-answered w es v h)

  pub data Ends : Navigation.Event U → Type 0 where
    closes : Ends Navigation.destroyed
    times_out : Ends Navigation.timer_fires

  step-Ends :
      (w : Waiter) (e : Navigation.Event U)
      → IsWaiting w
      → Ends e
      → (Navigation.step U w e).request.callback ≡ false
  unfolding Navigation.step Navigation.web_contents_destroyed Navigation.on_timeout
  step-Ends w (Navigation.finish_navigation _ _) v k = elim k [ ]
  step-Ends w (Navigation.stop_loading _) v k = elim k [ ]
  step-Ends w (Navigation.fail_load _ _ _) v k = elim k [ ]
  step-Ends w (Navigation.check _) v k = elim k [ ]
  step-Ends w Navigation.destroyed v closes = elim (Bool-cases w.request.callback) [
    | inl h ↦
        if_elim (λ (x : Waiter). x.request.callback ≡ false) w.observing
          (λ _. complete_navigation-callback w _) (λ o. absurd (false≢true (sym o ∙ (v.live h).0)))
    | inr h ↦ rw (v.closed h) h
  ]
  step-Ends w Navigation.timer_fires v times_out = elim (Bool-cases w.request.callback) [
    | inl h ↦
        if_elim (λ (x : Waiter). x.request.callback ≡ false) w.request.timer
          (λ _. complete_navigation-callback (record w { request = set_timer w.request false }) _)
          (λ o. absurd (false≢true (sym o ∙ (v.live h).1)))
    | inr h ↦ rw ((v.once.done h).2) h
  ]

  run-Ends :
      (w : Waiter) (es : List (Navigation.Event U)) (e : Navigation.Event U)
      → IsWaiting w
      → Ends e
      → Memᴰ e es
      → (Navigation.run U w es).request.callback ≡ false
  unfolding Navigation.run
  run-Ends w [] e v k m = elim m [ ]
  run-Ends w (x ∷ es) e v k (Memᴰ.head q) =
      let h = step-Ends w x v (subst Ends q k) in
      rw (run-answered (Navigation.step U w x) es (step-IsWaiting w x v) h) h
  run-Ends w (x ∷ es) e v k (Memᴰ.tail m) =
      run-Ends (Navigation.step U w x) es e (step-IsWaiting w x v) k m

  -- Whatever happens to a page, a navigation is answered at most once, and its waiter is deleted as often.
  pub run-once :
      (url : U.Url) (es : List (Navigation.Event U))
      → (length (Navigation.run U (Navigation.new_waiter U url) es).request.replies ≤ 1)
        × ((Navigation.run U (Navigation.new_waiter U url) es).request.deletions
            ≡ length (Navigation.run U (Navigation.new_waiter U url) es).request.replies)
  run-once url es = IsOnce-at_most _ (run-IsWaiting _ es (new_waiter-IsWaiting url)).once

  -- A navigation whose timer fires, or whose page is closed, at some time is answered exactly once.
  pub run-terminates :
      (url : U.Url) (es : List (Navigation.Event U)) (e : Navigation.Event U)
      → Ends e
      → Memᴰ e es
      → length (Navigation.run U (Navigation.new_waiter U url) es).request.replies ≡ 1
  run-terminates url es e k m =
      let v = new_waiter-IsWaiting url in
      ((run-IsWaiting _ es v).once.done (run-Ends _ es e v k m)).0
