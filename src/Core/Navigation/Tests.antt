-- ===== src/Core/Navigation/Tests.antt =====
-- A page that redirects within its host, one that fails, one that is closed.
use browserd.Shared.{if◌then◌else◌, ◌≡◌, refl, true, false, List, [], ◌∷◌, String, All, length}
use mathlib.Core.List.{Memᴰ}
use browserd.Platform.Samples.Pages.{urls}
use browserd.Core.Result.{is_ok, ok_status}
use browserd.Core.Request.{complete}
use browserd.Core.Navigation
use browserd.Core.Navigation.Once
use browserd.Core.Navigation.Causes
use browserd.Core.Navigation.Outcomes
use browserd.Core.Navigation.Reload

abbrev site : String
site = "https://example.org/"

abbrev page : String → Navigation.Page urls
page url = record { last_committed_url = url; is_loading = false }

abbrev commit : String → Navigation.Handle urls
commit url = record {
  in_primary_main_frame = true;
  has_committed = true;
  url = url;
  is_error_page = false;
  net_error = "net::OK";
}

abbrev events : List (Navigation.Event urls)
events =
    Navigation.check (page "about:blank")
    ∷ Navigation.finish_navigation (commit site)
        (record { last_committed_url = site; is_loading = true })
    ∷ Navigation.stop_loading (page site)
    ∷ Navigation.destroyed
    ∷ Navigation.timer_fires
    ∷ []

loads :
    (Navigation.run urls (Navigation.new_waiter urls site) events).request.replies ≡ ok_status ∷ []
unfolding Navigation.run Navigation.step Navigation.new_waiter Navigation.check_current_state
    Navigation.did_finish_navigation Navigation.did_stop_loading Navigation.complete_navigation
    Navigation.is_requested_navigation Navigation.on_timeout complete
loads = refl

run-terminates_example :
    length (Navigation.run urls (Navigation.new_waiter urls site) events).request.replies ≡ 1
run-terminates_example =
    Once.run-terminates urls site events Navigation.destroyed Once.closes
      (Memᴰ.tail (Memᴰ.tail (Memᴰ.tail (Memᴰ.head refl))))

run-explains_example :
    All
      (Causes.Explains urls site events)
      (Navigation.run urls (Navigation.new_waiter urls site) events).request.replies
run-explains_example = Outcomes.run-explains urls site events

run-about_blank_example :
    All
      (λ s. is_ok s.code ≡ false)
      (Navigation.run urls (Navigation.new_waiter urls "about:blank") events).request.replies
run-about_blank_example = Outcomes.run-about_blank urls "about:blank" events refl

abbrev stopped_twice : List Reload.PageEvent
stopped_twice = Reload.other ∷ Reload.stop_loading ∷ Reload.stop_loading ∷ []

run_reload-stops_example : Reload.run_reload Reload.new_reload_waiter stopped_twice ≡ (
    if Reload.stops stopped_twice
    then record { callback = false; replies = ok_status ∷ []; deleted = true }
    else Reload.new_reload_waiter)
run_reload-stops_example = Reload.run_reload-stops stopped_twice
