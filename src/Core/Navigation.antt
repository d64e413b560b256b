-- ===== src/Core/Navigation.antt =====
-- browserd/core/browser_controller.cc: the objects that wait for a page to load, `NavigationWaiter`
-- and `ReloadWaiter`.
pub mod Causes
pub mod Outcomes
pub mod Once
pub mod Reload
mod Tests
use browserd.Shared.{
  Bool, true, false, not, ◌&&◌, ◌||◌, List, [], ◌∷◌, String, concat, if◌then◌else◌, ◌==◌,
}
use browserd.Platform.Urls.{Urls}
use browserd.Core.Result.{
  BrowserStatus, ok_status, error_status, navigation_failed, tab_not_found, timeout,
}
use browserd.Core.Request.{Request, new_request, complete, set_timer}

module _ (U : Urls) where
  open U use {Url, spec, is_valid, is_http_or_https, host, same}

  -- The last committed URL of the web contents, and whether they are loading.
  pub record Page : Type 0 where
    pub last_committed_url : Url
    pub is_loading : Bool

  -- A `content::NavigationHandle`; `net_error` is `net::ErrorToString` of its error code.
  pub record Handle : Type 0 where
    pub in_primary_main_frame : Bool
    pub has_committed : Bool
    pub url : Url
    pub is_error_page : Bool
    pub net_error : String

  -- `observing` says whether `web_contents()` is set. The flags of the callback and of the timer, and
  -- what the callback got, are those of `request`.
  pub record Waiter : Type 0 where
    pub target_url : Url
    pub request : Request BrowserStatus
    pub seen_requested_navigation : Bool
    pub observing : Bool

  pub new_waiter : Url → Waiter
  new_waiter url = record {
    target_url = url;
    request = set_timer new_request true;
    seen_requested_navigation = false;
    observing = true;
  }

  pub complete_navigation : Waiter → BrowserStatus → Waiter
  complete_navigation w status =
      if w.request.callback
      then record w { observing = false; request = complete w.request status }
      else w

  pub is_requested_navigation : Url → Url → Bool
  is_requested_navigation target url =
      if not (is_valid url) || (spec url == "about:blank")
      then false
      else if same url target
      then true
      else is_http_or_https target && is_http_or_https url && (host url == host target)

  abbrev pub see : Waiter → Waiter
  see w = record w { seen_requested_navigation = true }

  abbrev pub navigation_error : String → BrowserStatus
  navigation_error e = error_status navigation_failed (concat "Navigation failed: " e)

  pub did_finish_navigation : Waiter → Handle → Page → Waiter
  did_finish_navigation w h page =
      if not h.in_primary_main_frame || not h.has_committed
      then w
      else if not (is_requested_navigation w.target_url h.url)
      then w
      else if h.is_error_page
      then complete_navigation (see w) (navigation_error h.net_error)
      else if not w.observing || not page.is_loading
      then complete_navigation (see w) ok_status
      else see w

  pub did_stop_loading : Waiter → Page → Waiter
  did_stop_loading w page =
      if w.seen_requested_navigation
      then complete_navigation w ok_status
      else if not w.observing || not (is_requested_navigation w.target_url page.last_committed_url)
      then w
      else complete_navigation (see w) ok_status

  -- `is_primary` says whether the frame that failed is the primary main frame.
  pub did_fail_load : Waiter → Bool → Url → String → Waiter
  did_fail_load w is_primary url error =
      if w.observing && not is_primary
      then w
      else if not (is_requested_navigation w.target_url url)
      then w
      else complete_navigation w (navigation_error error)

  pub web_contents_destroyed : Waiter → Waiter
  web_contents_destroyed w =
      complete_navigation w (error_status tab_not_found "Tab closed during navigation")

  pub check_current_state : Waiter → Page → Waiter
  check_current_state w page =
      if not w.observing || not (is_requested_navigation w.target_url page.last_committed_url)
      then w
      else if not page.is_loading
      then complete_navigation (see w) ok_status
      else see w

  pub on_timeout : Waiter → Waiter
  on_timeout w = complete_navigation w (error_status timeout "Navigation timed out")

  -- The calls that reach a waiter: those of an observer while it observes, its timer's while that runs,
  -- and the task that its constructor posts.
  pub data Event : Type 0 where
    finish_navigation : Handle → Page → Event
    stop_loading : Page → Event
    fail_load : Bool → Url → String → Event
    destroyed : Event
    check : Page → Event
    timer_fires : Event

  pub step : Waiter → Event → Waiter
  step w (finish_navigation h page) = if w.observing then did_finish_navigation w h page else w
  step w (stop_loading page) = if w.observing then did_stop_loading w page else w
  step w (fail_load primary url e) = if w.observing then did_fail_load w primary url e else w
  step w destroyed =
      if w.observing then record (web_contents_destroyed w) { observing = false } else w
  step w (check page) = check_current_state w page
  step w timer_fires =
      if w.request.timer then on_timeout (record w { request = set_timer w.request false }) else w

  pub run : Waiter → List Event → Waiter
  run w [] = w
  run w (e ∷ es) = run (step w e) es
