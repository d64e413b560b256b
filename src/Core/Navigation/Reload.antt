-- ===== src/Core/Navigation/Reload.antt =====
-- browserd/core/browser_controller.cc: `ReloadWaiter`.
use browserd.Shared.{◌≡◌, refl, Bool, true, false, List, [], ◌∷◌, ◌++◌, if◌then◌else◌}
use browserd.Core.Result.{BrowserStatus, ok_status}

-- `deleted` says that the object has deleted itself; nothing is called on it then.
pub record ReloadWaiter : Type 0 where
  pub callback : Bool
  pub replies : List BrowserStatus
  pub deleted : Bool

abbrev pub new_reload_waiter : ReloadWaiter
new_reload_waiter = record { callback = true; replies = []; deleted = false }

pub did_stop_loading : ReloadWaiter → ReloadWaiter
did_stop_loading w =
    let w' =
      if w.callback
      then record w { callback = false; replies = w.replies ++ ok_status ∷ [] }
      else w in
    record w' { deleted = true }

-- The calls of an observer; the class handles only the first.
pub data PageEvent : Type 0 where
  stop_loading : PageEvent
  contents_destroyed : PageEvent
  other : PageEvent

-- A web contents that is destroyed calls its observers no more.
pub run_reload : ReloadWaiter → List PageEvent → ReloadWaiter
run_reload w [] = w
run_reload w (stop_loading ∷ es) = run_reload (if w.deleted then w else did_stop_loading w) es
run_reload w (contents_destroyed ∷ es) = w
run_reload w (other ∷ es) = run_reload w es

-- Whether the page stops loading before it is closed.
abbrev pub stops : List PageEvent → Bool
stops [] = false
stops (stop_loading ∷ es) = true
stops (contents_destroyed ∷ es) = false
stops (other ∷ es) = stops es

run_reload-deleted :
    (es : List PageEvent) (w : ReloadWaiter) → w.deleted ≡ true → run_reload w es ≡ w
unfolding run_reload
run_reload-deleted [] w h = refl
run_reload-deleted (stop_loading ∷ es) w h =
    rw h (run_reload-deleted es (record w { deleted = true }) refl)
run_reload-deleted (contents_destroyed ∷ es) w h = refl
run_reload-deleted (other ∷ es) w h = run_reload-deleted es w h

-- A reload is answered, with success, where the page stops loading before it is closed; it is answered
-- once then, and else neither answered nor deleted.
pub run_reload-stops :
    (es : List PageEvent)
    → run_reload new_reload_waiter es ≡ (
        if stops es
        then record { callback = false; replies = ok_status ∷ []; deleted = true }
        else new_reload_waiter)
unfolding run_reload did_stop_loading
run_reload-stops [] = refl
run_reload-stops (stop_loading ∷ es) = run_reload-deleted es _ refl
run_reload-stops (contents_destroyed ∷ es) = refl
run_reload-stops (other ∷ es) = run_reload-stops es
