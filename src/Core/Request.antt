-- ===== src/Core/Request.antt =====
-- browserd/core/browser_controller.cc: what its request objects have in common. Each runs one callback
-- and posts the task that deletes it.
pub mod Once
use browserd.Shared.{ℕ, ◌+◌, Bool, true, false, List, [], ◌∷◌, ◌++◌, if◌then◌else◌}

-- `callback` says whether `callback_` is set, `timer` whether the timer runs, `replies` is what the
-- callback has been run with, `deletions` counts the tasks posted that delete the object.
pub record Request (R : Type 0) : Type 0 where
  pub callback : Bool
  pub timer : Bool
  pub replies : List R
  pub deletions : ℕ

module _ {R : Type 0} where
  abbrev pub new_request : Request R
  new_request = record { callback = true; timer = false; replies = []; deletions = 0 }

  unfoldable pub complete : Request R → R → Request R
  complete s r =
      if s.callback
      then record {
        callback = false;
        timer = false;
        replies = s.replies ++ r ∷ [];
        deletions = s.deletions + 1;
      }
      else s

  abbrev pub set_timer : Request R → Bool → Request R
  set_timer s b = record s { timer = b }
