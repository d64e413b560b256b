-- ===== src/Headless/Tests.antt =====
-- Three tabs; the middle one is closed, then the active one, then the last.
use browserd.Shared.{◌≡◌, ◌⊎◌, inl, refl, true, false, none, some, List, [], ◌∷◌}
use browserd.Platform.Contexts.{Tab}
use browserd.Platform.Samples.Tabs.{contexts, tab}
use browserd.Headless
use browserd.Headless.Tabs

abbrev start : Headless.Runtime contexts
start = record { browser_context = some (1 ∷ []); active_web_contents = some 1; shutdowns = 0 }

abbrev events : List (Headless.TabEvent contexts)
events =
    Headless.create "about:blank"
    ∷ Headless.create "about:blank"
    ∷ Headless.close_target (some "xx")
    ∷ Headless.close_target none
    ∷ Headless.close_target none
    ∷ Headless.close_target none
    ∷ []

start-IsOpen : Tabs.IsOpen contexts start
start-IsOpen = record { active = λ w e. (tab 1, inl refl, e) }

run-IsOpen_example : Tabs.IsOpen contexts (Headless.run contexts start events)
run-IsOpen_example = Tabs.run-IsOpen contexts start events start-IsOpen

close_tab-cases_example :
    ((Headless.target contexts start none ≡ none)
      × (Headless.close_tab contexts start none ≡ (start, false)))
    ⊎ ((t : Tab) × (Headless.target contexts start none ≡ some t)
        × ((Headless.close_tab contexts start none).1 ≡ true)
        × Tabs.Closes contexts start t.contents (Headless.close_tab contexts start none).0)
close_tab-cases_example = Tabs.close_tab-cases contexts start none

all_closed : (Headless.run contexts start events).shutdowns ≡ 1
unfolding Headless.run Headless.step Headless.create_tab Headless.close_tab Headless.close_contents
    Headless.choose_fallback Headless.shutdown Headless.find_by_target_id Headless.find_in
    Headless.active_headless_web_contents
all_closed = refl
