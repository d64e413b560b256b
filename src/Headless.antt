-- ===== src/Headless.antt =====
-- browserd/headless_runtime.cc: the tabs of the headless browser.
pub mod Tabs
pub mod Interface
mod Tests
use browserd.Shared.{
  ℕ, ◌+◌, Bool, true, false, not, Option, none, some, List, [], ◌∷◌, String, eqb, has_value, map,
  if◌then◌else◌, ◌==◌,
}
use browserd.Platform.Contexts.{Contexts, Tab}
use browserd.Core.Runtime.{TabInfo}

module _ (K : Contexts) where
  open K use {Context, all, build, close, from, target_id}

  -- The runtime, and how often it has shut the browser down.
  pub record Runtime : Type 0 where
    pub browser_context : Option Context
    pub active_web_contents : Option ℕ
    pub shutdowns : ℕ

  pub make_tab_info : Tab → TabInfo
  make_tab_info t =
      let id = target_id t.contents in
      if has_value t.web_contents
      then record { target_id = id; title = t.title; url = t.url }
      else record { target_id = id; title = ""; url = "" }

  abbrev pub context_tabs : Runtime → List Tab
  context_tabs s = elim s.browser_context [ none ↦ [] | some c ↦ all c ]

  -- `Initialize`, given the directory, the context built on it and its first tab, where they are had.
  pub initialize : Runtime → Bool → Context → Option (Context × Tab) → Runtime × Bool
  initialize s has_user_data_dir context first_tab =
      if not has_user_data_dir then (s, false) else elim first_tab [
        | none ↦ (record s { browser_context = some context }, false)
        | some (context', t) ↦ (
          record s { browser_context = some context'; active_web_contents = t.web_contents },
          has_value t.web_contents,
        )
      ]

  -- The loop of `FindByTargetId`.
  pub find_in : List Tab → String → Option Tab
  find_in [] id = none
  find_in (t ∷ ts) id = if target_id t.contents == id then some t else find_in ts id

  pub find_by_target_id : Runtime → String → Option Tab
  unfolding find_in
  find_by_target_id s id = find_in (context_tabs s) id

  pub get_web_contents_by_target_id : Runtime → String → Option ℕ
  unfolding find_by_target_id
  get_web_contents_by_target_id s id = elim (find_by_target_id s id) [
    | none ↦ none
    | some t ↦ t.web_contents
  ]

  abbrev contents_of : List Tab → List ℕ
  contents_of [] = []
  contents_of (t ∷ ts) = elim t.web_contents [ none ↦ contents_of ts | some w ↦ w ∷ contents_of ts ]

  pub all_web_contents : Runtime → List ℕ
  all_web_contents s = contents_of (context_tabs s)

  pub list_tabs : Runtime → List TabInfo
  unfolding make_tab_info
  list_tabs s = map make_tab_info (context_tabs s)

  abbrev build_in : Option Context → String → Option (Context × Tab)
  build_in none url = none
  build_in (some c) url = build c url

  pub create_tab : Runtime → String → Runtime × Option TabInfo
  unfolding make_tab_info
  create_tab s url = elim (build_in s.browser_context url) [
    | none ↦ (s, none)
    | some (c, t) ↦ (
      record s { browser_context = some c; active_web_contents = t.web_contents },
      some (make_tab_info t),
    )
  ]

  abbrev from_in : Option Context → Option ℕ → Option Tab
  from_in none w = none
  from_in (some c) none = none
  from_in (some c) (some w) = from c w

  pub active_headless_web_contents : Runtime → Option Tab
  active_headless_web_contents s = from_in s.browser_context s.active_web_contents

  -- The loop of `ChooseFallbackActiveTab`, and what it leaves in `active_web_contents_`.
  pub choose_fallback : ℕ → List Tab → Option ℕ
  choose_fallback closing [] = none
  choose_fallback closing (t ∷ ts) =
      let later = choose_fallback closing ts in
      if eqb t.contents closing
      then later
      else elim t.web_contents [ none ↦ later | some w ↦ some w ]

  pub shutdown : Runtime → Runtime
  shutdown s = record s { shutdowns = s.shutdowns + 1 }

  abbrev close_in : Option Context → ℕ → Option Context
  close_in none closing = none
  close_in (some c) closing = some (close c closing)

  -- `CloseTab` for contents that are there.
  pub close_contents : Runtime → ℕ → Runtime
  unfolding choose_fallback shutdown
  close_contents s closing =
      let s' = record s {
        active_web_contents = choose_fallback closing (context_tabs s);
        browser_context = close_in s.browser_context closing;
      } in
      if not (has_value s'.active_web_contents) then shutdown s' else s'

  abbrev pub target : Runtime → Option String → Option Tab
  target s none = active_headless_web_contents s
  target s (some id) = find_by_target_id s id

  pub close_tab : Runtime → Option String → Runtime × Bool
  unfolding close_contents find_by_target_id active_headless_web_contents
  close_tab s target_id = elim (target s target_id) [
    | none ↦ (s, false)
    | some t ↦ (close_contents s t.contents, true)
  ]

  pub data TabEvent : Type 0 where
    create : String → TabEvent
    close_target : Option String → TabEvent

  pub step : Runtime → TabEvent → Runtime
  unfolding create_tab close_tab
  step s (create url) = (create_tab s url).0
  step s (close_target id) = (close_tab s id).0

  pub run : Runtime → List TabEvent → Runtime
  unfolding step
  run s [] = s
  run s (e ∷ es) = run (step s e) es
