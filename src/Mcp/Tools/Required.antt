-- ===== src/Mcp/Tools/Required.antt =====
-- browserd/mcp/tools: each tool is found under its name, and refuses a call without what it requires.
use browserd.Shared.{
  String, ◌≡◌, ◌⊎◌, inl, inr, refl, subst, true, Option, none, some, List, [], ◌∷◌,
}
use mathlib.Core.Logic.{⊎_elim}
use mathlib.Core.List.{Memᴰ}
use mathlib.Core.List.Memᴰ
use browserd.Platform.Json.{Json, ℤ, find_string, find_list}
use browserd.Platform.Urls.{Urls}
use browserd.Core.Screenshot.{Bytes}
use browserd.Mcp.Server
use browserd.Mcp.Tools.Registry
use browserd.Mcp.Tools.Registry.{Handler, handler_number}
use browserd.Mcp.Tools.Calls
use browserd.Mcp.Tools.Calls.{ToolCall}
use browserd.Mcp.Tools.Handlers
use browserd.Mcp.Tools.Interactions
use browserd.Mcp.Tools.Cookies
use browserd.Mcp.Tools.Schemas

-- The name under which a tool is called, and the keys that it requires.
abbrev pub name_of : Handler → String
name_of Registry.navigate = "browser_navigate"
name_of Registry.navigate_back = "browser_navigate_back"
name_of Registry.navigate_forward = "browser_navigate_forward"
name_of Registry.reload = "browser_reload"
name_of Registry.snapshot = "browser_snapshot"
name_of Registry.screenshot = "browser_take_screenshot"
name_of Registry.click = "browser_click"
name_of Registry.hover = "browser_hover"
name_of Registry.type = "browser_type"
name_of Registry.press_key = "browser_press_key"
name_of Registry.select_option = "browser_select_option"
name_of Registry.drag_and_drop = "browser_drag"
name_of Registry.scroll = "browser_scroll"
name_of Registry.evaluate = "browser_evaluate"
name_of Registry.console_messages = "browser_console_messages"
name_of Registry.wait_for = "browser_wait_for"
name_of Registry.tabs = "browser_tab_list"
name_of Registry.new_tab = "browser_tab_new"
name_of Registry.close = "browser_close"
name_of Registry.resize = "browser_resize"
name_of Registry.cookie_list = "browser_cookie_list"
name_of Registry.cookie_get = "browser_cookie_get"
name_of Registry.cookie_set = "browser_cookie_set"
name_of Registry.cookie_delete = "browser_cookie_delete"
name_of Registry.cookie_clear = "browser_cookie_clear"

abbrev pub required_of : Handler → List String
required_of Registry.navigate = "url" ∷ []
required_of Registry.click = "ref" ∷ []
required_of Registry.hover = "ref" ∷ []
required_of Registry.type = "ref" ∷ "text" ∷ []
required_of Registry.press_key = "key" ∷ []
required_of Registry.select_option = "ref" ∷ "values" ∷ []
required_of Registry.drag_and_drop = "startRef" ∷ "endRef" ∷ []
required_of Registry.evaluate = "expression" ∷ []
required_of Registry.cookie_get = "name" ∷ []
required_of Registry.cookie_set = "name" ∷ "value" ∷ []
required_of Registry.cookie_delete = "name" ∷ []
required_of h = []

some-not_none : {A : Type 0} {a : A} → ¬ (some a ≡ none)
some-not_none e = cc

-- What a handler does: those of the cookie tools have a type of their own.
pub data Handled (U : Urls) : Type 0 where
  calls : ToolCall U → Handled U
  acts : Cookies.Action → Handled U

-- It answers with an error and does not call the controller.
pub data Refuses (U : Urls) : Handled U → Type 0 where
  refuses : (a : Calls.ToolAnswer) → a.is_error ≡ true → Refuses U (calls (Calls.answers a))
  refuses_cookie : (s : String) → Refuses U (acts (Cookies.answers (s, true)))

module _ (U : Urls) (J : Json) (number : ℤ → String) (base64_encode : Bytes → String) where
  -- The handler that a number stands for, run on the arguments of a call.
  pub handle : Handler → J.Dict → Handled U
  handle Registry.navigate args = calls (Handlers.handle_navigate U J number base64_encode args)
  handle Registry.navigate_back args =
      calls (Handlers.handle_navigate_back U J number base64_encode args)
  handle Registry.navigate_forward args =
      calls (Handlers.handle_navigate_forward U J number base64_encode args)
  handle Registry.reload args = calls (Handlers.handle_reload U J number base64_encode args)
  handle Registry.snapshot args = calls (Handlers.handle_snapshot U J number base64_encode args)
  handle Registry.screenshot args = calls (Handlers.handle_screenshot U J number base64_encode args)
  handle Registry.click args = calls (Interactions.handle_click U J args)
  handle Registry.hover args = calls (Interactions.handle_hover U J args)
  handle Registry.type args = calls (Interactions.handle_type U J args)
  handle Registry.press_key args = calls (Interactions.handle_press_key U J args)
  handle Registry.select_option args = calls (Interactions.handle_select_option U J args)
  handle Registry.drag_and_drop args = calls (Interactions.handle_drag_and_drop U J args)
  handle Registry.scroll args = calls (Interactions.handle_scroll U J args)
  handle Registry.evaluate args = calls (Handlers.handle_evaluate U J number base64_encode args)
  handle Registry.console_messages args =
      calls (Handlers.handle_console_messages U J number base64_encode args)
  handle Registry.wait_for args = calls (Handlers.handle_wait_for U J number base64_encode args)
  handle Registry.tabs args = calls (Handlers.handle_tabs U J number base64_encode args)
  handle Registry.new_tab args = calls (Handlers.handle_new_tab U J number base64_encode args)
  handle Registry.close args = calls (Handlers.handle_close U J number base64_encode args)
  handle Registry.resize args = calls (Handlers.handle_resize U J number base64_encode args)
  handle Registry.cookie_list args =
      acts (Cookies.handle_cookie_list J (λ url. U.is_valid (U.of_string url)) args)
  handle Registry.cookie_get args =
      acts (Cookies.handle_cookie_get J (λ url. U.is_valid (U.of_string url)) args)
  handle Registry.cookie_set args =
      acts (Cookies.handle_cookie_set J (λ url. U.is_valid (U.of_string url)) args)
  handle Registry.cookie_delete args =
      acts (Cookies.handle_cookie_delete J (λ url. U.is_valid (U.of_string url)) args)
  handle Registry.cookie_clear args =
      acts (Cookies.handle_cookie_clear J (λ url. U.is_valid (U.of_string url)) args)

  -- In a server that had no tools, each tool is registered under its name, with the keys that it
  -- requires in its schema, and no other tool hides it.
  pub register_tools-find :
      (h : Handler) (s : Server.Server J)
      → (t : Server.ToolDef J) × (properties : J.Dict) × (Server.find_tool J
            (Registry.register_tools J (record s { tools = [] })).tools
            (name_of h)
          ≡ some t)
        × (t.handler ≡ handler_number h)
        × (t.input_schema ≡ Schemas.schema_object J properties (required_of h))
  unfolding Registry.register_tools Registry.register_cookie_tools Registry.register_tab_tools
      Registry.register_wait_tools Registry.register_evaluate_tools
      Registry.register_interaction_tools Registry.register_snapshot_tools
      Registry.register_navigation_tools Server.find_tool Server.register_tool
  register_tools-find Registry.navigate s = (_, _, refl, refl, refl)
  register_tools-find Registry.navigate_back s = (_, _, refl, refl, refl)
  register_tools-find Registry.navigate_forward s = (_, _, refl, refl, refl)
  register_tools-find Registry.reload s = (_, _, refl, refl, refl)
  register_tools-find Registry.snapshot s = (_, _, refl, refl, refl)
  register_tools-find Registry.screenshot s = (_, _, refl, refl, refl)
  register_tools-find Registry.click s = (_, _, refl, refl, refl)
  register_tools-find Registry.hover s = (_, _, refl, refl, refl)
  register_tools-find Registry.type s = (_, _, refl, refl, refl)
  register_tools-find Registry.press_key s = (_, _, refl, refl, refl)
  register_tools-find Registry.select_option s = (_, _, refl, refl, refl)
  register_tools-find Registry.drag_and_drop s = (_, _, refl, refl, refl)
  register_tools-find Registry.scroll s = (_, _, refl, refl, refl)
  register_tools-find Registry.evaluate s = (_, _, refl, refl, refl)
  register_tools-find Registry.console_messages s = (_, _, refl, refl, refl)
  register_tools-find Registry.wait_for s = (_, _, refl, refl, refl)
  register_tools-find Registry.tabs s = (_, _, refl, refl, refl)
  register_tools-find Registry.new_tab s = (_, _, refl, refl, refl)
  register_tools-find Registry.close s = (_, _, refl, refl, refl)
  register_tools-find Registry.resize s = (_, _, refl, refl, refl)
  register_tools-find Registry.cookie_list s = (_, _, refl, refl, refl)
  register_tools-find Registry.cookie_get s = (_, _, refl, refl, refl)
  register_tools-find Registry.cookie_set s = (_, _, refl, refl, refl)
  register_tools-find Registry.cookie_delete s = (_, _, refl, refl, refl)
  register_tools-find Registry.cookie_clear s = (_, _, refl, refl, refl)

  -- What the absence of a required key says of the keys of a tool.
  absent : (args : J.Dict) (k : String) → J.find args k ≡ none → find_string J args k ≡ none
  absent args k n = rw n refl

  one_key :
      (args : J.Dict) (k key : String)
      → Memᴰ k (key ∷ [])
      → J.find args k ≡ none
      → find_string J args key ≡ none
  one_key args k key m n =
      absent args key (subst (λ j. J.find args j ≡ none) (Memᴰ.eq_of_singleton m) n)

  two_keys :
      (args : J.Dict) (k first second : String)
      → Memᴰ k (first ∷ second ∷ [])
      → J.find args k ≡ none
      → (J.find args first ≡ none) ⊎ (J.find args second ≡ none)
  two_keys args k first second m n = elim (Memᴰ.cases_cons m) [
    | inl e ↦ inl (subst (λ j. J.find args j ≡ none) e n)
    | inr l ↦ inr (subst (λ j. J.find args j ≡ none) (Memᴰ.eq_of_singleton l) n)
  ]

  with_two-Refuses :
      {A B : Type 0} (a : Option A) (b : Option B) (error : String) (next : A → B → ToolCall U)
      → (a ≡ none) ⊎ (b ≡ none)
      → Refuses U (calls (Interactions.with_two U J a b error next))
  with_two-Refuses none b error next h = refuses _ refl
  with_two-Refuses (some a) none error next h = refuses _ refl
  with_two-Refuses (some a) (some b) error next (inl e) = absurd (some-not_none e)
  with_two-Refuses (some a) (some b) error next (inr e) = absurd (some-not_none e)

  with_both-Refuses :
      (a b : Option String) (next : String → String → Cookies.Action)
      → (a ≡ none) ⊎ (b ≡ none)
      → Refuses U (acts (Cookies.with_both J (λ url. U.is_valid (U.of_string url)) a b next))
  with_both-Refuses none b next h = refuses_cookie _
  with_both-Refuses (some a) none next h = refuses_cookie _
  with_both-Refuses (some a) (some b) next (inl e) = absurd (some-not_none e)
  with_both-Refuses (some a) (some b) next (inr e) = absurd (some-not_none e)

  absent_list : (args : J.Dict) (k : String) → J.find args k ≡ none → find_list J args k ≡ none
  absent_list args k n = rw n refl

  -- A call of a tool whose arguments lack a key that its schema requires is answered with an error, and
  -- the controller is not called.
  pub handle-Refuses :
      (h : Handler) (args : J.Dict) (k : String)
      → Memᴰ k (required_of h)
      → J.find args k ≡ none
      → Refuses U (handle h args)
  unfolding handle Handlers.handle_navigate Interactions.handle_click Interactions.handle_hover
      Interactions.handle_type Interactions.handle_press_key Interactions.handle_select_option
      Interactions.handle_drag_and_drop Handlers.handle_evaluate Cookies.handle_cookie_get
      Cookies.handle_cookie_set Cookies.handle_cookie_delete
  handle-Refuses Registry.navigate args k m n =
      rw (Handlers.handle_navigate, one_key args k "url" m n) (refuses _ refl)
  handle-Refuses Registry.click args k m n =
      rw (Interactions.handle_click, one_key args k "ref" m n) (refuses _ refl)
  handle-Refuses Registry.hover args k m n =
      rw (Interactions.handle_hover, one_key args k "ref" m n) (refuses _ refl)
  handle-Refuses Registry.type args k m n = with_two-Refuses _ _ _ _ (
      ⊎_elim (λ e. inl (absent args "ref" e)) (λ e. inr (absent args "text" e))
        (two_keys args k "ref" "text" m n))
  handle-Refuses Registry.press_key args k m n =
      rw (Interactions.handle_press_key, one_key args k "key" m n) (refuses _ refl)
  handle-Refuses Registry.select_option args k m n = with_two-Refuses _ _ _ _ (
      ⊎_elim (λ e. inl (absent args "ref" e)) (λ e. inr (absent_list args "values" e))
        (two_keys args k "ref" "values" m n))
  handle-Refuses Registry.drag_and_drop args k m n = with_two-Refuses _ _ _ _ (
      ⊎_elim (λ e. inl (absent args "startRef" e)) (λ e. inr (absent args "endRef" e))
        (two_keys args k "startRef" "endRef" m n))
  handle-Refuses Registry.evaluate args k m n =
      rw (Handlers.handle_evaluate, one_key args k "expression" m n) (refuses _ refl)
  handle-Refuses Registry.cookie_get args k m n =
      rw (Cookies.handle_cookie_get, one_key args k "name" m n) (refuses_cookie _)
  handle-Refuses Registry.cookie_set args k m n = with_both-Refuses _ _ _ (
      ⊎_elim (λ e. inl (absent args "name" e)) (λ e. inr (absent args "value" e))
        (two_keys args k "name" "value" m n))
  handle-Refuses Registry.cookie_delete args k m n =
      rw (Cookies.handle_cookie_delete, one_key args k "name" m n) (refuses_cookie _)
  handle-Refuses h args k m n = absurd (Memᴰ.not-nil m)
