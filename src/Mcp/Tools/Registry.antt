-- ===== src/Mcp/Tools/Registry.antt =====
-- browserd/mcp/tools and browserd/app.cc: the tools that are registered.
use browserd.Shared.{ℕ, String, List, [], ◌∷◌}
use browserd.Platform.Json.{Json}
use browserd.Mcp.Server
use browserd.Mcp.Tools.Schemas.{schema_object, schema_string, schema_int, schema_bool}

-- The handlers, `HandleNavigate` and so on; the server knows one by its number.
pub data Handler : Type 0 where
  navigate : Handler
  navigate_back : Handler
  navigate_forward : Handler
  reload : Handler
  snapshot : Handler
  screenshot : Handler
  click : Handler
  hover : Handler
  type : Handler
  press_key : Handler
  select_option : Handler
  drag_and_drop : Handler
  scroll : Handler
  evaluate : Handler
  console_messages : Handler
  wait_for : Handler
  tabs : Handler
  new_tab : Handler
  close : Handler
  resize : Handler
  cookie_list : Handler
  cookie_get : Handler
  cookie_set : Handler
  cookie_delete : Handler
  cookie_clear : Handler

abbrev pub handler_number : Handler → ℕ
handler_number navigate = 0
handler_number navigate_back = 1
handler_number navigate_forward = 2
handler_number reload = 3
handler_number snapshot = 4
handler_number screenshot = 5
handler_number click = 6
handler_number hover = 7
handler_number type = 8
handler_number press_key = 9
handler_number select_option = 10
handler_number drag_and_drop = 11
handler_number scroll = 12
handler_number evaluate = 13
handler_number console_messages = 14
handler_number wait_for = 15
handler_number tabs = 16
handler_number new_tab = 17
handler_number close = 18
handler_number resize = 19
handler_number cookie_list = 20
handler_number cookie_get = 21
handler_number cookie_set = 22
handler_number cookie_delete = 23
handler_number cookie_clear = 24

module _ (J : Json) where
  open J use {Dict, set, empty, of_string, of_dict}

  abbrev string_property : Dict → String → String → Dict
  string_property d key desc = set d key (of_dict (schema_string J desc))

  abbrev int_property : Dict → String → String → Dict
  int_property d key desc = set d key (of_dict (schema_int J desc))

  abbrev bool_property : Dict → String → String → Dict
  bool_property d key desc = set d key (of_dict (schema_bool J desc))

  abbrev tool : String → String → Dict → List String → Handler → Server.ToolDef J
  tool name description properties required handler = record {
    name = name;
    description = description;
    input_schema = schema_object J properties required;
    handler = handler_number handler;
  }

  abbrev register_all : List (Server.ToolDef J) → Server.Server J → Server.Server J
  register_all [] s = s
  register_all (t ∷ ts) s = register_all ts (Server.register_tool J t s)

  abbrev navigation_tools : List (Server.ToolDef J)
  navigation_tools =
      tool "browser_navigate" "Navigate to a URL" (string_property empty "url" "URL to navigate to")
        ("url" ∷ []) navigate
      ∷ tool "browser_navigate_back" "Go back in browser history" empty [] navigate_back
      ∷ tool "browser_navigate_forward" "Go forward in browser history" empty [] navigate_forward
      ∷ tool "browser_reload" "Reload the current page" empty [] reload
      ∷ []

  unfoldable pub register_navigation_tools : Server.Server J → Server.Server J
  register_navigation_tools s = register_all navigation_tools s

  abbrev snapshot_tools : List (Server.ToolDef J)
  snapshot_tools =
      tool "browser_snapshot" "Capture an accessibility snapshot of the current page" empty []
        snapshot
      ∷ tool "browser_take_screenshot" "Take a screenshot of the current page" empty [] screenshot
      ∷ []

  unfoldable pub register_snapshot_tools : Server.Server J → Server.Server J
  register_snapshot_tools s = register_all snapshot_tools s

  abbrev interaction_tools : List (Server.ToolDef J)
  interaction_tools =
      tool "browser_click" "Click an element on the page using its accessibility ref"
        (string_property empty "ref" "Element ref from accessibility snapshot") ("ref" ∷ []) click
      ∷ tool "browser_hover" "Hover over an element on the page"
          (string_property empty "ref" "Element ref from accessibility snapshot") ("ref" ∷ []) hover
      ∷ tool "browser_type" "Type text into a focused element"
          (bool_property
            (string_property (string_property empty "ref" "Element ref from accessibility snapshot")
              "text" "Text to type")
            "clear" "Clear existing text before typing")
          ("ref" ∷ "text" ∷ []) type
      ∷ tool "browser_press_key" "Press a keyboard key or key combination"
          (string_property empty "key" "Key to press (e.g. Enter, Tab, ArrowDown)") ("key" ∷ [])
          press_key
      ∷ tool "browser_select_option" "Select option(s) in a select element"
          (set (string_property empty "ref" "Element ref from accessibility snapshot") "values" (
            of_dict (
              set
                (set (set empty "type" (of_string "array")) "description"
                  (of_string "Option values to select"))
                "items" (of_dict (set empty "type" (of_string "string"))))))
          ("ref" ∷ "values" ∷ []) select_option
      ∷ tool "browser_drag" "Drag and drop from one element to another"
          (string_property (string_property empty "startRef" "Source element ref") "endRef"
            "Target element ref")
          ("startRef" ∷ "endRef" ∷ []) drag_and_drop
      ∷ tool "browser_scroll" "Scroll the page"
          (int_property (int_property empty "deltaX" "Horizontal scroll amount in pixels") "deltaY"
            "Vertical scroll amount in pixels")
          [] scroll
      ∷ []

  unfoldable pub register_interaction_tools : Server.Server J → Server.Server J
  register_interaction_tools s = register_all interaction_tools s

  abbrev evaluate_tools : List (Server.ToolDef J)
  evaluate_tools =
      tool "browser_evaluate" "Execute JavaScript in the browser console"
        (string_property empty "expression" "JavaScript expression to evaluate") ("expression" ∷ [])
        evaluate
      ∷ tool "browser_console_messages" "Get console messages from the page" empty []
          console_messages
      ∷ []

  unfoldable pub register_evaluate_tools : Server.Server J → Server.Server J
  register_evaluate_tools s = register_all evaluate_tools s

  abbrev wait_tools : List (Server.ToolDef J)
  wait_tools =
      tool "browser_wait_for" "Wait for a selector to appear or text to be present on the page"
        (int_property
          (string_property (string_property empty "selector" "CSS selector to wait for") "text"
            "Text to wait for on the page")
          "timeout" "Timeout in milliseconds (default 30000)")
        [] wait_for
      ∷ []

  unfoldable pub register_wait_tools : Server.Server J → Server.Server J
  register_wait_tools s = register_all wait_tools s

  abbrev tab_tools : List (Server.ToolDef J)
  tab_tools =
      tool "browser_tab_list" "List all open browser tabs" empty [] tabs
      ∷ tool "browser_tab_new" "Open a new browser tab"
          (string_property empty "url" "URL to open in the new tab") [] new_tab
      ∷ tool "browser_close" "Close a browser tab"
          (string_property empty "targetId"
            "Target ID of the tab to close (closes current if omitted)")
          [] close
      ∷ tool "browser_resize" "Resize the browser viewport"
          (int_property (int_property empty "width" "Viewport width in pixels") "height"
            "Viewport height in pixels")
          [] resize
      ∷ []

  unfoldable pub register_tab_tools : Server.Server J → Server.Server J
  register_tab_tools s = register_all tab_tools s

  abbrev cookie_tools : List (Server.ToolDef J)
  cookie_tools =
      tool "browser_cookie_list" "List cookies, optionally filtered by URL"
        (string_property empty "url" "URL to filter cookies by") [] cookie_list
      ∷ tool "browser_cookie_get" "Get a specific cookie by name"
          (string_property empty "name" "Cookie name") ("name" ∷ []) cookie_get
      ∷ tool "browser_cookie_set" "Set a cookie"
          (bool_property
            (bool_property
              (string_property
                (string_property
                  (string_property
                    (string_property (string_property empty "name" "Cookie name") "value"
                      "Cookie value")
                    "domain" "Cookie domain")
                  "path" "Cookie path")
                "url" "URL to associate cookie with")
              "secure" "Secure flag")
            "httpOnly" "HttpOnly flag")
          ("name" ∷ "value" ∷ []) cookie_set
      ∷ tool "browser_cookie_delete" "Delete a cookie by name"
          (string_property
            (string_property (string_property empty "name" "Cookie name to delete") "url"
              "URL the cookie belongs to")
            "domain" "Cookie domain")
          ("name" ∷ []) cookie_delete
      ∷ tool "browser_cookie_clear" "Clear all cookies" empty [] cookie_clear
      ∷ []

  unfoldable pub register_cookie_tools : Server.Server J → Server.Server J
  register_cookie_tools s = register_all cookie_tools s

  -- `App::RegisterTools`
  unfoldable pub register_tools : Server.Server J → Server.Server J
  register_tools s = register_cookie_tools (
      register_tab_tools (
        register_wait_tools (
          register_evaluate_tools
            (register_interaction_tools (register_snapshot_tools (register_navigation_tools s))))))
