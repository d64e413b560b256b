-- ===== src/Mcp/Server.antt =====
-- browserd/mcp/mcp_server.cc and mcp_tool.cc: JSON-RPC dispatch and the queue of tool calls.
-- A response callback is a number. A tool's handler is asynchronous code: `execute_next_tool_call`
-- hands it the call with its one-shot completion callback, kept in `running`, and `Event.complete` is
-- the moment at which that callback runs (at once, for a handler that answers synchronously).
pub mod Queue
mod Tests
pub mod Gate
pub mod Protocol
pub mod Replies
pub mod History
use browserd.Shared.{
  ℕ, String, Bool, true, false, not, Option, none, some, List, [], ◌∷◌, ◌++◌, if◌then◌else◌, ◌==◌,
  value_or, map, concat, ◌+◌, ◌&&◌, get_elem?, remove_at,
}
use browserd.Platform.Json.{Json, ℤ, pos, negsuc, find_string, find_dict}

module _ (J : Json) where
  open J use {Value, Dict, null, of_string, of_bool, of_int, of_dict, of_list, empty, find, set}

  -- `handler` is the identity of the bound function.
  pub record ToolDef : Type 0 where
    pub name : String
    pub description : String
    pub input_schema : Dict
    pub handler : ℕ

  pub record PendingToolCall : Type 0 where
    pub name : String
    pub args : Dict
    pub id : Value
    pub reply_to : ℕ

  -- What `tool.handler.Run` is given: the arguments and the bound `OnToolCallComplete`.
  pub record RunningCall : Type 0 where
    pub handler : ℕ
    pub args : Dict
    pub id : Value
    pub reply_to : ℕ

  -- A run of a response callback, with a response or with `std::nullopt`.
  pub record Reply : Type 0 where
    pub reply_to : ℕ
    pub response : Option Dict

  -- The server's fields, then what it has done to its environment: the callbacks run so far, the calls
  -- that handlers hold, and how often it shut the controller down.
  pub record Server : Type 0 where
    pub has_controller : Bool
    pub tools : List ToolDef
    pub initialized : Bool
    pub shutdown_on_stdio_close : Bool
    pub tool_call_in_progress : Bool
    pub tool_call_queue : List PendingToolCall
    pub replies : List Reply
    pub running : List RunningCall
    pub shutdowns : ℕ

  pub new_server : Server
  new_server = record {
    has_controller = false;
    tools = [];
    initialized = false;
    shutdown_on_stdio_close = true;
    tool_call_in_progress = false;
    tool_call_queue = [];
    replies = [];
    running = [];
    shutdowns = 0;
  }

  unfoldable pub start : Bool → Server → Server
  start shutdown s = record s { shutdown_on_stdio_close = shutdown }

  unfoldable pub set_controller : Bool → Server → Server
  set_controller present s = record s { has_controller = present }

  unfoldable pub register_tool : ToolDef → Server → Server
  register_tool tool s = record s { tools = s.tools ++ tool ∷ [] }

  abbrev pub run_callback : Server → ℕ → Option Dict → Server
  run_callback s reply_to response = record s {
    replies = s.replies ++ record { reply_to = reply_to; response = response } ∷ [];
  }

  pub send_no_response : Server → ℕ → Server
  send_no_response s reply_to = run_callback s reply_to none

  pub result_response : Value → Dict → Dict
  result_response id result =
      set (set (set empty "jsonrpc" (of_string "2.0")) "id" id) "result" (of_dict result)

  pub send_result : Server → Value → Dict → ℕ → Server
  send_result s id result reply_to = run_callback s reply_to (some (result_response id result))

  pub error_response : Value → ℤ → String → Dict
  error_response id code message =
      let error = set (set empty "code" (of_int code)) "message" (of_string message) in
      set (set (set empty "jsonrpc" (of_string "2.0")) "id" id) "error" (of_dict error)

  pub send_error : Server → Value → ℤ → String → ℕ → Server
  send_error s id code message reply_to =
      run_callback s reply_to (some (error_response id code message))

  pub text_content : String → List Value
  text_content text =
      of_dict (set (set empty "type" (of_string "text")) "text" (of_string text)) ∷ []

  pub handle_initialize : Server → Value → ℕ → Server
  unfolding send_result
  handle_initialize s id reply_to =
      let server_info =
        set (set empty "name" (of_string "browserd")) "version" (of_string "1.0.0") in
      let with_info = set empty "serverInfo" (of_dict server_info) in
      let with_version = set with_info "protocolVersion" (of_string "2024-11-05") in
      let tools_cap = set empty "listChanged" (of_bool false) in
      let capabilities = set empty "tools" (of_dict tools_cap) in
      let result = set with_version "capabilities" (of_dict capabilities) in
      send_result (record s { initialized = true }) id result reply_to

  pub tool_info : ToolDef → Value
  tool_info tool = of_dict (
      set (set (set empty "name" (of_string tool.name)) "description" (of_string tool.description))
        "inputSchema" (of_dict tool.input_schema))

  pub handle_tools_list : Server → Value → ℕ → Server
  unfolding send_result tool_info
  handle_tools_list s id reply_to =
      send_result s id (set empty "tools" (of_list (map tool_info s.tools))) reply_to

  -- The `for` loop over `tools_` in `ExecuteNextToolCall`.
  unfoldable pub find_tool : List ToolDef → String → Option ToolDef
  find_tool [] name = none
  find_tool (tool ∷ tools) name = if tool.name == name then some tool else find_tool tools name

  -- `OnToolCallComplete` up to its call of `ExecuteNextToolCall`.
  pub send_tool_result : Server → Value → ℕ → List Value → Bool → Server
  unfolding send_result
  send_tool_result s id reply_to content is_error =
      let base = set empty "content" (of_list content) in
      let result = if is_error then set base "isError" (of_bool true) else base in
      send_result s id result reply_to

  abbrev pub start_call : Server → PendingToolCall → ToolDef → Server
  start_call s call tool = record s {
    running =
        record { handler = tool.handler; args = call.args; id = call.id; reply_to = call.reply_to }
        ∷ s.running;
  }

  -- The call is taken off the queue.
  abbrev pub take_call : Server → List PendingToolCall → Server
  take_call s rest = record s { tool_call_in_progress = true; tool_call_queue = rest }

  -- The answer to a call that no tool gets: there is no controller, or no such tool.
  pub refuse_call : Server → PendingToolCall → Server
  unfolding send_tool_result text_content
  refuse_call s call =
      send_tool_result s call.id call.reply_to (text_content "No browser controller") true

  pub unknown_tool : Server → PendingToolCall → Server
  unfolding send_error
  unknown_tool s call =
      send_error s call.id (negsuc 32601) (concat "Unknown tool: " call.name) call.reply_to

  -- `ExecuteNextToolCall` on a given queue. Its calls of itself, the one through
  -- `OnToolCallComplete` included, each take one entry off the queue.
  pub execute_queue : Server → List PendingToolCall → Server
  unfolding refuse_call unknown_tool find_tool
  execute_queue s [] = record s { tool_call_in_progress = false; tool_call_queue = [] }
  execute_queue s (call ∷ rest) =
      let no_controller = execute_queue (refuse_call (take_call s rest) call) rest in
      let no_tool = execute_queue (unknown_tool (take_call s rest) call) rest in
      if not s.has_controller then no_controller else elim (find_tool s.tools call.name) [
        | some tool ↦ start_call (take_call s rest) call tool
        | none ↦ no_tool
      ]

  pub execute_next_tool_call : Server → Server
  unfolding execute_queue
  execute_next_tool_call s = execute_queue s s.tool_call_queue

  pub on_tool_call_complete : Server → Value → ℕ → List Value → Bool → Server
  unfolding send_tool_result execute_next_tool_call
  on_tool_call_complete s id reply_to content is_error =
      execute_next_tool_call (send_tool_result s id reply_to content is_error)

  -- The end of `HandleToolsCall`: a call joins the queue, and starts if none is in progress.
  pub enqueue_call : Server → PendingToolCall → Server
  unfolding execute_next_tool_call
  enqueue_call s call =
      let queued = record s { tool_call_queue = s.tool_call_queue ++ call ∷ [] } in
      if not s.tool_call_in_progress then execute_next_tool_call queued else queued

  abbrev pending_call : String → Dict → Value → ℕ → PendingToolCall
  pending_call tool_name params id reply_to = record {
    name = tool_name;
    args = value_or (find_dict J params "arguments") empty;
    id = id;
    reply_to = reply_to;
  }

  pub handle_tools_call : Server → Dict → Value → ℕ → Server
  unfolding send_error
  handle_tools_call s params id reply_to = elim (find_string J params "name") [
    | none ↦ send_error s id (negsuc 32601) "Missing tool name" reply_to
    | some tool_name ↦ enqueue_call s (pending_call tool_name params id reply_to)
  ]

  -- The branches of `OnMessage` that answer a request only: one with no id gets no response.
  abbrev pub if_request : Server → Option Value → ℕ → (Value → Server) → Server
  if_request s none reply_to handle = send_no_response s reply_to
  if_request s (some id) reply_to handle = handle id

  -- `OnMessage` for a message that has a method.
  pub dispatch : Server → String → Dict → Option Value → ℕ → Server
  unfolding send_no_response send_result send_error handle_initialize handle_tools_list
      handle_tools_call
  dispatch s method params id reply_to =
      if method == "initialize"
      then if_request s id reply_to (λ i. handle_initialize s i reply_to)
      else if method == "notifications/initialized"
      then send_no_response (record s { initialized = true }) reply_to
      else if method == "ping"
      then if_request s id reply_to (λ i. send_result s i empty reply_to)
      else if not s.initialized
      then if_request s id reply_to
          (λ i. send_error s i (negsuc 32001) "Server not initialized" reply_to)
      else if method == "tools/list"
      then if_request s id reply_to (λ i. handle_tools_list s i reply_to)
      else if method == "tools/call"
      then if_request s id reply_to (λ i. handle_tools_call s params i reply_to)
      else if_request s id reply_to
          (λ i. send_error s i (negsuc 32600) (concat "Method not found: " method) reply_to)

  pub on_message : Server → Dict → ℕ → Server
  unfolding dispatch
  on_message s message reply_to =
      let id = find message "id" in
      elim (find_string J message "method") [
        | none ↦
            if_request s id reply_to (λ i. send_error s i (negsuc 32599) "Invalid Request" reply_to)
        | some method ↦
            dispatch s method (value_or (find_dict J message "params") empty) id reply_to
      ]

  pub on_transport_closed : Server → Server
  on_transport_closed s =
      if s.shutdown_on_stdio_close && s.has_controller
      then record s { shutdowns = s.shutdowns + 1 }
      else s

  -- What happens to a started server: a message from a transport, the completion of the call at
  -- a position of `running`, the end of standard input.
  pub data Event : Type 0 where
    message : Dict → ℕ → Event
    complete : ℕ → List Value → Bool → Event
    closed : Event

  -- Completion callbacks are one-shot: running one takes the call out of `running`.
  pub step : Server → Event → Server
  unfolding on_message on_tool_call_complete on_transport_closed
  step s (message m reply_to) = on_message s m reply_to
  step s (complete i content is_error) = elim (get_elem? s.running i) [
    | none ↦ s
    | some call ↦
        on_tool_call_complete (record s { running = remove_at s.running i }) call.id call.reply_to
          content is_error
  ]
  step s closed = on_transport_closed s

  pub run : Server → List Event → Server
  unfolding step
  run s [] = s
  run s (e ∷ es) = run (step s e) es
