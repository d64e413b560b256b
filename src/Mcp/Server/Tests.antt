-- ===== src/Mcp/Server/Tests.antt =====
-- The server on a small history: two tool calls, the second of which waits for the first.
use mathlib.Core.List.{Perm}
use browserd.Shared.{ℕ, ◌≡◌, refl, true, false, none, List, [], ◌∷◌, ◌++◌, arith, String, eq_iff}
use browserd.Platform.Json.{pos}
use browserd.Platform.Samples.{json, Value, Dict, str, int, dict, entry, end}
use browserd.Mcp.Server
use browserd.Mcp.Server.Queue.{Inv, answered, timeline}
use browserd.Mcp.Server.History
use browserd.Mcp.Server.Replies
use browserd.Mcp.Server.Protocol
use browserd.Mcp.Server.Gate

abbrev request : String → Dict → ℕ → Dict
request method params id =
    entry "method" (str method) (entry "params" (dict params) (entry "id" (int (pos id)) end))

abbrev call : String → ℕ → Dict
call tool id = request "tools/call" (entry "name" (str tool) end) id

abbrev reload : Server.ToolDef json
reload = record { name = "browser_reload"; description = "Reload"; input_schema = end; handler = 7 }

abbrev ready : Server.Server json
ready = record {
  has_controller = true;
  tools = reload ∷ [];
  initialized = false;
  shutdown_on_stdio_close = true;
  tool_call_in_progress = false;
  tool_call_queue = [];
  replies = [];
  running = [];
  shutdowns = 0;
}

ready-Inv : Inv json ready
ready-Inv = record { single = omega arith; flagged = refl; drained = λ e. refl }

abbrev events : List (Server.Event json)
events =
    Server.message (request "initialize" end 1) 10
    ∷ Server.message (call "browser_reload" 2) 20
    ∷ Server.message (call "browser_unknown" 3) 30
    ∷ Server.message (call "browser_reload" 4) 40
    ∷ Server.message (request "ping" end 5) 50
    ∷ []

-- The ping overtakes the queued calls; the rest is answered in order.
history_answers :
    (answered json (Server.run json ready events) ≡ 10 ∷ 50 ∷ [])
    × (answered json (
          Server.run json ready
            (events ++ Server.complete 0 [] false ∷ Server.complete 0 [] true ∷ []))
        ≡ 10 ∷ 50 ∷ 20 ∷ 30 ∷ 40 ∷ [])
unfolding Server.run Server.enqueue_call
history_answers = (refl, refl)

busy : Server.Server json
busy = Server.run json ready events

busy-Inv : Inv json busy
unfolding busy
busy-Inv = History.run-Inv json ready events ready-Inv

run-Inv_example : Inv json (Server.run json ready events)
run-Inv_example = History.run-Inv json ready events ready-Inv

run-perm_example :
    Perm (timeline json (Server.run json ready events)) (History.arrivals json events ++ [])
run-perm_example = History.run-perm json ready events ready-Inv

run-answers_all_example :
    answered json
      (Server.run json busy (History.completions json (([], false) ∷ ([], true) ∷ ([], true) ∷ [])))
    ≡ timeline json busy
unfolding busy Server.run Server.enqueue_call
run-answers_all_example =
    History.run-answers_all json busy (([], false) ∷ ([], true) ∷ ([], true) ∷ []) busy-Inv
      (omega arith)

on_message-notification_example :
    Protocol.RepliesOnly json ready
      (record { reply_to = 5; response = none })
      (Server.on_message json ready (entry "method" (str "tools/call") end) 5)
on_message-notification_example =
    Protocol.on_message-notification json ready (entry "method" (str "tools/call") end) 5 refl

-- The callbacks of `call_events` are numbered by their ids.
abbrev call_events : List (Server.Event json)
call_events =
    Server.message (request "initialize" end 1) 1
    ∷ Server.message (call "browser_reload" 2) 2
    ∷ Server.complete 0 [] false
    ∷ []

abbrev numbered : ℕ → Value
numbered n = int (pos n)

run-Matched_example : Replies.Matched json numbered (Server.run json ready call_events)
run-Matched_example =
    Protocol.run-Matched json numbered ready call_events ((λ id e. cc), ((λ id e. cc), tt))
      (record { sent = tt; queued = tt; held = tt })

run-IsIdle_example :
    Gate.IsIdle json (Server.run json ready (Server.message (call "browser_reload" 2) 20 ∷ []))
run-IsIdle_example =
    Gate.run-IsIdle json ready (Server.message (call "browser_reload" 2) 20 ∷ [])
      (
        (
          (λ e. ground (arith, eq_iff "tools/call" "initialize")),
          (λ e. ground (arith, eq_iff "tools/call" "notifications/initialized")),
        ),
        tt,
      )
      (record { uninitialized = refl; nothing_queued = refl; nothing_running = refl })
