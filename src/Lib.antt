-- ===== src/Lib.antt =====
-- A model of browserd, a browser that is driven over the Model Context Protocol.
--
-- Messages reach the server through three transports: standard input and output, HTTP on an address
-- of the machine, and one client at a time on a local socket. Each parses JSON-RPC messages, posts
-- them to the main thread together with a callback, and sends what the callback is run with. The
-- server answers, or queues a tool call and runs one at a time on the browser.
--
--   Mcp/Server   browserd/mcp/mcp_server.cc: `OnMessage`, the handlers, `ExecuteNextToolCall` and
--                `OnToolCallComplete`. A callback is a number, and the log of the callbacks run is
--                part of the state; a tool's handler is a number too, and its completion an event.
--   Mcp/Http     browserd/mcp/mcp_http_transport.cc: the delegate of `net::HttpServer`, with the log
--                of the responses sent and the messages posted.
--   Mcp/Line     browserd/mcp/mcp_transport.cc, and the framing of `RunLoop` in
--                browserd/mcp/mcp_ipc_transport_posix.cc.
--   Mcp/Ipc      browserd/mcp/mcp_ipc_transport_posix.cc: `RunLoop` in steps, `RequestStopLocked`,
--                `SendSerializedResponse`. An event is what the next system call gives, or what the
--                main thread does in between.
--   Mcp/Ipc/Listen  the same file: `CreateListeningSocket`, over what the system calls give.
--   Mcp/Tools    browserd/mcp/tools/*.cc and browserd/mcp/mcp_tool.cc: the contents, the schemas, the
--                handlers of all tools, and `RegisterTools`. A handler gives the call of the controller
--                that it makes, with what it answers to each result, or an error.
--   Core/Controller  browserd/core/browser_controller.cc: the tabs, the pages, the cookies and the
--                observers of the pages. A call gives what it asks of the page or of the runtime.
--   Core/Navigation, Core/Evaluation, Core/Screenshot  the same file: `NavigationWaiter` and
--                `ReloadWaiter`, `JavaScriptEvaluationRequest` and `ScreenshotCaptureRequest`, each run
--                on the events of the page and the timer. Core/Request is the callback they share.
--   Core/Interactions  browserd/core/browser_interactions.cc: the references to elements, `Click`, the key
--                of a byte, and the delayed tasks that type a text, press a key, turn the wheel, and
--                move and click the mouse. A run is given what each task meets: whether there is a
--                render view, and the random number that it draws. A `char` is taken to be signed, and `std::abs`
--                of the least `int` wraps around.
--   Core/Runtime  browserd/browser_runtime.h: the record of operations that the controller asks for.
--   Headless/Interface  the headless runtime as such a record, with the controller on top of it.
--   UserData     browserd/user_data_dir.cc: the directory of the browser's data.
--   App          browserd/app.cc: the configuration of the transports from the command line and the
--                environment, and `Start`, which starts the models of the server and of HTTP.
--   Headless     browserd/headless_runtime.cc: the tabs, and which of them is active.
--   Switches     browserd/embedder_switches.cc: the switches given to the browser and its children.
--   Platform     what these call and the repository does not hold: `base::Value` (Json), string
--                functions (Strings), `base::CommandLine` (CommandLines), `GURL` (Urls),
--                `net::CanonicalCookie` (Cookies) and the headless
--                library's context (Contexts), each as a record of operations and laws, and
--                a value of each record to run the model with (Samples).
--   Shared       names and lemmas that all use.
--
-- How they interact: a message is read by a transport, answered or queued by Mcp/Server, and run by a
-- handler of Mcp/Tools, which calls Core/Controller; this resolves the tab by Core/Runtime and starts
-- one of the requests, whose callback gives the server its completion.
--
-- Fuel: only `dispatch_lines` has any; `feed` gives it one round more than there are bytes, and
-- each round takes off a byte at least. The requests and the tasks run on lists of events, of any
-- length. The generation of a client is a uint64_t that wraps, and the sums of `int` wrap at 32 bits.
--
-- Not modelled: the paths of the mouse, which are floating point numbers; the search of a node in the
-- accessibility tree, of which a click gets the result; what of `Type` and `Hover` comes before their
-- tasks, and Drag and SelectOption, which run scripts in the page or act on its accessibility tree; the
-- texts of the scripts; the hop of a call from another thread to the main one;
-- `DevToolsEvaluationClient`, which no code makes; the embedding interface,
-- the windows, the native Chrome runtime, the start of threads, the main functions, and the transport
-- of Windows, which call Chromium or the system throughout.
pub mod Shared
pub mod Platform
pub mod Mcp
pub mod App
pub mod Core
pub mod Headless
pub mod Switches
pub mod UserData
