-- ===== src/App/Tests.antt =====
-- A process that is started with a port, and one that is started with nothing.
use browserd.Shared.{
  ℕ, refl, Bool, true, false, Option, none, some, List, [], ◌∷◌, String, Text, codes, text_eq, eqb,
  if◌then◌else◌,
}
use browserd.Platform.Samples.{json}
use browserd.Platform.Samples.Texts.{strings}
use browserd.Platform.Samples.Lines.{lines}
use browserd.Mcp.Http
use browserd.App
use browserd.App.Config

abbrev codec : Http.Codec json
codec = record {
  read_dict = λ s. none;
  write = λ d. none;
  url_is_valid = λ s. true;
  url_host = λ s. s;
}

abbrev to_uint : Text → Option ℕ
to_uint s = if text_eq s (codes "9222") then some 9222 else none

abbrev before : App.App strings lines to_uint json codec
before = record {
  server = record {
    has_controller = false;
    tools = [];
    initialized = false;
    shutdown_on_stdio_close = true;
    tool_call_in_progress = false;
    tool_call_queue = [];
    replies = [];
    running = [];
    shutdowns = 0;
  };
  http_transport = record { token = []; open_connections = []; sent = []; posted = [] };
  ipc_path = none;
  terminated = false;
}

abbrev with_port : List (String × Text)
with_port = ("mcp-http-port", codes "9222") ∷ ("mcp-http-host", codes "LOCALHOST") ∷ []

abbrev listen : Text → ℕ → Bool
listen host port = eqb port 9222

start-Serves_example :
    Config.Serves strings lines to_uint json codec true listen
      (λ path. true)
      with_port
      (some (codes "s3cret"))
      (App.start strings lines to_uint json codec true listen
        (λ path. true)
        before
        with_port
        (some (codes "s3cret")))
unfolding App.start App.start_with App.start_http App.start_ipc App.get_mcp_http_config
    App.get_mcp_ipc_config App.with_port App.http_host App.is_allowed_http_host text_eq Http.start
    Http.start_on_http_thread Http.is_allowed_listen_host Http.normalize_listen_host
    App.is_invalid_http_config App.is_invalid_ipc_config
start-Serves_example =
    Config.start-Serves strings lines to_uint json codec true listen (λ path. true) before with_port
      (some (codes "s3cret")) refl refl
