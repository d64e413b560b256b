-- ===== src/App.antt =====
-- browserd/app.cc: which transports the process starts, and with what.
pub mod Config
mod Tests
use browserd.Shared.{
  ℕ, ◌%◌, ◌^◌, Bool, true, false, not, ◌&&◌, ◌||◌, Option, none, some, String, [], Text, codes,
  is_empty, leb, text_eq, has_value, if◌then◌else◌,
}
use browserd.Platform.Strings.{Strings}
use browserd.Platform.CommandLines.{CommandLines}
use browserd.Platform.Json.{Json}
use browserd.Mcp.Server
use browserd.Mcp.Http

pub record HttpConfig : Type 0 where
  pub host : Text
  pub port : ℕ
  pub token : Text

-- `MCPHttpConfig()`
abbrev no_config : HttpConfig
no_config = record { host = []; port = 0; token = [] }

pub is_invalid_http_config : HttpConfig → Bool
is_invalid_http_config config = is_empty config.host || is_empty config.token

pub is_invalid_ipc_config : Text → Bool
is_invalid_ipc_config path = is_empty path

module _ (S : Strings) (L : CommandLines) (string_to_uint : Text → Option ℕ) where
  open S use {equals_ci}
  open L use {CommandLine, value, has_switch}

  pub is_allowed_http_host : Text → Bool
  is_allowed_http_host host =
      text_eq host (codes "127.0.0.1")
      || text_eq host (codes "0.0.0.0")
      || text_eq host (codes "::1")
      || text_eq host (codes "::")
      || equals_ci host (codes "localhost")

  -- The host that is asked for, or the default.
  pub http_host : CommandLine → Text
  http_host c =
      let host = value c "mcp-http-host" in if is_empty host then codes "127.0.0.1" else host

  -- The tests of the port and of the variable BROWSERD_MCP_HTTP_TOKEN.
  pub with_port : Text → Option ℕ → Option Text → HttpConfig
  with_port host none token = no_config
  with_port host (some port) none = no_config
  with_port host (some port) (some token) =
      if not (leb port 65535)
      then no_config
      else if is_empty token
      then no_config
      else record { host = host; port = port % 2 ^ 16; token = token }

  pub get_mcp_http_config : CommandLine → Option Text → Option HttpConfig
  unfolding is_allowed_http_host http_host with_port
  get_mcp_http_config c env_token =
      if not (has_switch c "mcp-http-port")
      then none
      else if not (is_allowed_http_host (http_host c))
      then some no_config
      else some (with_port (http_host c) (string_to_uint (value c "mcp-http-port")) env_token)

  -- An `MCPIPCConfig` is its path.
  pub get_mcp_ipc_config : CommandLine → Option Text
  get_mcp_ipc_config c =
      if not (has_switch c "mcp-ipc-path") then none else some (value c "mcp-ipc-path")

  module _ (J : Json) (C : Http.Codec J) where
    -- The server, the transport that it has for HTTP, the path of the one for the local socket, and
    -- whether the process has been terminated.
    pub record App : Type 0 where
      pub server : Server.Server J
      pub http_transport : Http.HttpTransport S J C
      pub ipc_path : Option Text
      pub terminated : Bool

    -- What the parts below do: whether the HTTP thread starts, whether listening on an address and a
    -- port succeeds, and whether the local transport starts on a path.
    module _ (thread_starts : Bool) (listen : Text → ℕ → Bool) (ipc_starts : Text → Bool) where
      abbrev pub terminate : App → App
      terminate a = record a { terminated = true }

      pub start_http : App → Option HttpConfig → App
      start_http a none = a
      start_http a (some config) =
          let result =
            Http.start S J C listen thread_starts a.http_transport config.host config.port
              config.token in
          if not result.1 then terminate a else record a { http_transport = result.0 }

      pub start_ipc : App → Option Text → App
      start_ipc a none = a
      start_ipc a (some path) =
          if not (ipc_starts path) then terminate a else record a { ipc_path = some path }

      abbrev pub invalid_http : Option HttpConfig → Bool
      invalid_http none = false
      invalid_http (some config) = is_invalid_http_config config

      abbrev pub invalid_ipc : Option Text → Bool
      invalid_ipc none = false
      invalid_ipc (some path) = is_invalid_ipc_config path

      -- `Start` after the two configurations are read. Nothing runs after a termination.
      pub start_with : App → Option HttpConfig → Option Text → App
      unfolding start_http start_ipc is_invalid_http_config is_invalid_ipc_config
      start_with a http_config ipc_config =
          if invalid_http http_config || invalid_ipc ipc_config
          then terminate a
          else (let controlled = Server.set_controller J true a.server in
              let stdio = not (has_value http_config || has_value ipc_config) in
              let b = record a { server = Server.start J stdio controlled } in
              let c = start_http b http_config in
              if c.terminated then c else start_ipc c ipc_config)

      pub start : App → CommandLine → Option Text → App
      unfolding start_with get_mcp_http_config get_mcp_ipc_config
      start a c env_token = start_with a (get_mcp_http_config c env_token) (get_mcp_ipc_config c)
