-- ===== src/App/Config.antt =====
-- browserd/app.cc: what a process that keeps running serves.
use browserd.Shared.{
  ℕ, ◌^◌, ◌<◌, ◌≡◌, ◌≢◌, refl, sym, ap, ◌∙◌, Bool, true, false, not, ◌||◌, Option, none, some, [],
  Text, is_empty, leb, if_elim, of_not-true, of_not-false, false≢true, arith,
}
use browserd.Platform.Strings.{Strings}
use browserd.Platform.CommandLines.{CommandLines}
use browserd.Platform.Json.{Json}
use browserd.Mcp.Server
use browserd.Mcp.Http
use browserd.Mcp.Http.Access
use browserd.App

module _ (S : Strings) (L : CommandLines) (string_to_uint : Text → Option ℕ) where
  open L use {CommandLine, value, has_switch}

  -- A configuration that was read from the command line and the environment.
  pub record IsHttpConfig (c : CommandLine) (env_token : Option Text) (config : App.HttpConfig)
      : Type 0 where
    pub port : string_to_uint (value c "mcp-http-port") ≡ some config.port
    pub small : config.port < 2 ^ 16
    pub from_env : env_token ≡ some config.token
    pub secret : config.token ≢ []

  abbrev Read : CommandLine → Option Text → Option App.HttpConfig → Type 0
  Read c env_token none = has_switch c "mcp-http-port" ≡ false
  Read c env_token (some config) =
      (has_switch c "mcp-http-port" ≡ true)
      × (App.is_invalid_http_config config ≡ false → IsHttpConfig c env_token config)

  module _ (c : CommandLine) (env_token : Option Text) where
    Fine : App.HttpConfig → Type 0
    Fine config = App.is_invalid_http_config config ≡ false → IsHttpConfig c env_token config

    with_port-Fine :
        (host : Text) (port : Option ℕ) (token : Option Text)
        → string_to_uint (value c "mcp-http-port") ≡ port
        → env_token ≡ token
        → Fine (App.with_port S L string_to_uint host port token)
    unfolding App.with_port App.is_invalid_http_config Fine
    with_port-Fine host none token p t = λ v. cc
    with_port-Fine host (some port) none p t = λ v. cc
    with_port-Fine host (some port) (some token) p t =
        if_elim Fine (not (leb port 65535)) (λ _ v. cc)
          (λ small.
            if_elim Fine (is_empty token) (λ _ v. cc)
              (λ full v. record {
                port = p ∙ ap some (ground (arith, small));
                small = omega arith;
                from_env = t;
                secret = λ e. false≢true (sym full ∙ ap is_empty e);
              }))

    get_mcp_http_config-Read :
        Read c env_token (App.get_mcp_http_config S L string_to_uint c env_token)
    unfolding App.get_mcp_http_config App.is_invalid_http_config Fine
    get_mcp_http_config-Read =
        let host = App.http_host S L string_to_uint c in
        if_elim (Read c env_token) (not (has_switch c "mcp-http-port"))
          (of_not-true (has_switch c "mcp-http-port"))
          (λ e.
            let wanted = of_not-false (has_switch c "mcp-http-port") e in
            if_elim (Read c env_token) (not (App.is_allowed_http_host S L string_to_uint host))
              (λ _. (wanted, λ v. cc))
              (λ _. (
                wanted,
                with_port-Fine host (string_to_uint (value c "mcp-http-port")) env_token refl refl,
              )))

  module _ (J : Json) (C : Http.Codec J) (thread_starts : Bool) (listen : Text → ℕ → Bool)
      (ipc_starts : Text → Bool) where
    abbrev http_start :
        App.App S L string_to_uint J C → App.HttpConfig → Http.HttpTransport S J C × Bool
    http_start a config =
        Http.start S J C listen thread_starts a.http_transport config.host config.port config.token

    abbrev start_with :
        App.App S L string_to_uint J C
        → Option App.HttpConfig
        → Option Text
        → App.App S L string_to_uint J C
    start_with = App.start_with S L string_to_uint J C thread_starts listen ipc_starts

    start_ipc-same :
        (a : App.App S L string_to_uint J C) (path : Option Text)
        → ((App.start_ipc S L string_to_uint J C thread_starts listen ipc_starts a
              path).http_transport
            ≡ a.http_transport)
          × ((App.start_ipc S L string_to_uint J C thread_starts listen ipc_starts a path).server
              ≡ a.server)
    unfolding App.start_ipc
    start_ipc-same a none = (refl, refl)
    start_ipc-same a (some path) =
        if_elim
          (λ (b : App.App S L string_to_uint J C).
            (b.http_transport ≡ a.http_transport) × (b.server ≡ a.server))
          (not (ipc_starts path)) (λ _. (refl, refl)) (λ _. (refl, refl))

    -- Starting the HTTP transport, where it does not end the process.
    abbrev Started :
        App.App S L string_to_uint J C → App.HttpConfig → App.App S L string_to_uint J C → Type 0
    Started a config b =
        b.terminated ≡ false
        → ((http_start a config).1 ≡ true)
          × (b.http_transport ≡ (http_start a config).0)
          × (b.server ≡ a.server)

    start_http-some :
        (a : App.App S L string_to_uint J C) (config : App.HttpConfig)
        → Started a config
            (App.start_http S L string_to_uint J C thread_starts listen ipc_starts a (some config))
    unfolding App.start_http
    start_http-some a config =
        if_elim (Started a config) (not (http_start a config).1) (λ _ t. cc)
          (λ e t. (of_not-false (http_start a config).1 e, refl, refl))

    -- The configuration is valid, its transport is the one that runs, and the server does not shut down
    -- with standard input.
    Runs : App.App S L string_to_uint J C → App.HttpConfig → App.App S L string_to_uint J C → Type 0
    Runs a config b =
        b.terminated ≡ false
        → (App.is_invalid_http_config config ≡ false)
          × ((http_start a config).1 ≡ true)
          × (b.http_transport ≡ (http_start a config).0)
          × (b.server.shutdown_on_stdio_close ≡ false)

    start_with-some :
        (a : App.App S L string_to_uint J C) (config : App.HttpConfig) (ipc : Option Text)
        → Runs a config (start_with a (some config) ipc)
    unfolding App.start_with Runs Server.start Server.set_controller
    start_with-some a config ipc =
        let b : App.App S L string_to_uint J C = record a {
          server = Server.start J false (Server.set_controller J true a.server);
        } in
        let d =
          App.start_http S L string_to_uint J C thread_starts listen ipc_starts b (some config) in
        if_elim (Runs a config)
          (App.is_invalid_http_config config
            || App.invalid_ipc S L string_to_uint J C thread_starts listen ipc_starts ipc)
          (λ _ t. cc)
          (λ ok.
            if_elim (Runs a config) d.terminated (λ dead t. absurd (false≢true (sym t ∙ dead)))
              (λ live t.
                let r = start_http-some b config live in
                let same = start_ipc-same d ipc in
                (
                  ground (arith, ok),
                  r.0,
                  same.0 ∙ r.1,
                  ap (λ (x : Server.Server J). x.shutdown_on_stdio_close) (same.1 ∙ r.2),
                )))

    -- The HTTP transport listens on one of the addresses of the machine, at the port that is asked for,
    -- and asks for the token of the environment, which is not empty.
    pub record Serves (c : CommandLine) (env_token : Option Text)
        (a : App.App S L string_to_uint J C) : Type 0 where
      pub address :
          (host : Text) × (port : ℕ) × Access.IsListenAddress S host
          × (string_to_uint (value c "mcp-http-port") ≡ some port)
          × (port < 2 ^ 16)
          × (listen host port ≡ true)
      pub from_env : env_token ≡ some a.http_transport.token
      pub secret : a.http_transport.token ≢ []
      pub stays : a.server.shutdown_on_stdio_close ≡ false

    start_with-Serves :
        (a : App.App S L string_to_uint J C) (c : CommandLine) (env_token : Option Text)
        (http_config : Option App.HttpConfig) (ipc : Option Text)
        → Read c env_token http_config
        → has_switch c "mcp-http-port" ≡ true
        → (start_with a http_config ipc).terminated ≡ false
        → Serves c env_token (start_with a http_config ipc)
    unfolding Runs
    start_with-Serves a c env_token none ipc r h t = absurd (false≢true (sym r ∙ h))
    start_with-Serves a c env_token (some config) ipc r h t =
        let runs = start_with-some a config ipc t in
        let valid = r.1 runs.0 in
        let starts =
          Access.start-IsListenAddress S J C listen thread_starts a.http_transport config.host
            config.port config.token runs.1 in
        let token : (start_with a (some config) ipc).http_transport.token ≡ config.token =
          ap (λ (x : Http.HttpTransport S J C). x.token) runs.2 ∙ starts.2 in
        record {
          address = (
            Http.normalize_listen_host S config.host,
            config.port,
            starts.0,
            valid.port,
            valid.small,
            starts.1,
          );
          from_env = valid.from_env ∙ ap some (sym token);
          secret = λ e. valid.secret (sym token ∙ e);
          stays = runs.3;
        }

    -- When the process still runs after a start for which a port is given, its HTTP transport serves as
    -- above.
    pub start-Serves :
        (a : App.App S L string_to_uint J C) (c : CommandLine) (env_token : Option Text)
        → has_switch c "mcp-http-port" ≡ true
        → (App.start S L string_to_uint J C thread_starts listen ipc_starts a c
            env_token).terminated
          ≡ false
        → Serves c env_token
            (App.start S L string_to_uint J C thread_starts listen ipc_starts a c env_token)
    unfolding App.start
    start-Serves a c env_token h t =
        start_with-Serves a c env_token (App.get_mcp_http_config S L string_to_uint c env_token)
          (App.get_mcp_ipc_config S L string_to_uint c) (get_mcp_http_config-Read c env_token) h t

    -- A process with neither transport shuts down with standard input, and is not ended by its start.
    pub start-stdio :
        (a : App.App S L string_to_uint J C) (c : CommandLine) (env_token : Option Text)
        → has_switch c "mcp-http-port" ≡ false
        → has_switch c "mcp-ipc-path" ≡ false
        → a.terminated ≡ false
        → let b = App.start S L string_to_uint J C thread_starts listen ipc_starts a c env_token in
          (b.server.shutdown_on_stdio_close ≡ true)
          × (b.server.has_controller ≡ true)
          × (b.http_transport ≡ a.http_transport)
          × (b.terminated ≡ false)
    unfolding App.start App.start_with App.get_mcp_http_config App.get_mcp_ipc_config App.start_http
        App.start_ipc Server.start Server.set_controller
    start-stdio a c env_token h i t = rw (h, i, t) (refl, refl, refl, refl)
