-- ===== src/Mcp/Http.antt =====
-- browserd/mcp/mcp_http_transport.cc: the HTTP front of the server, on its own thread. The HTTP server
-- below it, the URL parser and the JSON reader and writer are parameters.
pub mod Access
pub mod Admission
pub mod Requests
pub mod Connections
mod Tests
use browserd.Shared.{
  ℕ, String, Bool, true, false, not, ◌&&◌, ◌||◌, Option, none, some, List, [], ◌∷◌, ◌++◌, Text,
  codes, text_eq, is_empty, eqb, length, drop, if◌then◌else◌, ◌==◌,
}
use browserd.Platform.Json.{Json}
use browserd.Platform.Strings.{Strings}

-- `JSONReader::ReadDict`, `JSONWriter::Write`, and GURL's `is_valid` and `host`.
pub record Codec (J : Json) : Type 0 where
  pub read_dict : Text → Option J.Dict
  pub write : J.Dict → Option Text
  pub url_is_valid : Text → Bool
  pub url_host : Text → Text

-- `net::HttpServerRequestInfo`; `header` is `GetHeaderValue`, empty for a header that is absent.
pub record RequestInfo : Type 0 where
  pub path : String
  pub method : String
  pub header : String → Text
  pub body : Text

pub data Status : Type 0 where
  ok accepted bad_request unauthorized forbidden not_found method_not_allowed : Status
  not_acceptable internal_server_error : Status

pub record Response : Type 0 where
  pub connection_id : ℕ
  pub status : Status
  pub headers : List (String × String)
  pub body : Text
  pub content_type : String

abbrev pub contains : List ℕ → ℕ → Bool
contains [] x = false
contains (y ∷ ys) x = eqb y x || contains ys x

pub insert : ℕ → List ℕ → List ℕ
insert x ys = if contains ys x then ys else x ∷ ys

pub erase : ℕ → List ℕ → List ℕ
erase x [] = []
erase x (y ∷ ys) = if eqb y x then erase x ys else y ∷ erase x ys

module _ (S : Strings) where
  open S use {equals_ci, starts_with_ci, split, trim}

  unfoldable pub is_allowed_listen_host : Text → Bool
  is_allowed_listen_host host =
      text_eq host (codes "127.0.0.1")
      || text_eq host (codes "0.0.0.0")
      || text_eq host (codes "::1")
      || text_eq host (codes "::")
      || equals_ci host (codes "localhost")

  unfoldable pub normalize_listen_host : Text → Text
  normalize_listen_host host =
      if equals_ci host (codes "localhost") then codes "127.0.0.1" else host

  pub is_loopback_origin_host : Text → Bool
  is_loopback_origin_host host =
      text_eq host (codes "127.0.0.1")
      || text_eq host (codes "::1")
      || equals_ci host (codes "localhost")

  -- `substr(0, find(';'))`, and whether there was a semicolon.
  pub before_semicolon : Text → Text × Bool
  before_semicolon [] = ([], false)
  before_semicolon (c ∷ s) =
      let rest = before_semicolon s in if eqb c b';' then ([], true) else (c ∷ rest.0, rest.1)

  pub media_type_of : Text → Text
  unfolding before_semicolon
  media_type_of item = let (name, cut) = before_semicolon item in if cut then trim name else item

  pub matches_mime_type : Text → Text → Bool
  unfolding media_type_of
  matches_mime_type item expected_type =
      equals_ci (media_type_of item) expected_type
      || equals_ci (media_type_of item) (codes "*/*")
      || equals_ci (media_type_of item) (codes "application/*")

  pub any_matches : List Text → Text → Bool
  unfolding matches_mime_type
  any_matches [] expected_type = false
  any_matches (item ∷ items) expected_type =
      matches_mime_type item expected_type || any_matches items expected_type

  pub header_contains_mime_type : Text → Text → Bool
  unfolding any_matches
  header_contains_mime_type header expected_type = any_matches (split header) expected_type

  module _ (J : Json) (C : Codec J) where
    open J use {Dict}
    open C use {read_dict, write, url_is_valid, url_host}

    -- The transport's fields, then the responses it has given to the HTTP server and the messages it
    -- has posted to the main thread, each with the connection that its response goes to.
    pub record HttpTransport : Type 0 where
      pub token : Text
      pub open_connections : List ℕ
      pub sent : List Response
      pub posted : List (Dict × ℕ)

    pub is_authorized : HttpTransport → RequestInfo → Bool
    is_authorized s info =
        let authorization = info.header "authorization" in
        let bearer_prefix = codes "Bearer " in
        if not (starts_with_ci authorization bearer_prefix)
        then false
        else text_eq (drop (length bearer_prefix) authorization) s.token

    pub is_allowed_origin : RequestInfo → Bool
    unfolding is_loopback_origin_host
    is_allowed_origin info =
        let origin = info.header "origin" in
        if is_empty origin
        then true
        else url_is_valid origin && is_loopback_origin_host (url_host origin)

    pub accepts_json : RequestInfo → Bool
    accepts_json info = header_contains_mime_type (info.header "accept") (codes "application/json")

    abbrev pub plain : String
    plain = "text/plain; charset=utf-8"

    -- `http_server_->SendResponse`, under the test that the connection is open.
    abbrev pub respond :
        HttpTransport → ℕ → Status → List (String × String) → Text → String → HttpTransport
    respond s connection_id status headers body content_type =
        if contains s.open_connections connection_id
        then record s {
          sent =
              s.sent
              ++ record {
                connection_id = connection_id;
                status = status;
                headers = headers;
                body = body;
                content_type = content_type;
              }
                ∷ [];
        }
        else s

    pub send_text_response : HttpTransport → ℕ → Status → Text → String → HttpTransport
    send_text_response s connection_id status body content_type =
        respond s connection_id status (("Cache-Control", "no-store") ∷ []) body content_type

    pub send_mcp_response : HttpTransport → ℕ → Option Dict → HttpTransport
    unfolding send_text_response
    send_mcp_response s connection_id none =
        respond s connection_id accepted (("Cache-Control", "no-store") ∷ []) [] plain
    send_mcp_response s connection_id (some response) = elim (write response) [
      | none ↦
          send_text_response s connection_id internal_server_error
            (codes "Failed to serialize MCP response") plain
      | some json ↦
          respond s connection_id ok (("Cache-Control", "no-store") ∷ []) json "application/json"
    ]

    pub on_connect : HttpTransport → ℕ → HttpTransport
    unfolding insert
    on_connect s connection_id = record s {
      open_connections = insert connection_id s.open_connections;
    }

    pub on_close : HttpTransport → ℕ → HttpTransport
    unfolding erase
    on_close s connection_id = record s {
      open_connections = erase connection_id s.open_connections;
    }

    pub on_http_request : HttpTransport → ℕ → RequestInfo → HttpTransport
    unfolding send_text_response
    on_http_request s connection_id info =
        if not (info.path == "/mcp")
        then send_text_response s connection_id not_found (codes "Not Found") plain
        else if not (is_allowed_origin info)
        then send_text_response s connection_id forbidden (codes "Forbidden") plain
        else if not (is_authorized s info)
        then respond s connection_id unauthorized
            (("WWW-Authenticate", "Bearer") ∷ ("Cache-Control", "no-store") ∷ [])
            (codes "Unauthorized") plain
        else if not (info.method == "POST")
        then respond s connection_id method_not_allowed
            (("Allow", "POST") ∷ ("Cache-Control", "no-store") ∷ []) (codes "Method Not Allowed")
            plain
        else if not (accepts_json info)
        then send_text_response s connection_id not_acceptable (codes "Not Acceptable") plain
        else elim (read_dict info.body) [
          | none ↦ send_text_response s connection_id bad_request (codes "Invalid JSON") plain
          | some message ↦ record s { posted = s.posted ++ (message, connection_id) ∷ [] }
        ]

    pub on_web_socket_request : HttpTransport → ℕ → RequestInfo → HttpTransport
    unfolding send_text_response
    on_web_socket_request s connection_id info =
        send_text_response s connection_id method_not_allowed (codes "Method Not Allowed") plain

    pub on_web_socket_message : HttpTransport → ℕ → Text → HttpTransport
    unfolding send_text_response
    on_web_socket_message s connection_id message =
        send_text_response s connection_id method_not_allowed (codes "Method Not Allowed") plain

    pub stop_on_http_thread : HttpTransport → HttpTransport
    stop_on_http_thread s = record s { open_connections = [] }

    -- `StartOnHttpThread`, given whether `ListenWithAddressAndPort` succeeds.
    unfoldable pub start_on_http_thread :
        (Text → ℕ → Bool) → HttpTransport → Text → ℕ → Text → HttpTransport × Bool
    start_on_http_thread listen s listen_host port token =
        if not (listen listen_host port) then (s, false) else (record s { token = token }, true)

    -- `Start`, given whether the thread starts too.
    unfoldable pub start :
        (Text → ℕ → Bool) → Bool → HttpTransport → Text → ℕ → Text → HttpTransport × Bool
    unfolding start_on_http_thread is_allowed_listen_host normalize_listen_host
    start listen thread_starts s host port token =
        if not (is_allowed_listen_host host)
        then (s, false)
        else if not thread_starts
        then (s, false)
        else start_on_http_thread listen s (normalize_listen_host host) port token

    -- What the HTTP server below and the main thread make happen on the HTTP thread.
    pub data HttpEvent : Type 0 where
      connect close : ℕ → HttpEvent
      request web_socket_request : ℕ → RequestInfo → HttpEvent
      web_socket_message : ℕ → Text → HttpEvent
      mcp_response : ℕ → Option Dict → HttpEvent
      stop : HttpEvent

    pub step : HttpTransport → HttpEvent → HttpTransport
    unfolding on_connect on_close on_http_request on_web_socket_request on_web_socket_message
        send_mcp_response stop_on_http_thread
    step s (connect c) = on_connect s c
    step s (close c) = on_close s c
    step s (request c info) = on_http_request s c info
    step s (web_socket_request c info) = on_web_socket_request s c info
    step s (web_socket_message c message) = on_web_socket_message s c message
    step s (mcp_response c response) = send_mcp_response s c response
    step s stop = stop_on_http_thread s

    pub run : HttpTransport → List HttpEvent → HttpTransport
    unfolding step
    run s [] = s
    run s (e ∷ es) = run (step s e) es
