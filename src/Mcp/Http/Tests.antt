-- ===== src/Mcp/Http/Tests.antt =====
-- The transport on small inputs.
use browserd.Shared.{
  ◌≡◌, ◌↔◌, refl, true, none, some, [], ◌∷◌, String, Text, codes, if◌then◌else◌, ◌==◌, text_eq,
}
use browserd.Platform.Samples.{json, end}
use browserd.Platform.Samples.Texts.{strings, split_from}
use browserd.Mcp.Http
use browserd.Mcp.Http.Requests
use browserd.Mcp.Http.Admission
use browserd.Mcp.Http.Connections

-- A reader that knows one text, and a writer that can write everything.
abbrev codec : Http.Codec json
codec = record {
  read_dict = λ s. if text_eq s (codes "{}") then some end else none;
  write = λ d. some (codes "{}");
  url_is_valid = λ s. true;
  url_host = λ s. codes "localhost";
}

abbrev ask : String → Text → Http.RequestInfo
ask method body = record {
  path = "/mcp";
  method = method;
  header = λ name.
      if name == "authorization"
      then codes "bEARER s3cret"
      else if name == "accept"
      then codes "text/html,Application/JSON"
      else [];
  body = body;
}

abbrev open_one : Http.HttpTransport strings json codec
open_one = record { token = codes "s3cret"; open_connections = 4 ∷ []; sent = []; posted = [] }

served_request :
    ((Http.on_http_request strings json codec open_one 4 (ask "POST" (codes "{}"))).posted
      ≡ (end, 4) ∷ [])
unfolding Http.on_http_request Http.is_allowed_origin Http.is_authorized Http.accepts_json
    Http.header_contains_mime_type text_eq split_from
served_request = refl

on_http_request_cases_example :
    Requests.Outcome strings json codec open_one 4
      (ask "GET" [])
      (Http.on_http_request strings json codec open_one 4 (ask "GET" []))
on_http_request_cases_example =
    Requests.on_http_request_cases strings json codec open_one 4 (ask "GET" [])

on_http_request-admits_iff_example :
    ((Http.on_http_request strings json codec open_one 4 (ask "POST" (codes "{}"))).posted
      ≡ (end, 4) ∷ [])
    ↔ Admission.IsAdmitted strings json codec open_one.token (ask "POST" (codes "{}")) end
on_http_request-admits_iff_example =
    Admission.on_http_request-admits_iff strings json codec open_one 4 (ask "POST" (codes "{}")) end

run-to_connection_example :
    Connections.to_connection strings json codec 5
      (Http.run strings json codec open_one (Http.mcp_response 5 none ∷ Http.close 4 ∷ [])).sent
    ≡ []
run-to_connection_example =
    Connections.run-to_connection strings json codec open_one
      (Http.mcp_response 5 none ∷ Http.close 4 ∷ []) 5 refl (tt, (tt, tt))
