-- ===== src/Mcp/Line.antt =====
-- browserd/mcp/mcp_transport.cc: newline-delimited JSON, and the stdio transport. What `std::getline`
-- gives is a list of lines; `read_dict` and `write` are Chromium's JSON reader and writer.
pub mod Framing
mod Tests
use browserd.Shared.{
  ℕ, zero, suc, Bool, true, false, Option, none, some, List, [], ◌∷◌, ◌++◌, Text, is_empty, eqb,
  length, if◌then◌else◌,
}

-- `buffer.find('\n')`: the line before the first newline and what follows it.
unfoldable pub find_newline : Text → Option (Text × Text)
find_newline [] = none
find_newline (c ∷ s) =
    let later : Option (Text × Text) = elim (find_newline s) [
      | none ↦ none
      | some (line, rest) ↦ some (c ∷ line, rest)
    ] in
    if eqb c 10 then some ([], s) else later

-- `if (!line.empty() && line.back() == '\r') line.pop_back();`
unfoldable pub strip_cr : Text → Text
strip_cr [] = []
strip_cr (c ∷ []) = if eqb c 13 then [] else c ∷ []
strip_cr (c ∷ d ∷ s) = c ∷ strip_cr (d ∷ s)

-- The inner loop of `RunLoop`, in rounds: the lines that it dispatches, and the buffer that it leaves.
unfoldable pub dispatch_lines : ℕ → Text → List Text × Text
unfolding find_newline strip_cr
dispatch_lines zero buffer = ([], buffer)
dispatch_lines (suc rounds) buffer = elim (find_newline buffer) [
  | none ↦ ([], buffer)
  | some (line, rest) ↦ let more = dispatch_lines rounds rest in (strip_cr line ∷ more.0, more.1)
]

-- A chunk is appended to the buffer, and its whole lines are taken off. Each round takes off a byte at
-- least, so one round more than there are bytes is enough.
unfoldable pub feed : Text → Text → List Text × Text
unfolding dispatch_lines
feed buffer chunk = dispatch_lines (suc (length (buffer ++ chunk))) (buffer ++ chunk)

module _ {Dict : Type 0} (read_dict : Text → Option Dict) (write : Dict → Option Text) where
  pub parse_mcp_transport_line : Text → Option Dict
  parse_mcp_transport_line line = if is_empty line then none else read_dict line

  pub serialize_mcp_transport_message : Dict → Option Text
  serialize_mcp_transport_message message = elim (write message) [
    | none ↦ none
    | some json ↦ some (json ++ 10 ∷ [])
  ]

  -- `ReadLoop`: the messages that it posts; the close callback is posted after them.
  pub read_loop : List Text → List Dict
  unfolding parse_mcp_transport_line
  read_loop [] = []
  read_loop (line ∷ lines) = elim (parse_mcp_transport_line line) [
    | none ↦ read_loop lines
    | some message ↦ message ∷ read_loop lines
  ]

  -- What `SendResponse` writes to standard output.
  pub send_response : Option Dict → Text
  unfolding serialize_mcp_transport_message
  send_response none = []
  send_response (some response) = elim (serialize_mcp_transport_message response) [
    | none ↦ []
    | some json ↦ json
  ]
