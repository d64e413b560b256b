-- ===== src/Mcp/Ipc/Tests.antt =====
-- Two clients, one after the other; the first leaves half a line behind.
use browserd.Shared.{
  ℕ, ◌≡◌, refl, true, false, Option, none, some, List, [], ◌∷◌, ◌++◌, map, Text, codes, arith,
}
use browserd.Mcp.Line.{strip_cr, feed, dispatch_lines, find_newline}
use browserd.Mcp.Line.Framing
use browserd.Mcp.Ipc
use browserd.Mcp.Ipc.Reads.{of_client}
use browserd.Mcp.Ipc.Streams

abbrev connects : ℕ → List Ipc.IpcEvent
connects fd = Ipc.poll_gives (Ipc.ready true false) ∷ Ipc.accept_gives (some fd) ∷ Ipc.snapshot ∷ []

abbrev sends : Option Text → List Ipc.IpcEvent
sends chunk =
    Ipc.poll_gives (Ipc.ready false true)
    ∷ Ipc.accept_gives none
    ∷ Ipc.snapshot
    ∷ Ipc.recv_gives chunk
    ∷ []

abbrev two_clients : List Ipc.IpcEvent
two_clients =
    connects 5
    ++ sends (some (codes "{}" ++ 10 ∷ codes "{"))
    ++ sends none
    ++ connects 6
    ++ sends (some (codes "}" ++ 10 ∷ []))
    ++ Ipc.respond 1 (codes "old") (Ipc.sent 2 ∷ [])
      ∷ Ipc.respond 2 (codes "new") (Ipc.interrupted ∷ Ipc.sent 2 ∷ [])
      ∷ Ipc.stops
      ∷ []

abbrev final : Ipc.Ipc
final = Ipc.run (Ipc.listening 4 (codes "/s")) two_clients

two_clients-lines :
    (final.dispatched ≡ (1, codes "{}") ∷ (2, codes "}") ∷ [])
    × (final.written ≡ (2, codes "new") ∷ [])
    × (final.closed ≡ 5 ∷ 6 ∷ 4 ∷ [])
unfolding Ipc.run Ipc.send_loop feed dispatch_lines find_newline strip_cr
two_clients-lines = (refl, refl, refl)

run-lines_example :
    of_client 2 final.dispatched
    ≡ map strip_cr (Framing.lines_of (Framing.flatten (of_client 2 final.received))).0
run-lines_example = Streams.run-lines 4 (codes "/s") two_clients 2 (omega arith)
