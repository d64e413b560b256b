-- ===== src/Mcp/Line/Tests.antt =====
-- Framing on small texts: two lines cut in the middle of the first.
use browserd.Shared.{◌≡◌, refl, List, [], ◌∷◌, ◌++◌, map, Text, codes, arith}
use browserd.Mcp.Line.{find_newline, strip_cr, dispatch_lines, feed}
use browserd.Mcp.Line.Framing

abbrev chunks : List Text
chunks = codes "{\"a" ∷ (codes "\":1}" ++ 13 ∷ 10 ∷ codes "x") ∷ []

second_chunk : feed (codes "{") (codes "}" ++ 13 ∷ 10 ∷ codes "x") ≡ (codes "{}" ∷ [], codes "x")
unfolding feed dispatch_lines find_newline strip_cr
second_chunk = refl

abbrev two_lines : List Text
two_lines = (codes "{}" ++ 13 ∷ []) ∷ codes "x" ∷ []

feed_all-terminated_example :
    Framing.feed_all [] ((codes "{") ∷ (codes "}" ++ 13 ∷ 10 ∷ codes "x") ∷ (10 ∷ []) ∷ [])
    ≡ (map strip_cr two_lines, [])
feed_all-terminated_example =
    Framing.feed_all-terminated two_lines
      ((codes "{") ∷ (codes "}" ++ 13 ∷ 10 ∷ codes "x") ∷ (10 ∷ []) ∷ [])
      (
        (λ e. omega (arith, e), (λ e. omega (arith, e), (λ e. omega (arith, e), tt))),
        ((λ e. omega (arith, e), tt), tt),
      )
      refl

feed-lines_of_example : feed (codes "{") (codes "}" ++ 10 ∷ codes "x") ≡ (
  map strip_cr (Framing.lines_of (codes "{" ++ codes "}" ++ 10 ∷ codes "x")).0,
  (Framing.lines_of (codes "{" ++ codes "}" ++ 10 ∷ codes "x")).1,
)
feed-lines_of_example = Framing.feed-lines_of (codes "{") (codes "}" ++ 10 ∷ codes "x")
