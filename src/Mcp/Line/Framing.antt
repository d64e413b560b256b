-- ===== src/Mcp/Line/Framing.antt =====
-- The framing of mcp_ipc_transport_posix.cc against a reference definition of the lines of a text.
use browserd.Shared.{
  ℕ, zero, suc, ◌<◌, ◌≡◌, ◌≢◌, refl, ◌∙◌, inl, inr, none, some, List, [], ◌∷◌, ◌++◌, map, Text, All,
  eqb, length, arith, if◌then◌else◌, Bool-cases, append-nil, append_assoc, map-append,
}
use browserd.Mcp.Line.{find_newline, strip_cr, dispatch_lines, feed}

abbrev cons_byte : ℕ → List Text × Text → List Text × Text
cons_byte c ([], rest) = ([], c ∷ rest)
cons_byte c (l ∷ ls, rest) = ((c ∷ l) ∷ ls, rest)

-- The reference: the lines of a text, each ended by a newline, and what follows the last one.
unfoldable pub lines_of : Text → List Text × Text
lines_of [] = ([], [])
lines_of (c ∷ s) =
    let later = lines_of s in if eqb c 10 then ([] ∷ later.0, later.1) else cons_byte c later

pub lines_of-append :
    (s t : Text)
    → lines_of (s ++ t)
      ≡ ((lines_of s).0 ++ (lines_of ((lines_of s).1 ++ t)).0, (lines_of ((lines_of s).1 ++ t)).1)
unfolding lines_of
lines_of-append [] t = refl
lines_of-append (c ∷ s) t = ground (arith, lines_of-append s t)

-- What `find_newline` gives, by the reference.
data Found (b : Text) : Type 0 where
  no_line : find_newline b ≡ none → lines_of b ≡ ([], b) → Found b
  one_line :
      (line rest : Text)
      → find_newline b ≡ some (line, rest)
      → lines_of b ≡ (line ∷ (lines_of rest).0, (lines_of rest).1)
      → length rest < length b
      → Found b

found : (b : Text) → Found b
unfolding find_newline lines_of
found [] = no_line refl refl
found (c ∷ s) = elim (Bool-cases (eqb c 10)) [
  | inl newline ↦ one_line [] s (ground arith) (ground arith) (omega arith)
  | inr other ↦ elim (found s) [
    | no_line e l ↦ no_line (ground arith) (ground arith)
    | one_line line rest e l h ↦
        one_line (c ∷ line) rest (ground arith) (ground arith) (omega (arith, h))
  ]
]

dispatch_lines-lines_of :
    (n : ℕ) (b : Text)
    → length b < n
    → dispatch_lines n b ≡ (map strip_cr (lines_of b).0, (lines_of b).1)
unfolding dispatch_lines
dispatch_lines-lines_of zero b h = absurd (omega arith)
dispatch_lines-lines_of (suc n) b h = elim (found b) [
  | no_line e l ↦ rw (e, dispatch_lines) (rw l refl)
  | one_line line rest e l k ↦
      rw (e, dispatch_lines) (rw (l, dispatch_lines-lines_of n rest (omega (arith, k, h))) refl)
]

-- The loop over the newlines of the buffer ends, and gives the lines of the reference.
pub feed-lines_of :
    (buffer chunk : Text)
    → feed buffer chunk
      ≡ (map strip_cr (lines_of (buffer ++ chunk)).0, (lines_of (buffer ++ chunk)).1)
unfolding feed
feed-lines_of buffer chunk =
    dispatch_lines-lines_of (suc (length (buffer ++ chunk))) (buffer ++ chunk) (omega arith)

-- `feed` over the chunks that `recv` gives, in order.
pub feed_all : Text → List Text → List Text × Text
feed_all buffer [] = ([], buffer)
feed_all buffer (chunk ∷ chunks) =
    let now = feed buffer chunk in let later = feed_all now.1 chunks in (now.0 ++ later.0, later.1)

abbrev pub flatten : List Text → Text
flatten [] = []
flatten (s ∷ ss) = s ++ flatten ss

lines_of-rest : (s : Text) → lines_of (lines_of s).1 ≡ ([], (lines_of s).1)
unfolding lines_of
lines_of-rest [] = refl
lines_of-rest (c ∷ s) = ground (arith, lines_of-rest s)

pub flatten-append : (xs ys : List Text) → flatten (xs ++ ys) ≡ flatten xs ++ flatten ys
flatten-append [] ys = refl
flatten-append (x ∷ xs) ys =
    rw (flatten-append xs ys, append_assoc x (flatten xs) (flatten ys)) refl

-- From a buffer with no newline, however the bytes of a client are cut into chunks, the lines that are
-- dispatched are the lines of the whole text, less a carriage return at their ends, and the buffer
-- holds what follows the last newline.
pub feed_all-flatten :
    (buffer : Text) (chunks : List Text)
    → lines_of buffer ≡ ([], buffer)
    → feed_all buffer chunks ≡ (
      map strip_cr (lines_of (buffer ++ flatten chunks)).0,
      (lines_of (buffer ++ flatten chunks)).1,
    )
unfolding feed_all
feed_all-flatten buffer [] h = rw append-nil (rw h refl)
feed_all-flatten buffer (chunk ∷ chunks) h =
    let rest = (lines_of (buffer ++ chunk)).1 in
    rw
      (
        feed-lines_of buffer chunk,
        feed_all-flatten rest chunks (lines_of-rest (buffer ++ chunk)),
        ← append_assoc buffer chunk (flatten chunks),
        lines_of-append (buffer ++ chunk) (flatten chunks),
        map-append,
      )
      refl

abbrev pub IsOneLine : Text → Type 0
IsOneLine = All (λ c. c ≢ 10)

abbrev pub terminated : List Text → Text
terminated [] = []
terminated (l ∷ ls) = l ++ 10 ∷ terminated ls

lines_of-one_line :
    (l t : Text) → IsOneLine l → lines_of (l ++ 10 ∷ t) ≡ (l ∷ (lines_of t).0, (lines_of t).1)
unfolding lines_of
lines_of-one_line [] t h = refl
lines_of-one_line (c ∷ l) t (h, hs) = ground (arith, lines_of-one_line l t hs)

lines_of-terminated : (ls : List Text) → All IsOneLine ls → lines_of (terminated ls) ≡ (ls, [])
unfolding lines_of
lines_of-terminated [] h = refl
lines_of-terminated (l ∷ ls) (h, hs) =
    rw (lines_of-one_line l (terminated ls) h, lines_of-terminated ls hs) refl

-- The lines that a client writes, each ended by a newline, are dispatched one for one and in order,
-- less a carriage return at their ends, however the bytes are cut into chunks; nothing is left over.
pub feed_all-terminated :
    (ls chunks : List Text)
    → All IsOneLine ls
    → flatten chunks ≡ terminated ls
    → feed_all [] chunks ≡ (map strip_cr ls, [])
unfolding lines_of
feed_all-terminated ls chunks h e =
    feed_all-flatten [] chunks refl ∙ rw (e, lines_of-terminated ls h) refl
