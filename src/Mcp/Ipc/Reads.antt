-- ===== src/Mcp/Ipc/Reads.antt =====
-- mcp_ipc_transport_posix.cc: the loop's buffer against the bytes received from each client.
use browserd.Shared.{
  ℕ, suc, ◌^◌, ◌<◌, ◌≡◌, ◌≢◌, refl, sym, ap, subst, ◌∙◌, ◌⊎◌, inl, inr, Bool, true, false, ◌||◌,
  Option, none, some, List, [], ◌∷◌, ◌++◌, map, Text, eqb, eqb_iff, arith, if◌then◌else◌,
  Bool-cases, append-nil, map-append, false≢true, has_value,
}
use browserd.Mcp.Line.{feed, strip_cr}
use browserd.Mcp.Line.Framing
use browserd.Mcp.Ipc

-- The texts of one client, in order.
unfoldable pub of_client : ℕ → List (ℕ × Text) → List Text
of_client g [] = []
of_client g ((h, t) ∷ rest) = let later = of_client g rest in if eqb h g then t ∷ later else later

pub of_client-append :
    (g : ℕ) (xs ys : List (ℕ × Text)) → of_client g (xs ++ ys) ≡ of_client g xs ++ of_client g ys
unfolding of_client
of_client-append g [] ys = refl
of_client-append g ((h, t) ∷ xs) ys = ground (arith, of_client-append g xs ys)

of_client-map_same : (g : ℕ) (ls : List Text) → of_client g (map (λ line. (g, line)) ls) ≡ ls
unfolding of_client
of_client-map_same g [] = refl
of_client-map_same g (l ∷ ls) = ground (arith, of_client-map_same g ls)

of_client-map_other :
    (g h : ℕ) (ls : List Text) → h ≢ g → of_client g (map (λ line. (h, line)) ls) ≡ []
unfolding of_client
of_client-map_other g h [] n = refl
of_client-map_other g h (l ∷ ls) n = ground (arith, of_client-map_other g h ls n)

abbrev pub text_of : ℕ → List (ℕ × Text) → Text
text_of g received = Framing.flatten (of_client g received)

abbrev pub is_receiving : Ipc.Phase → Bool
is_receiving (Ipc.receiving fd g) = true
is_receiving p = false

-- In `recv`, the client is the last one, and it is still there or closed.
abbrev pub IsCurrent : ℕ → Option ℕ → Ipc.Phase → Type 0
IsCurrent gen active (Ipc.receiving fd g) = (g ≡ gen) × ((active ≡ none) ⊎ (active ≡ some fd))
IsCurrent gen active p = Unit

pub record Reads (gen : ℕ) (buf : Text) (active : Option ℕ) (p : Ipc.Phase) (got : List (ℕ × Text))
    (out : List (ℕ × Text)) : Type 0 where
  pub lines : (g : ℕ) → of_client g out ≡ map strip_cr (Framing.lines_of (text_of g got)).0
  pub fresh : (g : ℕ) → gen < g → of_client g got ≡ []
  pub rest :
      is_receiving p || has_value active ≡ true → buf ≡ (Framing.lines_of (text_of gen got)).1
  pub current : IsCurrent gen active p

pub record Reading (s : Ipc.Ipc) : Type 0 where
  pub reads :
      Reads s.active_client_generation s.buffer s.active_client_fd s.phase s.received s.dispatched

module _ {gen : ℕ} {buf : Text} {active : Option ℕ} {p : Ipc.Phase} {got out : List (ℕ × Text)}
    (h : Reads gen buf active p got out) where
  pub weaken :
      (buf' : Text) (active' : Option ℕ) (p' : Ipc.Phase)
      → (is_receiving p' || has_value active' ≡ true
          → (is_receiving p || has_value active ≡ true) × (buf' ≡ buf))
      → IsCurrent gen active' p'
      → Reads gen buf' active' p' got out
  weaken buf' active' p' o c = record {
    lines = h.lines;
    fresh = h.fresh;
    rest = λ e. (o e).1 ∙ h.rest (o e).0;
    current = c;
  }

  pub accepts :
      (fd : ℕ) (c : Bool)
      → suc gen < 2 ^ 64
      → Reads (Ipc.next_generation gen) [] (some fd) (Ipc.accepted c) got out
  unfolding Framing.lines_of
  accepts fd c k =
      let e : Ipc.next_generation gen ≡ suc gen = omega (arith, k) in
      let none_yet = h.fresh (suc gen) (omega arith) in
      record {
        lines = h.lines;
        fresh = λ g l. h.fresh g (omega (arith, e, l));
        rest = λ _. rw (e, none_yet) refl;
        current = tt;
      }

text_of-same :
    (g : ℕ) (got : List (ℕ × Text)) (chunk : Text)
    → text_of g (got ++ (g, chunk) ∷ []) ≡ text_of g got ++ chunk
unfolding of_client
text_of-same g got chunk =
    rw
      (
        of_client-append g got ((g, chunk) ∷ []),
        Framing.flatten-append (of_client g got) (of_client g ((g, chunk) ∷ [])),
        (eqb_iff g g).1 refl,
        append-nil,
      )
      refl

differ : (g h : ℕ) → h ≢ g → eqb h g ≡ false
differ g h n = ground (arith, n)

text_of-other :
    (g h : ℕ) (got : List (ℕ × Text)) (chunk : Text)
    → h ≢ g
    → of_client g (got ++ (h, chunk) ∷ []) ≡ of_client g got
unfolding of_client
text_of-other g h got chunk n =
    of_client-append g got ((h, chunk) ∷ [])
    ∙ ap (λ (b : Bool). of_client g got ++ (if b then chunk ∷ [] else [])) (differ g h n)
    ∙ append-nil (of_client g got)

module _ {gen : ℕ} {buf : Text} {active : Option ℕ} {fd : ℕ} {got out : List (ℕ × Text)}
    (h : Reads gen buf active (Ipc.receiving fd gen) got out) (chunk : Text) where
  abbrev fed : List Text × Text
  fed = feed buf chunk

  abbrev text : Text
  text = text_of gen got

  fed-text : fed ≡ (
    map strip_cr (Framing.lines_of ((Framing.lines_of text).1 ++ chunk)).0,
    (Framing.lines_of ((Framing.lines_of text).1 ++ chunk)).1,
  )
  fed-text = rw (h.rest refl) (Framing.feed-lines_of (Framing.lines_of text).1 chunk)

  lines-current :
      of_client gen (out ++ map (λ line. (gen, line)) fed.0)
      ≡ map strip_cr (Framing.lines_of (text_of gen (got ++ (gen, chunk) ∷ []))).0
  lines-current =
      rw
        (
          of_client-append gen out (map (λ line. (gen, line)) fed.0),
          of_client-map_same gen fed.0,
          fed-text,
          h.lines gen,
          text_of-same gen got chunk,
          Framing.lines_of-append text chunk,
          map-append,
        )
        refl

  lines-other :
      (g : ℕ)
      → gen ≢ g
      → of_client g (out ++ map (λ line. (gen, line)) fed.0)
        ≡ map strip_cr (Framing.lines_of (text_of g (got ++ (gen, chunk) ∷ []))).0
  lines-other g n =
      rw
        (
          of_client-append g out (map (λ line. (gen, line)) fed.0),
          of_client-map_other g gen fed.0 n,
          append-nil,
          text_of-other g gen got chunk n,
        )
        (h.lines g)

  pub receives :
      Reads gen fed.1 active Ipc.polling
        (got ++ (gen, chunk) ∷ [])
        (out ++ map (λ line. (gen, line)) fed.0)
  receives = record {
    lines = λ g. elim (Bool-cases (eqb gen g)) [
      | inl same ↦
          subst
            (λ i.
              of_client i (out ++ map (λ line. (gen, line)) fed.0)
              ≡ map strip_cr (Framing.lines_of (text_of i (got ++ (gen, chunk) ∷ []))).0)
            ((eqb_iff gen g).0 same) lines-current
      | inr other ↦ lines-other g (λ e. false≢true (sym other ∙ (eqb_iff gen g).1 e))
    ];
    fresh = λ g l. text_of-other g gen got chunk (λ e. omega (arith, e, l)) ∙ h.fresh g l;
    rest = λ _. rw (fed-text, text_of-same gen got chunk, Framing.lines_of-append text chunk) refl;
    current = tt;
  }
