-- ===== src/Core/Interactions/Wheel/Directions.antt =====
-- browserd/core/browser_interactions.cc: how far `Scroll` turns the wheel, and which way.
use browserd.Shared.{
  ℕ, zero, suc, ◌+◌, ◌-◌, ◌*◌, ◌^◌, ◌≤◌, ◌<◌, ◌≡◌, refl, sym, ap, ◌∙◌, true, some, List, [], ◌∷◌,
  map, All, ltb, leb, eqb, eqb_iff, arith, has_value, subst, if_elim, if_true, if_false,
  if◌then◌else◌, Bool-cases, length, inl, inr,
}
use browserd.Platform.Json.{ℤ, pos, negsuc}
use browserd.Core.Result.{ok_status}
use browserd.Core.Interactions.Wheel
use browserd.Core.Interactions.Wheel.Chunks

-- A wheel that moves a page along an axis by some pixels in the direction of a delta turns the other
-- way by as many; with no delta it stands still.
pub data Turns : ℤ → ℕ → ℤ → Type 0 where
  still : (c : ℕ) → Turns (pos 0) c (pos 0)
  back : (n c : ℕ) → Turns (pos (suc n)) (suc c) (negsuc c)
  forth : (n c : ℕ) → Turns (negsuc n) (suc c) (pos (suc c))

-- Turns of the wheel that together move the page by this many pixels, along each axis of a delta.
pub data Moves (x y : ℤ) : List Wheel.Wheel → ℕ → Type 0 where
  stays : Moves x y [] 0
  moves :
      (w : Wheel.Wheel) (ws : List Wheel.Wheel) (c n : ℕ)
      → Turns x c w.delta_x
      → Turns y c w.delta_y
      → Moves x y ws n
      → Moves x y (w ∷ ws) (c + n)

abbrev pub magnitude : ℤ → ℕ
magnitude (pos n) = n
magnitude (negsuc n) = suc n

abbrev pub larger : ℕ → ℕ → ℕ
larger a b = if leb a b then b else a

wheel_delta-Turns : (d : ℤ) (c : ℕ) → 1 ≤ c → Turns d c (Wheel.wheel_delta d c)
unfolding Wheel.wheel_delta Wheel.neg
wheel_delta-Turns d zero h = absurd (omega (arith, h))
wheel_delta-Turns (pos zero) (suc c) h = still (suc c)
wheel_delta-Turns (pos (suc n)) (suc c) h = back n c
wheel_delta-Turns (negsuc n) (suc c) h = forth n c

chunks-Moves :
    (x y : ℤ) (cs : List ℕ)
    → All (λ c. 1 ≤ c) cs
    → Moves x y (map (Wheel.wheel x y) cs) (Chunks.sum cs)
unfolding Chunks.sum Wheel.wheel
chunks-Moves x y [] h = stays
chunks-Moves x y (c ∷ cs) (some_chunk, h) =
    moves (Wheel.wheel x y c) (map (Wheel.wheel x y) cs) c (Chunks.sum cs)
      (wheel_delta-Turns x c some_chunk) (wheel_delta-Turns y c some_chunk) (chunks-Moves x y cs h)

-- A scrolling that moved the page by no more than the larger delta, and by all of it where the answer
-- is ok.
pub record Scrolled (x y : ℤ) (s : Wheel.Scrolling) : Type 0 where
  pub moved : ℕ
  pub path : Moves x y s.wheels moved
  pub within : moved ≤ larger (magnitude x) (magnitude y)
  pub complete : s.answer ≡ some ok_status → moved ≡ larger (magnitude x) (magnitude y)

abs-magnitude : (x : ℤ) → magnitude x < 2 ^ 31 → Wheel.abs x ≡ pos (magnitude x)
unfolding Wheel.abs
abs-magnitude (pos n) h = refl
abs-magnitude (negsuc n) h = if_false (eqb n (2 ^ 31 - 1)) _ _ (ground (arith, h))

max-larger : (a b : ℕ) → Wheel.max (pos a) (pos b) ≡ pos (larger a b)
unfolding Wheel.max
max-larger a b = elim (Bool-cases (ltb a b)) [
  | inl h ↦ if_true _ _ _ h ∙ ap pos (ground (arith, h))
  | inr h ↦ if_false _ _ _ h ∙ ap pos (ground (arith, h))
]

total-larger :
    (x y : ℤ)
    → magnitude x < 2 ^ 31
    → magnitude y < 2 ^ 31
    → Wheel.max (Wheel.abs x) (Wheel.abs y) ≡ pos (larger (magnitude x) (magnitude y))
total-larger x y hx hy =
    ap (λ a. Wheel.max a (Wheel.abs y)) (abs-magnitude x hx)
    ∙ ap (Wheel.max (pos (magnitude x))) (abs-magnitude y hy)
    ∙ max-larger (magnitude x) (magnitude y)

-- The scrolling by a total that is not negative.
scroll_total :
    (x y : ℤ) (total : ℕ) (ms : List Wheel.Meeting)
    → Wheel.max (Wheel.abs x) (Wheel.abs y) ≡ pos total
    → Wheel.scroll x y ms ≡ (
        if eqb total 0
        then record (Wheel.new_scrolling 0) { answer = some ok_status }
        else Wheel.run_steps x y (Wheel.new_scrolling total) ms)
unfolding Wheel.scroll
scroll_total x y total ms e = rw (Wheel.scroll, e) refl

-- `Scroll` by deltas that are not the least `int` moves the page, along each axis that has a delta and
-- in the direction of that, by no more than the larger of the deltas, and by all of it where the answer
-- is ok, whatever the page and the random numbers are.
pub scroll-Scrolled :
    (x y : ℤ) (ms : List Wheel.Meeting)
    → magnitude x < 2 ^ 31
    → magnitude y < 2 ^ 31
    → Scrolled x y (Wheel.scroll x y ms)
scroll-Scrolled x y ms hx hy =
    let total = larger (magnitude x) (magnitude y) in
    subst (Scrolled x y) (sym (scroll_total x y total ms (total-larger x y hx hy))) (
      if_elim (Scrolled x y) (eqb total 0)
        (λ zero_total. record {
          moved = 0;
          path = stays;
          within = omega arith;
          complete = λ e. sym ((eqb_iff total 0).0 zero_total);
        })
        (λ _.
          let t = Chunks.run_steps-Turned x y total [] ms in
          record {
            moved = Chunks.sum t.chunks;
            path =
                subst (λ ws. Moves x y ws (Chunks.sum t.chunks)) (sym t.turned)
                  (chunks-Moves x y t.chunks t.positive);
            within = t.within;
            complete = t.complete;
          }))

-- A scrolling is answered within one step for each 40 pixels, and one more.
scroll-ends :
    (x y : ℤ) (ms : List Wheel.Meeting)
    → magnitude x < 2 ^ 31
    → magnitude y < 2 ^ 31
    → larger (magnitude x) (magnitude y) + 40 ≤ 40 * length ms
    → has_value (Wheel.scroll x y ms).answer ≡ true
scroll-ends x y ms hx hy enough =
    let total = larger (magnitude x) (magnitude y) in
    subst (λ (s : Wheel.Scrolling). has_value s.answer ≡ true)
      (sym (scroll_total x y total ms (total-larger x y hx hy)))
      (if_elim (λ (s : Wheel.Scrolling). has_value s.answer ≡ true) (eqb total 0) (λ _. refl)
        (λ _. Chunks.run_steps-ends x y total [] ms enough))

-- Down by the least `int`, nothing moves, and the answer is ok.
scroll_least :
    (ms : List Wheel.Meeting)
    → Wheel.scroll (pos 0) (negsuc (2 ^ 31 - 1)) ms
      ≡ record (Wheel.new_scrolling 0) { answer = some ok_status }
unfolding Wheel.scroll Wheel.max Wheel.abs
scroll_least ms = refl
