-- ===== src/Core/Interactions/Wheel/Chunks.antt =====
-- browserd/core/browser_interactions.cc: the chunks by which the wheel is turned, and that they end.
use browserd.Shared.{
  ℕ, zero, suc, ◌+◌, ◌-◌, ◌*◌, ◌≤◌, ◌≡◌, ◌⊎◌, inl, inr, refl, sym, ap, ◌∙◌, true, false, Option,
  none, some, List, [], ◌∷◌, ◌++◌, map, append_assoc, append-nil, All, eqb, length, arith, not,
  has_value, subst, if_true, if_false, Bool-cases,
}
use browserd.Platform.Json.{ℤ}
use browserd.Core.Result.{BrowserStatus, ok_status}
use browserd.Core.Interactions.Typing.{no_render_view}
use browserd.Core.Interactions.Wheel

unfoldable pub sum : List ℕ → ℕ
sum [] = 0
sum (n ∷ ns) = n + sum ns

-- A scrolling that turned the wheel from `s` to `t`, by chunks that add up to no more than remained
-- in `s`, and to all of it where the answer is ok.
pub record Turned (delta_x delta_y : ℤ) (s t : Wheel.Scrolling) : Type 0 where
  pub chunks : List ℕ
  pub turned : t.wheels ≡ s.wheels ++ map (Wheel.wheel delta_x delta_y) chunks
  pub positive : All (λ c. 1 ≤ c) chunks
  pub within : sum chunks ≤ s.remaining
  pub complete : t.answer ≡ some ok_status → sum chunks ≡ s.remaining

-- A scrolling that waits for its next step.
abbrev pub waiting : ℕ → List Wheel.Wheel → Wheel.Scrolling
waiting n ws = record { remaining = n; wheels = ws; answer = none }

-- A scrolling that is answered.
abbrev pub answered : ℕ → List Wheel.Wheel → BrowserStatus → Wheel.Scrolling
answered n ws status = record { remaining = n; wheels = ws; answer = some status }

answered_stays :
    (x y : ℤ) (n : ℕ) (ws : List Wheel.Wheel) (status : BrowserStatus) (ms : List Wheel.Meeting)
    → Wheel.run_steps x y (answered n ws status) ms ≡ answered n ws status
unfolding Wheel.run_steps Wheel.run_step
answered_stays x y n ws status [] = refl
answered_stays x y n ws status (m ∷ ms) = answered_stays x y n ws status ms

step_done :
    (x y : ℤ) (ws : List Wheel.Wheel) (m : Wheel.Meeting)
    → Wheel.run_step x y (waiting 0 ws) m ≡ answered 0 ws ok_status
unfolding Wheel.run_step Wheel.scroll_step
step_done x y ws m = refl

suc-not_zero : (n : ℕ) → eqb (suc n) 0 ≡ false
suc-not_zero n = ground arith

step_lost :
    (x y : ℤ) (n : ℕ) (ws : List Wheel.Wheel) (m : Wheel.Meeting)
    → m.has_view ≡ false
    → Wheel.run_step x y (waiting (suc n) ws) m ≡ answered (suc n) ws no_render_view
unfolding Wheel.run_step Wheel.scroll_step
step_lost x y n ws m h = if_false _ _ _ (suc-not_zero n) ∙ if_true _ _ _ (ap not h)

step_turns :
    (x y : ℤ) (n : ℕ) (ws : List Wheel.Wheel) (m : Wheel.Meeting)
    → m.has_view ≡ true
    → Wheel.run_step x y (waiting (suc n) ws) m
      ≡ waiting
          (suc n - Wheel.min (suc n) (40 + m.random))
          (ws ++ Wheel.wheel x y (Wheel.min (suc n) (40 + m.random)) ∷ [])
unfolding Wheel.run_step Wheel.scroll_step Wheel.turn
step_turns x y n ws m h = if_false _ _ _ (suc-not_zero n) ∙ if_false _ _ _ (ap not h)

min-≤ : (a b : ℕ) → Wheel.min a b ≤ a
unfolding Wheel.min
min-≤ a b = ground arith

min-positive : (n r : ℕ) → 1 ≤ Wheel.min (suc n) (40 + r)
unfolding Wheel.min
min-positive n r = ground arith

min_cases : (a b : ℕ) → (Wheel.min a b ≡ a) ⊎ (Wheel.min a b ≡ b)
unfolding Wheel.min
min_cases a b = ground arith

-- A scrolling that turned the wheel once, and then from there.
turn_once :
    (x y : ℤ) (n k : ℕ) (ws : List Wheel.Wheel) (t : Wheel.Scrolling)
    → k ≤ n
    → 1 ≤ k
    → Turned x y (waiting (n - k) (ws ++ Wheel.wheel x y k ∷ [])) t
    → Turned x y (waiting n ws) t
unfolding sum
turn_once x y n k ws t le some_chunk h = record {
  chunks = k ∷ h.chunks;
  turned = h.turned ∙ append_assoc ws (Wheel.wheel x y k ∷ []) (map (Wheel.wheel x y) h.chunks);
  positive = (some_chunk, h.positive);
  within = omega (arith, h.within, le);
  complete = λ e. omega (arith, h.complete e, le);
}

-- What a scrolling that is answered has turned: nothing.
turn_none :
    (x y : ℤ) (n : ℕ) (ws : List Wheel.Wheel) (a : Option BrowserStatus)
    → (a ≡ some ok_status → 0 ≡ n)
    → Turned x y (waiting n ws) (record { remaining = n; wheels = ws; answer = a })
unfolding sum
turn_none x y n ws a h = record {
  chunks = [];
  turned = sym (append-nil ws);
  positive = tt;
  within = omega arith;
  complete = h;
}

pub run_steps-Turned :
    (x y : ℤ) (n : ℕ) (ws : List Wheel.Wheel) (ms : List Wheel.Meeting)
    → Turned x y (waiting n ws) (Wheel.run_steps x y (waiting n ws) ms)
unfolding Wheel.run_steps
run_steps-Turned x y n ws [] = turn_none x y n ws none (λ e. cc)
run_steps-Turned x y zero ws (m ∷ ms) =
    subst (Turned x y (waiting 0 ws))
      (sym (
        ap (λ s. Wheel.run_steps x y s ms) (step_done x y ws m)
        ∙ answered_stays x y 0 ws ok_status ms))
      (turn_none x y 0 ws (some ok_status) (λ e. refl))
run_steps-Turned x y (suc n) ws (m ∷ ms) =
    let k = Wheel.min (suc n) (40 + m.random) in
    elim (Bool-cases m.has_view) [
      | inl h ↦
          subst (λ s. Turned x y (waiting (suc n) ws) (Wheel.run_steps x y s ms))
            (sym (step_turns x y n ws m h))
            (turn_once x y (suc n) k ws _ (min-≤ (suc n) (40 + m.random)) (min-positive n m.random)
              (run_steps-Turned x y (suc n - k) (ws ++ Wheel.wheel x y k ∷ []) ms))
      | inr h ↦
          subst (Turned x y (waiting (suc n) ws))
            (sym (
              ap (λ s. Wheel.run_steps x y s ms) (step_lost x y n ws m h)
              ∙ answered_stays x y (suc n) ws no_render_view ms))
            (turn_none x y (suc n) ws (some no_render_view) (λ e. cc))
    ]

turns_left :
    (n r l : ℕ) → suc n + 40 ≤ 40 * suc l → suc n - Wheel.min (suc n) (40 + r) + 40 ≤ 40 * l
turns_left n r l h = elim (min_cases (suc n) (40 + r)) [
  | inl e ↦ omega (arith, e, h)
  | inr e ↦ omega (arith, e, h)
]

pub run_steps-ends :
    (x y : ℤ) (n : ℕ) (ws : List Wheel.Wheel) (ms : List Wheel.Meeting)
    → n + 40 ≤ 40 * length ms
    → has_value (Wheel.run_steps x y (waiting n ws) ms).answer ≡ true
unfolding Wheel.run_steps
run_steps-ends x y n ws [] h = absurd (omega arith)
run_steps-ends x y zero ws (m ∷ ms) h =
    ap (λ s. has_value s.answer)
      (ap (λ s. Wheel.run_steps x y s ms) (step_done x y ws m)
        ∙ answered_stays x y 0 ws ok_status ms)
run_steps-ends x y (suc n) ws (m ∷ ms) h =
    let k = Wheel.min (suc n) (40 + m.random) in
    elim (Bool-cases m.has_view) [
      | inl v ↦
          ap (λ s. has_value (Wheel.run_steps x y s ms).answer) (step_turns x y n ws m v)
          ∙ run_steps-ends x y (suc n - k) (ws ++ Wheel.wheel x y k ∷ []) ms
              (turns_left n m.random (length ms) h)
      | inr v ↦
          ap (λ s. has_value s.answer)
            (ap (λ s. Wheel.run_steps x y s ms) (step_lost x y n ws m v)
              ∙ answered_stays x y (suc n) ws no_render_view ms)
    ]
