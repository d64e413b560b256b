-- ===== src/Core/Controller/Waits.antt =====
-- browserd/core/browser_controller.cc: `WaitFor` and its time limits, and the cookie that `GetCookie` finds.
use browserd.Shared.{
  take, has_value, ◌||◌, concat, Bool-cases, if_true, if_false, false≢true, ℕ, zero, suc, ◌+◌, ◌-◌,
  ◌^◌, ◌<◌, ◌≤◌, ◌≡◌, ◌≢◌, ◌⊎◌, ◌↔◌, inl, inr, refl, ap, ◌∙◌, sym, Bool, true, false, Option, some,
  List, [], ◌∷◌, ◌++◌, String, All, length, ltb, ◌==◌, eq_iff, eq-false, arith, Option-cases,
}
use browserd.Platform.Json.{Json, ℤ, pos, negsuc}
use browserd.Core.Result.{success, failure, not_found, CookieInfo}
use browserd.Core.Evaluation
use browserd.Core.Evaluation.Answers
use browserd.Platform.Urls.{Urls}
use browserd.Platform.Cookies.{CookieStore}
use browserd.Core.Runtime.{BrowserRuntime}
use browserd.Core.Controller.State
use browserd.Core.Controller.Outcomes
use browserd.Core.Controller.Pages
use browserd.Core.Controller.Cookies

ltb_iff : (a b : ℕ) → (ltb a b ≡ true) ↔ (a < b)
ltb_iff a b = ground arith

-- A sum is an `int`, or it wraps around to a negative number.
add_int-cases :
    (a b : ℕ)
    → ((a + b < 2 ^ 31) × (Pages.add_int a b ≡ pos (a + b)))
      ⊎ ((2 ^ 31 ≤ a + b) × (Pages.add_int a b ≡ negsuc (2 ^ 32 - 1 - (a + b))))
unfolding Pages.add_int
add_int-cases a b = elim (Bool-cases (ltb (a + b) (2 ^ 31))) [
  | inl h ↦ inl ((ltb_iff _ _).0 h, if_true _ _ _ h)
  | inr h ↦ inr (ground (arith, ltb_iff (a + b) (2 ^ 31)), if_false _ _ _ h)
]

negsuc-not_pos : (a b : ℕ) → negsuc a ≢ pos b
negsuc-not_pos a b e = cc

positive : (n : ℕ) → 0 < n → Evaluation.is_positive (pos n) ≡ true
positive zero h = absurd (omega (arith, h))
positive (suc n) h = refl

-- The time limit of the request is positive, and one second more than the script's own, exactly where
-- their sum is an `int`.
pub wait_limit_iff :
    (t : ℤ)
    → Pages.wait_timeout t < 2 ^ 31
    → ((Pages.wait_limit t ≡ pos (Pages.wait_timeout t + 1000))
        ↔ (Pages.wait_timeout t + 1000 < 2 ^ 31))
      × ((Evaluation.is_positive (Pages.wait_limit t) ≡ true)
          ↔ (Pages.wait_timeout t + 1000 < 2 ^ 31))
unfolding Pages.wait_limit
wait_limit_iff t h = elim (add_int-cases (Pages.wait_timeout t) 1000) [
  | inl (n, e) ↦ (
    ((λ _. n), (λ _. e)),
    (
      (λ _. n),
      (λ _. ap Evaluation.is_positive e ∙ positive (Pages.wait_timeout t + 1000) (omega arith)),
    ),
  )
  | inr (n, e) ↦ (
    ((λ x. absurd (negsuc-not_pos _ _ (sym e ∙ x))), (λ x. absurd (omega (arith, n, x)))),
    (
      (λ x. absurd (false≢true (sym (ap Evaluation.is_positive e) ∙ x))),
      (λ x. absurd (omega (arith, n, x))),
    ),
  )
]

-- `GetCookie` answers with the first cookie of the list that has the name, and with an error exactly
-- where there is none.
pub get_cookie_result-first :
    (name : String) (cs : List CookieInfo)
    → ((before : List CookieInfo) × (c : CookieInfo) × (after : List CookieInfo) × (cs
          ≡ before ++ c ∷ after)
        × (c.name ≡ name)
        × All (λ (b : CookieInfo). b.name ≢ name) before
        × (Cookies.get_cookie_result name (success cs) ≡ success c))
      ⊎ (All (λ (b : CookieInfo). b.name ≢ name) cs
          × ((m : String) × (Cookies.get_cookie_result name (success cs) ≡ failure not_found m)))
unfolding Cookies.get_cookie_result Cookies.find_cookie
get_cookie_result-first name [] = inr (tt, (concat (concat "Cookie '" name) "' not found", refl))
get_cookie_result-first name (c ∷ cs) = elim (Bool-cases (c.name == name)) [
  | inl h ↦ inl ([], c, cs, refl, (eq_iff c.name name).0 h, tt, found h)
  | inr h ↦ elim (get_cookie_result-first name cs) [
    | inl (b, d, a, e, n, others, r) ↦
        inl (c ∷ b, d, a, ap (λ x. c ∷ x) e, n, (eq-false c.name name h, others), skipped h ∙ r)
    | inr (others, x) ↦ inr ((eq-false c.name name h, others), (x.0, skipped h ∙ x.1))
  ]
]
  where
    found : (c.name == name) ≡ true → Cookies.get_cookie_result name (success (c ∷ cs)) ≡ success c
    found h = rw (Cookies.get_cookie_result, Cookies.find_cookie, h) refl

    skipped :
        (c.name == name) ≡ false
        → Cookies.get_cookie_result name (success (c ∷ cs))
          ≡ Cookies.get_cookie_result name (success cs)
    skipped h = rw (Cookies.get_cookie_result, Cookies.find_cookie, h) refl

module _ (U : Urls) (J : Json) (is_none : J.Value → Bool) (write_json : J.Value → String)
    (K : CookieStore U.Url) (R : BrowserRuntime U.Url) (quoted : String → String)
    (number : ℕ → String) where
  abbrev Running : Type 0
  Running = Evaluation.Evaluation J is_none write_json

  -- The request of a wait, and what its page and its timer do.
  abbrev pub waited :
      (ℕ → Bool) → ℕ → String → ℤ → List (Evaluation.Event J is_none write_json) → Running
  waited is_live w js t es =
      Evaluation.run J is_none write_json
        (Evaluation.evaluate_with_dev_tools J is_none write_json is_live (some w) js true
          (Pages.wait_limit t))
        es

  answers-cons :
      (es : List (Evaluation.Event J is_none write_json))
      → es ≢ []
      → length (take 1 (Answers.answers J is_none write_json true es)) ≡ 1
  answers-cons [] n = absurd (n refl)
  answers-cons (Evaluation.script_result ok v ∷ es) n = refl
  answers-cons (Evaluation.timer_fires ∷ es) n = refl

  waited-answered :
      (is_live : ℕ → Bool) (w : ℕ) (js : String) (t : ℤ)
      (es : List (Evaluation.Event J is_none write_json))
      → Pages.wait_timeout t + 1000 < 2 ^ 31
      → is_live w ≡ true
      → es ≢ []
      → length (waited is_live w js t es).request.replies ≡ 1
  waited-answered is_live w js t es h live n =
      ap length (
        Answers.run-first_answer J is_none write_json is_live (some w) js true (Pages.wait_limit t)
          es)
      ∙ rw (live, (wait_limit_iff t (omega (arith, h))).1.1 h) (answers-cons es n)

  -- On a page whose frame is live, a wait for an element or a text, of a time that leaves room for one
  -- second more in an `int`, has a script run in that page, and the first thing that the script or the
  -- timer does answers it, once.
  pub wait_for-answered :
      (c : State.Controller R) (id : Option String) (w : ℕ) (o : Pages.WaitOptions)
      (is_live : ℕ → Bool)
      → State.resolve_web_contents R c id ≡ some w
      → (has_value o.selector || has_value o.text) ≡ true
      → Pages.wait_timeout o.timeout_ms + 1000 < 2 ^ 31
      → is_live w ≡ true
      → (js : String) × (Pages.wait_for U J is_none write_json K R quoted number (some c) id o
          ≡ Outcomes.evaluates w js true
              (Pages.wait_limit o.timeout_ms)
              (Pages.wait_reply U J is_none write_json K R))
        × ((es : List (Evaluation.Event J is_none write_json))
            → es ≢ []
            → length (waited is_live w js o.timeout_ms es).request.replies ≡ 1)
  unfolding Pages.wait_for Pages.with_page
  wait_for-answered c id w o is_live e s h live = elim (Option-cases o.selector) [
    | inr (q, p) ↦ (
      Pages.selector_script (number (Pages.wait_timeout o.timeout_ms)) (quoted q),
      rw (Pages.wait_for, Pages.with_page, e, p) refl,
      λ es n. waited-answered is_live w _ o.timeout_ms es h live n,
    )
    | inl p ↦ elim (Option-cases o.text) [
      | inr (q, r) ↦ (
        Pages.text_script (number (Pages.wait_timeout o.timeout_ms)) (quoted q),
        rw (Pages.wait_for, Pages.with_page, e, p, r) refl,
        λ es n. waited-answered is_live w _ o.timeout_ms es h live n,
      )
      | inl r ↦ cc
    ]
  ]
