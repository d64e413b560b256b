-- ===== src/Platform/Samples/Tabs.antt =====
-- A concrete context: a list of tabs, each with its address; a new tab gets the next one.
use browserd.Shared.{
  ℕ, zero, suc, ◌≡◌, ◌≢◌, ◌↔◌, ◌⊎◌, refl, sym, ap, ◌∙◌, inl, inr, Option, none, some, List, [], ◌∷◌,
  String, eqb, eqb_iff, if◌then◌else◌, if_elim, subst, false≢true, some-injective,
}
use browserd.Platform.Contexts.{Contexts, Tab, Has}

abbrev pub tab : ℕ → Tab
tab a = record { contents = a; web_contents = some a; title = "Tab"; url = "about:blank" }

abbrev pub tabs_of : List ℕ → List Tab
tabs_of [] = []
tabs_of (a ∷ c) = tab a ∷ tabs_of c

abbrev next_address : List ℕ → ℕ
next_address [] = 1
next_address (a ∷ c) = suc a

abbrev without : List ℕ → ℕ → List ℕ
without [] a = []
without (b ∷ c) a = let rest = without c a in if eqb b a then rest else b ∷ rest

abbrev from_address : List ℕ → ℕ → Option Tab
from_address [] w = none
from_address (a ∷ c) w = let rest = from_address c w in if eqb a w then some (tab a) else rest

abbrev unary : ℕ → String
unary zero = ""
unary (suc n) = String.◌∷◌ "x" (unary n)

pub unary-injective : (a b : ℕ) → unary a ≡ unary b → a ≡ b
unary-injective zero zero e = refl
unary-injective zero (suc b) e = cc
unary-injective (suc a) zero e = cc
unary-injective (suc a) (suc b) e = ap suc (unary-injective a b (cc e))

is_tab : (c : List ℕ) (t : Tab) → Has t (tabs_of c) → t ≡ tab t.contents
is_tab [] t h = absurd h
is_tab (a ∷ c) t (inl e) = e ∙ ap (λ (x : Tab). tab x.contents) (sym e)
is_tab (a ∷ c) t (inr h) = is_tab c t h

pub same_tab :
    (c : List ℕ) (t u : Tab)
    → Has t (tabs_of c)
    → Has u (tabs_of c)
    → t.contents ≡ u.contents
    → t ≡ u
same_tab c t u h k e = is_tab c t h ∙ ap tab e ∙ sym (is_tab c u k)

pub from_address-Has :
    (c : List ℕ) (w : ℕ) (t : Tab) → from_address c w ≡ some t → Has t (tabs_of c)
from_address-Has [] w t = λ e. cc
from_address-Has (a ∷ c) w t =
    let rest = from_address-Has c w t in
    if_elim (λ (o : Option Tab). o ≡ some t → Has t (tabs_of (a ∷ c))) (eqb a w)
      (λ _ e. inl (sym (some-injective _ _ e))) (λ _ e. inr (rest e))

pub without-Has :
    (c : List ℕ) (a : ℕ) (t : Tab)
    → Has t (tabs_of (without c a)) ↔ (Has t (tabs_of c) × (t.contents ≢ a))
without-Has [] a t = ((λ h. absurd h), (λ h. absurd h.0))
without-Has (b ∷ c) a t =
    let rest = without-Has c a t in
    if_elim (λ (l : List ℕ). Has t (tabs_of l) ↔ (Has t (tabs_of (b ∷ c)) × (t.contents ≢ a)))
      (eqb b a)
      (λ same. (
        (λ h. (inr (rest.0 h).0, (rest.0 h).1)),
        (λ h. elim h.0 [
          | inl e ↦ absurd (h.1 (ap (λ (x : Tab). x.contents) e ∙ (eqb_iff b a).0 same))
          | inr k ↦ rest.1 (k, h.1)
        ]),
      ))
      (λ other. (
        (λ h. elim h [
          | inl e ↦ (
            inl e,
            (λ k.
                false≢true
                  (sym other ∙ (eqb_iff b a).1 (sym (ap (λ (x : Tab). x.contents) e) ∙ k))),
          )
          | inr k ↦ (inr (rest.0 k).0, (rest.0 k).1)
        ]),
        (λ h. elim h.0 [ inl e ↦ inl e | inr k ↦ inr (rest.1 (k, h.1)) ]),
      ))

built :
    (c d : List ℕ) (t : Tab)
    → ◌≡◌ {A = Option (List ℕ × Tab)}
        (some (next_address c ∷ c, tab (next_address c)))
        (some (d, t))
    → (next_address c ∷ c ≡ d) × (tab (next_address c) ≡ t)
built c d t e =
    let p = some-injective _ _ e in
    (ap (λ (x : List ℕ × Tab). x.0) p, ap (λ (x : List ℕ × Tab). x.1) p)

pub build-Has :
    (c d : List ℕ) (t u : Tab)
    → ◌≡◌ {A = Option (List ℕ × Tab)}
        (some (next_address c ∷ c, tab (next_address c)))
        (some (d, t))
    → Has u (tabs_of d) ↔ ((u ≡ t) ⊎ Has u (tabs_of c))
build-Has c d t u e =
    let p = built c d t e in
    subst (λ x. Has u (tabs_of x) ↔ ((u ≡ t) ⊎ Has u (tabs_of c))) p.0
      (subst (λ (y : Tab). Has u (tabs_of (next_address c ∷ c)) ↔ ((u ≡ y) ⊎ Has u (tabs_of c))) p.1
        ((λ h. h), (λ h. h)))

abbrev pub contexts : Contexts
contexts = record {
  Context = List ℕ;
  all = tabs_of;
  build = λ c url. some (next_address c ∷ c, tab (next_address c));
  close = without;
  from = from_address;
  target_id = unary;
  target_id-injective = unary-injective;
  same = same_tab;
  from-all = from_address-Has;
  close-all = without-Has;
  build-all = λ c d url t u e. build-Has c d t u e;
}
