-- ===== src/Core/Interactions/Keys/Layout.antt =====
-- browserd/core/browser_interactions.cc: the keys type the characters that a keyboard with the layout of
-- the United States has on them.
use browserd.Shared.{
  both_of_and, ◌&&◌, get_elem?, ℕ, zero, suc, ◌+◌, ◌≤◌, ◌<◌, ◌≡◌, refl, subst, Bool, true, false,
  Option, none, some, List, [], ◌∷◌, arith, if◌then◌else◌, ap, Bool-cases, inl, inr, eqb, eqb_iff,
}
use browserd.Core.Interactions.Keys

-- What is printed on the keys, without shift and with it.
abbrev pub plain_of : Keys.KeyCode → Option ℕ
plain_of (Keys.letter n) = some (97 + n)
plain_of (Keys.digit n) = some (48 + n)
plain_of Keys.space = some 32
plain_of Keys.oem_minus = some 45
plain_of Keys.oem_plus = some 61
plain_of Keys.oem_4 = some 91
plain_of Keys.oem_6 = some 93
plain_of Keys.oem_5 = some 92
plain_of Keys.oem_1 = some 59
plain_of Keys.oem_7 = some 39
plain_of Keys.oem_comma = some 44
plain_of Keys.oem_period = some 46
plain_of Keys.oem_2 = some 47
plain_of Keys.oem_3 = some 96
plain_of k = none

-- The symbols over the digits, from 0 on.
abbrev pub digit_symbols : List ℕ
digit_symbols = 41 ∷ 33 ∷ 64 ∷ 35 ∷ 36 ∷ 37 ∷ 94 ∷ 38 ∷ 42 ∷ 40 ∷ []

abbrev pub shifted_of : Keys.KeyCode → Option ℕ
shifted_of (Keys.letter n) = some (65 + n)
shifted_of (Keys.digit n) = get_elem? digit_symbols n
shifted_of Keys.oem_minus = some 95
shifted_of Keys.oem_plus = some 43
shifted_of Keys.oem_4 = some 123
shifted_of Keys.oem_6 = some 125
shifted_of Keys.oem_5 = some 124
shifted_of Keys.oem_1 = some 58
shifted_of Keys.oem_7 = some 34
shifted_of Keys.oem_comma = some 60
shifted_of Keys.oem_period = some 62
shifted_of Keys.oem_2 = some 63
shifted_of Keys.oem_3 = some 126
shifted_of k = none

abbrev pub character_of : Keys.KeyMapping → Option ℕ
character_of m = if m.shift then shifted_of m.windows_key_code else plain_of m.windows_key_code

-- Whether the characters from `a` on, `n` of them, are typed by the keys that print them.
abbrev prints : Option ℕ → ℕ → Bool
prints none c = false
prints (some d) c = eqb d c

abbrev all_print : ℕ → ℕ → Bool
all_print a zero = true
all_print a (suc n) = prints (character_of (Keys.map_character a)) a && all_print (suc a) n

prints-some : (o : Option ℕ) (c : ℕ) → prints o c ≡ true → o ≡ some c
prints-some none c h = cc
prints-some (some d) c h = ap some ((eqb_iff d c).0 h)

all_print-character_of :
    (a n c : ℕ)
    → all_print a n ≡ true
    → a ≤ c
    → c < a + n
    → character_of (Keys.map_character c) ≡ some c
all_print-character_of a zero c h l r = absurd (omega (arith, l, r))
all_print-character_of a (suc n) c h l r =
    let both = both_of_and (prints (character_of (Keys.map_character a)) a) _ h in
    elim (Bool-cases (eqb a c)) [
      | inl e ↦
          subst (λ x. character_of (Keys.map_character x) ≡ some x) ((eqb_iff a c).0 e)
            (prints-some _ a both.0)
      | inr e ↦
          all_print-character_of (suc a) n c both.1 (ground (arith, eqb_iff a c, e, l))
            (omega (arith, r))
    ]

printable : all_print 32 95 ≡ true
unfolding Keys.map_character Keys.switch
printable = refl

-- Each printable character of ASCII is typed by the key, and with the shift, that print it.
pub map_character-character_of :
    (c : ℕ) → 32 ≤ c → c ≤ 126 → character_of (Keys.map_character c) ≡ some c
map_character-character_of c l r = all_print-character_of 32 95 c printable l (omega (arith, r))
