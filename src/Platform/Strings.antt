-- ===== src/Platform/Strings.antt =====
-- The part of Chromium's base/strings/string_util.h and string_split.h that browserd uses.
use browserd.Shared.{
  ℕ, ◌+◌, ◌≤◌, ◌<◌, ◌≡◌, ◌↔◌, Bool, true, ◌&&◌, ◌++◌, map, Text, leb, if◌then◌else◌, length, take,
  List, [], ◌∷◌, All,
}

-- `base::ToLowerASCII` of a byte.
abbrev pub lower : ℕ → ℕ
lower c = if leb b'A' c && leb c b'Z' then c + 32 else c

-- `equals_ci` is `EqualsCaseInsensitiveASCII`, `starts_with_ci` is `StartsWith` with
-- `CompareCase::INSENSITIVE_ASCII`, `split` is `SplitString(s, ",", TRIM_WHITESPACE,
-- SPLIT_WANT_NONEMPTY)`, `trim` is `TrimString(s, " \t", TRIM_ALL)`. `IsItem` holds of the pieces that
-- `split` gives: they are not empty, and have no comma and no white space at an end.
pub record Strings : Type 1 where
  pub equals_ci : Text → Text → Bool
  pub starts_with_ci : Text → Text → Bool
  pub split : Text → List Text
  pub trim : Text → Text
  pub IsItem : Text → Type 0
  pub equals_ci_iff : (a b : Text) → (equals_ci a b ≡ true) ↔ (map lower a ≡ map lower b)
  pub starts_with_ci_iff :
      (s p : Text)
      → (starts_with_ci s p ≡ true)
        ↔ ((length p ≤ length s) × (map lower (take (length p) s) ≡ map lower p))
  pub split-items : (s : Text) → All IsItem (split s)
  pub split-nil : split [] ≡ []
  pub split-item : (s : Text) → IsItem s → split s ≡ s ∷ []
  pub split-comma : (s t : Text) → IsItem s → split (s ++ b',' ∷ t) ≡ s ∷ split t
  pub item-ne-nil : (s : Text) → IsItem s → (s ≡ []) → ⊥
  pub word-IsItem : (s : Text) → (s ≡ [] → ⊥) → All (λ c. b',' < c) s → IsItem s
