-- ===== src/Platform/Samples/Texts.antt =====
-- A concrete value of the string interface, whose `split` and `trim` are for texts with no white space.
use browserd.Shared.{
  ◌≡◌, ◌≢◌, ◌↔◌, ◌≤◌, ◌<◌, refl, sym, ap, ◌∙◌, Bool, true, ◌&&◌, List, [], ◌∷◌, ◌++◌, map, Text,
  text_eq, text_eq_iff, leb, eqb, eqb_iff, length, take, All, All-append, append-nil, append_assoc,
  if◌then◌else◌, if_elim, arith, false≢true,
}
use browserd.Platform.Strings.{Strings, lower}

abbrev equals_ci : Text → Text → Bool
equals_ci a b = text_eq (map lower a) (map lower b)

abbrev starts_with_ci : Text → Text → Bool
starts_with_ci s p = leb (length p) (length s) && equals_ci (take (length p) s) p

abbrev flush : Text → List Text
flush [] = []
flush (c ∷ s) = (c ∷ s) ∷ []

unfoldable pub split_from : Text → Text → List Text
split_from cur [] = flush cur
split_from cur (c ∷ s) =
    let next = flush cur ++ split_from [] s in
    let more = split_from (cur ++ c ∷ []) s in if eqb c b',' then next else more

abbrev NoComma : Text → Type 0
NoComma = All (λ c. c ≢ b',')

abbrev IsItem : Text → Type 0
IsItem s = (s ≢ []) × NoComma s

flush-items : (s : Text) → NoComma s → All IsItem (flush s)
flush-items [] h = tt
flush-items (c ∷ s) h = (((λ e. cc), h), tt)

pub split_from-items : (cur s : Text) → NoComma cur → All IsItem (split_from cur s)
unfolding split_from
split_from-items cur [] h = flush-items cur h
split_from-items cur (c ∷ s) h =
    let rest = split_from-items [] s tt in
    let more = split_from-items (cur ++ c ∷ []) s in
    if_elim (All IsItem) (eqb c b',')
      (λ comma. All-append IsItem (flush cur) (split_from [] s) (flush-items cur h) rest)
      (λ other. more (
        All-append (λ c. c ≢ b',') cur (c ∷ []) h
          ((λ e. false≢true (sym other ∙ (eqb_iff c b',').1 e)), tt)))

split_from-append : (cur s t : Text) → NoComma s → split_from cur (s ++ t) ≡ split_from (cur ++ s) t
unfolding split_from
split_from-append cur [] t h = rw append-nil
split_from-append cur (c ∷ s) t (h, hs) = ground (
  arith,
  split_from-append (cur ++ c ∷ []) s t hs ∙ ap (λ l. split_from l t) (append_assoc cur (c ∷ []) s),
)

pub split_nil : split_from [] [] ≡ []
unfolding split_from
split_nil = refl

pub split_item : (s : Text) → IsItem s → split_from [] s ≡ s ∷ []
unfolding split_from
split_item [] h = absurd (h.0 refl)
split_item (c ∷ s) h =
    ap (split_from []) (sym (append-nil (c ∷ s))) ∙ split_from-append [] (c ∷ s) [] h.1

pub split_comma : (s t : Text) → IsItem s → split_from [] (s ++ b',' ∷ t) ≡ s ∷ split_from [] t
unfolding split_from
split_comma [] t h = absurd (h.0 refl)
split_comma (c ∷ s) t h = split_from-append [] (c ∷ s) (b',' ∷ t) h.1

pub starts_with_ci_law :
    (s p : Text)
    → (starts_with_ci s p ≡ true)
      ↔ ((length p ≤ length s) × (map lower (take (length p) s) ≡ map lower p))
starts_with_ci_law s p = ground (arith, text_eq_iff (map lower (take (length p) s)) (map lower p))

pub word-NoComma : (s : Text) → All (λ c. b',' < c) s → NoComma s
word-NoComma [] h = tt
word-NoComma (c ∷ s) (h, hs) = ((λ e. omega (arith, e, h)), word-NoComma s hs)

abbrev pub strings : Strings
strings = record {
  equals_ci = equals_ci;
  starts_with_ci = starts_with_ci;
  split = split_from [];
  trim = λ s. s;
  IsItem = IsItem;
  equals_ci_iff = λ a b. text_eq_iff (map lower a) (map lower b);
  starts_with_ci_iff = starts_with_ci_law;
  split-items = λ s. split_from-items [] s tt;
  split-nil = split_nil;
  split-item = split_item;
  split-comma = split_comma;
  item-ne-nil = λ s h. h.0;
  word-IsItem = λ s n h. (n, word-NoComma s h);
}
