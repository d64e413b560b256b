-- ===== src/Switches/Merge.antt =====
-- browserd/embedder_switches.cc: merging two lists of features.
use browserd.Shared.{
  ◌≡◌, ◌≢◌, refl, ap, ◌∙◌, ◌||◌, List, [], ◌∷◌, ◌++◌, Text, All, All-append, text_eq_iff, if_elim,
  append_assoc, arith,
}
use browserd.Platform.Strings.{Strings}
use browserd.Switches

has_text-append :
    (xs ys : List Text) (v : Text)
    → Switches.has_text (xs ++ ys) v ≡ Switches.has_text xs v || Switches.has_text ys v
has_text-append [] ys v = refl
has_text-append (x ∷ xs) ys v = ground (arith, has_text-append xs ys v)

has_text-add_all :
    (xs ys : List Text) (v : Text)
    → Switches.has_text (Switches.add_all xs ys) v
      ≡ Switches.has_text xs v || Switches.has_text ys v
unfolding Switches.add_all
has_text-add_all xs [] v = ground arith
has_text-add_all xs (y ∷ ys) v =
    let same = has_text-add_all xs ys v in
    let more = has_text-add_all (xs ++ y ∷ []) ys v in
    ground (arith, same, more, has_text-append xs (y ∷ []) v, text_eq_iff y v)

-- All of these are lists of values that a `split` gives.
add_all-All :
    (P : Text → Type 0) (xs ys : List Text) → All P xs → All P ys → All P (Switches.add_all xs ys)
unfolding Switches.add_all
add_all-All P xs [] hx hy = hx
add_all-All P xs (y ∷ ys) hx (h, hy) =
    let same = add_all-All P xs ys hx hy in
    let more = add_all-All P (xs ++ y ∷ []) ys (All-append P xs (y ∷ []) hx (h, tt)) hy in
    if_elim (All P) (Switches.has_text xs y) (λ _. same) (λ _. more)

-- The reference: the values with a comma between any two.
abbrev comma_list : Text → List Text → Text
comma_list v [] = v
comma_list v (w ∷ ws) = v ++ b',' ∷ comma_list w ws

join-comma_list :
    (merged v : Text) (vs : List Text)
    → merged ≢ []
    → Switches.join merged (v ∷ vs) ≡ merged ++ b',' ∷ comma_list v vs
unfolding Switches.join
join-comma_list [] v vs h = absurd (h refl)
join-comma_list (c ∷ cs) v [] h = refl
join-comma_list (c ∷ cs) v (w ∷ ws) h =
    join-comma_list (c ∷ cs ++ b',' ∷ v) w ws (λ e. cc)
    ∙ ap (λ l. c ∷ l) (append_assoc cs (b',' ∷ v) (b',' ∷ comma_list w ws))

module _ (S : Strings) where
  split-comma_list :
      (v : Text) (vs : List Text) → All S.IsItem (v ∷ vs) → S.split (comma_list v vs) ≡ v ∷ vs
  split-comma_list v [] (h, hs) = S.split-item v h
  split-comma_list v (w ∷ ws) (h, hs) =
      S.split-comma v (comma_list w ws) h ∙ ap (λ l. v ∷ l) (split-comma_list w ws hs)

  split-join : (vs : List Text) → All S.IsItem vs → S.split (Switches.join [] vs) ≡ vs
  unfolding Switches.join
  split-join [] h = S.split-nil
  split-join (v ∷ []) (h, hs) = S.split-item v h
  split-join (v ∷ w ∷ ws) (h, hs) =
      ap S.split (join-comma_list v w ws (S.item-ne-nil v h)) ∙ split-comma_list v (w ∷ ws) (h, hs)

  -- Merging two lists of features keeps the features of both and adds none.
  pub merge_comma_separated_values-split :
      (existing incoming v : Text)
      → Switches.has_text (S.split (Switches.merge_comma_separated_values S existing incoming)) v
        ≡ Switches.has_text (S.split existing) v || Switches.has_text (S.split incoming) v
  unfolding Switches.merge_comma_separated_values
  merge_comma_separated_values-split [] incoming v = rw S.split-nil refl
  merge_comma_separated_values-split (c ∷ s) [] v = rw S.split-nil (ground arith)
  merge_comma_separated_values-split (c ∷ s) (d ∷ t) v =
      let xs = S.split (c ∷ s) in
      let ys = S.split (d ∷ t) in
      ap (λ l. Switches.has_text l v)
        (split-join (Switches.add_all xs ys)
          (add_all-All S.IsItem xs ys (S.split-items (c ∷ s)) (S.split-items (d ∷ t))))
      ∙ has_text-add_all xs ys v
