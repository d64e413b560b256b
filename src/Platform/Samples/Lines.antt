-- ===== src/Platform/Samples/Lines.antt =====
-- A concrete value of the command-line interface: a list of names and values.
use browserd.Shared.{
  ◌≡◌, ◌≢◌, refl, false, Option, none, some, List, [], ◌∷◌, String, Text, codes, value_or,
  has_value, if◌then◌else◌, ◌==◌, eq_iff, eq_refl, sym, ◌∙◌, Bool-cases, inl, inr,
}
use browserd.Platform.CommandLines.{CommandLines}

abbrev pub find : List (String × Text) → String → Option Text
find [] n = none
find ((m, v) ∷ c) n = if m == n then some v else find c n

abbrev pub remove : List (String × Text) → String → List (String × Text)
remove [] n = []
remove ((m, v) ∷ c) n = let rest = remove c n in if m == n then rest else (m, v) ∷ rest

find-append : (c : List (String × Text)) (n : String) (v : Text) → find ((n, v) ∷ c) n ≡ some v
find-append c n v = rw (eq_refl n) refl

pub differ : (m n : String) → m ≢ n → (n == m) ≡ false
differ m n h = elim (Bool-cases (n == m)) [
  | inl e ↦ absurd (h (sym ((eq_iff n m).0 e)))
  | inr e ↦ e
]

find-append-other :
    (c : List (String × Text)) (n m : String) (v : Text) → m ≢ n → find ((n, v) ∷ c) m ≡ find c m
find-append-other c n m v h = rw (differ m n h) refl

pub find-remove-other :
    (c : List (String × Text)) (n m : String) → m ≢ n → find (remove c n) m ≡ find c m
find-remove-other [] n m h = refl
find-remove-other ((k, v) ∷ c) n m h = elim (Bool-cases (k == n)) [
  | inl e ↦ rw (e, find-remove-other c n m h) (rw (differ m k (λ x. h (x ∙ (eq_iff k n).0 e))) refl)
  | inr e ↦ rw (e, find-remove-other c n m h) refl
]

pub disable-ne_nil : ◌≢◌ {A = String} "disable-features" ""
disable-ne_nil e = cc e

abbrev pub lines : CommandLines
lines = record {
  CommandLine = List (String × Text);
  has_switch = λ c n. has_value (find c n);
  value = λ c n. value_or (find c n) [];
  append_switch_ascii = λ c n v. (n, v) ∷ c;
  remove_switch = remove;
  disable_features = "disable-features";
  enable_features = "enable-features";
  process_type = "type";
  gpu_process = codes "gpu-process";
  renderer_process = codes "renderer";
  has-append = λ c n v. rw (eq_refl n) refl;
  has-append-other = λ c n m v h. rw (differ m n h) refl;
  has-remove-other = λ c n m h. rw (find-remove-other c n m h) refl;
  value-append = λ c n v. rw (eq_refl n) refl;
  value-append-other = λ c n m v h. rw (differ m n h) refl;
  value-remove-other = λ c n m h. rw (find-remove-other c n m h) refl;
  disable-ne-nil = disable-ne_nil;
}
