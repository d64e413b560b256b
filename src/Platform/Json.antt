-- ===== src/Platform/Json.antt =====
-- The part of Chromium's base/values.h that browserd uses: `base::Value`, `base::DictValue` and
-- `base::ListValue`, with the documented laws of a dictionary.
use browserd.Shared.{ℕ, String, ◌≡◌, Bool, Option, none, some, List, if◌then◌else◌, ◌==◌}

-- A JSON number that is an `int`; `negsuc n` is minus (n + 1).
pub data ℤ : Type 0 where
  pos : ℕ → ℤ
  negsuc : ℕ → ℤ

-- `find` is `Find`; `find_string`, `find_dict`, `find_bool` and `find_int` below are the typed
-- lookups, that give nothing where the key is absent or its value has another type.
pub record Json : Type 1 where
  pub Value : Type 0
  pub Dict : Type 0
  pub null : Value
  pub of_string : String → Value
  pub of_bool : Bool → Value
  pub of_int : ℤ → Value
  pub of_dict : Dict → Value
  pub of_list : List Value → Value
  pub as_string : Value → Option String
  pub as_bool : Value → Option Bool
  pub as_int : Value → Option ℤ
  pub as_dict : Value → Option Dict
  pub as_list : Value → Option (List Value)
  pub empty : Dict
  pub find : Dict → String → Option Value
  pub set : Dict → String → Value → Dict
  pub find-empty : (k : String) → find empty k ≡ none
  pub find-set :
      (d : Dict) (k j : String) (v : Value)
      → find (set d k v) j ≡ (if k == j then some v else find d j)
  pub as_string-of_string : (s : String) → as_string (of_string s) ≡ some s
  pub as_bool-of_bool : (b : Bool) → as_bool (of_bool b) ≡ some b
  pub as_int-of_int : (i : ℤ) → as_int (of_int i) ≡ some i
  pub as_dict-of_dict : (d : Dict) → as_dict (of_dict d) ≡ some d

abbrev and_then {ℓ κ} : {A : Type ℓ} {B : Type κ} → Option A → (A → Option B) → Option B
and_then none f = none
and_then (some a) f = f a

module _ (J : Json) where
  abbrev pub find_string : J.Dict → String → Option String
  find_string d k = and_then (J.find d k) J.as_string

  abbrev pub find_dict : J.Dict → String → Option J.Dict
  find_dict d k = and_then (J.find d k) J.as_dict

  abbrev pub find_bool : J.Dict → String → Option Bool
  find_bool d k = and_then (J.find d k) J.as_bool

  abbrev pub find_int : J.Dict → String → Option ℤ
  find_int d k = and_then (J.find d k) J.as_int

  abbrev pub find_list : J.Dict → String → Option (List J.Value)
  find_list d k = and_then (J.find d k) J.as_list
