-- ===== src/Platform/Samples.antt =====
-- Concrete values of the interfaces, for tests and examples.
pub mod Texts
pub mod Lines
pub mod Pages
pub mod Tabs
use browserd.Shared.{
  String, ◌≡◌, refl, Bool, Option, none, some, List, [], ◌∷◌, if◌then◌else◌, ◌==◌,
}
use browserd.Platform.Json.{Json, ℤ}

mutual
  pub data Value : Type 0 where
    null : Value
    str : String → Value
    bool : Bool → Value
    int : ℤ → Value
    dict : Dict → Value
    list : Values → Value

  pub data Dict : Type 0 where
    end : Dict
    entry : String → Value → Dict → Dict

  pub data Values : Type 0 where
    nil : Values
    cons : Value → Values → Values

abbrev values : List Value → Values
values [] = nil
values (v ∷ vs) = cons v (values vs)

abbrev find : Dict → String → Option Value
find end j = none
find (entry k v d) j = if k == j then some v else find d j

abbrev as_string : Value → Option String
as_string (str s) = some s
as_string _ = none

abbrev as_bool : Value → Option Bool
as_bool (bool b) = some b
as_bool _ = none

abbrev as_int : Value → Option ℤ
as_int (int i) = some i
as_int _ = none

abbrev as_dict : Value → Option Dict
as_dict (dict d) = some d
as_dict _ = none

abbrev elements : Values → List Value
elements nil = []
elements (cons v vs) = v ∷ elements vs

abbrev as_list : Value → Option (List Value)
as_list (list vs) = some (elements vs)
as_list _ = none

-- Dictionaries as lists of entries, the newest first.
abbrev pub json : Json
json = record {
  Value = Value;
  Dict = Dict;
  null = null;
  of_string = str;
  of_bool = bool;
  of_int = int;
  of_dict = dict;
  of_list = λ vs. list (values vs);
  as_string = as_string;
  as_bool = as_bool;
  as_int = as_int;
  as_dict = as_dict;
  as_list = as_list;
  empty = end;
  find = find;
  set = λ d k v. entry k v d;
  find-empty = λ k. refl;
  find-set = λ d k j v. refl;
  as_string-of_string = λ s. refl;
  as_bool-of_bool = λ b. refl;
  as_int-of_int = λ i. refl;
  as_dict-of_dict = λ d. refl;
}
