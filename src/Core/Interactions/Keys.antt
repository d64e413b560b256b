-- ===== src/Core/Interactions/Keys.antt =====
-- browserd/core/browser_interactions.cc: the keys that type the bytes of a text.
pub mod Layout
mod Tests
use browserd.Shared.{
  ℕ, ◌-◌, ◌+◌, ◌^◌, ltb, Bool, true, false, ◌&&◌, ◌||◌, String, List, [], ◌∷◌, leb, eqb,
  if◌then◌else◌, ◌==◌, Text, codes,
}

-- The values of `ui::KeyboardCode` that are used: `letter n` is `VKEY_A + n`, `digit n` is `VKEY_0 + n`,
-- `no_key` is 0.
pub data KeyCode : Type 0 where
  no_key : KeyCode
  letter : ℕ → KeyCode
  digit : ℕ → KeyCode
  space : KeyCode
  oem_minus : KeyCode
  oem_plus : KeyCode
  oem_comma : KeyCode
  oem_period : KeyCode
  oem_1 : KeyCode
  oem_2 : KeyCode
  oem_3 : KeyCode
  oem_4 : KeyCode
  oem_5 : KeyCode
  oem_6 : KeyCode
  oem_7 : KeyCode
  return_key : KeyCode
  tab : KeyCode
  escape : KeyCode
  back : KeyCode
  delete : KeyCode
  up : KeyCode
  down : KeyCode
  left : KeyCode
  right : KeyCode

-- A byte of a text is a `char`, which is taken to be signed, as it is on x86 and on macOS: `sign_extend w` is
-- the unsigned number of `w` bits that it converts to.
unfoldable pub sign_extend : ℕ → ℕ → ℕ
sign_extend w c = if ltb c 128 then c else 2 ^ w - 256 + c

-- The values of `ui::DomKey` that are used; `of_character` has a `char32_t`.
pub data DomKey : Type 0 where
  none_key : DomKey
  of_character : ℕ → DomKey
  enter : DomKey
  tab_key : DomKey
  escape_key : DomKey
  backspace : DomKey
  del : DomKey
  arrow_up : DomKey
  arrow_down : DomKey
  arrow_left : DomKey
  arrow_right : DomKey

-- `shift` says whether the modifiers are `kShiftKey`, not `kNoModifiers`.
pub record KeyMapping : Type 0 where
  pub windows_key_code : KeyCode
  pub shift : Bool
  pub dom_key : DomKey

abbrev no_mapping : KeyMapping
no_mapping = record { windows_key_code = no_key; shift = false; dom_key = none_key }

-- A case of the `switch`: its character, and the key that it sets.
pub record Case : Type 0 where
  pub character : ℕ
  pub key : KeyCode
  pub shifted : Bool

abbrev case : ℕ → KeyCode → Bool → Case
case c k s = record { character = c; key = k; shifted = s }

abbrev pub symbols : List Case
symbols =
    case 33 (digit 1) true
    ∷ case 64 (digit 2) true
    ∷ case 35 (digit 3) true
    ∷ case 36 (digit 4) true
    ∷ case 37 (digit 5) true
    ∷ case 94 (digit 6) true
    ∷ case 38 (digit 7) true
    ∷ case 42 (digit 8) true
    ∷ case 40 (digit 9) true
    ∷ case 41 (digit 0) true
    ∷ case 45 oem_minus false
    ∷ case 95 oem_minus true
    ∷ case 61 oem_plus false
    ∷ case 43 oem_plus true
    ∷ case 91 oem_4 false
    ∷ case 123 oem_4 true
    ∷ case 93 oem_6 false
    ∷ case 125 oem_6 true
    ∷ case 92 oem_5 false
    ∷ case 124 oem_5 true
    ∷ case 59 oem_1 false
    ∷ case 58 oem_1 true
    ∷ case 39 oem_7 false
    ∷ case 34 oem_7 true
    ∷ case 44 oem_comma false
    ∷ case 60 oem_comma true
    ∷ case 46 oem_period false
    ∷ case 62 oem_period true
    ∷ case 47 oem_2 false
    ∷ case 63 oem_2 true
    ∷ case 96 oem_3 false
    ∷ case 126 oem_3 true
    ∷ []

-- The `switch` over the characters that are no letters, digits or spaces.
unfoldable pub switch : List Case → ℕ → KeyMapping
switch [] c = record {
  windows_key_code = no_key;
  shift = false;
  dom_key = of_character (sign_extend 32 c);
}
switch (x ∷ xs) c =
    if eqb c x.character
    then record {
      windows_key_code = x.key;
      shift = x.shifted;
      dom_key = of_character (sign_extend 32 c);
    }
    else switch xs c

abbrev pub between : ℕ → ℕ → ℕ → Bool
between low high c = leb low c && leb c high

-- A character is its byte; one of 128 and more, negative as a `char`, is in no range and no case.
unfoldable pub map_character : ℕ → KeyMapping
map_character c =
    if between 97 122 c
    then record {
      windows_key_code = letter (c - 97);
      shift = false;
      dom_key = of_character (sign_extend 32 c);
    }
    else if between 65 90 c
    then record {
      windows_key_code = letter (c - 65);
      shift = true;
      dom_key = of_character (sign_extend 32 c);
    }
    else if between 48 57 c
    then record {
      windows_key_code = digit (c - 48);
      shift = false;
      dom_key = of_character (sign_extend 32 c);
    }
    else if eqb c 32
    then record {
      windows_key_code = space;
      shift = false;
      dom_key = of_character (sign_extend 32 c);
    }
    else switch symbols c

abbrev single : Text → KeyMapping
single [] = no_mapping
single (c ∷ []) = map_character c
single (c ∷ d ∷ s) = no_mapping

unfoldable pub map_key : String → KeyMapping
map_key key =
    if key == "Enter"
    then record { windows_key_code = return_key; shift = false; dom_key = enter }
    else if key == "Tab"
    then record { windows_key_code = tab; shift = false; dom_key = tab_key }
    else if key == "Escape"
    then record { windows_key_code = escape; shift = false; dom_key = escape_key }
    else if key == "Backspace"
    then record { windows_key_code = back; shift = false; dom_key = backspace }
    else if key == "Delete"
    then record { windows_key_code = delete; shift = false; dom_key = del }
    else if key == "ArrowUp"
    then record { windows_key_code = up; shift = false; dom_key = arrow_up }
    else if key == "ArrowDown"
    then record { windows_key_code = down; shift = false; dom_key = arrow_down }
    else if key == "ArrowLeft"
    then record { windows_key_code = left; shift = false; dom_key = arrow_left }
    else if key == "ArrowRight"
    then record { windows_key_code = right; shift = false; dom_key = arrow_right }
    else if (key == " ") || (key == "Space")
    then record { windows_key_code = space; shift = false; dom_key = of_character 32 }
    else single (codes key)
