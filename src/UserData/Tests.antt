-- ===== src/UserData/Tests.antt =====
-- A relative path on the command line.
use browserd.Shared.{◌≡◌, inr, refl, Bool, true, false, Option, some, [], ◌∷◌, Text, codes, eqb}
use browserd.UserData
use browserd.UserData.Absolute

abbrev starts_with_slash : Text → Bool
starts_with_slash [] = false
starts_with_slash (c ∷ s) = eqb c b'/'

temp_absolute :
    (p : Text) → ◌≡◌ {A = Option Text} (some (codes "/tmp/b")) (some p) → starts_with_slash p ≡ true
temp_absolute p e = cc

abbrev files : UserData.Files
files = record {
  is_absolute = starts_with_slash;
  directory_exists = λ p. false;
  create_directory = λ p. true;
  make_absolute = λ p. b'/' ∷ p;
  default_directory = some (codes "/home/b");
  new_temp_directory = some (codes "/tmp/b");
  make_absolute-absolute = λ p. inr refl;
  new_temp-absolute = temp_absolute;
}

get_gui_user_data_dir-absolute_example : files.is_absolute (codes "/data") ≡ true
unfolding UserData.get_gui_user_data_dir UserData.command_line_dir UserData.ensure_directory
get_gui_user_data_dir-absolute_example =
    Absolute.get_gui_user_data_dir-absolute files (some (codes "data")) (codes "/data") refl
