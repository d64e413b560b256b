-- ===== src/UserData.antt =====
-- browserd/user_data_dir.cc: where the browser keeps its data.
pub mod Absolute
mod Tests
use browserd.Shared.{
  ◌≡◌, ◌⊎◌, Bool, true, false, not, ◌&&◌, Option, none, some, [], Text, is_empty, if◌then◌else◌,
}

-- What base/files gives: the tests of a path, `CreateDirectory`, `MakeAbsoluteFilePath`, which is empty
-- where it fails, the platform's own directory with browserd's name appended, and
-- `CreateNewTempDirectory`.
pub record Files : Type 0 where
  pub is_absolute : Text → Bool
  pub directory_exists : Text → Bool
  pub create_directory : Text → Bool
  pub make_absolute : Text → Text
  pub default_directory : Option Text
  pub new_temp_directory : Option Text
  pub make_absolute-absolute :
      (p : Text) → (make_absolute p ≡ []) ⊎ (is_absolute (make_absolute p) ≡ true)
  pub new_temp-absolute : (p : Text) → new_temp_directory ≡ some p → is_absolute p ≡ true

module _ (F : Files) where
  -- The end of `EnsureDirectory`, on the absolute path.
  abbrev unless_empty : Text → Option Text
  unless_empty path = if is_empty path then none else some path

  pub ensure_directory : Text → Option Text
  ensure_directory path =
      if is_empty path
      then none
      else if not (F.directory_exists path) && not (F.create_directory path)
      then none
      else unless_empty (if F.is_absolute path then path else F.make_absolute path)

  -- `GetCommandLineUserDataDir` for a switch that is there, which gives its value.
  pub command_line_dir : Text → Option Text
  unfolding ensure_directory
  command_line_dir path = if is_empty path then none else ensure_directory path

  pub get_default_gui_user_data_dir : Option Text
  unfolding ensure_directory
  get_default_gui_user_data_dir = elim F.default_directory [
    | none ↦ none
    | some path ↦ ensure_directory path
  ]

  -- The switch is `none` where it is not on the command line.
  pub get_gui_user_data_dir : Option Text → Option Text
  unfolding command_line_dir get_default_gui_user_data_dir
  get_gui_user_data_dir none = get_default_gui_user_data_dir
  get_gui_user_data_dir (some path) = command_line_dir path

  pub get_headless_user_data_dir : Option Text → Option Text
  unfolding command_line_dir
  get_headless_user_data_dir none = F.new_temp_directory
  get_headless_user_data_dir (some path) = command_line_dir path
