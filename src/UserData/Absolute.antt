-- ===== src/UserData/Absolute.antt =====
-- browserd/user_data_dir.cc: what holds of the directory.
use browserd.Shared.{
  ◌≡◌, ◌⊎◌, inl, inr, sym, ap, subst, ◌∙◌, true, not, ◌&&◌, Option, none, some, some-injective, [],
  Text, is_empty, if◌then◌else◌, if_elim, Option-cases, false≢true,
}
use browserd.UserData

module _ (F : UserData.Files) where
  -- A result, if there is one, is an absolute path.
  Absolute : Option Text → Type 0
  Absolute o = (p : Text) → o ≡ some p → F.is_absolute p ≡ true

  unless_empty-Absolute :
      (path : Text)
      → (path ≡ []) ⊎ (F.is_absolute path ≡ true)
      → Absolute (UserData.unless_empty F path)
  unfolding Absolute
  unless_empty-Absolute path h =
      if_elim Absolute (is_empty path) (λ _ p e. cc)
        (λ full p e. elim h [
          | inl k ↦ absurd (false≢true (sym full ∙ ap is_empty k))
          | inr k ↦ subst (λ q. F.is_absolute q ≡ true) (some-injective _ _ e) k
        ])

  ensure_directory-Absolute : (path : Text) → Absolute (UserData.ensure_directory F path)
  unfolding UserData.ensure_directory Absolute
  ensure_directory-Absolute path =
      if_elim Absolute (is_empty path) (λ _ p e. cc)
        (λ _.
          if_elim Absolute (not (F.directory_exists path) && not (F.create_directory path))
            (λ _ p e. cc)
            (λ _.
              unless_empty-Absolute (if F.is_absolute path then path else F.make_absolute path) (
                if_elim (λ (q : Text). (q ≡ []) ⊎ (F.is_absolute q ≡ true)) (F.is_absolute path) inr
                  (λ _. F.make_absolute-absolute path))))

  command_line_dir-Absolute : (path : Text) → Absolute (UserData.command_line_dir F path)
  unfolding UserData.command_line_dir Absolute
  command_line_dir-Absolute path =
      if_elim Absolute (is_empty path) (λ _ p e. cc) (λ _. ensure_directory-Absolute path)

  -- The directory of a browser with windows is absolute, whether it was given or is the default.
  pub get_gui_user_data_dir-absolute :
      (given : Option Text) (p : Text)
      → UserData.get_gui_user_data_dir F given ≡ some p
      → F.is_absolute p ≡ true
  unfolding UserData.get_gui_user_data_dir UserData.get_default_gui_user_data_dir Absolute
  get_gui_user_data_dir-absolute none p = elim (Option-cases F.default_directory) [
    | inl e ↦ rw (e, UserData.get_default_gui_user_data_dir) (λ k. cc)
    | inr (d, e) ↦ rw (e, UserData.get_default_gui_user_data_dir) (ensure_directory-Absolute d p)
  ]
  get_gui_user_data_dir-absolute (some path) p = command_line_dir-Absolute path p

  -- The directory of a headless browser is absolute, whether it was given or is a temporary one.
  pub get_headless_user_data_dir-absolute :
      (given : Option Text) (p : Text)
      → UserData.get_headless_user_data_dir F given ≡ some p
      → F.is_absolute p ≡ true
  unfolding UserData.get_headless_user_data_dir Absolute
  get_headless_user_data_dir-absolute none p = F.new_temp-absolute p
  get_headless_user_data_dir-absolute (some path) p = command_line_dir-Absolute path p
