-- ===== src/Utils/Files/RoundTrip.antt =====
-- What tuned/utils/commands.py saves in the profile files, it reads back.
use tuned.Base.{String, ◌≡◌, refl, ap, Bool, true, false, Option, none, some, string_eq}
use tuned.Base.Text.{strip}
use tuned.Base.Text.Lines.{strip-newline}
use tuned.Utils.Files.{
  ProfileFiles, name_or_none, get_active_profile, get_post_loaded_profile, name_line,
  save_active_profile, save_post_loaded_profile,
}

-- What `strip` leaves of a name, or no name.
unfoldable pub stripped : Option String → Option String
unfolding name_or_none
stripped none = none
stripped (some name) = name_or_none (strip name)

name_or_none-line : (name : Option String) → name_or_none (strip (name_line name)) ≡ stripped name
unfolding stripped name_line name_or_none string_eq strip
name_or_none-line none = refl
name_or_none-line (some n) = ap name_or_none (strip-newline n)

-- A profile that was saved is read back, without the space around its name and as none if that is
-- all, together with the mode; so is the post-loaded profile; neither save touches the other's file.
pub get_active_profile-save_active_profile :
    (name : Option String) (manual : Bool) (f : ProfileFiles)
    → let q = (save_active_profile true true name manual f).1 in
      let r = (save_post_loaded_profile true name f).1 in
      (get_active_profile q ≡ some (stripped name, some manual))
      × (get_post_loaded_profile q ≡ get_post_loaded_profile f)
      × (get_post_loaded_profile r ≡ some (stripped name))
      × (get_active_profile r ≡ get_active_profile f)
unfolding get_active_profile get_post_loaded_profile save_active_profile save_post_loaded_profile
    string_eq
get_active_profile-save_active_profile name true f = (
  ap (λ n. some (n, some true)) (name_or_none-line name),
  refl,
  ap some (name_or_none-line name),
  refl,
)
get_active_profile-save_active_profile name false f = (
  ap (λ n. some (n, some false)) (name_or_none-line name),
  refl,
  ap some (name_or_none-line name),
  refl,
)
