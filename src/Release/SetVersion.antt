-- ===== src/Release/SetVersion.antt =====
-- `set_version` of scripts/set_version.py, and what it leaves.
use ha_int_gcast.Base.{
  ◌≡◌, refl, arith, same_iff, String, Bool, true, false, List, [], ◌∷◌, is_some, nat_eq,
  if◌then◌else◌,
}
use ha_int_gcast.Base.Dict.{Dict}
use ha_int_gcast.Base.Result.{Result, returned, raised}
use ha_int_gcast.Playlist.Lines.{Text}
use ha_int_gcast.Release.Calver.{parse_calver}
use ha_int_gcast.Release.Fields.{
  VersionField, ReleaseError, value_error, Formats, same_version, validate_versions, render,
  write_all,
}

-- What `set_version` checks at last
abbrev synchronized : Text → Result ReleaseError Text → Result ReleaseError (Unit {0})
synchronized version (raised e) = raised e
synchronized version (returned shipped) =
    if same_version shipped version
    then returned tt
    else raised (value_error "Version synchronization failed after writing files")

module _ (x : Formats) (is_calver : Text → Bool) (fields : List VersionField) (version : Text) where
  abbrev apply :
      Result ReleaseError (Dict String Text)
      → Dict String Text
      → Result ReleaseError (Unit {0}) × Dict String Text
  apply (raised e) files = (raised e, files)
  apply (returned rendered) files =
      let files' = write_all rendered files in
      (synchronized version (validate_versions x is_calver fields files'), files')

  -- `set_version`: what it raises, and the files
  unfoldable pub set_version : Dict String Text → Result ReleaseError (Unit {0}) × Dict String Text
  set_version files =
      if is_some (parse_calver version)
      then apply (render x version files fields []) files
      else (raised (value_error "Invalid CalVer release version"), files)

same_version-path : (a b : Text) → same_version a b ≡ true → a ≡ b
same_version-path [] [] e = refl
same_version-path [] (d ∷ b) e = ground (arith, e)
same_version-path (c ∷ a) [] e = ground (arith, e)
same_version-path (c ∷ a) (d ∷ b) e = ground (arith, e, same_version-path a b, same_iff c d)

synchronized-agrees :
    (version : Text) (r : Result ReleaseError Text)
    → synchronized version r ≡ returned tt
    → r ≡ returned version
synchronized-agrees version (raised e) h = ground (arith, h)
synchronized-agrees version (returned shipped) h =
    ground (arith, h, same_version-path shipped version)

-- When `set_version` succeeds, the files that it leaves ship that version and no other.
pub set_version-agrees :
    (x : Formats) (is_calver : Text → Bool) (fields : List VersionField) (version : Text)
    (files : Dict String Text)
    → (set_version x is_calver fields version files).0 ≡ returned tt
    → validate_versions x is_calver fields (set_version x is_calver fields version files).1
      ≡ returned version
unfolding set_version
set_version-agrees x is_calver fields version files h =
    agreed (is_some (parse_calver version)) (render x version files fields []) h
  where
    agreed :
        (b : Bool) (r : Result ReleaseError (Dict String Text))
        → (if b
            then apply x is_calver fields version r files
            else (raised (value_error "Invalid CalVer release version"), files)).0
          ≡ returned tt
        → validate_versions x is_calver fields
            (if b
              then apply x is_calver fields version r files
              else (raised (value_error "Invalid CalVer release version"), files)).1
          ≡ returned version
    agreed false r g = absurd (ground (arith, g))
    agreed true (raised e) g = absurd (ground (arith, g))
    agreed true (returned rendered) g =
        synchronized-agrees version
          (validate_versions x is_calver fields (write_all rendered files)) g

-- When the rendering of a file fails, no file is written.
pub set_version-untouched :
    (x : Formats) (is_calver : Text → Bool) (fields : List VersionField) (version : Text)
    (files : Dict String Text) (e : ReleaseError)
    → render x version files fields [] ≡ raised e
    → (set_version x is_calver fields version files).1 ≡ files
unfolding set_version
set_version-untouched x is_calver fields version files e h = ground (arith, h)
