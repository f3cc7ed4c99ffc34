-- ===== src/Release/Fields.antt =====
-- The version fields of scripts/release_config.py and the rendering of `set_version` of scripts/set_version.py,
-- over the files of the repository. Python's `json` and `re` are a parameter.
use ha_int_gcast.Base.{
  ℕ, String, Bool, true, false, Option, none, some, List, [], ◌∷◌, not, ◌&&◌, or_else, ◌==◌, nat_eq,
  string_eq, if◌then◌else◌,
}
use ha_int_gcast.Base.Dict.{Dict, get, put}
use ha_int_gcast.Base.Result.{Result, returned, raised, ◌>>=◌, ◌>>◌, require}
use ha_int_gcast.Topology.Address.{code_points}
use ha_int_gcast.Playlist.Lines.{Text}

-- `kind` as the two words that the code knows, or another one
pub data FieldKind : Type 0 where
  json_field regex_field : FieldKind
  other_field : String → FieldKind

pub record VersionField : Type 0 where
  pub path : String
  pub kind : FieldKind
  pub key : Option String
  pub pattern : Option String
  pub template : Option String

pub data ReleaseError : Type 0 where
  file_not_found : String → ReleaseError
  value_error : String → ReleaseError

-- `json.loads(text).get(key)` if it is a string, `none` in the first place if the text does not parse;
-- the text with that key set; `re.search(…).group(1)`; `re.subn`; and `template.format`.
pub record Formats : Type 0 where
  pub json_get : Text → Option String → Option (Option Text)
  pub json_set : Text → Option String → Text → Text
  pub search : String → Text → Option Text
  pub subn : String → Text → Text → Text × ℕ
  pub format : String → Text → Text

abbrev pub nonempty_text : Option String → Bool
nonempty_text none = false
nonempty_text (some text) = not (text == "")

-- The checks of `load` on a field
unfoldable pub check_field : VersionField → Result ReleaseError (Unit {0})
check_field f = check_kind f.kind
  where
    check_kind : FieldKind → Result ReleaseError (Unit {0})
    check_kind json_field = require (nonempty_text f.key) (value_error "json field needs a key")
    check_kind regex_field =
        require (nonempty_text f.pattern && nonempty_text f.template)
          (value_error "regex field needs pattern and template")
    check_kind (other_field kind) = raised (value_error "unknown field kind")

unfoldable pub check_each : List VersionField → Result ReleaseError (Unit {0})
check_each [] = returned tt
check_each (f ∷ fields) = do check_field f; check_each fields

unfoldable pub check_fields : List VersionField → Result ReleaseError (Unit {0})
check_fields [] = raised (value_error ".release.json must list at least one version field")
check_fields (f ∷ fields) = check_each (f ∷ fields)

-- `read_text`
abbrev pub text_of : String → Option Text → Result ReleaseError Text
text_of path none = raised (file_not_found path)
text_of path (some text) = returned text

abbrev pub missing : Text
missing = code_points "<missing>"

-- `value if isinstance(value, str) else "<missing>"`
abbrev pub value_or_missing : Option (Option Text) → Result ReleaseError Text
value_or_missing none = raised (value_error "JSONDecodeError")
value_or_missing (some value) = returned (or_else value missing)

-- `_replace_one`, by what `subn` gives
abbrev pub replaced_once : String → Text × ℕ → Result ReleaseError Text
replaced_once label (text, count) = if count == 1 then returned text else raised (value_error label)

-- `if not isinstance(data.get(f.key), str)`
abbrev pub has_string : Option (Option Text) → Result ReleaseError (Unit {0})
has_string none = raised (value_error "JSONDecodeError")
has_string (some none) = raised (value_error "no string")
has_string (some (some old)) = returned tt

abbrev pub same_version : Text → Text → Bool
same_version [] [] = true
same_version (c ∷ cs) (d ∷ ds) = if c == d then same_version cs ds else false
same_version [] (d ∷ ds) = false
same_version (c ∷ cs) [] = false

-- Is there just one value, and which?
unfoldable pub all_same : Text → Dict String Text → Bool
all_same version [] = true
all_same version ((path, value) ∷ versions) =
    let rest = all_same version versions in if same_version value version then rest else false

module _ (x : Formats) where
  abbrev read_kind : VersionField → FieldKind → Text → Result ReleaseError Text
  read_kind f json_field text = value_or_missing (x.json_get text f.key)
  read_kind f kind text = returned (or_else (x.search (or_else f.pattern "") text) missing)

  -- `read_field`
  unfoldable pub read_field : Dict String Text → VersionField → Result ReleaseError Text
  read_field files f = do text ← text_of f.path (get files f.path); read_kind f f.kind text

  -- `read_versions`, by path: the last field of a path counts.
  unfoldable pub read_versions :
      Dict String Text
      → List VersionField
      → Dict String Text
      → Result ReleaseError (Dict String Text)
  read_versions files [] versions = returned versions
  read_versions files (f ∷ fields) versions = do
    value ← read_field files f
    read_versions files fields (put versions f.path value)

  abbrev single_version : Dict String Text → Result ReleaseError Text
  single_version [] = raised (value_error "Component versions do not match")
  single_version ((path, version) ∷ versions) =
      if not (all_same version versions)
      then raised (value_error "Component versions do not match")
      else returned version

  -- `CALVER_RE.fullmatch(version)`, by the shape alone
  abbrev shaped : (Text → Bool) → Text → Result ReleaseError Text
  shaped is_calver version =
      if is_calver version then returned version else raised (value_error "Invalid release version")

  -- `validate_versions`
  unfoldable pub validate_versions :
      (Text → Bool) → List VersionField → Dict String Text → Result ReleaseError Text
  validate_versions is_calver fields files = do
    versions ← read_versions files fields []
    version ← single_version versions
    shaped is_calver version

  abbrev render_kind : Text → VersionField → FieldKind → Text → Result ReleaseError Text
  render_kind version f json_field text = do
    has_string (x.json_get text f.key)
    returned (x.json_set text f.key version)
  render_kind version f kind text =
      replaced_once f.path
        (x.subn (or_else f.pattern "") (x.format (or_else f.template "") version) text)

  -- The first loop of `set_version`: every file is rendered from its text on the disk.
  unfoldable pub render :
      Text
      → Dict String Text
      → List VersionField
      → Dict String Text
      → Result ReleaseError (Dict String Text)
  render version files [] rendered = returned rendered
  render version files (f ∷ fields) rendered = do
    text ← text_of f.path (get files f.path)
    new ← render_kind version f f.kind text
    render version files fields (put rendered f.path new)

-- The second loop: every file is written.
unfoldable pub write_all : Dict String Text → Dict String Text → Dict String Text
write_all [] files = files
write_all ((path, text) ∷ rendered) files = write_all rendered (put files path text)
