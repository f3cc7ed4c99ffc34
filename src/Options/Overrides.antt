-- ===== src/Options/Overrides.antt =====
-- `async_step_url_overrides` and the choice of devices, custom_components/cast/config_flow.py.
use ha_int_gcast.Base.{
  String, Bool, Option, none, some, List, [], ◌∷◌, map, not, is_some, or_else, ◌==◌, string_eq,
  if◌then◌else◌,
}
use ha_int_gcast.Base.Dict.{Dict, get, put, remove}
use ha_int_gcast.Health.Types.{Uuid, DeviceHealth}
use ha_int_gcast.Health.Ledger.{str_truthy}
use ha_int_gcast.Urls.{UrlLibrary, normalize_override}
use ha_int_gcast.Options.Flow.{
  trimmed, Options, OptionsFlow, OptionsResult, shows_url_overrides, finish_flow,
}
use text.Mathlib.Text.{is_le}
use Prim.Native.String.{compare, ◌++◌ as str_append}

-- What the form sends back
pub record OverrideInput : Type 0 where
  pub device : String
  pub url : Option String
  pub add_another : Bool

abbrev pub overrides_of : Options → Dict String String
overrides_of o = or_else o.url_overrides []

-- The overrides after the form, or the error
pub data Edited : Type 0 where
  edited : Dict String String → Edited
  invalid_url : Edited

abbrev normal_base : String → Option String → Dict String String → Edited
normal_base device none overrides = invalid_url
normal_base device (some base) overrides = edited (put overrides device base)

unfoldable pub edit_override : UrlLibrary → String → String → Dict String String → Edited
edit_override y device url overrides =
    if not (str_truthy url)
    then edited (remove overrides device)
    else normal_base device (normalize_override y url) overrides

abbrev pub after_edit : Bool → Edited → OptionsFlow → OptionsResult × OptionsFlow
after_edit add_another invalid_url f = (shows_url_overrides (some "invalid_url"), f)
after_edit add_another (edited overrides) f =
    let f' : OptionsFlow = record f {
      gathered_options = record f.gathered_options { url_overrides = some overrides };
    } in
    if add_another then (shows_url_overrides none, f') else finish_flow f'

-- `async_step_url_overrides`
unfoldable pub step_url_overrides :
    UrlLibrary → Option OverrideInput → OptionsFlow → OptionsResult × OptionsFlow
step_url_overrides y none f = (shows_url_overrides none, f)
step_url_overrides y (some input) f =
    after_edit input.add_another
      (edit_override y (trimmed input.device) (trimmed (or_else input.url ""))
        (overrides_of f.gathered_options))
      f

-- `_device_label`; `str` of a uuid is a parameter.
abbrev label_of : DeviceHealth → String → String
label_of h name = str_append name (str_append " (" (str_append (or_else h.host "no address") ")"))

abbrev name_label : DeviceHealth → Option String → Option String
name_label h none = none
name_label h (some name) = if str_truthy name then some (label_of h name) else none

unfoldable pub device_label : (Uuid → String) → List (Uuid × DeviceHealth) → String → String
device_label str [] uuid = uuid
device_label str ((u, h) ∷ devices) uuid =
    let later = device_label str devices uuid in
    if str h.uuid == uuid then or_else (name_label h h.name) later else later

-- `_device_options`: the devices of the ledger with their labels, then those with an override only
unfoldable pub device_labels :
    (Uuid → String)
    → List (Uuid × DeviceHealth)
    → List (Uuid × DeviceHealth)
    → Dict String String
    → Dict String String
device_labels str all [] labels = labels
device_labels str all ((u, h) ∷ devices) labels =
    device_labels str all devices (put labels (str h.uuid) (device_label str all (str h.uuid)))

unfoldable pub with_override_keys : Dict String String → Dict String String → Dict String String
with_override_keys [] labels = labels
with_override_keys ((uuid, base) ∷ overrides) labels =
    with_override_keys overrides
      (if is_some (get labels uuid) then labels else put labels uuid uuid)

-- `sorted(…, key=lambda item: item[1].lower())`, with `lower` as a parameter
unfoldable pub insert_by_label :
    (String → String) → String × String → List (String × String) → List (String × String)
insert_by_label lower item [] = item ∷ []
insert_by_label lower item (other ∷ others) =
    let later = insert_by_label lower item others in
    if is_le (compare (lower item.1) (lower other.1)) then item ∷ other ∷ others else other ∷ later

unfoldable pub sort_by_label : (String → String) → List (String × String) → List (String × String)
sort_by_label lower [] = []
sort_by_label lower (item ∷ items) = insert_by_label lower item (sort_by_label lower items)

abbrev shown_label : Option String → String → String
shown_label none label = label
shown_label (some base) label = str_append label (str_append " [" (str_append base "]"))

unfoldable pub device_options :
    (Uuid → String)
    → (String → String)
    → List (Uuid × DeviceHealth)
    → Dict String String
    → List (String × String)
device_options str lower devices overrides =
    map (λ item. (item.0, shown_label (get overrides item.0) item.1))
      (sort_by_label lower (with_override_keys overrides (device_labels str devices devices [])))
