-- ===== src/Options/Flow.antt =====
-- The steps of `FlowHandler` and of `CastOptionsFlowHandler`, custom_components/cast/config_flow.py. A
-- form is drawn with suggested values; what a user sends back is a record of the keys that are set.
use ha_int_gcast.Base.{
  ℕ, suc, String, Bool, true, false, Option, none, some, List, [], ◌∷◌, not, ◌||◌, or_else,
  overwrite, if◌then◌else◌, string_eq,
}
use ha_int_gcast.Base.Dict.{Dict}
use ha_int_gcast.Health.Ledger.{str_truthy}
use ha_int_gcast.Playlist.Lines.{is_space}
use ha_int_gcast.Base.{leb, ◌&&◌}
use ha_int_gcast.Probe.Snapshot.{min_probe_interval, EntryOptions, stored_or}
use ha_int_gcast.Urls.{strip_front, strip_back}

-- `x.strip()`
unfoldable pub trimmed : String → String
trimmed text = strip_back is_space (strip_front is_space text)

-- `_trim_items`
unfoldable pub trim_items : List String → List String
trim_items [] = []
trim_items (item ∷ items) =
    let rest = trim_items items in if str_truthy (trimmed item) then trimmed item ∷ rest else rest

-- The data of the entry, each key if it is set
pub record EntryData : Type 0 where
  pub ignore_cec : Option (List String)
  pub known_hosts : Option (List String)
  pub wanted_uuid : Option (List String)

-- `_get_data`
unfoldable pub get_data : Option (List String) → EntryData
get_data known_hosts = record {
  ignore_cec = some [];
  known_hosts = some (or_else known_hosts []);
  wanted_uuid = some [];
}

-- A step of the setup ends with the entry or with a form.
pub data SetupResult : Type 0 where
  creates_entry : EntryData → SetupResult
  shows_config shows_confirm : SetupResult

-- `async_step_config` and `async_step_confirm`; a form that was sent holds the known hosts, if any.
unfoldable pub step_config : Option (Option (List String)) → SetupResult
step_config none = shows_config
step_config (some known_hosts) =
    creates_entry (get_data (some (trim_items (or_else known_hosts []))))

unfoldable pub step_confirm : Bool → Bool → SetupResult
step_confirm sent is_onboarded =
    if sent || not is_onboarded then creates_entry (get_data none) else shows_confirm

-- The options of the entry
pub record Options : Type 0 where
  pub health : EntryOptions
  pub url_overrides : Option (Dict String String)

-- What the first form sends back
pub record InitInput : Type 0 where
  pub ignore_cec : Option (List String)
  pub known_hosts : Option (List String)
  pub wanted_uuid : Option (List String)
  pub health : EntryOptions
  pub edit_url_overrides : Option Bool

-- What it is drawn with
pub record Suggested : Type 0 where
  pub ignore_cec : Option (List String)
  pub known_hosts : Option (List String)
  pub wanted_uuid : Option (List String)
  pub health : EntryOptions

-- The entry, what the flow has gathered, and how often the entry was updated.
pub record OptionsFlow : Type 0 where
  pub entry_data : EntryData
  pub entry_options : Options
  pub gathered_data : EntryData
  pub gathered_options : Options
  pub updates : ℕ

pub data OptionsResult : Type 0 where
  finished : OptionsResult
  shows_init : Suggested → OptionsResult
  shows_url_overrides : Option String → OptionsResult

-- `{**options, **health}`
unfoldable pub merge_health : EntryOptions → EntryOptions → EntryOptions
merge_health old new = record {
  probe_enabled = overwrite new.probe_enabled old.probe_enabled;
  probe_interval = overwrite new.probe_interval old.probe_interval;
  group_probe_enabled = overwrite new.group_probe_enabled old.group_probe_enabled;
  probe_video_devices = overwrite new.probe_video_devices old.probe_video_devices;
}

-- `{key: options.get(key, default) for key, default in HEALTH_DEFAULTS.items()}`
unfoldable pub suggested_health : EntryOptions → EntryOptions
suggested_health o = record {
  probe_enabled = some (stored_or true o.probe_enabled);
  probe_interval = some (stored_or 300 o.probe_interval);
  group_probe_enabled = some (stored_or true o.group_probe_enabled);
  probe_video_devices = some (stored_or false o.probe_video_devices);
}

-- The suggested values of the first form
unfoldable pub suggested : EntryData → Options → Suggested
suggested d o = record {
  ignore_cec = d.ignore_cec;
  known_hosts = d.known_hosts;
  wanted_uuid = d.wanted_uuid;
  health = suggested_health o.health;
}

-- `_async_finish`
unfoldable pub finish_flow : OptionsFlow → OptionsResult × OptionsFlow
finish_flow f = (
  finished,
  record f {
    entry_data = f.gathered_data;
    entry_options = f.gathered_options;
    updates = suc f.updates;
  },
)

-- The bounds that `HEALTH_SCHEMA` puts on the probe interval of a form
abbrev pub max_probe_interval : ℕ
max_probe_interval = 3600

unfoldable pub is_valid_health : EntryOptions → Bool
is_valid_health health = elim health.probe_interval [
  | none ↦ true
  | some n ↦ leb min_probe_interval n && leb n max_probe_interval
]

-- What `async_step_init` gathers from the form
unfoldable pub gathered : InitInput → OptionsFlow → OptionsFlow
gathered input f = record f {
  gathered_data = record {
    ignore_cec = some (trim_items (or_else input.ignore_cec []));
    known_hosts = some (trim_items (or_else input.known_hosts []));
    wanted_uuid = some (trim_items (or_else input.wanted_uuid []));
  };
  gathered_options = record f.entry_options {
    health = merge_health f.entry_options.health input.health;
  };
}

-- `async_step_init`
unfoldable pub step_init : Option InitInput → OptionsFlow → OptionsResult × OptionsFlow
step_init none f = (shows_init (suggested f.entry_data f.entry_options), f)
step_init (some input) f =
    if or_else input.edit_url_overrides false
    then (shows_url_overrides none, gathered input f)
    else finish_flow (gathered input f)
