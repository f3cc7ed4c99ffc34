-- ===== src/Options/Examples.antt =====
-- The theorem on custom_components/cast/config_flow.py at a concrete input, and tests.
use ha_int_gcast.Base.{◌≡◌, refl, true, none, some, [], ◌∷◌, string_eq}
use ha_int_gcast.Base.Dict.{remove}
use ha_int_gcast.Urls.{UrlLibrary, strip_front, strip_back}
use ha_int_gcast.Options.Flow.{
  is_valid_health, suggested_health, OptionsFlow, suggested, step_init, trim_items, trimmed,
  get_data, step_config, creates_entry,
}
use ha_int_gcast.Options.Overrides.{step_url_overrides, edit_override}
use ha_int_gcast.Base.{◌⊎◌, true, false}
use ha_int_gcast.Options.Unchanged.{IsOutside, as_drawn, Unchanged, save-Unchanged}

-- An entry with no stored options
abbrev fresh : OptionsFlow
fresh = record {
  entry_data = record { ignore_cec = none; known_hosts = some (" tv " ∷ []); wanted_uuid = none };
  entry_options = record {
    health = record {
      probe_enabled = none;
      probe_interval = some 90;
      group_probe_enabled = none;
      probe_video_devices = none;
    };
    url_overrides = some (("7", "http://ha:8123") ∷ []);
  };
  gathered_data = record { ignore_cec = none; known_hosts = none; wanted_uuid = none };
  gathered_options = record {
    health = record {
      probe_enabled = none;
      probe_interval = none;
      group_probe_enabled = none;
      probe_video_devices = none;
    };
    url_overrides = some (("7", "http://ha:8123") ∷ []);
  };
  updates = 0;
}

save-Unchanged_example :
    let form = as_drawn (suggested fresh.entry_data fresh.entry_options) in
    ((is_valid_health form.health ≡ true) × Unchanged fresh (step_init (some form) fresh).1)
    ⊎ ((is_valid_health form.health ≡ false) × IsOutside fresh.entry_options.health)
save-Unchanged_example = save-Unchanged fresh

-- The form is taken as it is drawn.
accepted : is_valid_health (suggested fresh.entry_data fresh.entry_options).health ≡ true
unfolding is_valid_health suggested suggested_health
accepted = refl

trims : step_config (some (some (" tv " ∷ "  " ∷ []))) ≡ creates_entry (get_data (some ("tv" ∷ [])))
unfolding step_config trim_items trimmed strip_front strip_back
trims = refl

abbrev unparsed : UrlLibrary
unparsed = record {
  parse = λ text. none;
  render = λ u. "";
  with_path = λ path u. u;
  with_scheme = λ scheme u. u;
  with_host = λ host u. u;
  with_port = λ port u. u;
}

-- An empty URL clears the override of the device.
clears :
    (step_url_overrides unparsed
      (some (record { device = "7 "; url = some " "; add_another = true }))
      fresh).1.gathered_options.url_overrides
    ≡ some []
unfolding step_url_overrides edit_override trimmed strip_front strip_back remove
clears = refl
