-- ===== src/Options/Unchanged.antt =====
-- Saving the options form as it is drawn
-- (custom_components/cast/config_flow.py and `probe_options` of custom_components/cast/coordinator.py).
use ha_int_gcast.Base.{
  ℕ, ◌<◌, ◌⊎◌, inl, inr, Bool-cases, Option-cases, arith, true, ◌≡◌, refl, false, some, [], or_else,
}
use ha_int_gcast.Probe.Snapshot.{EntryOptions, ProbeOptions, probe_options, min_probe_interval}
use ha_int_gcast.Options.Flow.{
  is_valid_health, max_probe_interval, trim_items, InitInput, Suggested, OptionsFlow, merge_health,
  suggested_health, suggested, gathered, finish_flow, step_init,
}

-- The form sent back with the values that it was drawn with
abbrev pub as_drawn : Suggested → InitInput
as_drawn s = record {
  ignore_cec = s.ignore_cec;
  known_hosts = s.known_hosts;
  wanted_uuid = s.wanted_uuid;
  health = s.health;
  edit_url_overrides = some false;
}

-- The form shows the switches and the interval by which the probe runs.
pub record ShowsProbe (drawn : EntryOptions) (runs : ProbeOptions) : Type 0 where
  pub enabled : drawn.probe_enabled ≡ some runs.enabled
  pub groups : drawn.group_probe_enabled ≡ some runs.groups
  pub video : drawn.probe_video_devices ≡ some runs.video
  pub interval : drawn.probe_interval ≡ some runs.interval

suggested-ShowsProbe :
    (o : EntryOptions)
    → is_valid_health (suggested_health o) ≡ true
    → ShowsProbe (suggested_health o) (probe_options o)
unfolding suggested_health probe_options is_valid_health
suggested-ShowsProbe o valid = record {
  enabled = refl;
  groups = refl;
  video = refl;
  interval = ground arith;
}

-- The stored interval is one that the form's schema refuses.
pub record IsOutside (o : EntryOptions) : Type 0 where
  pub stored : ℕ
  pub is_stored : o.probe_interval ≡ some stored
  pub outside : (stored < min_probe_interval) ⊎ (max_probe_interval < stored)

suggested-IsOutside :
    (o : EntryOptions) → is_valid_health (suggested_health o) ≡ false → IsOutside o
unfolding suggested_health is_valid_health
suggested-IsOutside o refused = elim (Option-cases o.probe_interval) [
  | inl unset ↦ ground arith
  | inr (n, e) ↦ record { stored = n; is_stored = e; outside = ground arith }
]

merge-suggested :
    (o : EntryOptions) → probe_options (merge_health o (suggested_health o)) ≡ probe_options o
unfolding merge_health suggested_health probe_options
merge-suggested o = refl

-- What a saved flow leaves: the probe as it ran, the overrides as they were, and the lists trimmed.
pub record Unchanged (before after : OptionsFlow) : Type 0 where
  pub drawn :
      ShowsProbe
        (suggested before.entry_data before.entry_options).health
        (probe_options before.entry_options.health)
  pub probe : probe_options after.entry_options.health ≡ probe_options before.entry_options.health
  pub overrides : after.entry_options.url_overrides ≡ before.entry_options.url_overrides
  pub hosts :
      after.entry_data.known_hosts ≡ some (trim_items (or_else before.entry_data.known_hosts []))
  pub uuids :
      after.entry_data.wanted_uuid ≡ some (trim_items (or_else before.entry_data.wanted_uuid []))

save-drawn :
    (f : OptionsFlow)
    → is_valid_health (suggested_health f.entry_options.health) ≡ true
    → Unchanged f (step_init (some (as_drawn (suggested f.entry_data f.entry_options))) f).1
unfolding step_init suggested gathered finish_flow
save-drawn f valid = record {
  drawn = suggested-ShowsProbe f.entry_options.health valid;
  probe = merge-suggested f.entry_options.health;
  overrides = refl;
  hosts = refl;
  uuids = refl;
}

-- Either the form's schema takes the options form as it is drawn, the form shows how the probe really
-- runs, the defaults of keys that are not stored included, and saving it leaves the probe and the URL
-- overrides as they were and the known hosts and wanted devices trimmed; or the schema refuses it,
-- and then an interval under 60 or over 3600 is stored.
pub save-Unchanged :
    (f : OptionsFlow)
    → let form = as_drawn (suggested f.entry_data f.entry_options) in
      ((is_valid_health form.health ≡ true) × Unchanged f (step_init (some form) f).1)
      ⊎ ((is_valid_health form.health ≡ false) × IsOutside f.entry_options.health)
unfolding suggested
save-Unchanged f = elim (Bool-cases (is_valid_health (suggested_health f.entry_options.health))) [
  | inl valid ↦ inl (valid, save-drawn f valid)
  | inr refused ↦ inr (refused, suggested-IsOutside f.entry_options.health refused)
]
