-- ===== src/Probe/Snapshot.antt =====
-- `ProbeSnapshot` and `ProbeOptions` of custom_components/cast/coordinator.py, with the numbers of
-- custom_components/cast/const.py. Intervals and backoffs are in seconds, as in the source.
use ha_int_gcast.Base.{
  ℕ, String, Bool, true, false, Option, none, some, List, any, max, ◌||◌, ◌≤◌, arith,
}
use ha_int_gcast.Health.Types.{PlayerState, playing, buffering, paused}

pub record ProbeSnapshot : Type 0 where
  pub cast_type : Option String
  pub is_audio_group : Bool
  pub app_id : Option String
  pub app_idle : Bool
  pub player_state : Option PlayerState
  pub group_player_states : List (Option PlayerState)
  pub media_session_id : Option ℕ

-- `state in BUSY_STATES`
abbrev pub is_busy_state : Option PlayerState → Bool
is_busy_state (some playing) = true
is_busy_state (some buffering) = true
is_busy_state (some paused) = true
is_busy_state _ = false

-- `ProbeSnapshot.busy`
unfoldable pub busy : ProbeSnapshot → Bool
busy n = is_busy_state n.player_state || any is_busy_state n.group_player_states

pub record ProbeOptions : Type 0 where
  pub enabled : Bool
  pub interval : ℕ
  pub groups : Bool
  pub video : Bool

-- What the options of the entry hold; `none` for a key that is not stored.
pub record EntryOptions : Type 0 where
  pub probe_enabled : Option Bool
  pub probe_interval : Option ℕ
  pub group_probe_enabled : Option Bool
  pub probe_video_devices : Option Bool

abbrev pub min_probe_interval : ℕ
min_probe_interval = 60

-- `{**HEALTH_DEFAULTS, **entry.options}[key]`
abbrev pub stored_or {ℓ} : {A : Type ℓ} → A → Option A → A
stored_or default none = default
stored_or default (some a) = a

-- `probe_options`
unfoldable pub probe_options : EntryOptions → ProbeOptions
probe_options o = record {
  enabled = stored_or true o.probe_enabled;
  interval = max (stored_or 300 o.probe_interval) min_probe_interval;
  groups = stored_or true o.group_probe_enabled;
  video = stored_or false o.probe_video_devices;
}

pub probe_options-floor : (o : EntryOptions) → min_probe_interval ≤ (probe_options o).interval
unfolding probe_options
probe_options-floor o = omega arith

-- The part of the coordinator that the options govern; the breaker reads it when a record comes.
pub record Schedule : Type 0 where
  pub options : ProbeOptions
  pub update_interval : ℕ

-- `async_apply_options`
unfoldable pub apply_options : EntryOptions → Schedule → Schedule
apply_options e s = let o = probe_options e in record { options = o; update_interval = o.interval }
