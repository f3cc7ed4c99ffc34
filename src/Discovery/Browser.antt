-- ===== src/Discovery/Browser.antt =====
-- The start and the stop of the internal discovery, custom_components/cast/discovery.py:
-- `setup_internal_discovery` and `async_stop_internal_discovery`, cut where they await.
use ha_int_gcast.Base.{
  ℕ, suc, Bool, true, false, Option, none, some, List, [], ◌∷◌, nat_eq, if◌then◌else◌,
}

-- The lock in `hass.data`, the browsers that run, and the attributes of `runtime_data`: the browser and
-- the handle of the stop listener, which is live until it fires or is removed. A release of a lock
-- that is not held raises RuntimeError: `faults` counts those.
pub record Discoverer : Type 0 where
  pub locked : Bool
  pub browser : Option ℕ
  pub unsub_discovery_stop : Option ℕ
  pub listener : Option ℕ
  pub next_browser : ℕ
  pub faults : ℕ

abbrev pub no_discovery : Discoverer
no_discovery = record {
  locked = false;
  browser = none;
  unsub_discovery_stop = none;
  listener = none;
  next_browser = 0;
  faults = 0;
}

-- `Lock.release`
unfoldable pub release : Discoverer → Discoverer
release s = if s.locked then record s { locked = false } else record s { faults = suc s.faults }

-- `setup_internal_discovery`; the listener has the number of its browser.
unfoldable pub setup_discovery : Discoverer → Discoverer
setup_discovery s = if s.locked then s else record s {
  locked = true;
  browser = some s.next_browser;
  unsub_discovery_stop = some s.next_browser;
  listener = some s.next_browser;
  next_browser = suc s.next_browser;
}

-- `stop_discovery`, when Home Assistant stops
abbrev stop_with : Option ℕ → Discoverer → Discoverer
stop_with none s = s
stop_with (some b) s = record (release s) {
  browser = none;
  unsub_discovery_stop = none;
  listener = none;
}

unfoldable pub home_assistant_stops : Discoverer → Discoverer
home_assistant_stops s = stop_with s.listener s

-- An unload: what it holds between its awaits. `async_stop_internal_discovery` takes the references,
-- then removes the listener, and then stops the browser and releases the lock.
pub data Unload : Type 0 where
  over : Unload
  removes : Option ℕ → Unload
  stops : Unload

abbrev take_from : Option ℕ → Discoverer → Unload × Discoverer
take_from none s = (over, s)
take_from (some b) s =
    (removes s.unsub_discovery_stop, record s { browser = none; unsub_discovery_stop = none })

unfoldable pub begin_unload : Discoverer → Unload × Discoverer
begin_unload s = take_from s.browser s

abbrev remove_listener_of : Option ℕ → Discoverer → Discoverer
remove_listener_of none s = s
remove_listener_of (some handle) s = record s { listener = none }

unfoldable pub go_on : Unload × Discoverer → Unload × Discoverer
go_on (over, s) = (over, s)
go_on (removes handle, s) = (stops, remove_listener_of handle s)
go_on (stops, s) = (over, release s)

pub data DiscoveryEvent : Type 0 where
  sets_up stops_home_assistant begins_unload goes_on : DiscoveryEvent

-- One unload at a time
abbrev begun : Unload → Discoverer → Unload × Discoverer
begun over s = begin_unload s
begun u s = (u, s)

unfoldable pub discovery_step : DiscoveryEvent → Unload × Discoverer → Unload × Discoverer
discovery_step sets_up (u, s) = (u, setup_discovery s)
discovery_step stops_home_assistant (u, s) = (u, home_assistant_stops s)
discovery_step begins_unload (u, s) = begun u s
discovery_step goes_on (u, s) = go_on (u, s)

-- Any events, the last one first
unfoldable pub discovery_run : List DiscoveryEvent → Unload × Discoverer
discovery_run [] = (over, no_discovery)
discovery_run (e ∷ earlier) = discovery_step e (discovery_run earlier)
