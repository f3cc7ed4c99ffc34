-- ===== src/Entry/Examples.antt =====
-- The theorem on custom_components/cast/__init__.py at a concrete input, and tests.
use ha_int_gcast.Base.{ℕ, ◌≡◌, refl, true, false, none, List, [], ◌∷◌}
use ha_int_gcast.Base.Result.{raised}
use ha_int_gcast.Health.Types.{Moment}
use ha_int_gcast.Health.Ledger.{Urls}
use ha_int_gcast.Health.Run.{Call, begins, expires}
use ha_int_gcast.Topology.Types.{TopologyTracker}
use ha_int_gcast.Repairs.Manager.{RepairManager}
use ha_int_gcast.Repairs.Store.{Saved}
use ha_int_gcast.Repairs.Unary.{unary}
use ha_int_gcast.Probe.Events.{new_coordinator}
use ha_int_gcast.Discovery.Browser.{Discoverer, no_discovery, setup_discovery}
use ha_int_gcast.Discovery.Lock.{is_guarded}
use ha_int_gcast.Entry.Setup.{
  invalid_cast_platform, process_cast_platform, coordinator_ident, setup_entry, used, unload_entry,
}
use ha_int_gcast.Entry.Unloaded.{IsUnloaded, unload_entry-IsUnloaded}
use ha_int_gcast.Discovery.Browser.{over}

abbrev at : ℕ → Moment
at t = record { utc = t; monotonic = t }

abbrev urls : Urls
urls = record { overrides = []; internal = none; external = none }

-- One device was seen before the restart.
abbrev file : Saved
file = record { last_seen = ("uu", "uuu") ∷ []; tracked_since = [] }

abbrev nowhere : TopologyTracker
nowhere = record {
  infos = [];
  groups = [];
  home_networks = [];
  adapter_networks = [];
  internal_host = none;
  internal_url_automatic = none;
  multihomed = none;
}

-- A request that is pending when the entry goes, and whose timer fires while the file is written
abbrev asked : List (Moment × Call RepairManager)
asked = (at 5, begins 2 "http://radio/" "play_media" none 30) ∷ []

abbrev late : List (Moment × Call RepairManager)
late = (at 30005, expires 0) ∷ []

abbrev browsing : Discoverer
unfolding setup_discovery
browsing = setup_discovery no_discovery

browsing-guarded : is_guarded over browsing ≡ true
unfolding is_guarded browsing setup_discovery
browsing-guarded = refl

unload_entry-IsUnloaded_example :
    let e =
      used asked
        (new_coordinator coordinator_ident)
        browsing
        (setup_entry unary file urls 300 nowhere no_discovery) in
    IsUnloaded unary (unload_entry unary true [] late e)
unload_entry-IsUnloaded_example =
    unload_entry-IsUnloaded unary file urls 300 nowhere no_discovery browsing
      (new_coordinator coordinator_ident) asked [] late (refl, tt) tt (refl, tt) refl
      browsing-guarded

incomplete_platform : process_cast_platform true true false tt ≡ raised invalid_cast_platform
unfolding process_cast_platform
incomplete_platform = refl
