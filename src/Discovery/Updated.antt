-- ===== src/Discovery/Updated.antt =====
-- `config_entry_updated` and `_remove_chromecast` of custom_components/cast/discovery.py.
use ha_int_gcast.Base.{String, Option, List, [], ◌∷◌, ◌++◌, map}
use ha_int_gcast.Health.Ledger.{Ledger}
use ha_int_gcast.Probe.Snapshot.{EntryOptions, Schedule, apply_options}
use ha_int_gcast.Topology.Types.{ChromecastInfo}
use ha_int_gcast.Discovery.{on_present}

-- The parts of `runtime_data` that an update of the entry reaches, each where it is there: the hosts
-- of the browser, the schedule of the coordinator, and the ledger with its signals.
pub record Running (W : Type 0) : Type 0 where
  pub browser_hosts : Option (Option (List String))
  pub schedule : Option Schedule
  pub ledger : Option (Ledger W)

module _ {W : Type 0} where
  -- One signal for every device that the ledger knows
  abbrev pub refresh_devices : Ledger W → Ledger W
  refresh_devices l = record l { signals = l.signals ++ map (λ e. e.0) l.devices }

  -- `config_entry_updated`, with the entry's known hosts and its options
  unfoldable pub config_entry_updated : Option (List String) → EntryOptions → Running W → Running W
  config_entry_updated known_hosts options r = record {
    browser_hosts = on_present (λ hosts. known_hosts) r.browser_hosts;
    schedule = on_present (apply_options options) r.schedule;
    ledger = on_present refresh_devices r.ledger;
  }

-- `_remove_chromecast`, by the signals that were sent
unfoldable pub remove_chromecast : ChromecastInfo → List ChromecastInfo → List ChromecastInfo
remove_chromecast info removed = removed ++ info ∷ []
