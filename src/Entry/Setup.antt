-- ===== src/Entry/Setup.antt =====
-- `async_setup_entry`, `async_unload_entry`, `CastRuntimeData.get_ledger` and `_process_cast_platform` of
-- custom_components/cast/__init__.py. The repair manager is the state that the ledger's listeners own.
use ha_int_gcast.Base.{
  ℕ, String, Bool, true, false, Option, none, some, List, not, ◌||◌, if◌then◌else◌,
}
use ha_int_gcast.Base.Result.{Result, returned, raised}
use ha_int_gcast.Health.Types.{Moment}
use ha_int_gcast.Health.Listener.{Listener}
use ha_int_gcast.Health.Ledger.{Ledger, Urls}
use ha_int_gcast.Health.Requests.{add_listener}
use ha_int_gcast.Health.Run.{Call, init, run}
use ha_int_gcast.Health.Shutdown.{shutdown}
use ha_int_gcast.Topology.Types.{TopologyTracker}
use ha_int_gcast.Repairs.Manager.{RepairManager}
use ha_int_gcast.Repairs.Operations.{new_manager}
use ha_int_gcast.Repairs.Listen.{repair_listener}
use ha_int_gcast.Repairs.Store.{Texts, Saved, data_to_save, async_load, detach_manager}
use ha_int_gcast.Probe.Breaker.{breaker}
use ha_int_gcast.Probe.Tasks.{Coordinator, Fleet, shutdown_probes}
use ha_int_gcast.Probe.Events.{new_coordinator}
use ha_int_gcast.Discovery.Browser.{Discoverer, begin_unload, go_on}

-- `get_ledger`
unfoldable pub get_ledger : {W : Type 0} → Urls → W → Option (Ledger W) → Ledger W
get_ledger urls w none = init urls w
get_ledger urls w (some l) = l

-- `_process_cast_platform`, by the three functions that a platform must have
abbrev pub invalid_cast_platform : String
invalid_cast_platform = "Invalid cast platform"

unfoldable pub process_cast_platform : {P : Type 0} → Bool → Bool → Bool → P → Result String P
process_cast_platform has_root has_browse has_play platform =
    if not has_root || not has_browse || not has_play
    then raised invalid_cast_platform
    else returned platform

-- The identities of the two listeners
abbrev pub repairs_ident : ℕ
repairs_ident = 0

abbrev pub coordinator_ident : ℕ
coordinator_ident = 1

-- `runtime_data` once it is complete, the file of the repair manager, and the internal discovery.
-- `async_setup_entry` sets every attribute, so the tests against None in the unload pass.
pub record Entry : Type 0 where
  pub ledger : Ledger RepairManager
  pub coordinator : Coordinator
  pub unsub_repairs : Option ℕ
  pub topology : TopologyTracker
  pub saved : Saved
  pub discovery : Discoverer

-- The probe interval of the circuit breaker does not depend on the repair manager.
abbrev pub breaker_listener : ℕ → Listener RepairManager
breaker_listener interval = breaker {W = RepairManager} (λ m. interval) coordinator_ident

-- The ledger after `repairs.async_load()`, with the loaded manager
abbrev pub loaded : RepairManager × Ledger RepairManager → Ledger RepairManager
loaded (m, l) = record l { others = m }

-- `async_setup_entry`; the discovery is started by the media player platform.
unfoldable pub setup_entry : Texts → Saved → Urls → ℕ → TopologyTracker → Discoverer → Entry
setup_entry x saved urls interval topology discovery =
    let l = get_ledger urls new_manager none in
    record {
      ledger =
          add_listener (breaker_listener interval)
            (loaded (async_load x saved (repair_listener repairs_ident) new_manager l));
      coordinator = new_coordinator coordinator_ident;
      unsub_repairs = some repairs_ident;
      topology = topology;
      saved = saved;
      discovery = discovery;
    }

-- What runs on the event loop between the two: calls of the ledger, the coordinator's tasks, and the
-- discovery
unfoldable pub used : List (Moment × Call RepairManager) → Coordinator → Discoverer → Entry → Entry
used cs c d e = record e { ledger = run e.ledger cs; coordinator = c; discovery = d }

-- `async_stop_internal_discovery`, which awaits while the ledger goes on
abbrev pub stop_discovery : Discoverer → Discoverer
stop_discovery d = (go_on (go_on (begin_unload d))).1

abbrev pub shut_down :
    Texts → List (Moment × Call RepairManager) → Entry → Fleet RepairManager → Entry
shut_down x flushing e f =
    let (unsub, l) = detach_manager e.unsub_repairs f.ledger in
    record e {
      ledger = shutdown (run l flushing);
      coordinator = f.coordinator;
      unsub_repairs = unsub;
      saved = data_to_save x l.others;
    }

-- `async_unload_entry`, by whether the platforms were unloaded, with the calls of the ledger that run
-- while the discovery stops and while the repair manager's file is written
unfoldable pub unload_entry :
    Texts
    → Bool
    → List (Moment × Call RepairManager)
    → List (Moment × Call RepairManager)
    → Entry
    → Entry
unload_entry x false stopping flushing e = e
unload_entry x true stopping flushing e =
    shut_down x flushing (record e { discovery = stop_discovery e.discovery })
      (shutdown_probes (record { coordinator = e.coordinator; ledger = run e.ledger stopping }))
