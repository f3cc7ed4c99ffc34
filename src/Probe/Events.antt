-- ===== src/Probe/Events.antt =====
-- The event loop runs the callbacks and the tasks of custom_components/cast/coordinator.py, and the
-- callbacks of the ledger, one at a time and in any order.
use ha_int_gcast.Base.{ℕ, true, Option, none, some, List, [], ◌∷◌, nat_eq}
use ha_int_gcast.Health.Types.{Uuid, Moment}
use ha_int_gcast.Health.Run.{Call, step}
use ha_int_gcast.Probe.Snapshot.{ProbeOptions}
use ha_int_gcast.Probe.Tasks.{
  Coordinator, Fleet, Wakes, register_target, unregister_target, shutdown_probes, resume,
}
use ha_int_gcast.Probe.Cycle.{Surroundings, update_data}

-- What the event loop runs: the coordinator's callbacks and tasks, and the ledger's callbacks.
pub data Event (W : Type 0) : Type 0 where
  registers : Uuid → ℕ → Event W
  unregisters : Uuid → ℕ → Event W
  detaches : Event W
  updates : Surroundings → ProbeOptions → Event W
  resumes : ℕ → Wakes → Event W
  calls : Call W → Event W

-- `CastProbeCoordinator(hass, entry, ledger)`, whose listener has the identity `ident`.
abbrev pub new_coordinator : ℕ → Coordinator
new_coordinator ident = record {
  targets = [];
  running = [];
  results = [];
  tasks = [];
  next_task = 0;
  plays = [];
  quits = [];
  unsub_ledger = some ident;
  keepalive = true;
}

module _ {W : Type 0} where
  -- A failed update leaves the coordinator as it was.
  abbrev pub updated : Fleet W → Option (Fleet W) → Fleet W
  updated f none = f
  updated f (some f') = f'

  unfoldable pub occurs : Moment → Event W → Fleet W → Fleet W
  occurs now (registers u target) f = record f {
    coordinator = register_target u target f.coordinator;
  }
  occurs now (unregisters u target) f = record f {
    coordinator = unregister_target u target f.coordinator;
  }
  occurs now detaches f = shutdown_probes f
  occurs now (updates env o) f = updated f (update_data env now o f)
  occurs now (resumes ident w) f = resume now ident w f
  occurs now (calls c) f = record f { ledger = step now c f.ledger }

  unfoldable pub runs : Fleet W → List (Moment × Event W) → Fleet W
  runs f [] = f
  runs f ((now, e) ∷ es) = runs (occurs now e f) es
