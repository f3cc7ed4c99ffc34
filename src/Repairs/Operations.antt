-- ===== src/Repairs/Operations.antt =====
-- Any sequence of operations of `RepairManager` (custom_components/cast/issues.py).
use ha_int_gcast.Base.{ℕ, String, Bool, List, [], ◌∷◌}
use ha_int_gcast.Health.Types.{Uuid, Moment, DeliveryRecord, DeviceHealth}
use ha_int_gcast.Topology.Types.{TopologyTracker}
use ha_int_gcast.Repairs.Manager.{RepairManager, on_record, template_error, check_topology}
use ha_int_gcast.Repairs.Stale.{DeviceEntry, check_stale, device_seen}

pub data Operation : Type 0 where
  records : DeviceHealth → DeliveryRecord → Operation
  templates : String → String → List ℕ → String → Bool → Operation
  checks_topology : TopologyTracker → Operation
  checks_stale : Moment → List Uuid → List DeviceEntry → Operation
  sees : Moment → Uuid → Operation

-- `RepairManager(hass, entry)`, when the registry holds no issue of the domain
abbrev pub new_manager : RepairManager
new_manager = record {
  issues = [];
  last_seen = [];
  tracked_since = [];
  consecutive_fetch_failures = [];
  consecutive_unreachable = [];
  stale = [];
  saves = 0;
}

unfoldable pub operate : Operation → RepairManager → RepairManager
operate (records h r) m = on_record h r m
operate (templates digest entity_id template reason resolved) m =
    template_error digest entity_id template reason resolved m
operate (checks_topology t) m = check_topology t m
operate (checks_stale now discovered entries) m = check_stale now discovered entries m
operate (sees now uuid) m = device_seen now uuid m

-- The operations, the last one first
unfoldable pub operate_all : List Operation → RepairManager
operate_all [] = new_manager
operate_all (o ∷ earlier) = operate o (operate_all earlier)
