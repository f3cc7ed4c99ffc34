-- ===== src/Sensors/Values.antt =====
-- What the sensors of custom_components/cast/sensor.py show: `CastOutcomeSensor`,
-- `CastLastSuccessSensor` and `CastGroupLeaderSensor`. Times, outcomes and networks stay what they are;
-- `isoformat`, `.value` and `str` are texts that are only shown.
use ha_int_gcast.Base.{
  ℕ, suc, String, Bool, Option, none, some, List, is_some, ◌==◌, nat_eq, if◌then◌else◌,
}
use ha_int_gcast.Base.Dict.{Dict, get}
use ha_int_gcast.Health.Outcome.{DeliveryOutcome}
use ha_int_gcast.Health.Types.{Uuid, PlayerState, Message, UrlSource, DeliveryRecord, DeviceHealth}
use ha_int_gcast.Health.Ledger.{Ledger, health_of, device, store}
use ha_int_gcast.Topology.Address.{Network}
use ha_int_gcast.Topology.Types.{GroupTopology, TopologyTracker}

pub record OutcomeAttributes : Type 0 where
  pub source : Option String
  pub content_id : Option String
  pub url_source : Option UrlSource
  pub error : Option Message
  pub responded : Option Bool
  pub elapsed : Option ℕ
  pub player_state : Option PlayerState
  pub idle_reason : Option String
  pub checked_at : Option ℕ
  pub consecutive_failures : ℕ
  pub consecutive_timeouts : ℕ
  pub circuit_open : Bool
  pub subnet_mismatch : Option Bool
  pub url_override : Option String
  pub host : Option String
  pub port : Option ℕ

-- `record.field if record else None`
abbrev pub of_record {ℓ} : {A : Type ℓ} → (DeliveryRecord → A) → Option DeliveryRecord → Option A
of_record field none = none
of_record field (some r) = some (field r)

abbrev pub of_record_option {ℓ} :
    {A : Type ℓ} → (DeliveryRecord → Option A) → Option DeliveryRecord → Option A
of_record_option field none = none
of_record_option field (some r) = field r

-- `extra_state_attributes` of `CastOutcomeSensor`
unfoldable pub attributes_of : Dict Uuid String → DeviceHealth → OutcomeAttributes
attributes_of overrides h = record {
  source = of_record (λ r. r.source) h.last_record;
  content_id = of_record_option (λ r. r.content_id) h.last_record;
  url_source = of_record_option (λ r. r.url_source) h.last_record;
  error = of_record_option (λ r. r.error) h.last_record;
  responded = of_record (λ r. r.responded) h.last_record;
  elapsed = of_record_option (λ r. r.elapsed) h.last_record;
  player_state = of_record_option (λ r. r.player_state) h.last_record;
  idle_reason = of_record_option (λ r. r.idle_reason) h.last_record;
  checked_at = of_record (λ r. r.resolved_at) h.last_record;
  consecutive_failures = h.consecutive_failures;
  consecutive_timeouts = h.consecutive_timeouts;
  circuit_open = is_some h.circuit_open_until;
  subnet_mismatch = h.subnet_mismatch;
  url_override = get overrides h.uuid;
  host = h.host;
  port = h.port;
}

-- The sensor data that Home Assistant has stored
pub data StoredValue : Type 0 where
  stored_text : String → StoredValue
  stored_time : ℕ → StoredValue
  stored_other : StoredValue

module _ {W : Type 0} where
  -- `native_value` and `extra_state_attributes` of `CastOutcomeSensor`
  unfoldable pub outcome_value : Ledger W → Uuid → DeliveryOutcome
  outcome_value l u = (health_of l u).last_outcome

  unfoldable pub outcome_attributes : Ledger W → Uuid → OutcomeAttributes
  outcome_attributes l u = attributes_of l.urls.overrides (health_of l u)

  -- `native_value` of `CastLastSuccessSensor`
  unfoldable pub last_success_value : Ledger W → Uuid → Option ℕ
  last_success_value l u = (health_of l u).last_success

  abbrev pub set_last_success : Uuid → Option ℕ → Ledger W → Ledger W
  set_last_success u stamp l = store u (record (health_of l u) { last_success = stamp }) l

  abbrev pub restored : (String → Option ℕ) → Uuid → Option StoredValue → Ledger W → Ledger W
  restored parse_datetime u (some (stored_text text)) l = set_last_success u (parse_datetime text) l
  restored parse_datetime u (some (stored_time stamp)) l = set_last_success u (some stamp) l
  restored parse_datetime u (some stored_other) l = l
  restored parse_datetime u none l = l

  -- `CastLastSuccessSensor.async_added_to_hass`, with `dt_util.parse_datetime`
  unfoldable pub restore_last_success :
      (String → Option ℕ) → Uuid → Option StoredValue → Ledger W → Ledger W
  restore_last_success parse_datetime u last l =
      if is_some (health_of l u).last_success
      then device l u
      else restored parse_datetime u last (device l u)

-- `_updated`: how often a sensor of the uuid `own` writes its state on a signal
unfoldable pub signalled : Uuid → Uuid → ℕ → ℕ
signalled own u writes = if u == own then suc writes else writes

-- `as_dict` without `uuid`, `name` and `leader_ip`
pub record LeaderAttributes : Type 0 where
  pub advertised_port : Option ℕ
  pub is_dynamic_group : Bool
  pub leader_uuid : Option Uuid
  pub member_uuids : List Uuid
  pub member_ips : Dict Uuid (Option String)
  pub leader_subnet : Option Network
  pub member_subnets : Dict Uuid (Option Network)
  pub members_span_subnets : Option Bool

abbrev pub leader_ip_of : Option GroupTopology → Option String
leader_ip_of none = none
leader_ip_of (some g) = g.leader_ip

abbrev pub leader_attributes_of : Option GroupTopology → Option LeaderAttributes
leader_attributes_of none = none
leader_attributes_of (some g) = some (record {
  advertised_port = g.advertised_port;
  is_dynamic_group = g.is_dynamic_group;
  leader_uuid = g.leader_uuid;
  member_uuids = g.member_uuids;
  member_ips = g.member_ips;
  leader_subnet = g.leader_subnet;
  member_subnets = g.member_subnets;
  members_span_subnets = g.members_span_subnets;
})

-- `native_value` and `extra_state_attributes` of `CastGroupLeaderSensor`; `none` is `{}`.
unfoldable pub leader_value : TopologyTracker → Uuid → Option String
leader_value t u = leader_ip_of (get t.groups u)

unfoldable pub leader_attributes : TopologyTracker → Uuid → Option LeaderAttributes
leader_attributes t u = leader_attributes_of (get t.groups u)
