-- ===== src/Topology/Types.antt =====
-- The state of custom_components/cast/topology.py and the discovery record of helpers.py.
use ha_int_gcast.Base.{ℕ, String, Bool, Option, List}
use ha_int_gcast.Base.Dict.{Dict}
use ha_int_gcast.Health.Types.{Uuid}
use ha_int_gcast.Topology.Address.{Network}

-- `ChromecastInfo` with the fields of its `cast_info` that the integration reads.
pub record ChromecastInfo : Type 0 where
  pub uuid : Uuid
  pub friendly_name : Option String
  pub host : Option String
  pub port : Option ℕ
  pub is_audio_group : Bool
  pub is_dynamic_group : Option Bool

pub record GroupTopology : Type 0 where
  pub uuid : Uuid
  pub name : Option String
  pub leader_ip : Option String
  pub advertised_port : Option ℕ
  pub is_dynamic_group : Bool
  pub leader_uuid : Option Uuid
  pub member_uuids : List Uuid
  pub member_ips : Dict Uuid (Option String)
  pub leader_subnet : Option Network
  pub member_subnets : Dict Uuid (Option Network)
  pub members_span_subnets : Option Bool

pub record TopologyTracker : Type 0 where
  pub infos : Dict Uuid ChromecastInfo
  pub groups : Dict Uuid GroupTopology
  pub home_networks : List Network
  pub adapter_networks : List Network
  pub internal_host : Option String
  pub internal_url_automatic : Option Bool
  pub multihomed : Option Bool
