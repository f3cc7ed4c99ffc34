-- ===== src/Topology/Examples.antt =====
-- The theorems on custom_components/cast/topology.py at concrete inputs, and tests.
use ha_int_gcast.Base.{
  ℕ, ◌≡◌, ◌↔◌, refl, String, true, false, Option, none, some, [], ◌∷◌, nat_eq, ◌==◌, if◌then◌else◌,
}
use ha_int_gcast.Health.Ledger.{Ledger, health_of}
use ha_int_gcast.Health.Run.{init}
use ha_int_gcast.Topology.Address.{Network, contains_ip, as_ipv4, split, octet, digits}
use ha_int_gcast.Topology.Types.{ChromecastInfo, TopologyTracker}
use ha_int_gcast.Topology.Networks.{NetworkConfig, subnet_of, first_holding, mismatch}
use ha_int_gcast.Topology.Spans.{Differ, holds, spans-Differ}
use ha_int_gcast.Topology.Groups.{spans}
use ha_int_gcast.Topology.Placement.{place, with_mismatch, place-exact}

-- 192.168.1.20 and the network 192.168.1.0/24
abbrev lan : Network
lan = record { network_address = 3232235776; prefix = 24 }

parsed : as_ipv4 (some "192.168.1.20") ≡ some 3232235796
unfolding split octet digits
parsed = refl

octal : as_ipv4 (some "192.168.01.20") ≡ none
unfolding split octet digits
octal = refl

abbrev named : Option (Option String)
named = some (some "192.168.1.20")

placed : subnet_of (lan ∷ []) (some "192.168.1.20") ≡ some lan
unfolding subnet_of first_holding contains_ip split octet digits
placed = refl

abbrev config : NetworkConfig
config = record { adapters = []; automatic = true; hostname = named }

abbrev unloaded : TopologyTracker
unloaded = record {
  infos = [];
  groups = [];
  home_networks = [];
  adapter_networks = [];
  internal_host = none;
  internal_url_automatic = none;
  multihomed = none;
}

-- 10.0.0.0/24
abbrev guest : Network
guest = record { network_address = 167772160; prefix = 24 }

spans-Differ_example :
    ((spans (some lan ∷ none ∷ some guest ∷ []) ≡ some true)
      ↔ Differ (λ a. holds a (some lan ∷ none ∷ some guest ∷ [])))
    × ((spans (some lan ∷ none ∷ some guest ∷ []) ≡ none)
        ↔ ((a : Network) → holds a (some lan ∷ none ∷ some guest ∷ []) ≡ false))
spans-Differ_example = spans-Differ (some lan ∷ none ∷ some guest ∷ [])

abbrev speaker : ChromecastInfo
speaker = record {
  uuid = 7;
  friendly_name = some "Kitchen";
  host = some "10.0.0.9";
  port = some 8009;
  is_audio_group = false;
  is_dynamic_group = none;
}

abbrev ledger : Ledger ℕ
ledger = init (record { overrides = []; internal = none; external = none }) 0

place-exact_example : health_of (place (lan ∷ []) 7 speaker ledger) 7 ≡ (
    if ◌==◌ {A = ℕ} 7 7
    then with_mismatch (mismatch (as_ipv4 speaker.host) (lan ∷ [])) (health_of ledger 7)
    else health_of ledger 7)
place-exact_example = place-exact (lan ∷ []) 7 speaker ledger 7
