-- ===== src/Topology/Groups.antt =====
-- Speaker groups, custom_components/cast/topology.py: `async_record_discovery` and `_compute_groups`.
use ha_int_gcast.Base.{
  ◌≡◌, refl, String, Bool, true, false, Option, none, some, List, [], ◌∷◌, ◌++◌, map, ◌&&◌, leb,
  ltb, length, or_else, contains, Equality, ◌==◌, same_iff, ==-refl, nat_eq, string_eq, arith,
  if◌then◌else◌,
}
use ha_int_gcast.Base.Dict.{Dict, get, put}
use ha_int_gcast.Health.Types.{Uuid}
use ha_int_gcast.Topology.Address.{Network}
use ha_int_gcast.Topology.Types.{ChromecastInfo, GroupTopology, TopologyTracker}
use ha_int_gcast.Topology.Networks.{subnet_of}

abbrev pub same_network : Network → Network → Bool
same_network a b = a.network_address == b.network_address && a.prefix == b.prefix

pub same_network-path : (a b : Network) → same_network a b ≡ true → a ≡ b
same_network-path a b e =
    ground (arith, same_iff a.network_address b.network_address, same_iff a.prefix b.prefix)

pub same_network_refl : (a : Network) → same_network a a ≡ true
same_network_refl a = rw (==-refl a.network_address, ==-refl a.prefix) refl

instance abbrev pub network_eq : Equality Network
network_eq = record {
  test = same_network;
  to_path = same_network-path;
  of_same = same_network_refl;
}

-- `async_record_discovery`
unfoldable pub record_discovery : ChromecastInfo → TopologyTracker → TopologyTracker
record_discovery info t = record t { infos = put t.infos info.uuid info }

-- `list.append` in a dict of lists, by `setdefault`
abbrev append_to : Uuid → Uuid → Dict Uuid (List Uuid) → Dict Uuid (List Uuid)
append_to group uuid d = put d group (or_else (get d group) [] ++ uuid ∷ [])

unfoldable pub add_member : Uuid → List Uuid → Dict Uuid (List Uuid) → Dict Uuid (List Uuid)
add_member uuid [] d = d
add_member uuid (group ∷ groups) d = add_member uuid groups (append_to group uuid d)

-- `members_by_group`, from the memberships that the multizone manager reports for a device: none if
-- it raises KeyError, or if there is no manager.
unfoldable pub members_by_group :
    (Uuid → List Uuid) → Dict Uuid ChromecastInfo → Dict Uuid (List Uuid) → Dict Uuid (List Uuid)
members_by_group memberships [] d = d
members_by_group memberships ((uuid, info) ∷ infos) d =
    members_by_group memberships infos
      (if info.is_audio_group then d else add_member uuid (memberships uuid) d)

-- `hosts_to_uuid`
abbrev add_host : Option String → Uuid → Dict String Uuid → Dict String Uuid
add_host none uuid d = d
add_host (some host) uuid d = if host == "" then d else put d host uuid

unfoldable pub hosts_to_uuid : Dict Uuid ChromecastInfo → Dict String Uuid → Dict String Uuid
hosts_to_uuid [] d = d
hosts_to_uuid ((uuid, info) ∷ infos) d =
    hosts_to_uuid infos (if info.is_audio_group then d else add_host info.host uuid d)

-- `info.cast_info.host or None`
abbrev pub host_or_none : Option String → Option String
host_or_none none = none
host_or_none (some host) = if host == "" then none else some host

-- `sorted(…, key=str)`: the texts of uuids are in the order of their numbers.
unfoldable pub insert : Uuid → List Uuid → List Uuid
insert u [] = u ∷ []
insert u (v ∷ vs) = if leb u v then u ∷ v ∷ vs else v ∷ insert u vs

unfoldable pub sort : List Uuid → List Uuid
sort [] = []
sort (u ∷ us) = insert u (sort us)

abbrev host_of : Option ChromecastInfo → Option String
host_of none = none
host_of (some info) = info.host

unfoldable pub member_ips_of :
    Dict Uuid ChromecastInfo → List Uuid → Dict Uuid (Option String) → Dict Uuid (Option String)
member_ips_of infos [] d = d
member_ips_of infos (m ∷ ms) d = member_ips_of infos ms (put d m (host_of (get infos m)))

unfoldable pub subnets_of : List Network → Dict Uuid (Option String) → Dict Uuid (Option Network)
subnets_of nets [] = []
subnets_of nets ((m, host) ∷ ips) = (m, subnet_of nets host) ∷ subnets_of nets ips

-- `{net for net in subnets.values() if net is not None}`
abbrev pub add_known : Option Network → List Network → List Network
add_known none known = known
add_known (some net) known = if contains net known then known else net ∷ known

unfoldable pub known_in : List (Option Network) → List Network
known_in [] = []
known_in (net ∷ nets) = add_known net (known_in nets)

-- `len(known) > 1 if known else None`
abbrev pub more_than_one : List Network → Option Bool
more_than_one [] = none
more_than_one (net ∷ nets) = some (ltb 1 (length (net ∷ nets)))

unfoldable pub spans : List (Option Network) → Option Bool
spans subnets = more_than_one (known_in subnets)

abbrev leader_of : Option String → Dict String Uuid → Option Uuid
leader_of none hosts = none
leader_of (some ip) hosts = get hosts ip

unfoldable pub group_of :
    List Network
    → Dict Uuid ChromecastInfo
    → Dict Uuid (List Uuid)
    → Dict String Uuid
    → Uuid
    → ChromecastInfo
    → GroupTopology
group_of nets infos members hosts uuid info =
    let leader_ip = host_or_none info.host in
    let member_uuids = sort (or_else (get members uuid) []) in
    let ips = member_ips_of infos member_uuids [] in
    let subnets = subnets_of nets ips in
    record {
      uuid = uuid;
      name = info.friendly_name;
      leader_ip = leader_ip;
      advertised_port = info.port;
      is_dynamic_group = or_else info.is_dynamic_group false;
      leader_uuid = leader_of leader_ip hosts;
      member_uuids = member_uuids;
      member_ips = ips;
      leader_subnet = subnet_of nets leader_ip;
      member_subnets = subnets;
      members_span_subnets = spans (subnet_of nets leader_ip ∷ map (λ m. m.1) subnets);
    }

unfoldable pub groups_in :
    List Network
    → Dict Uuid ChromecastInfo
    → Dict Uuid (List Uuid)
    → Dict String Uuid
    → Dict Uuid ChromecastInfo
    → Dict Uuid GroupTopology
groups_in nets infos members hosts [] = []
groups_in nets infos members hosts ((uuid, info) ∷ rest) =
    let groups = groups_in nets infos members hosts rest in
    if info.is_audio_group
    then (uuid, group_of nets infos members hosts uuid info) ∷ groups
    else groups

-- `_compute_groups`
unfoldable pub compute_groups : (Uuid → List Uuid) → TopologyTracker → TopologyTracker
compute_groups memberships t = record t {
  groups =
      groups_in t.adapter_networks t.infos (members_by_group memberships t.infos [])
        (hosts_to_uuid t.infos []) t.infos;
}
