-- ===== src/Topology/Networks.antt =====
-- Networks and subnet placement, custom_components/cast/topology.py: `_async_load_networks`,
-- `_subnet_of` and the decision of `_apply_subnet_mismatch`.
use ha_int_gcast.Base.{
  ℕ, ◌≡◌, refl, String, Bool, true, false, Option, none, some, List, [], ◌∷◌, ◌++◌, not, ◌&&◌, any,
  leb, length, if◌then◌else◌, inl, inr, some-injective, Bool-cases,
}
use ha_int_gcast.Topology.Address.{Network, network_of, contains_ip, as_ipv4, network_of-contains}
use ha_int_gcast.Topology.Types.{TopologyTracker}

-- A network adapter, with the addresses and prefixes of its `ipv4` list.
pub record Adapter : Type 0 where
  pub enabled : Bool
  pub ipv4 : List (ℕ × ℕ)

-- What `_async_load_networks` reads: the adapters (none if their enumeration failed), whether
-- `internal_url` is unset, and the host name in `get_url`'s answer, the outer `none` if it raises.
pub record NetworkConfig : Type 0 where
  pub adapters : List Adapter
  pub automatic : Bool
  pub hostname : Option (Option String)

abbrev pub assumed_prefix : ℕ
assumed_prefix = 24

abbrev pub networks_at : List (ℕ × ℕ) → List Network
networks_at [] = []
networks_at ((ip, prefix) ∷ ipv4) = network_of ip prefix ∷ networks_at ipv4

unfoldable pub adapter_networks_of : List Adapter → List Network
adapter_networks_of [] = []
adapter_networks_of (a ∷ adapters) =
    let rest = adapter_networks_of adapters in
    if a.enabled then networks_at a.ipv4 ++ rest else rest

abbrev is_empty {ℓ} : {A : Type ℓ} → List A → Bool
is_empty [] = true
is_empty (x ∷ xs) = false

unfoldable pub enabled_with_ipv4 : List Adapter → List Adapter
enabled_with_ipv4 [] = []
enabled_with_ipv4 (a ∷ adapters) =
    let rest = enabled_with_ipv4 adapters in
    if a.enabled && not (is_empty a.ipv4) then a ∷ rest else rest

-- The networks that hold an address
unfoldable pub holding : ℕ → List Network → List Network
holding ip [] = []
holding ip (net ∷ nets) =
    let rest = holding ip nets in if contains_ip net ip then net ∷ rest else rest

abbrev pub or_assumed : ℕ → List Network → List Network
or_assumed ip [] = network_of ip assumed_prefix ∷ []
or_assumed ip (net ∷ nets) = net ∷ nets

abbrev pub home_of : Option ℕ → List Network → List Network
home_of none nets = []
home_of (some ip) nets = or_assumed ip (holding ip nets)

abbrev pub host_in : Option (Option String) → Option String
host_in none = none
host_in (some host) = host

-- `_async_load_networks`
unfoldable pub load_networks : NetworkConfig → TopologyTracker → TopologyTracker
load_networks c t = record t {
  adapter_networks = adapter_networks_of c.adapters;
  multihomed =
      if is_empty c.adapters then none else some (leb 2 (length (enabled_with_ipv4 c.adapters)));
  internal_url_automatic = some c.automatic;
  internal_host = host_in c.hostname;
  home_networks = home_of (as_ipv4 (host_in c.hostname)) (adapter_networks_of c.adapters);
}

-- `_subnet_of`
unfoldable pub first_holding : ℕ → List Network → Network
first_holding ip [] = network_of ip assumed_prefix
first_holding ip (net ∷ nets) = if contains_ip net ip then net else first_holding ip nets

abbrev pub subnet_at : Option ℕ → List Network → Option Network
subnet_at none nets = none
subnet_at (some ip) nets = some (first_holding ip nets)

unfoldable pub subnet_of : List Network → Option String → Option Network
subnet_of nets host = subnet_at (as_ipv4 host) nets

-- Whether a device lies outside the home networks; `none` if that is not known.
unfoldable pub mismatch : Option ℕ → List Network → Option Bool
mismatch none nets = none
mismatch (some ip) [] = none
mismatch (some ip) (net ∷ nets) = some (not (any (λ n. contains_ip n ip) (net ∷ nets)))

first_holding-contains :
    (ip : ℕ) (nets : List Network) → contains_ip (first_holding ip nets) ip ≡ true
unfolding first_holding
first_holding-contains ip [] = network_of-contains ip assumed_prefix
first_holding-contains ip (net ∷ nets) = elim (Bool-cases (contains_ip net ip)) [
  | inl inside ↦ rw inside inside
  | inr outside ↦ rw outside (first_holding-contains ip nets)
]

-- The subnet that a host is placed in holds the address of the host, whether it is one of an
-- adapter or the assumed /24.
pub subnet_of-contains :
    (nets : List Network) (host : Option String) (ip : ℕ) (net : Network)
    → as_ipv4 host ≡ some ip
    → subnet_of nets host ≡ some net
    → contains_ip net ip ≡ true
unfolding subnet_of
subnet_of-contains nets host ip net parsed placed =
    let found : some (first_holding ip nets) ≡ some net = rw parsed at placed in
    rw (← some-injective found) (first_holding-contains ip nets)

or_assumed-holds :
    (ip : ℕ) (nets : List Network)
    → mismatch (some ip) (or_assumed ip (holding ip nets)) ≡ some false
unfolding mismatch holding
or_assumed-holds ip [] = rw (network_of-contains ip assumed_prefix) refl
or_assumed-holds ip (net ∷ nets) = elim (Bool-cases (contains_ip net ip)) [
  | inl inside ↦ rw (inside, inside) refl
  | inr outside ↦ rw outside (or_assumed-holds ip nets)
]

-- After the networks are loaded, a device that shares its address with the internal URL is on a home
-- network, whatever the adapters are.
pub load_networks-home :
    (c : NetworkConfig) (t : TopologyTracker) (ip : ℕ)
    → as_ipv4 (host_in c.hostname) ≡ some ip
    → mismatch (some ip) (load_networks c t).home_networks ≡ some false
unfolding load_networks
load_networks-home c t ip e = rw e (or_assumed-holds ip (adapter_networks_of c.adapters))
