-- ===== src/Topology/Placement.antt =====
-- `_apply_subnet_mismatch` and `async_refresh` of custom_components/cast/topology.py: what the tracker
-- writes to the ledger's devices.
use ha_int_gcast.Base.{
  ap, ◌≡◌, refl, ◌∙◌, sym, Bool, true, false, Option, none, some, List, [], ◌∷◌, ◌++◌, ◌==◌,
  same_iff, nat_eq, arith, if◌then◌else◌, Bool-cases, inl, inr,
}
use ha_int_gcast.Base.Dict.{Dict}
use ha_int_gcast.Health.Types.{Uuid, DeviceHealth}
use ha_int_gcast.Health.Ledger.{Ledger, health_at, health_of, device, store}
use ha_int_gcast.Health.Ledger.Effects.{health_at-put, health_at-device}
use ha_int_gcast.Topology.Address.{Network, as_ipv4}
use ha_int_gcast.Topology.Types.{ChromecastInfo, TopologyTracker}
use ha_int_gcast.Topology.Networks.{NetworkConfig, load_networks, mismatch}
use ha_int_gcast.Topology.Groups.{compute_groups}

-- `health.subnet_mismatch == mismatch`
abbrev pub same_flag : Option Bool → Option Bool → Bool
same_flag none none = true
same_flag (some true) (some true) = true
same_flag (some false) (some false) = true
same_flag _ _ = false

same_flag-path : (a b : Option Bool) → same_flag a b ≡ true → a ≡ b
same_flag-path a b e = ground arith

abbrev pub with_mismatch : Option Bool → DeviceHealth → DeviceHealth
with_mismatch flag h = record h { subnet_mismatch = flag }

kept-flag :
    (h : DeviceHealth) (flag : Option Bool) → h.subnet_mismatch ≡ flag → h ≡ with_mismatch flag h
kept-flag h flag e = ap (λ f. with_mismatch f h) e

module _ {W : Type 0} where
  -- The body of the loop of `_apply_subnet_mismatch`
  unfoldable pub place : List Network → Uuid → ChromecastInfo → Ledger W → Ledger W
  unfolding store
  place home uuid info s =
      let s' = device s uuid in
      let flag = mismatch (as_ipv4 info.host) home in
      let h = health_of s uuid in
      if same_flag h.subnet_mismatch flag
      then s'
      else record (store uuid (with_mismatch flag h) s') { signals = s'.signals ++ uuid ∷ [] }

  unfoldable pub apply_mismatch : List Network → Dict Uuid ChromecastInfo → Ledger W → Ledger W
  apply_mismatch home [] s = s
  apply_mismatch home ((uuid, info) ∷ infos) s = apply_mismatch home infos (place home uuid info s)

  -- `async_refresh`, with the groups for which it sends a topology signal
  unfoldable pub refresh :
      NetworkConfig → (Uuid → List Uuid) → TopologyTracker → Ledger W → TopologyTracker × Ledger W
  refresh c memberships t s =
      let t' = compute_groups memberships (load_networks c t) in
      (t', apply_mismatch t'.home_networks t'.infos s)

  -- Placing a device writes whether its address lies outside the home networks, or that this is not
  -- known, and touches nothing else of it and no other device.
  pub place-exact :
      (home : List Network) (u : Uuid) (info : ChromecastInfo) (s : Ledger W) (v : Uuid)
      → health_of (place home u info s) v ≡ (
          if u == v
          then with_mismatch (mismatch (as_ipv4 info.host) home) (health_of s u)
          else health_of s v)
  unfolding place
  place-exact home u info s v =
      let flag = mismatch (as_ipv4 info.host) home in
      let h = health_of s u in
      elim (Bool-cases (same_flag h.subnet_mismatch flag)) [
        | inr changed ↦ rw changed (
            health_at-put (device s u).devices u v (with_mismatch flag h)
            ∙ rw (health_at-device s u v) refl)
        | inl same ↦ rw same (
            health_at-device s u v ∙ elim (Bool-cases (u == v)) [
              | inr other ↦ rw other refl
              | inl here ↦ rw here (
                  ap (health_at s.devices) (sym ((same_iff u v).0 here))
                  ∙ kept-flag h flag (same_flag-path h.subnet_mismatch flag same))
            ])
      ]
