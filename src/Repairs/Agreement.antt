-- ===== src/Repairs/Agreement.antt =====
-- The active issues of custom_components/cast/issues.py are the ones that the manager's counts and
-- candidates call for.
use ha_int_gcast.Base.{
  ℕ, ◌≡◌, refl, ◌∙◌, String, Bool, true, false, List, [], ◌∷◌, if_elim, nat_eq, string_eq, arith,
  if◌then◌else◌,
}
use ha_int_gcast.Base.Dict.{get}
use ha_int_gcast.Health.Types.{Uuid, Moment}
use ha_int_gcast.Topology.Types.{TopologyTracker}
use ha_int_gcast.Repairs.Registry.{
  group_spans_issue, multihomed_issue, IssueId, fetch_failed_issue, unreachable_issue,
  stale_device_issue, template_error_issue, error, template_placeholders, active, same_issue,
  create, delete, issue_eq,
}
use ha_int_gcast.Repairs.Manager.{
  RepairManager, count_of, on_record, shorten, template_error, check_topology, check_multihomed,
}
use ha_int_gcast.Repairs.Stale.{
  DeviceEntry, scan, check_stale, device_seen, clear_gone, raise_current, clear_seen, Cleared,
}
use ha_int_gcast.Repairs.Active.{
  raising-other, delete-other, check_groups-other, check_multihomed-other, raise_current-other,
  clear_gone-other, clear_seen-other, raise_current-active, clear_gone-active, clear_seen-InStep,
}
use ha_int_gcast.Repairs.Operations.{
  Operation, records, templates, checks_topology, checks_stale, sees, operate, operate_all,
}
use ha_int_gcast.Repairs.Counts.{Agrees, on_outcome-Agrees}

module _ (m : RepairManager) (h : Agrees m) where
  template_error-Agrees :
      (digest entity_id : String) (template : List ℕ) (reason : String) (resolved : Bool)
      → Agrees (template_error digest entity_id template reason resolved m)
  unfolding template_error same_issue
  template_error-Agrees digest entity_id template reason resolved =
      let id = template_error_issue digest in
      let p = template_placeholders entity_id (shorten template) reason in
      let other : (j : IssueId)
          → same_issue id j ≡ false
          → active (if resolved then delete id m.issues else create id error p false m.issues) j
            ≡ active m.issues j =
        λ j off.
          if_elim (λ g. active g j ≡ active m.issues j) resolved (delete id m.issues)
            (create id error p false m.issues) (delete-other id m.issues j off)
            (raising-other true id error p m.issues j off) in
      record {
        fetch = λ v. other (fetch_failed_issue v) refl ∙ h.fetch v;
        unreached = λ v. other (unreachable_issue v) refl ∙ h.unreached v;
        stale = λ d. other (stale_device_issue d) refl ∙ h.stale d;
      }

  check_topology-Agrees : (t : TopologyTracker) → Agrees (check_topology t m)
  unfolding check_topology same_issue
  check_topology-Agrees t =
      let other : (j : IssueId)
          → ((u : Uuid) → same_issue (group_spans_issue u) j ≡ false)
          → same_issue multihomed_issue j ≡ false
          → active (check_topology t m).issues j ≡ active m.issues j =
        λ j groups single.
          check_groups-other j groups t.groups (check_multihomed t m.issues)
          ∙ check_multihomed-other j t m.issues single in
      record {
        fetch = λ v. other (fetch_failed_issue v) (λ u. refl) refl ∙ h.fetch v;
        unreached = λ v. other (unreachable_issue v) (λ u. refl) refl ∙ h.unreached v;
        stale = λ d. other (stale_device_issue d) (λ u. refl) refl ∙ h.stale d;
      }

  check_stale-Agrees :
      (now : Moment) (discovered : List Uuid) (entries : List DeviceEntry)
      → Agrees (check_stale now discovered entries m)
  unfolding check_stale same_issue
  check_stale-Agrees now discovered entries =
      let current =
        (scan now.utc discovered m.last_seen entries
          (record { tracked = m.tracked_since; current = [] })).current in
      let gone = clear_gone current m.stale m.issues in
      let other : (j : IssueId)
          → ((d : String) → same_issue (stale_device_issue d) j ≡ false)
          → active (raise_current current gone) j ≡ active m.issues j =
        λ j off.
          raise_current-other j off current gone
          ∙ clear_gone-other j off current m.stale m.issues in
      record {
        fetch = λ v. other (fetch_failed_issue v) (λ d. refl) ∙ h.fetch v;
        unreached = λ v. other (unreachable_issue v) (λ d. refl) ∙ h.unreached v;
        stale = λ d. ground (
          arith,
          raise_current-active current gone d,
          clear_gone-active current m.stale m.issues d,
          h.stale d,
        );
      }

  device_seen-Agrees : (now : Moment) (u : Uuid) → Agrees (device_seen now u m)
  unfolding device_seen same_issue
  device_seen-Agrees now u =
      let s : Cleared = record { left = m.stale; registry = m.issues } in
      let other : (j : IssueId)
          → ((d : String) → same_issue (stale_device_issue d) j ≡ false)
          → active (clear_seen u m.stale s).registry j ≡ active m.issues j =
        λ j off. clear_seen-other j off u m.stale s in
      record {
        fetch = λ v. other (fetch_failed_issue v) (λ d. refl) ∙ h.fetch v;
        unreached = λ v. other (unreachable_issue v) (λ d. refl) ∙ h.unreached v;
        stale = (clear_seen-InStep u m.stale s (record { agrees = h.stale })).agrees;
      }

operate-Agrees : (o : Operation) (m : RepairManager) → Agrees m → Agrees (operate o m)
unfolding operate on_record
operate-Agrees (records hd r) m h = on_outcome-Agrees hd r m h r.outcome
operate-Agrees (templates digest entity_id template reason resolved) m h =
    template_error-Agrees m h digest entity_id template reason resolved
operate-Agrees (checks_topology t) m h = check_topology-Agrees m h t
operate-Agrees (checks_stale now discovered entries) m h =
    check_stale-Agrees m h now discovered entries
operate-Agrees (sees now u) m h = device_seen-Agrees m h now u

-- After any operations, the fetch-failure and the unreachable issue of a device are active exactly
-- when its count stands at two or more, and a stale-device issue exactly for the stale candidates.
pub issues-Agrees : (os : List Operation) → Agrees (operate_all os)
unfolding operate_all active get count_of
issues-Agrees [] = record { fetch = λ u. refl; unreached = λ u. refl; stale = λ d. refl }
issues-Agrees (o ∷ os) = operate-Agrees o (operate_all os) (issues-Agrees os)
