-- ===== src/Repairs/Counts.antt =====
-- The manager's counts and candidates against the active issues, over the records of the ledger
-- (custom_components/cast/issues.py, `async_on_record`).
use ha_int_gcast.Base.{
  ap, ℕ, ◌+◌, ◌≡◌, refl, ◌∙◌, String, true, false, leb, is_some, ◌==◌, nat_eq, string_eq, same_iff,
  arith, if◌then◌else◌, inl, inr, Bool-cases,
}
use ha_int_gcast.Base.Dict.{Dict, get, put}
use ha_int_gcast.Health.Outcome.{
  DeliveryOutcome, template_error as raw_template_error, success, fetch_failed, unreachable,
  timeout, skipped_busy, unknown,
}
use ha_int_gcast.Health.Types.{Uuid, DeliveryRecord, DeviceHealth}
use ha_int_gcast.Repairs.Registry.{
  IssueRegistry, IssueId, fetch_failed_issue, unreachable_issue, stale_device_issue, error,
  fetch_placeholders, unreachable_placeholders, active, active-create, active-delete, same_issue,
  create, delete, issue_eq,
}
use ha_int_gcast.Repairs.Manager.{
  RepairManager, count_of, on_fetch_failed, on_unreachable, on_ok, on_outcome,
}
use ha_int_gcast.Repairs.Active.{count_of-put, raising-other, delete-other}

pub record Agrees (m : RepairManager) : Type 0 where
  pub fetch :
      (u : Uuid)
      → active m.issues (fetch_failed_issue u) ≡ leb 2 (count_of m.consecutive_fetch_failures u)
  pub unreached :
      (u : Uuid)
      → active m.issues (unreachable_issue u) ≡ leb 2 (count_of m.consecutive_unreachable u)
  pub stale : (d : String) → active m.issues (stale_device_issue d) ≡ is_some (get m.stale d)

-- The ids of one kind are as equal as their subjects.
same_fetch : (u v : Uuid) → same_issue (fetch_failed_issue u) (fetch_failed_issue v) ≡ (u == v)
unfolding same_issue
same_fetch u v = ground arith

same_unreachable : (u v : Uuid) → same_issue (unreachable_issue u) (unreachable_issue v) ≡ (u == v)
unfolding same_issue
same_unreachable u v = ground arith

-- A count that has just grown raises its issue at two.
module _ (reg new : IssueRegistry) (counts : Dict Uuid ℕ) (u : Uuid) (id : Uuid → IssueId) where
  raised :
      (n : ℕ)
      → n ≡ count_of counts u + 1
      → ((v : Uuid) → active new (id v) ≡ (if u == v then true else active reg (id v)))
      → ((v : Uuid) → active reg (id v) ≡ leb 2 (count_of counts v))
      → (v : Uuid)
      → active (if leb 2 n then new else reg) (id v) ≡ leb 2 (count_of (put counts u n) v)
  raised n grown written h v = elim (Bool-cases (u == v)) [
    | inr other ↦ ground (arith, written v, h v, count_of-put counts u v n, other)
    | inl same ↦
        let here : count_of counts u ≡ count_of counts v =
          ap (count_of counts) ((same_iff u v).0 same) in
        ground (arith, written v, h v, count_of-put counts u v n, same, here, grown)
  ]

module _ (hd : DeviceHealth) (r : DeliveryRecord) (m : RepairManager) (h : Agrees m) where
  on_fetch_failed-Agrees :
      Agrees (on_fetch_failed hd r (count_of m.consecutive_fetch_failures hd.uuid + 1) m)
  unfolding on_fetch_failed same_issue
  on_fetch_failed-Agrees =
      let n = count_of m.consecutive_fetch_failures hd.uuid + 1 in
      let p = fetch_placeholders hd.name hd.entity_id hd.host r.url_source n r.error in
      let id = fetch_failed_issue hd.uuid in
      record {
        fetch =
            raised m.issues (create id error p false m.issues) m.consecutive_fetch_failures hd.uuid
              fetch_failed_issue n refl
              (λ v.
                active-create id error p false m.issues (fetch_failed_issue v)
                ∙ rw (same_fetch hd.uuid v) refl)
              h.fetch;
        unreached = λ v.
            raising-other (leb 2 n) id error p m.issues (unreachable_issue v) refl ∙ h.unreached v;
        stale = λ d.
            raising-other (leb 2 n) id error p m.issues (stale_device_issue d) refl ∙ h.stale d;
      }

  on_unreachable-Agrees :
      Agrees (on_unreachable hd r (count_of m.consecutive_unreachable hd.uuid + 1) m)
  unfolding on_unreachable same_issue
  on_unreachable-Agrees =
      let n = count_of m.consecutive_unreachable hd.uuid + 1 in
      let p = unreachable_placeholders hd.name hd.entity_id hd.host n r.error in
      let id = unreachable_issue hd.uuid in
      record {
        fetch = λ v.
            raising-other (leb 2 n) id error p m.issues (fetch_failed_issue v) refl ∙ h.fetch v;
        unreached =
            raised m.issues (create id error p false m.issues) m.consecutive_unreachable hd.uuid
              unreachable_issue n refl
              (λ v.
                active-create id error p false m.issues (unreachable_issue v)
                ∙ rw (same_unreachable hd.uuid v) refl)
              h.unreached;
        stale = λ d.
            raising-other (leb 2 n) id error p m.issues (stale_device_issue d) refl ∙ h.stale d;
      }

  on_ok-Agrees : Agrees (on_ok hd.uuid m)
  unfolding on_ok same_issue
  on_ok-Agrees =
      let u = hd.uuid in
      let once = delete (fetch_failed_issue u) m.issues in
      record {
        fetch = λ v.
            delete-other (unreachable_issue u) once (fetch_failed_issue v) refl
            ∙ ground (
              arith,
              active-delete (fetch_failed_issue u) m.issues (fetch_failed_issue v),
              same_fetch u v,
              count_of-put m.consecutive_fetch_failures u v 0,
              h.fetch v,
            );
        unreached = λ v. ground (
          arith,
          active-delete (unreachable_issue u) once (unreachable_issue v),
          delete-other (fetch_failed_issue u) m.issues (unreachable_issue v) refl,
          same_unreachable u v,
          count_of-put m.consecutive_unreachable u v 0,
          h.unreached v,
        );
        stale = λ d.
            delete-other (unreachable_issue u) once (stale_device_issue d) refl
            ∙ delete-other (fetch_failed_issue u) m.issues (stale_device_issue d) refl
            ∙ h.stale d;
      }

  pub on_outcome-Agrees : (o : DeliveryOutcome) → Agrees (on_outcome o hd r m)
  on_outcome-Agrees success = on_ok-Agrees
  on_outcome-Agrees fetch_failed = on_fetch_failed-Agrees
  on_outcome-Agrees unreachable = on_unreachable-Agrees
  on_outcome-Agrees timeout = h
  on_outcome-Agrees raw_template_error = h
  on_outcome-Agrees skipped_busy = h
  on_outcome-Agrees unknown = h
