-- ===== src/Repairs/Streak.antt =====
-- The delivery issues of custom_components/cast/issues.py against the history of the deliveries.
use ha_int_gcast.Base.{
  ℕ, suc, ◌+◌, ◌≡◌, refl, ◌∙◌, Bool, true, false, List, [], ◌∷◌, leb, ◌==◌, nat_eq, same_iff, arith,
  if◌then◌else◌,
}
use ha_int_gcast.Base.Dict.{get}
use ha_int_gcast.Health.Outcome.{
  DeliveryOutcome, template_error as raw_template_error, success, fetch_failed, unreachable,
  timeout, skipped_busy, unknown,
}
use ha_int_gcast.Health.Types.{Uuid, DeliveryRecord, DeviceHealth}
use ha_int_gcast.Repairs.Registry.{fetch_failed_issue, unreachable_issue, active}
use ha_int_gcast.Repairs.Manager.{
  RepairManager, count_of, on_fetch_failed, on_unreachable, on_ok, on_outcome, on_record,
  template_error, check_topology,
}
use ha_int_gcast.Repairs.Stale.{check_stale, device_seen}
use ha_int_gcast.Repairs.Active.{count_of-put}
use ha_int_gcast.Repairs.Operations.{
  Operation, records, templates, checks_topology, checks_stale, sees, operate, operate_all,
}
use ha_int_gcast.Repairs.Agreement.{issues-Agrees}

abbrev pub is_fetch_failed : DeliveryOutcome → Bool
is_fetch_failed fetch_failed = true
is_fetch_failed _ = false

abbrev pub is_unreachable : DeliveryOutcome → Bool
is_unreachable unreachable = true
is_unreachable _ = false

abbrev pub is_ok : DeliveryOutcome → Bool
is_ok success = true
is_ok _ = false

-- How often an outcome came about for a device since its last success; the history has the last
-- operation first.
unfoldable pub streak : (DeliveryOutcome → Bool) → Uuid → List Operation → ℕ
streak counts u [] = 0
streak counts u (records h r ∷ earlier) =
    let rest = streak counts u earlier in
    if h.uuid == u
    then (if is_ok r.outcome then 0 else if counts r.outcome then suc rest else rest)
    else rest
streak counts u (o ∷ earlier) = streak counts u earlier

pub fetch_count :
    (o : DeliveryOutcome) (hd : DeviceHealth) (r : DeliveryRecord) (m : RepairManager) (u : Uuid)
    → count_of (on_outcome o hd r m).consecutive_fetch_failures u ≡ (
        if hd.uuid == u
        then (if is_ok o
            then 0
            else if is_fetch_failed o
            then suc (count_of m.consecutive_fetch_failures u)
            else count_of m.consecutive_fetch_failures u)
        else count_of m.consecutive_fetch_failures u)
unfolding on_fetch_failed on_unreachable on_ok
fetch_count success hd r m u = count_of-put m.consecutive_fetch_failures hd.uuid u 0
fetch_count fetch_failed hd r m u = ground (
  arith,
  same_iff hd.uuid u,
  count_of-put m.consecutive_fetch_failures hd.uuid u
      (count_of m.consecutive_fetch_failures hd.uuid + 1),
)
fetch_count unreachable hd r m u = ground arith
fetch_count timeout hd r m u = ground arith
fetch_count raw_template_error hd r m u = ground arith
fetch_count skipped_busy hd r m u = ground arith
fetch_count unknown hd r m u = ground arith

pub unreachable_count :
    (o : DeliveryOutcome) (hd : DeviceHealth) (r : DeliveryRecord) (m : RepairManager) (u : Uuid)
    → count_of (on_outcome o hd r m).consecutive_unreachable u ≡ (
        if hd.uuid == u
        then (if is_ok o
            then 0
            else if is_unreachable o
            then suc (count_of m.consecutive_unreachable u)
            else count_of m.consecutive_unreachable u)
        else count_of m.consecutive_unreachable u)
unfolding on_fetch_failed on_unreachable on_ok
unreachable_count success hd r m u = count_of-put m.consecutive_unreachable hd.uuid u 0
unreachable_count unreachable hd r m u = ground (
  arith,
  same_iff hd.uuid u,
  count_of-put m.consecutive_unreachable hd.uuid u (count_of m.consecutive_unreachable hd.uuid + 1),
)
unreachable_count fetch_failed hd r m u = ground arith
unreachable_count timeout hd r m u = ground arith
unreachable_count raw_template_error hd r m u = ground arith
unreachable_count skipped_busy hd r m u = ground arith
unreachable_count unknown hd r m u = ground arith

fetch_streak :
    (os : List Operation) (u : Uuid)
    → count_of (operate_all os).consecutive_fetch_failures u ≡ streak is_fetch_failed u os
unfolding operate_all operate streak on_record template_error check_topology check_stale device_seen
    count_of get
fetch_streak [] u = refl
fetch_streak (records hd r ∷ os) u =
    ground (arith, fetch_count r.outcome hd r (operate_all os) u, fetch_streak os u)
fetch_streak (templates a b c d e ∷ os) u = fetch_streak os u
fetch_streak (checks_topology t ∷ os) u = fetch_streak os u
fetch_streak (checks_stale now discovered entries ∷ os) u = fetch_streak os u
fetch_streak (sees now v ∷ os) u = fetch_streak os u

unreachable_streak :
    (os : List Operation) (u : Uuid)
    → count_of (operate_all os).consecutive_unreachable u ≡ streak is_unreachable u os
unfolding operate_all operate streak on_record template_error check_topology check_stale device_seen
    count_of get
unreachable_streak [] u = refl
unreachable_streak (records hd r ∷ os) u =
    ground (arith, unreachable_count r.outcome hd r (operate_all os) u, unreachable_streak os u)
unreachable_streak (templates a b c d e ∷ os) u = unreachable_streak os u
unreachable_streak (checks_topology t ∷ os) u = unreachable_streak os u
unreachable_streak (checks_stale now discovered entries ∷ os) u = unreachable_streak os u
unreachable_streak (sees now v ∷ os) u = unreachable_streak os u

-- The fetch-failure issue of a device is active exactly when at least two fetches failed since its
-- last success, and the unreachable issue exactly when it was unreachable at least twice since then.
pub issues-streak :
    (os : List Operation) (u : Uuid)
    → let m = operate_all os in
      (active m.issues (fetch_failed_issue u) ≡ leb 2 (streak is_fetch_failed u os))
      × (active m.issues (unreachable_issue u) ≡ leb 2 (streak is_unreachable u os))
issues-streak os u = (
  (issues-Agrees os).fetch u ∙ rw (fetch_streak os u) refl,
  (issues-Agrees os).unreached u ∙ rw (unreachable_streak os u) refl,
)
