-- ===== src/Repairs/Restart.antt =====
-- The last-seen times over a restart (custom_components/cast/issues.py).
use ha_int_gcast.Base.{
  ℕ, ◌≡◌, refl, ap, ◌∙◌, String, true, Option, none, some, List, [], ◌∷◌, or_option, same_iff,
  arith, nat_eq,
}
use ha_int_gcast.Base.Dict.{Dict, get, put, get-put}
use ha_int_gcast.Base.Keys.{has_unique_keys, has_unique_keys-put}
use ha_int_gcast.Health.Types.{Uuid, DeviceHealth, DeliveryRecord}
use ha_int_gcast.Health.Outcome.{
  DeliveryOutcome, success, fetch_failed, unreachable, timeout, template_error as template_outcome,
  skipped_busy, unknown,
}
use ha_int_gcast.Health.Listener.{Listener}
use ha_int_gcast.Health.Ledger.{Ledger, health_of, health_at, store}
use ha_int_gcast.Health.Ledger.Effects.{health_at-put}
use ha_int_gcast.Health.Requests.{add_listener}
use ha_int_gcast.Repairs.Manager.{
  RepairManager, on_record, on_outcome, on_fetch_failed, on_unreachable, on_ok, template_error,
  check_topology,
}
use ha_int_gcast.Repairs.Stale.{check_stale, device_seen}
use ha_int_gcast.Repairs.Operations.{
  Operation, records, templates, checks_topology, checks_stale, sees, operate, operate_all,
  new_manager,
}
use ha_int_gcast.Repairs.Store.{
  Texts, saved_seen, data_to_save, add_seen, load_seen, load_manager, write_seen, async_load,
}

module _ (x : Texts) where
  get-load_seen :
      (d acc : Dict Uuid ℕ) (u : Uuid)
      → has_unique_keys d ≡ true
      → get (load_seen x (saved_seen x d) acc) u ≡ or_option (get d u) (get acc u)
  unfolding load_seen saved_seen has_unique_keys get
  get-load_seen [] acc u h = refl
  get-load_seen ((k, t) ∷ d) acc u h =
      let rest = saved_seen x d in
      ap (λ o. get (load_seen x rest (add_seen o (x.parse_datetime (x.isoformat t)) acc)) u)
        (x.uuid_back k)
      ∙ ap (λ o. get (load_seen x rest (add_seen (some k) o acc)) u) (x.time_back t)
      ∙ ground (arith, get-load_seen d (put acc k t) u, get-put acc k u t, same_iff k u)

module _ {W : Type 0} where
  last_seen-write_seen :
      (d : Dict Uuid ℕ) (l : Ledger W) (u : Uuid)
      → has_unique_keys d ≡ true
      → (health_of (write_seen d l) u).last_seen ≡ or_option (get d u) (health_of l u).last_seen
  unfolding write_seen store has_unique_keys get
  last_seen-write_seen [] l u h = refl
  last_seen-write_seen ((k, t) ∷ d) l u h =
      let seen : DeviceHealth = record (health_of l k) { last_seen = some t } in
      ground (
        arith,
        last_seen-write_seen d (store k seen l) u,
        health_at-put l.devices k u seen,
        same_iff k u,
      )

-- A record changes no last-seen time.
seen_kept :
    (o : DeliveryOutcome) (h : DeviceHealth) (r : DeliveryRecord) (m : RepairManager)
    → (on_outcome o h r m).last_seen ≡ m.last_seen
unfolding on_fetch_failed on_unreachable on_ok
seen_kept fetch_failed h r m = refl
seen_kept unreachable h r m = refl
seen_kept success h r m = refl
seen_kept timeout h r m = refl
seen_kept template_outcome h r m = refl
seen_kept skipped_busy h r m = refl
seen_kept unknown h r m = refl

-- No operation of the manager writes a uuid twice.
seen_once : (os : List Operation) → has_unique_keys (operate_all os).last_seen ≡ true
unfolding operate_all operate on_record template_error check_topology check_stale device_seen
    has_unique_keys
seen_once [] = refl
seen_once (records h r ∷ os) =
    ap has_unique_keys (seen_kept r.outcome h r (operate_all os)) ∙ seen_once os
seen_once (templates digest entity_id template reason resolved ∷ os) = seen_once os
seen_once (checks_topology t ∷ os) = seen_once os
seen_once (checks_stale now discovered entries ∷ os) = seen_once os
seen_once (sees now uuid ∷ os) =
    has_unique_keys-put (operate_all os).last_seen uuid now.utc (seen_once os)

add_seen_unique :
    (u : Option Uuid) (t : Option ℕ) (d : Dict Uuid ℕ)
    → has_unique_keys d ≡ true
    → has_unique_keys (add_seen u t d) ≡ true
add_seen_unique (some u) (some t) d h = has_unique_keys-put d u t h
add_seen_unique (some u) none d h = h
add_seen_unique none t d h = h

load_seen_unique :
    (x : Texts) (saved : Dict String String) (d : Dict Uuid ℕ)
    → has_unique_keys d ≡ true
    → has_unique_keys (load_seen x saved d) ≡ true
unfolding load_seen
load_seen_unique x [] d h = h
load_seen_unique x ((key, stamp) ∷ saved) d h =
    load_seen_unique x saved (add_seen (x.parse_uuid key) (x.parse_datetime stamp) d)
      (add_seen_unique (x.parse_uuid key) (x.parse_datetime stamp) d h)

or_none : {A : Type 0} (o : Option A) → or_option o none ≡ o
or_none none = refl
or_none (some a) = refl

-- The last-seen times that a manager has gathered by any operations survive a restart: after they were
-- written and loaded into a new manager and a new ledger, both have for every device the time at which
-- the old manager last saw it.
pub async_load-last_seen :
    {W : Type 0} (x : Texts) (os : List Operation) (listener : Listener W) (empty : Ledger W)
    (u : Uuid)
    → empty.devices ≡ []
    → let m = operate_all os in
      let (m', l') = async_load x (data_to_save x m) listener new_manager empty in
      (get m'.last_seen u ≡ get m.last_seen u) × ((health_of l' u).last_seen ≡ get m.last_seen u)
unfolding async_load data_to_save load_manager add_listener has_unique_keys health_at get
async_load-last_seen x os listener empty u none_there =
    let seen = (operate_all os).last_seen in
    let loaded = load_seen x (saved_seen x seen) [] in
    let same : get loaded u ≡ get seen u =
      get-load_seen x seen [] u (seen_once os) ∙ or_none (get seen u) in
    let unknown_device : (health_of empty u).last_seen ≡ none =
      ap (λ d. (health_at d u).last_seen) none_there in
    (
      same,
      last_seen-write_seen loaded empty u (load_seen_unique x (saved_seen x seen) [] refl)
          ∙ ap (or_option (get loaded u)) unknown_device
          ∙ or_none (get loaded u)
          ∙ same,
    )
