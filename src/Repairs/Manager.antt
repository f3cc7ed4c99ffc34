-- ===== src/Repairs/Manager.antt =====
-- `RepairManager` of custom_components/cast/issues.py: its state and its operations.
-- Times are in milliseconds, as in the ledger. A device registry entry stands with the uuid that its
-- cast identifier parses to, and a template with the first 12 digits of its SHA-1.
use ha_int_gcast.Base.{
  ℕ, suc, ◌+◌, String, Bool, true, false, Option, some, List, [], ◌∷◌, ◌++◌, map, ◌&&◌, leb, length,
  zero, ◌≡◌, ap, arith, ==-refl, same_iff, or_else, Equality, ◌==◌, nat_eq, string_eq,
  if◌then◌else◌,
}
use ha_int_gcast.Base.Dict.{Dict, get, put}
use ha_int_gcast.Health.Outcome.{DeliveryOutcome, success, fetch_failed, unreachable}
use ha_int_gcast.Health.Types.{Uuid, DeliveryRecord, DeviceHealth}
use ha_int_gcast.Topology.Types.{TopologyTracker, GroupTopology}
use ha_int_gcast.Repairs.Registry.{
  fetch_failed_issue, unreachable_issue, group_spans_issue, multihomed_issue, template_error_issue,
  fetch_placeholders, unreachable_placeholders, multihomed_placeholders, group_placeholders,
  template_placeholders, warning, error, IssueRegistry, create, delete, issue_eq,
}

pub record StaleCandidate : Type 0 where
  pub device_id : String
  pub name : String
  pub uuid : Option Uuid
  pub last_seen : Option ℕ
  pub tracked_since : ℕ

-- A key of `tracked_since`: the uuid of a device, or else its registry id.
pub data SeenKey : Type 0 where
  by_uuid : Uuid → SeenKey
  by_device : String → SeenKey

abbrev pub same_key : SeenKey → SeenKey → Bool
same_key (by_uuid a) (by_uuid b) = a == b
same_key (by_device a) (by_device b) = a == b
same_key (by_uuid a) (by_device b) = false
same_key (by_device a) (by_uuid b) = false

pub same_key-path : (a b : SeenKey) → same_key a b ≡ true → a ≡ b
same_key-path (by_uuid a) (by_uuid b) e = ap by_uuid ((same_iff a b).0 e)
same_key-path (by_device a) (by_device b) e = ap by_device ((same_iff a b).0 e)
same_key-path (by_uuid a) (by_device b) e = ground arith
same_key-path (by_device a) (by_uuid b) e = ground arith

pub same_key_refl : (a : SeenKey) → same_key a a ≡ true
same_key_refl (by_uuid a) = ==-refl a
same_key_refl (by_device a) = ==-refl a

instance abbrev pub key_eq : Equality SeenKey
key_eq = record { test = same_key; to_path = same_key-path; of_same = same_key_refl }

-- `issues` is the issue registry of Home Assistant for this domain; `saves` counts the delayed saves
-- that were asked for.
pub record RepairManager : Type 0 where
  pub issues : IssueRegistry
  pub last_seen : Dict Uuid ℕ
  pub tracked_since : Dict SeenKey ℕ
  pub consecutive_fetch_failures : Dict Uuid ℕ
  pub consecutive_unreachable : Dict Uuid ℕ
  pub stale : Dict String StaleCandidate
  pub saves : ℕ

abbrev pub fetch_failures_before_issue : ℕ
fetch_failures_before_issue = 2

-- `counts.get(uuid, 0)`
unfoldable pub count_of : Dict Uuid ℕ → Uuid → ℕ
count_of counts uuid = or_else (get counts uuid) 0

-- What `async_on_record` does on a failed fetch, with the count that it has reached.
unfoldable pub on_fetch_failed : DeviceHealth → DeliveryRecord → ℕ → RepairManager → RepairManager
on_fetch_failed h r n m = record m {
  consecutive_fetch_failures = put m.consecutive_fetch_failures h.uuid n;
  issues =
      if leb fetch_failures_before_issue n
      then create (fetch_failed_issue h.uuid) error
          (fetch_placeholders h.name h.entity_id h.host r.url_source n r.error) false m.issues
      else m.issues;
}

unfoldable pub on_unreachable : DeviceHealth → DeliveryRecord → ℕ → RepairManager → RepairManager
on_unreachable h r n m = record m {
  consecutive_unreachable = put m.consecutive_unreachable h.uuid n;
  issues =
      if leb fetch_failures_before_issue n
      then create (unreachable_issue h.uuid) error
          (unreachable_placeholders h.name h.entity_id h.host n r.error) false m.issues
      else m.issues;
}

unfoldable pub on_ok : Uuid → RepairManager → RepairManager
on_ok uuid m = record m {
  consecutive_fetch_failures = put m.consecutive_fetch_failures uuid 0;
  consecutive_unreachable = put m.consecutive_unreachable uuid 0;
  issues = delete (unreachable_issue uuid) (delete (fetch_failed_issue uuid) m.issues);
}

abbrev pub on_outcome :
    DeliveryOutcome → DeviceHealth → DeliveryRecord → RepairManager → RepairManager
on_outcome fetch_failed h r m =
    on_fetch_failed h r (count_of m.consecutive_fetch_failures h.uuid + 1) m
on_outcome unreachable h r m = on_unreachable h r (count_of m.consecutive_unreachable h.uuid + 1) m
on_outcome success h r m = on_ok h.uuid m
on_outcome _ h r m = m

-- `async_on_record`
unfoldable pub on_record : DeviceHealth → DeliveryRecord → RepairManager → RepairManager
on_record h r m = on_outcome r.outcome h r m

-- `template if len(template) <= 200 else template[:197] + "..."`
abbrev pub take {ℓ} : {A : Type ℓ} → ℕ → List A → List A
take zero xs = []
take (suc n) [] = []
take (suc n) (x ∷ xs) = x ∷ take n xs

unfoldable pub shorten : List ℕ → List ℕ
shorten template =
    if leb (length template) 200 then template else take 197 template ++ 46 ∷ 46 ∷ 46 ∷ []

-- `async_template_error`, by the digest of the template
unfoldable pub template_error :
    String → String → List ℕ → String → Bool → RepairManager → RepairManager
template_error digest entity_id template reason resolved m = record m {
  issues =
      if resolved
      then delete (template_error_issue digest) m.issues
      else create (template_error_issue digest) error
          (template_placeholders entity_id (shorten template) reason) false m.issues;
}

-- `async_check_topology`
abbrev pub is_true : Option Bool → Bool
is_true (some true) = true
is_true _ = false

unfoldable pub check_multihomed : TopologyTracker → IssueRegistry → IssueRegistry
check_multihomed t reg =
    if is_true t.multihomed && is_true t.internal_url_automatic
    then create multihomed_issue warning
        (multihomed_placeholders t.internal_host t.adapter_networks) false reg
    else delete multihomed_issue reg

unfoldable pub check_group : Uuid → GroupTopology → IssueRegistry → IssueRegistry
check_group uuid g reg =
    if is_true g.members_span_subnets
    then create (group_spans_issue uuid) warning
        (group_placeholders g.name g.leader_ip
          (g.leader_subnet ∷ map (λ member. member.1) g.member_subnets))
        false reg
    else delete (group_spans_issue uuid) reg

unfoldable pub check_groups : Dict Uuid GroupTopology → IssueRegistry → IssueRegistry
check_groups [] reg = reg
check_groups ((uuid, g) ∷ groups) reg = check_groups groups (check_group uuid g reg)

unfoldable pub check_topology : TopologyTracker → RepairManager → RepairManager
check_topology t m = record m { issues = check_groups t.groups (check_multihomed t m.issues) }
