-- ===== src/Repairs/Registry.antt =====
-- Issue ids and the issue registry, as custom_components/cast/issues.py uses them.
use ha_int_gcast.Base.{
  ℕ, zero, suc, ◌≡◌, refl, sym, ap, ◌∙◌, String, Bool, true, false, Option, List, ◌&&◌, is_some,
  inl, inr, Bool-cases, Equality, ◌==◌, ==-refl, same_iff, nat_eq, string_eq, arith, if◌then◌else◌,
}
use ha_int_gcast.Base.Dict.{Dict, get, put, remove, get-put, get-remove}
use ha_int_gcast.Health.Types.{Uuid, Message, UrlSource}
use ha_int_gcast.Topology.Address.{Network}

-- The ids that the manager builds: a fixed one, or a translation key with what follows its dot.
pub data IssueId : Type 0 where
  fetch_failed_issue unreachable_issue group_spans_issue : Uuid → IssueId
  multihomed_issue : IssueId
  stale_device_issue template_error_issue : String → IssueId

-- An id as its parts, to compare ids by.
abbrev key : IssueId → ℕ
key multihomed_issue = 0
key (fetch_failed_issue u) = 1
key (unreachable_issue u) = 2
key (group_spans_issue u) = 3
key (stale_device_issue d) = 4
key (template_error_issue d) = 5

abbrev subject : IssueId → Uuid
subject (fetch_failed_issue u) = u
subject (unreachable_issue u) = u
subject (group_spans_issue u) = u
subject _ = 0

abbrev text : IssueId → String
text (stale_device_issue d) = d
text (template_error_issue d) = d
text _ = ""

abbrev of_parts : ℕ → Uuid → String → IssueId
of_parts zero u d = multihomed_issue
of_parts (suc zero) u d = fetch_failed_issue u
of_parts (suc (suc zero)) u d = unreachable_issue u
of_parts (suc (suc (suc zero))) u d = group_spans_issue u
of_parts (suc (suc (suc (suc zero)))) u d = stale_device_issue d
of_parts (suc (suc (suc (suc (suc n))))) u d = template_error_issue d

of_parts-retract : (i : IssueId) → of_parts (key i) (subject i) (text i) ≡ i
of_parts-retract multihomed_issue = refl
of_parts-retract (fetch_failed_issue u) = refl
of_parts-retract (unreachable_issue u) = refl
of_parts-retract (group_spans_issue u) = refl
of_parts-retract (stale_device_issue d) = refl
of_parts-retract (template_error_issue d) = refl

unfoldable pub same_issue : IssueId → IssueId → Bool
same_issue i j = key i == key j && subject i == subject j && text i == text j

pub same_issue-path : (i j : IssueId) → same_issue i j ≡ true → i ≡ j
unfolding same_issue
same_issue-path i j e =
    let k : key i ≡ key j = ground (arith, same_iff (key i) (key j)) in
    let u : subject i ≡ subject j = ground (arith, same_iff (subject i) (subject j)) in
    let d : text i ≡ text j = ground (arith, same_iff (text i) (text j)) in
    sym (of_parts-retract i) ∙ rw (k, u, d) (of_parts-retract j)

pub same_issue_refl : (i : IssueId) → same_issue i i ≡ true
unfolding same_issue
same_issue_refl i = rw (==-refl (key i), ==-refl (subject i), ==-refl (text i)) refl

instance abbrev pub issue_eq : Equality IssueId
issue_eq = record { test = same_issue; to_path = same_issue-path; of_same = same_issue_refl }

-- The translation placeholders, with the values that the source formats or replaces by a default.
pub data Placeholders : Type 0 where
  fetch_placeholders :
      Option String
      → Option String
      → Option String
      → Option UrlSource
      → ℕ
      → Option Message
      → Placeholders
  unreachable_placeholders :
      Option String → Option String → Option String → ℕ → Option Message → Placeholders
  multihomed_placeholders : Option String → List Network → Placeholders
  group_placeholders : Option String → Option String → List (Option Network) → Placeholders
  stale_placeholders : String → Option ℕ → ℕ → Placeholders
  template_placeholders : String → List ℕ → String → Placeholders

pub data Severity : Type 0 where
  warning error : Severity

pub record Issue : Type 0 where
  pub severity : Severity
  pub placeholders : Placeholders
  pub is_fixable : Bool

abbrev pub IssueRegistry : Type 0
IssueRegistry = Dict IssueId Issue

abbrev pub new_issue : Severity → Placeholders → Bool → Issue
new_issue severity placeholders is_fixable = record {
  severity = severity;
  placeholders = placeholders;
  is_fixable = is_fixable;
}

-- `_create`, which writes the issue whether or not it is there
unfoldable pub create : IssueId → Severity → Placeholders → Bool → IssueRegistry → IssueRegistry
create id severity placeholders is_fixable reg =
    put reg id (new_issue severity placeholders is_fixable)

-- `_delete`
unfoldable pub delete : IssueId → IssueRegistry → IssueRegistry
delete id reg = if is_some (get reg id) then remove reg id else reg

-- Is the issue active?
unfoldable pub active : IssueRegistry → IssueId → Bool
active reg id = is_some (get reg id)

pub active-create :
    (id : IssueId) (severity : Severity) (p : Placeholders) (fixable : Bool) (reg : IssueRegistry)
    (j : IssueId)
    → active (create id severity p fixable reg) j ≡ (if id == j then true else active reg j)
unfolding active create
active-create id severity p fixable reg j =
    ground (arith, get-put reg id j (new_issue severity p fixable))

pub active-delete :
    (id : IssueId) (reg : IssueRegistry) (j : IssueId)
    → active (delete id reg) j ≡ (if id == j then false else active reg j)
unfolding active delete
active-delete id reg j = elim (Bool-cases (id == j)) [
  | inr other ↦ ground (arith, get-remove reg id j, other)
  | inl same ↦
      let there : get reg id ≡ get reg j = ap (get reg) (same_issue-path id j same) in
      ground (arith, get-remove reg id j, same, there)
]
