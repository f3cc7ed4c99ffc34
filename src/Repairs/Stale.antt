-- ===== src/Repairs/Stale.antt =====
-- Stale devices, custom_components/cast/issues.py: `async_device_seen` and `async_check_stale`.
use ha_int_gcast.Base.{
  ℕ, suc, ◌+◌, String, Bool, true, false, Option, none, some, List, [], ◌∷◌, ltb, is_some, or_else,
  contains, option_beq, nat_eq, string_eq, if◌then◌else◌,
}
use ha_int_gcast.Base.Dict.{Dict, get, put, remove}
use ha_int_gcast.Health.Types.{Uuid, Moment}
use ha_int_gcast.Health.Ledger.{str_truthy}
use ha_int_gcast.Repairs.Registry.{
  stale_device_issue, stale_placeholders, warning, IssueRegistry, create, delete, issue_eq,
}
use ha_int_gcast.Repairs.Manager.{
  StaleCandidate, SeenKey, by_uuid, by_device, key_eq, RepairManager,
}

-- What `async_check_stale` reads of a device registry entry.
pub record DeviceEntry : Type 0 where
  pub id : String
  pub uuid : Option Uuid
  pub name_by_user : Option String
  pub name : Option String

-- STALE_DEVICE_DAYS, in milliseconds
abbrev pub stale_after : ℕ
stale_after = 604800000

-- `a or b` on texts
abbrev pub text_or : Option String → String → String
text_or none d = d
text_or (some a) d = if str_truthy a then a else d

-- `uuid_str or device.id`
abbrev pub key_of : Option Uuid → String → SeenKey
key_of none id = by_device id
key_of (some u) id = by_uuid u

abbrev pub seen_key : DeviceEntry → SeenKey
seen_key e = key_of e.uuid e.id

-- `uuid_str in seen_strs`
abbrev pub is_discovered : Option Uuid → List Uuid → Bool
is_discovered none discovered = false
is_discovered (some u) discovered = contains u discovered

-- `self.last_seen.get(key) if uuid_str else None`
abbrev pub seen_at : Option Uuid → Dict Uuid ℕ → Option ℕ
seen_at none last_seen = none
seen_at (some u) last_seen = get last_seen u

-- The time from which the entry has been unseen: its last response, or the start of the tracking.
unfoldable pub reference : ℕ → Dict Uuid ℕ → Dict SeenKey ℕ → DeviceEntry → ℕ
reference now last_seen tracked e =
    or_else (seen_at e.uuid last_seen) (or_else (get tracked (seen_key e)) now)

-- `dict.setdefault`
abbrev pub set_default : SeenKey → ℕ → Dict SeenKey ℕ → Dict SeenKey ℕ
set_default key value d = if is_some (get d key) then d else put d key value

abbrev pub new_candidate : ℕ → Dict Uuid ℕ → Dict SeenKey ℕ → DeviceEntry → StaleCandidate
new_candidate now last_seen tracked e = record {
  device_id = e.id;
  name = text_or e.name_by_user (text_or e.name e.id);
  uuid = e.uuid;
  last_seen = seen_at e.uuid last_seen;
  tracked_since = or_else (get tracked (seen_key e)) now;
}

-- `tracked_since` and `current`, which the loop over the entries builds.
pub record Scan : Type 0 where
  pub tracked : Dict SeenKey ℕ
  pub current : Dict String StaleCandidate

-- The body of the loop. `reference > threshold` is written without the subtraction.
unfoldable pub scan_entry : ℕ → List Uuid → Dict Uuid ℕ → DeviceEntry → Scan → Scan
scan_entry now discovered last_seen e s =
    if is_discovered e.uuid discovered
    then s
    else if ltb now (reference now last_seen s.tracked e + stale_after)
    then record s { tracked = set_default (seen_key e) now s.tracked }
    else record {
      tracked = set_default (seen_key e) now s.tracked;
      current = put s.current e.id (new_candidate now last_seen s.tracked e);
    }

unfoldable pub scan : ℕ → List Uuid → Dict Uuid ℕ → List DeviceEntry → Scan → Scan
scan now discovered last_seen [] s = s
scan now discovered last_seen (e ∷ es) s =
    scan now discovered last_seen es (scan_entry now discovered last_seen e s)

-- The issues of the candidates that are none any more.
unfoldable pub clear_gone :
    Dict String StaleCandidate → Dict String StaleCandidate → IssueRegistry → IssueRegistry
clear_gone current [] reg = reg
clear_gone current ((d, c) ∷ stale) reg =
    clear_gone current stale
      (if is_some (get current d) then reg else delete (stale_device_issue d) reg)

unfoldable pub raise_current : Dict String StaleCandidate → IssueRegistry → IssueRegistry
raise_current [] reg = reg
raise_current ((d, c) ∷ current) reg = raise_current current (
    create (stale_device_issue d) warning (stale_placeholders c.name c.last_seen c.tracked_since)
      true reg)

-- `async_check_stale`
unfoldable pub check_stale : Moment → List Uuid → List DeviceEntry → RepairManager → RepairManager
check_stale now discovered entries m =
    let s =
      scan now.utc discovered m.last_seen entries
        (record { tracked = m.tracked_since; current = [] }) in
    record m {
      tracked_since = s.tracked;
      saves = suc m.saves;
      issues = raise_current s.current (clear_gone s.current m.stale m.issues);
      stale = s.current;
    }

-- The loop of `async_device_seen` over the candidates
pub record Cleared : Type 0 where
  pub left : Dict String StaleCandidate
  pub registry : IssueRegistry

unfoldable pub clear_seen : Uuid → Dict String StaleCandidate → Cleared → Cleared
clear_seen uuid [] s = s
clear_seen uuid ((d, c) ∷ cs) s = clear_seen uuid cs (
    if option_beq c.uuid (some uuid)
    then record { left = remove s.left d; registry = delete (stale_device_issue d) s.registry }
    else s)

-- `async_device_seen`
unfoldable pub device_seen : Moment → Uuid → RepairManager → RepairManager
device_seen now uuid m =
    let s = clear_seen uuid m.stale (record { left = m.stale; registry = m.issues }) in
    record m {
      last_seen = put m.last_seen uuid now.utc;
      saves = suc m.saves;
      issues = s.registry;
      stale = s.left;
    }
