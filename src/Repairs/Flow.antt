-- ===== src/Repairs/Flow.antt =====
-- The repair flow of a stale device, custom_components/cast/repairs.py: `async_create_fix_flow` and
-- `StaleDeviceFlow`.
use ha_int_gcast.Base.{
  ◌≡◌, String, Bool, true, false, Option, none, some, is_some, arith, same_iff, ◌==◌, string_eq,
  if◌then◌else◌,
}
use ha_int_gcast.Base.Dict.{Dict, get, remove, get-remove}
use ha_int_gcast.Base.Result.{Result, returned, raised}
use ha_int_gcast.Health.Ledger.{str_truthy}
use ha_int_gcast.Repairs.Registry.{
  IssueId, stale_device_issue, IssueRegistry, active, active-delete, delete, issue_eq,
}

-- An entry of the device registry, by its id
pub record RegisteredDevice : Type 0 where
  pub name_by_user : Option String
  pub name : Option String

pub record StaleDeviceFlow : Type 0 where
  pub issue_id : IssueId
  pub device_id : String
  pub name : String

-- `device.name_by_user or device.name or device_id`
abbrev nonempty_or : Option String → String → String
nonempty_or none later = later
nonempty_or (some text) later = if str_truthy text then text else later

abbrev shown_name : Option RegisteredDevice → String → String
shown_name none device_id = device_id
shown_name (some d) device_id = nonempty_or d.name_by_user (nonempty_or d.name device_id)

-- `StaleDeviceFlow(hass, issue_id, device_id)`
unfoldable pub stale_device_flow : Dict String RegisteredDevice → IssueId → String → StaleDeviceFlow
stale_device_flow registry issue_id device_id = record {
  issue_id = issue_id;
  device_id = device_id;
  name = shown_name (get registry device_id) device_id;
}

abbrev flow_with :
    Dict String RegisteredDevice → IssueId → Option String → Result IssueId StaleDeviceFlow
flow_with registry issue_id none = raised issue_id
flow_with registry issue_id (some device_id) =
    returned (stale_device_flow registry issue_id device_id)

-- `async_create_fix_flow`, with `data.get("device_id")`; a ValueError names the issue.
unfoldable pub create_fix_flow :
    Dict String RegisteredDevice → IssueId → Option String → Result IssueId StaleDeviceFlow
create_fix_flow registry (stale_device_issue d) device_id =
    flow_with registry (stale_device_issue d) device_id
create_fix_flow registry issue_id device_id = raised issue_id

pub data FlowResult : Type 0 where
  flow_done : FlowResult
  shows_confirmation : String → FlowResult

-- The device registry and the issues
pub record Registries : Type 0 where
  pub devices : Dict String RegisteredDevice
  pub issues : IssueRegistry

-- `async_step_confirm`, by whether the form was sent
unfoldable pub confirm_removal : Bool → StaleDeviceFlow → Registries → FlowResult × Registries
confirm_removal false f r = (shows_confirmation f.name, r)
confirm_removal true f r = (
  flow_done,
  record {
    devices =
        if is_some (get r.devices f.device_id) then remove r.devices f.device_id else r.devices;
    issues = delete f.issue_id r.issues;
  },
)

-- `async_step_init`
unfoldable pub begin_removal : StaleDeviceFlow → Registries → FlowResult × Registries
begin_removal f r = confirm_removal false f r

-- A confirmed removal leaves the device unregistered and its issue inactive, and every other device and
-- issue as it was.
pub confirm_removal-Removed :
    (f : StaleDeviceFlow) (r : Registries) (d : String) (id : IssueId)
    → let r' = (confirm_removal true f r).1 in
      (get r'.devices d ≡ (if f.device_id == d then none else get r.devices d))
      × (active r'.issues id ≡ (if f.issue_id == id then false else active r.issues id))
unfolding confirm_removal
confirm_removal-Removed f r d id = (
  ground (arith, get-remove r.devices f.device_id d, same_iff f.device_id d),
  active-delete f.issue_id r.issues id,
)
