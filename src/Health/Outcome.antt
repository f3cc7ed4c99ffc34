-- ===== src/Health/Outcome.antt =====
-- The closed set of delivery outcomes of custom_components/cast/health.py.
use ha_int_gcast.Base.{Bool, true, false, String}

pub data DeliveryOutcome : Type 0 where
  success fetch_failed unreachable timeout template_error skipped_busy unknown : DeliveryOutcome

-- The value of the `StrEnum` member; `OK` is `success` here.
unfoldable pub value : DeliveryOutcome → String
value success = "ok"
value fetch_failed = "fetch_failed"
value unreachable = "unreachable"
value timeout = "timeout"
value template_error = "template_error"
value skipped_busy = "skipped_busy"
value unknown = "unknown"

-- `outcome in FAILURE_OUTCOMES`
abbrev pub is_failure : DeliveryOutcome → Bool
is_failure fetch_failed = true
is_failure unreachable = true
is_failure timeout = true
is_failure template_error = true
is_failure _ = false

-- `outcome is not UNKNOWN and outcome is not SKIPPED_BUSY`
abbrev pub is_verdict : DeliveryOutcome → Bool
is_verdict unknown = false
is_verdict skipped_busy = false
is_verdict _ = true

-- `outcome is DeliveryOutcome.TIMEOUT`
abbrev pub is_timeout : DeliveryOutcome → Bool
is_timeout timeout = true
is_timeout _ = false
