-- ===== src/Health/History.antt =====
-- What the fields of a `DeviceHealth` (custom_components/cast/health.py) mean, as functions of the
-- outcomes of its deliveries, newest first. Nothing here is computed the way `_append` does it.
use ha_int_gcast.Base.{
  ℕ, suc, Option, none, some, List, [], ◌∷◌, ◌++◌, ◌≡◌, arith, ◌==◌, nat_eq, if◌then◌else◌,
}
use ha_int_gcast.Health.Outcome.{DeliveryOutcome, success, timeout, skipped_busy, unknown}
use ha_int_gcast.Health.Types.{Uuid, DeliveryRecord}

-- The last outcome that says something of the device.
abbrev pub last_verdict : List DeliveryOutcome → DeliveryOutcome
last_verdict [] = unknown
last_verdict (skipped_busy ∷ os) = last_verdict os
last_verdict (unknown ∷ os) = last_verdict os
last_verdict (o ∷ os) = o

-- The failures since the last success.
abbrev pub failures_in_a_row : List DeliveryOutcome → ℕ
failures_in_a_row [] = 0
failures_in_a_row (success ∷ os) = 0
failures_in_a_row (skipped_busy ∷ os) = failures_in_a_row os
failures_in_a_row (unknown ∷ os) = failures_in_a_row os
failures_in_a_row (o ∷ os) = suc (failures_in_a_row os)

-- The timeouts since the last delivery that succeeded or failed otherwise.
abbrev pub timeouts_in_a_row : List DeliveryOutcome → ℕ
timeouts_in_a_row [] = 0
timeouts_in_a_row (timeout ∷ os) = suc (timeouts_in_a_row os)
timeouts_in_a_row (skipped_busy ∷ os) = timeouts_in_a_row os
timeouts_in_a_row (unknown ∷ os) = timeouts_in_a_row os
timeouts_in_a_row (o ∷ os) = 0

-- The records of one device among the events, which are oldest first; the result is newest first.
abbrev pub records_of : Uuid → List DeliveryRecord → List DeliveryRecord
records_of u [] = []
records_of u (r ∷ rs) = records_of u rs ++ (if r.uuid == u then r ∷ [] else [])

abbrev pub outcomes : List DeliveryRecord → List DeliveryOutcome
outcomes [] = []
outcomes (r ∷ rs) = r.outcome ∷ outcomes rs

abbrev pub newest : List DeliveryRecord → Option DeliveryRecord
newest [] = none
newest (r ∷ rs) = some r

pub records_of-append :
    (u : Uuid) (rs : List DeliveryRecord) (r : DeliveryRecord)
    → records_of u (rs ++ r ∷ []) ≡ (if r.uuid == u then r ∷ records_of u rs else records_of u rs)
records_of-append u [] r = ground arith
records_of-append u (q ∷ rs) r = ground (arith, records_of-append u rs r)
