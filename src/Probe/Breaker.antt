-- ===== src/Probe/Breaker.antt =====
-- The circuit breaker: `CastProbeCoordinator._async_on_record` of custom_components/cast/coordinator.py
-- as a listener of the ledger. The options that it reads belong to the state of the listeners.
use ha_int_gcast.Base.{
  ℕ, suc, ◌+◌, ◌-◌, ◌*◌, ◌^◌, ◌≤◌, ◌≡◌, Option, none, some, min, leb, not, ◌&&◌, string_eq, ◌==◌,
  arith, if◌then◌else◌,
}
use native.Mathlib.Nat.{pow-suc}
use ha_int_gcast.Health.Outcome.{DeliveryOutcome, success, is_timeout}
use ha_int_gcast.Health.Types.{Moment, DeliveryRecord, DeviceHealth}
use ha_int_gcast.Health.Listener.{Listener, with_circuit}

abbrev pub circuit_breaker_timeouts : ℕ
circuit_breaker_timeouts = 2

abbrev pub circuit_breaker_max_backoff : ℕ
circuit_breaker_max_backoff = 3600

-- The seconds for which the circuit opens, by the interval and the timeouts in a row.
unfoldable pub backoff : ℕ → ℕ → ℕ
backoff interval timeouts =
    let exponent = timeouts - circuit_breaker_timeouts + 1 in
    min (interval * 2 ^ exponent) circuit_breaker_max_backoff

-- The circuit after a record of a probe.
abbrev pub circuit_after : Moment → ℕ → DeliveryOutcome → DeviceHealth → Option ℕ
circuit_after now interval success h = none
circuit_after now interval outcome h =
    if is_timeout outcome && leb circuit_breaker_timeouts h.consecutive_timeouts
    then some (now.monotonic + 1000 * backoff interval h.consecutive_timeouts)
    else h.circuit_open_until

unfoldable pub on_probe_record : Moment → ℕ → DeliveryRecord → DeviceHealth → DeviceHealth
on_probe_record now interval r h =
    if not (r.source == "probe") then h else with_circuit h (circuit_after now interval r.outcome h)

-- The breaker writes the circuit of the device that the record is about, and nothing else.
pub on_probe_record-keeps :
    (now : Moment) (interval : ℕ) (r : DeliveryRecord) (h : DeviceHealth)
    → on_probe_record now interval r h
      ≡ with_circuit h (on_probe_record now interval r h).circuit_open_until
unfolding on_probe_record
on_probe_record-keeps now interval r h = ground arith

module _ {W : Type 0} (interval_of : W → ℕ) where
  abbrev pub breaker : ℕ → Listener W
  breaker ident = record {
    ident = ident;
    call = λ now r hw. (on_probe_record now (interval_of hw.1) r hw.0, hw.1);
    keeps = λ now r h w. on_probe_record-keeps now (interval_of w) r h;
  }

doubled : (interval p : ℕ) → min (interval * (p * 2)) 3600 ≡ min (2 * min (interval * p) 3600) 3600
doubled interval p = omega arith

-- Each further timeout doubles the backoff, up to an hour.
pub backoff-doubles :
    (interval timeouts : ℕ)
    → circuit_breaker_timeouts ≤ timeouts
    → backoff interval (suc timeouts)
      ≡ min (2 * backoff interval timeouts) circuit_breaker_max_backoff
unfolding backoff
backoff-doubles interval timeouts h =
    let longer : suc timeouts - 2 + 1 ≡ suc (timeouts - 2 + 1) = omega arith in
    rw (longer, pow-suc 2 (timeouts - 2 + 1)) (doubled interval (2 ^ (timeouts - 2 + 1)))

-- The first backoff is twice the interval, up to an hour.
pub backoff-first :
    (interval : ℕ)
    → backoff interval circuit_breaker_timeouts ≡ min (2 * interval) circuit_breaker_max_backoff
unfolding backoff
backoff-first interval = omega arith
