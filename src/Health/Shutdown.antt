-- ===== src/Health/Shutdown.antt =====
-- `async_shutdown` of `DeliveryLedger` in custom_components/cast/health.py.
pub mod Silence
use ha_int_gcast.Base.{ℕ, Option, none, some, [], ◌∷◌}
use ha_int_gcast.Base.Dict.{Dict}
use ha_int_gcast.Health.Types.{Uuid, PendingRequest, DeviceHealth}
use ha_int_gcast.Health.Ledger.{Ledger, Timer, cancel, handle_of}

abbrev quiet : DeviceHealth → Option PendingRequest → DeviceHealth
quiet h none = h
quiet h (some p) = record h { pending = some (record p { cancel_timeout = none }) }

-- The loop over the devices: each timer that is set is cancelled, and its handle cleared.
unfoldable pub shutdown_devices :
    Dict Uuid DeviceHealth → Dict ℕ Timer → Dict Uuid DeviceHealth × Dict ℕ Timer
unfolding cancel
shutdown_devices [] timers = ([], timers)
shutdown_devices ((uuid, h) ∷ rest) timers =
    let (rest', timers') = shutdown_devices rest (cancel (handle_of h.pending) timers) in
    ((uuid, quiet h h.pending) ∷ rest', timers')

module _ {W : Type 0} where
  -- `async_shutdown`
  unfoldable pub shutdown : Ledger W → Ledger W
  shutdown s =
      let (devices, timers) = shutdown_devices s.devices s.timers in
      record s { devices = devices; timers = timers }
