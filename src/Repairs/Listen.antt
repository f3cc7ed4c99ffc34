-- ===== src/Repairs/Listen.antt =====
-- `RepairManager.async_on_record` (custom_components/cast/issues.py) as a listener of the ledger.
use ha_int_gcast.Base.{ℕ, refl}
use ha_int_gcast.Health.Listener.{Listener}
use ha_int_gcast.Repairs.Manager.{RepairManager, on_record}

-- It reads the device and writes nothing of it.
abbrev pub repair_listener : ℕ → Listener RepairManager
repair_listener ident = record {
  ident = ident;
  call = λ now r hw. (hw.0, on_record hw.0 r hw.1);
  keeps = λ now r h w. refl;
}
