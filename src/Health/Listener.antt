-- ===== src/Health/Listener.antt =====
-- `HealthListener` of custom_components/cast/health.py: what the ledger calls for every record.
-- `W` is the state that the listeners own. A listener may write the circuit of the device that it is
-- handed, as the probe coordinator does, and no other field: that is the law of the interface.
use ha_int_gcast.Base.{ℕ, ◌≡◌, refl, ap, ◌∙◌, List, [], ◌∷◌, Option}
use ha_int_gcast.Health.Types.{Moment, DeviceHealth, DeliveryRecord}

-- `h` with another circuit.
abbrev pub with_circuit : DeviceHealth → Option ℕ → DeviceHealth
with_circuit h until = record h { circuit_open_until = until }

pub record Listener (W : Type 0) : Type 0 where
  pub ident : ℕ
  pub call : Moment → DeliveryRecord → DeviceHealth × W → DeviceHealth × W
  pub keeps :
      (now : Moment) (r : DeliveryRecord) (h : DeviceHealth) (w : W)
      → (call now r (h, w)).0 ≡ with_circuit h (call now r (h, w)).0.circuit_open_until

module _ {W : Type 0} where
  -- `for listener in list(self.listeners): listener(health, record)`
  unfoldable pub notify :
      List (Listener W) → Moment → DeliveryRecord → DeviceHealth × W → DeviceHealth × W
  notify [] now r hw = hw
  notify (l ∷ ls) now r hw = notify ls now r (l.call now r hw)

  pub notify-keeps :
      (ls : List (Listener W)) (now : Moment) (r : DeliveryRecord) (h : DeviceHealth) (w : W)
      → (notify ls now r (h, w)).0 ≡ with_circuit h (notify ls now r (h, w)).0.circuit_open_until
  unfolding notify
  notify-keeps [] now r h w = refl
  notify-keeps (l ∷ ls) now r h w =
      let (h', w') = l.call now r (h, w) in
      notify-keeps ls now r h' w'
      ∙ ap (λ g. with_circuit g (notify ls now r (h', w')).0.circuit_open_until) (l.keeps now r h w)
