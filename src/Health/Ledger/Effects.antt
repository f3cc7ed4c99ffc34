-- ===== src/Health/Ledger/Effects.antt =====
-- What `device`, `_append` and `_resolve` (custom_components/cast/health.py) do to the ledger, as
-- equations about its fields. The later proofs use these and leave the three functions shut.
use ha_int_gcast.Base.{
  ◌≡◌, refl, sym, ap, ◌∙◌, Bool, false, Option, none, [], ◌∷◌, ◌++◌, arith, String, ◌==◌, nat_eq,
  if◌then◌else◌,
}
use ha_int_gcast.Base.Dict.{Dict, put, get-put}
use ha_int_gcast.Health.Outcome.{DeliveryOutcome}
use ha_int_gcast.Health.Types.{
  Uuid, Moment, Message, Observed, DeliveryRecord, DeviceHealth, new_health,
}
use ha_int_gcast.Health.Listener.{notify, notify-keeps, with_circuit}
use ha_int_gcast.Health.Ledger.{
  Ledger, Details, health_at, health_of, device, detach, append, tally, cancel, handle_of, resolve,
  make_record,
}

pub health_at-put :
    (d : Dict Uuid DeviceHealth) (u v : Uuid) (h : DeviceHealth)
    → health_at (put d u h) v ≡ (if u == v then h else health_at d v)
unfolding health_at
health_at-put d u v h = ground (arith, get-put d u v h)

pub health_at-put_self :
    (d : Dict Uuid DeviceHealth) (u : Uuid) (h : DeviceHealth) → health_at (put d u h) u ≡ h
health_at-put_self d u h = ground (arith, health_at-put d u u h)

pub health_at-put_ne :
    (d : Dict Uuid DeviceHealth) (u v : Uuid) (h : DeviceHealth)
    → (u == v) ≡ false
    → health_at (put d u h) v ≡ health_at d v
health_at-put_ne d u v h ne = health_at-put d u v h ∙ (rw ne)

-- `_append` counts and does not touch the request.
pub tally-pending :
    (now : Moment) (r : DeliveryRecord) (h : DeviceHealth) → (tally now r h).pending ≡ h.pending
unfolding tally
tally-pending now r h = ground arith

module _ {W : Type 0} where
  pub health_at-device :
      (s : Ledger W) (u v : Uuid) → health_at (device s u).devices v ≡ health_at s.devices v
  unfolding device health_at
  health_at-device s u v = ground (arith, get-put s.devices u v (new_health u))

  pub device-timers : (s : Ledger W) (u : Uuid) → (device s u).timers ≡ s.timers
  unfolding device
  device-timers s u = ground arith

  pub device-next_handle : (s : Ledger W) (u : Uuid) → (device s u).next_handle ≡ s.next_handle
  unfolding device
  device-next_handle s u = ground arith

  pub device-fired : (s : Ledger W) (u : Uuid) → (device s u).fired ≡ s.fired
  unfolding device
  device-fired s u = ground arith

  pub device-listeners : (s : Ledger W) (u : Uuid) → (device s u).listeners ≡ s.listeners
  unfolding device
  device-listeners s u = ground arith

  pub detach-health :
      (s : Ledger W) (u : Uuid)
      → health_of (detach u s) u ≡ record (health_of s u) { pending = none }
  unfolding detach
  detach-health s u = health_at-put_self s.devices u _

module _ {W : Type 0} (now : Moment) (u : Uuid) (o : DeliveryOutcome) (d : Details)
    (s : Ledger W) where
  -- The device after `_append`: tallied, and then whatever circuit the listeners set.
  pub append-settles :
      let s' = (append now u o d s).1 in
      let r = (append now u o d s).0 in
      health_of s' u
      ≡ with_circuit (tally now r (health_of s u)) (health_of s' u).circuit_open_until
  unfolding append
  append-settles =
      let r = make_record now s.urls (health_of s u) o d in
      let h = tally now r (health_of s u) in
      rw (health_at-put_self s.devices u (notify s.listeners now r (h, s.others)).0)
        (notify-keeps s.listeners now r h s.others)

  pub append-fired : (append now u o d s).1.fired ≡ s.fired ++ (append now u o d s).0 ∷ []
  unfolding append
  append-fired = refl

  pub append-devices :
      (append now u o d s).1.devices ≡ put s.devices u (health_of (append now u o d s).1 u)
  unfolding append
  append-devices = ap (put s.devices u) (sym (health_at-put_self s.devices u _))

  pub append-pending : (health_of (append now u o d s).1 u).pending ≡ (health_of s u).pending
  append-pending =
      ap (λ h. h.pending) append-settles ∙ tally-pending now (append now u o d s).0 (health_of s u)

  pub append-other :
      (v : Uuid) → (u == v) ≡ false → health_of (append now u o d s).1 v ≡ health_of s v
  unfolding append
  append-other v ne = health_at-put_ne s.devices u v _ ne

module _ {W : Type 0} (now : Moment) (u : Uuid) (o : DeliveryOutcome) (error : Option Message)
    (responded : Bool) (observed : Observed) (unsolicited : Option String) (s : Ledger W) where
  abbrev resolved : DeliveryRecord × Ledger W
  resolved = resolve now u o error responded observed unsolicited s

  pub resolve-settles :
      health_of resolved.1 u
      ≡ with_circuit
          (tally now resolved.0 (record (health_of s u) { pending = none }))
          (health_of resolved.1 u).circuit_open_until
  unfolding resolve
  resolve-settles =
      append-settles now u o _ (detach u s)
      ∙ ap (λ h. with_circuit (tally now resolved.0 h) (health_of resolved.1 u).circuit_open_until)
          (detach-health s u)

  pub resolve-other : (v : Uuid) → (u == v) ≡ false → health_of resolved.1 v ≡ health_of s v
  unfolding resolve detach
  resolve-other v ne =
      append-other now u o _ (detach u s) v ne ∙ health_at-put_ne s.devices u v _ ne

  pub resolve-pending : (health_of resolved.1 u).pending ≡ none
  unfolding tally
  resolve-pending =
      ap (λ h. h.pending) resolve-settles
      ∙ tally-pending now resolved.0 (record (health_of s u) { pending = none })

  -- The fields that do not depend on the listeners.
  pub resolve-timers : resolved.1.timers ≡ cancel (handle_of (health_of s u).pending) s.timers
  unfolding resolve append detach
  resolve-timers = refl

  pub resolve-fired : resolved.1.fired ≡ s.fired ++ resolved.0 ∷ []
  unfolding resolve append detach
  resolve-fired = refl

  pub resolve-next_ident : resolved.1.next_ident ≡ s.next_ident
  unfolding resolve append detach
  resolve-next_ident = refl

  pub resolve-next_handle : resolved.1.next_handle ≡ s.next_handle
  unfolding resolve append detach
  resolve-next_handle = refl

  pub resolve-outcome : resolved.0.outcome ≡ o
  unfolding resolve append make_record
  resolve-outcome = refl
