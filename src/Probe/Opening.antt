-- ===== src/Probe/Opening.antt =====
-- What the breaker of custom_components/cast/coordinator.py makes of one verdict of the ledger on a probe.
use ha_int_gcast.Base.{
  ap, ℕ, suc, ◌+◌, ◌*◌, ◌≤◌, ◌≡◌, refl, ◌∙◌, String, Bool, true, false, Option, none, some, arith,
  string_eq, nat_eq, ◌==◌,
}
use ha_int_gcast.Base.Dict.{get}
use ha_int_gcast.Health.Outcome.{DeliveryOutcome, success, timeout}
use ha_int_gcast.Health.Types.{
  Uuid, Moment, Message, no_transition, Observed, nothing_observed, DeliveryRecord, PendingRequest,
  DeviceHealth,
}
use ha_int_gcast.Health.Verdicts.{Status, observed_by, reports_error}
use ha_int_gcast.Health.Ledger.{
  Ledger, Timer, store, health_of, device, append, resolve, detach, tally,
}
use ha_int_gcast.Health.Listener.{notify}
use ha_int_gcast.Health.Ledger.Effects.{health_at-put_self, detach-health, device-listeners}
use ha_int_gcast.Health.Requests.{expire, media_status}
use ha_int_gcast.Health.Run.Timers.{IsLinked, pending_of, rung, expire-resolve}
use ha_int_gcast.Health.Answers.{resolve-IsAnswer, pending_of-device}
use ha_int_gcast.Health.Expiry.{rung-pending}
use ha_int_gcast.Health.Confirm.{Confirms, progress-Confirms}
use ha_int_gcast.Health.Ledger.{Details}
use ha_int_gcast.Repairs.Manager.{RepairManager}
use ha_int_gcast.Repairs.Heard.{both}
use ha_int_gcast.Probe.Breaker.{backoff, on_probe_record, circuit_breaker_timeouts}

-- A timeout of a probe that is at least the second in a row.
opened :
    (now : Moment) (interval : ℕ) (r : DeliveryRecord) (h : DeviceHealth)
    → r.source ≡ "probe"
    → r.outcome ≡ timeout
    → circuit_breaker_timeouts ≤ suc h.consecutive_timeouts
    → (on_probe_record now interval r (tally now r h)).circuit_open_until
      ≡ some (now.monotonic + 1000 * backoff interval (suc h.consecutive_timeouts))
unfolding on_probe_record tally
opened now interval r h from out twice = rw (from, out) (ground arith)

-- A success of a probe.
closed :
    (now : Moment) (interval : ℕ) (r : DeliveryRecord) (h : DeviceHealth)
    → r.source ≡ "probe"
    → r.outcome ≡ success
    → (on_probe_record now interval r (tally now r h)).circuit_open_until ≡ none
unfolding on_probe_record tally
closed now interval r h from out = rw (from, out) (ground arith)

-- A record of anything else.
untouched :
    (now : Moment) (interval : ℕ) (r : DeliveryRecord) (h : DeviceHealth)
    → (r.source == "probe") ≡ false
    → (on_probe_record now interval r (tally now r h)).circuit_open_until ≡ h.circuit_open_until
unfolding on_probe_record tally
untouched now interval r h from = rw from (ground arith)

module _ (interval ident breaker_ident : ℕ) (now : Moment) (u : Uuid) (o : DeliveryOutcome) where
  pub append-breaks :
      (d : Details) (s : Ledger RepairManager)
      → s.listeners ≡ both interval ident breaker_ident
      → let r = (append now u o d s).0 in
        health_of (append now u o d s).1 u
        ≡ on_probe_record now interval r (tally now r (health_of s u))
  unfolding append notify
  append-breaks d s listens = health_at-put_self s.devices u _ ∙ rw listens refl

module _ (interval ident breaker_ident : ℕ) (now : Moment) (u : Uuid) (o : DeliveryOutcome)
    (error : Option Message) (responded : Bool) (observed : Observed) (unsolicited : Option String)
    (s : Ledger RepairManager) (listens : s.listeners ≡ both interval ident breaker_ident) where
  abbrev resolved : DeliveryRecord × Ledger RepairManager
  resolved = resolve now u o error responded observed unsolicited s

  resolve-breaks :
      health_of resolved.1 u
      ≡ on_probe_record now interval resolved.0
          (tally now resolved.0 (record (health_of s u) { pending = none }))
  unfolding resolve detach
  resolve-breaks =
      append-breaks interval ident breaker_ident now u o _ (detach u s) listens
      ∙ ap (λ h. on_probe_record now interval resolved.0 (tally now resolved.0 h))
          (detach-health s u)

  resolve-opens :
      (p : PendingRequest)
      → pending_of s u ≡ some p
      → p.source ≡ "probe"
      → o ≡ timeout
      → circuit_breaker_timeouts ≤ suc (health_of s u).consecutive_timeouts
      → (health_of resolved.1 u).circuit_open_until
        ≡ some (now.monotonic + 1000 * backoff interval (suc (health_of s u).consecutive_timeouts))
  resolve-opens p e from out twice =
      let a = resolve-IsAnswer now u o error responded observed unsolicited s p e in
      rw resolve-breaks (
        opened now interval resolved.0 (record (health_of s u) { pending = none }) (a.source ∙ from)
          (a.outcome ∙ out) twice)

  resolve-closes :
      (p : PendingRequest)
      → pending_of s u ≡ some p
      → p.source ≡ "probe"
      → o ≡ success
      → (health_of resolved.1 u).circuit_open_until ≡ none
  resolve-closes p e from out =
      let a = resolve-IsAnswer now u o error responded observed unsolicited s p e in
      rw resolve-breaks (
        closed now interval resolved.0 (record (health_of s u) { pending = none }) (a.source ∙ from)
          (a.outcome ∙ out))

module _ (interval ident breaker_ident : ℕ) (now : Moment) (s : Ledger RepairManager)
    (listens : s.listeners ≡ both interval ident breaker_ident) (p : PendingRequest)
    (from : p.source ≡ "probe") where
  rung-timeouts :
      (handle : ℕ) (t : Timer)
      → (health_of (rung handle t s) t.uuid).consecutive_timeouts
        ≡ (health_of s t.uuid).consecutive_timeouts
  unfolding store
  rung-timeouts handle t = ap (λ h. h.consecutive_timeouts) (health_at-put_self s.devices t.uuid _)

  pub expire-opens :
      (handle : ℕ) (t : Timer)
      → IsLinked s
      → get s.timers handle ≡ some t
      → pending_of s t.uuid ≡ some p
      → t.ident ≡ p.ident
      → 1 ≤ (health_of s t.uuid).consecutive_timeouts
      → (health_of (expire now handle s) t.uuid).circuit_open_until
        ≡ some (
            now.monotonic + 1000 * backoff interval (suc (health_of s t.uuid).consecutive_timeouts))
  unfolding store
  expire-opens handle t h live e which twice = rw (expire-resolve now handle t s h live) (
      resolve-opens interval ident breaker_ident now t.uuid timeout
        (some (no_transition t.duration)) false nothing_observed none (rung handle t s) listens
        (record p { cancel_timeout = none }) (rung-pending s handle t p e which) from refl
        (rw (rung-timeouts handle t) (omega arith))
      ∙ rw (rung-timeouts handle t) refl)

  pub media_status-closes :
      (u : Uuid) (st : Status)
      → pending_of s u ≡ some p
      → reports_error st ≡ false
      → Confirms st p
      → (health_of (media_status now u st s) u).circuit_open_until ≡ none
  unfolding media_status device
  media_status-closes u st e calm c =
      rw (calm, e, progress-Confirms now u st p (device s u) c)
        (resolve-closes interval ident breaker_ident now u success none true (observed_by st) none
          (device s u) (device-listeners s u ∙ listens) p (pending_of-device s u u ∙ e) from refl)
