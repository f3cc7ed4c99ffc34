-- ===== src/Probe/Holds.antt =====
-- How long the circuit of a device stays as a verdict on a probe has left it
-- (custom_components/cast/coordinator.py, custom_components/cast/health.py).
use ha_int_gcast.Base.{
  ap, sym, ℕ, ◌+◌, ◌≤◌, ◌≡◌, refl, ◌∙◌, String, Bool, false, Option, none, some, List, [], ◌∷◌,
  arith, string_eq, nat_eq, ◌==◌, ◌&&◌, ◌||◌, count, count-append, Bool-cases, inl, inr,
  nat_beq_iff, if◌then◌else◌,
}
use mathlib.Core.Path.{subst}
use ha_int_gcast.Health.Outcome.{DeliveryOutcome, timeout, is_timeout}
use ha_int_gcast.Health.Types.{
  Uuid, Moment, Message, no_transition, Observed, nothing_observed, DeliveryRecord, DeviceHealth,
}
use ha_int_gcast.Health.Ledger.{
  Ledger, Details, store, health_of, append, resolve, detach, tally, make_record,
}
use ha_int_gcast.Health.Ledger.Effects.{
  health_at-put_self, health_at-put_ne, health_at-device, device-fired, device-listeners,
  append-other, append-fired,
}
use ha_int_gcast.Health.Requests.{update_identity}
use ha_int_gcast.Health.Run.Keeps.{IsKeptInside, expire-keeps}
use ha_int_gcast.Repairs.Manager.{RepairManager}
use ha_int_gcast.Repairs.Streak.{is_ok}
use ha_int_gcast.Repairs.Heard.{both}
use ha_int_gcast.Probe.Breaker.{on_probe_record}
use ha_int_gcast.Probe.Opening.{append-breaks}

-- A success or a timeout of a probe of the device.
unfoldable pub is_verdict_on : Uuid → DeliveryRecord → Bool
is_verdict_on u r =
    (r.uuid == u) && (r.source == "probe") && (is_ok r.outcome || is_timeout r.outcome)

-- How many of the fired events are such verdicts
abbrev pub verdicts : Uuid → List DeliveryRecord → ℕ
verdicts u rs = count (is_verdict_on u) rs

-- Any other record of the device leaves its circuit as it was.
unmoved :
    (now : Moment) (interval : ℕ) (u : Uuid) (r : DeliveryRecord) (h : DeviceHealth)
    → r.uuid ≡ u
    → is_verdict_on u r ≡ false
    → (on_probe_record now interval r (tally now r h)).circuit_open_until ≡ h.circuit_open_until
unfolding on_probe_record tally is_verdict_on
unmoved now interval u r h own other = ground arith

settled-uuid :
    (now : Moment) (interval : ℕ) (r : DeliveryRecord) (h : DeviceHealth)
    → (on_probe_record now interval r (tally now r h)).uuid ≡ h.uuid
unfolding on_probe_record tally
settled-uuid now interval r h = ground arith

module _ (now : Moment) (v : Uuid) (o : DeliveryOutcome) (d : Details)
    (s : Ledger RepairManager) where
  record_uuid : (append now v o d s).0.uuid ≡ (health_of s v).uuid
  unfolding append make_record
  record_uuid = refl

  append-listeners : (append now v o d s).1.listeners ≡ s.listeners
  unfolding append
  append-listeners = refl

  fired-verdicts :
      (u : Uuid)
      → verdicts u (append now v o d s).1.fired
        ≡ verdicts u s.fired + (if is_verdict_on u (append now v o d s).0 then 1 else 0)
  fired-verdicts u =
      ap (verdicts u) (append-fired now v o d s)
      ∙ count-append (is_verdict_on u) s.fired ((append now v o d s).0 ∷ [])
      ∙ omega arith

module _ (interval ident breaker_ident : ℕ) (u : Uuid) (n : ℕ) (c : Option ℕ) where
  -- Both listen, and the circuit is `c` for as long as there are `n` verdicts on probes of the device.
  pub record Holds (s : Ledger RepairManager) : Type 0 where
    pub listens : s.listeners ≡ both interval ident breaker_ident
    pub keyed : (health_of s u).uuid ≡ u
    pub least : n ≤ verdicts u s.fired
    pub held : verdicts u s.fired ≡ n → (health_of s u).circuit_open_until ≡ c

  store-Holds :
      (v : Uuid) (g : DeviceHealth) (s s' : Ledger RepairManager)
      → s'.devices ≡ (store v g s).devices
      → s'.listeners ≡ s.listeners
      → s'.fired ≡ s.fired
      → g.uuid ≡ (health_of s v).uuid
      → g.circuit_open_until ≡ (health_of s v).circuit_open_until
      → Holds s
      → Holds s'
  unfolding store
  store-Holds v g s s' d l f keyed circuit h = elim (Bool-cases (v == u)) [
    | inl e ↦
        let here : v ≡ u = (nat_beq_iff v u).0 e in
        let at : health_of s' u ≡ g = rw (d, here) (health_at-put_self s.devices u g) in
        record {
          listens = l ∙ h.listens;
          keyed = rw at (keyed ∙ rw here h.keyed);
          least = rw f h.least;
          held = λ same. rw at (circuit ∙ rw here (h.held (rw (← f) same)));
        }
    | inr ne ↦
        let at : health_of s' u ≡ health_of s u = rw d (health_at-put_ne s.devices v u g ne) in
        record {
          listens = l ∙ h.listens;
          keyed = rw at h.keyed;
          least = rw f h.least;
          held = λ same. rw at (h.held (rw (← f) same));
        }
  ]

  append-Holds_here :
      (now : Moment) (o : DeliveryOutcome) (d : Details) (s : Ledger RepairManager)
      → Holds s
      → Holds (append now u o d s).1
  append-Holds_here now o d s h =
      let r = (append now u o d s).0 in
      let own : r.uuid ≡ u = record_uuid now u o d s ∙ h.keyed in
      let more = fired-verdicts now u o d s u in
      let at = append-breaks interval ident breaker_ident now u o d s h.listens in
      record {
        listens = append-listeners now u o d s ∙ h.listens;
        keyed = rw at (settled-uuid now interval r (health_of s u) ∙ h.keyed);
        least = ground (arith, more, h.least);
        held = λ same. elim (Bool-cases (is_verdict_on u r)) [
          | inl verdict ↦ ground (arith, more, h.least)
          | inr other ↦
              ap (λ g. g.circuit_open_until) at
              ∙ unmoved now interval u r (health_of s u) own other
              ∙ h.held (ground (arith, more))
        ];
      }

  append-Holds :
      (now : Moment) (v : Uuid) (o : DeliveryOutcome) (d : Details) (s : Ledger RepairManager)
      → Holds s
      → Holds (append now v o d s).1
  append-Holds now v o d s h = elim (Bool-cases (v == u)) [
    | inl e ↦
        let here : u ≡ v = sym ((nat_beq_iff v u).0 e) in
        subst (λ w. Holds (append now w o d s).1) here (append-Holds_here now o d s h)
    | inr ne ↦
        let at = append-other now v o d s u ne in
        let more = fired-verdicts now v o d s u in
        record {
          listens = append-listeners now v o d s ∙ h.listens;
          keyed = rw at h.keyed;
          least = ground (arith, more, h.least);
          held = λ same. rw at (h.held (ground (arith, more, h.least)));
        }
  ]

  resolve-Holds :
      (now : Moment) (v : Uuid) (o : DeliveryOutcome) (error : Option Message) (responded : Bool)
      (observed : Observed) (unsolicited : Option String) (s : Ledger RepairManager)
      → Holds s
      → Holds (resolve now v o error responded observed unsolicited s).1
  unfolding resolve detach store
  resolve-Holds now v o error responded observed unsolicited s h =
      append-Holds now v o _ (detach v s) (
        store-Holds v (record (health_of s v) { pending = none }) s (detach v s) refl refl refl refl
          refl h)

  pub Holds-kept : IsKeptInside Holds
  unfolding update_identity store
  Holds-kept = record {
    looks = λ v s h. record {
      listens = device-listeners s v ∙ h.listens;
      keyed = rw (health_at-device s v u) h.keyed;
      least = rw (device-fired s v) h.least;
      held = λ same. rw (health_at-device s v u) (h.held (rw (← device-fired s v) same));
    };
    identity = λ now v i s h. store-Holds v _ s _ refl refl refl refl refl h;
    appends = λ now v o d s quiet h. append-Holds now v o d s h;
    resolves = resolve-Holds;
    enters = λ now v content_id source session duration s free h.
        store-Holds v _ s _ refl refl refl refl refl h;
    fires =
        expire-keeps Holds
          (λ timers s h. record {
            listens = h.listens;
            keyed = h.keyed;
            least = h.least;
            held = h.held;
          })
          (λ v i s h. store-Holds v _ s _ refl refl refl refl refl h)
          (λ now t s h.
            resolve-Holds now t.uuid timeout (some (no_transition t.duration)) false
              nothing_observed none s h);
  }
