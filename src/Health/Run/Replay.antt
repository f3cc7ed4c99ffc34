-- ===== src/Health/Run/Replay.antt =====
-- The state of every device of `DeliveryLedger` (custom_components/cast/health.py) is the history of
-- its deliveries, as the events on the bus tell it.
use ha_int_gcast.Base.{
  ℕ, ◌≡◌, refl, String, Bool, Option, none, some, List, arith, inl, inr, ==-refl, Bool-cases,
  nat_beq_iff, nat_eq, ◌==◌, if◌then◌else◌, ◌∷◌,
}
use ha_int_gcast.Health.Outcome.{DeliveryOutcome}
use ha_int_gcast.Base.Dict.{get}
use ha_int_gcast.Health.Types.{Uuid, Moment, Message, Observed, DeliveryRecord, DeviceHealth}
use ha_int_gcast.Health.Verdicts.{Identity, forget_timer}
use ha_int_gcast.Health.Listener.{with_circuit}
use ha_int_gcast.Health.Ledger.{
  Ledger, Urls, Details, health_of, store, append, resolve, detach, tally, make_record, health_at,
}
use ha_int_gcast.Health.Ledger.Effects.{
  health_at-put_self, health_at-put_ne, health_at-device, append-fired, append-settles,
  append-other, device-fired,
}
use ha_int_gcast.Health.History.{
  last_verdict, failures_in_a_row, timeouts_in_a_row, records_of, outcomes, newest,
  records_of-append,
}
use ha_int_gcast.Health.Requests.{
  add_listener, remove_listener, update_identity, identified, enter, new_request,
}
use ha_int_gcast.Health.Run.{Call, init, run}
use ha_int_gcast.Health.Run.Keeps.{IsKept, expire-keeps, run-keeps}

-- `h` is what the records `rs` of the device `u`, newest first, make of it.
pub record Tells (u : Uuid) (rs : List DeliveryRecord) (h : DeviceHealth) : Type 0 where
  pub keyed : h.uuid ≡ u
  pub record_kept : h.last_record ≡ newest rs
  pub outcome : h.last_outcome ≡ last_verdict (outcomes rs)
  pub failures : h.consecutive_failures ≡ failures_in_a_row (outcomes rs)
  pub timeouts : h.consecutive_timeouts ≡ timeouts_in_a_row (outcomes rs)

Tells-tally :
    (u : Uuid) (rs : List DeliveryRecord) (h : DeviceHealth) (now : Moment) (r : DeliveryRecord)
    (circuit : Option ℕ)
    → Tells u rs h
    → Tells u (r ∷ rs) (with_circuit (tally now r h) circuit)
unfolding tally
Tells-tally u rs h now r circuit t = ground arith

-- `g` and `h` agree on what the deliveries make of a device.
record SameDelivery (g h : DeviceHealth) : Type 0 where
  same_uuid : g.uuid ≡ h.uuid
  same_record : g.last_record ≡ h.last_record
  same_outcome : g.last_outcome ≡ h.last_outcome
  same_failures : g.consecutive_failures ≡ h.consecutive_failures
  same_timeouts : g.consecutive_timeouts ≡ h.consecutive_timeouts

Tells-same :
    (u : Uuid) (rs : List DeliveryRecord) (g h : DeviceHealth)
    → SameDelivery g h
    → Tells u rs h
    → Tells u rs g
Tells-same u rs g h same t = ground arith

module _ {W : Type 0} where
  pub record IsReplay (s : Ledger W) : Type 0 where
    pub at : (v : Uuid) → Tells v (records_of v s.fired) (health_of s v)

  pub IsReplay-init : (urls : Urls) (w : W) → IsReplay (init urls w)
  unfolding init health_at get
  IsReplay-init urls w = record { at = λ v. ground arith }

  -- A write that leaves the delivery fields of the device as they are.
  store-IsReplay :
      (u : Uuid) (g : DeviceHealth) (s : Ledger W)
      → SameDelivery g (health_of s u)
      → IsReplay s
      → IsReplay (store u g s)
  unfolding store
  store-IsReplay u g s same h = record {
    at = λ v. elim (Bool-cases (u == v)) [
      | inl e ↦
          let here : u ≡ v = (nat_beq_iff u v).0 e in
          rw (← here) (
            rw (health_at-put_self s.devices u g)
              (Tells-same u (records_of u s.fired) g (health_of s u) same (h.at u)))
      | inr ne ↦ rw (health_at-put_ne s.devices u v g ne) (h.at v)
    ];
  }

  -- The record of a device carries the uuid under which the ledger holds it.
  uuid-append :
      (now : Moment) (u : Uuid) (o : DeliveryOutcome) (d : Details) (s : Ledger W)
      → (append now u o d s).0.uuid ≡ (health_of s u).uuid
  unfolding append make_record
  uuid-append now u o d s = refl

  records_of-fired :
      (now : Moment) (u : Uuid) (o : DeliveryOutcome) (d : Details) (s : Ledger W) (v : Uuid)
      → IsReplay s
      → records_of v (append now u o d s).1.fired
        ≡ (if u == v then (append now u o d s).0 ∷ records_of v s.fired else records_of v s.fired)
  records_of-fired now u o d s v h =
      rw (append-fired now u o d s, records_of-append, uuid-append now u o d s, (h.at u).keyed)

  append-here :
      (now : Moment) (u : Uuid) (o : DeliveryOutcome) (d : Details) (s : Ledger W)
      → IsReplay s
      → Tells u (records_of u (append now u o d s).1.fired) (health_of (append now u o d s).1 u)
  append-here now u o d s h =
      rw (records_of-fired now u o d s u h, ==-refl u, append-settles now u o d s)
        (Tells-tally u (records_of u s.fired) (health_of s u) now (append now u o d s).0
          (health_of (append now u o d s).1 u).circuit_open_until (h.at u))

  append-IsReplay :
      (now : Moment) (u : Uuid) (o : DeliveryOutcome) (d : Details) (s : Ledger W)
      → IsReplay s
      → IsReplay (append now u o d s).1
  append-IsReplay now u o d s h = record {
    at = λ v. elim (Bool-cases (u == v)) [
      | inl e ↦ let here : u ≡ v = (nat_beq_iff u v).0 e in rw (← here) (append-here now u o d s h)
      | inr ne ↦ rw (append-other now u o d s v ne, records_of-fired now u o d s v h, ne) (h.at v)
    ];
  }

  detach-IsReplay : (u : Uuid) (s : Ledger W) → IsReplay s → IsReplay (detach u s)
  unfolding detach store
  detach-IsReplay u s h = record {
    at = (store-IsReplay u (record (health_of s u) { pending = none }) s (ground arith) h).at;
  }

  resolve-IsReplay :
      (now : Moment) (u : Uuid) (o : DeliveryOutcome) (error : Option Message) (responded : Bool)
      (observed : Observed) (unsolicited : Option String) (s : Ledger W)
      → IsReplay s
      → IsReplay (resolve now u o error responded observed unsolicited s).1
  unfolding resolve
  resolve-IsReplay now u o error responded observed unsolicited s h =
      append-IsReplay now u o _ (detach u s) (detach-IsReplay u s h)

  identity-IsReplay :
      (now : Moment) (u : Uuid) (i : Identity) (s : Ledger W)
      → IsReplay s
      → IsReplay (update_identity now u i s)
  unfolding update_identity
  identity-IsReplay now u i s h =
      store-IsReplay u (identified now i (health_of s u)) s (ground arith) h

  enter-IsReplay :
      (now : Moment) (u : Uuid) (content_id source : String) (session : Option ℕ) (duration : ℕ)
      (s : Ledger W)
      → IsReplay s
      → IsReplay (enter now u content_id source session duration s)
  unfolding store
  enter-IsReplay now u content_id source session duration s h = record {
    at =
        let p = new_request now content_id source session s in
        (store-IsReplay u (record (health_of s u) { pending = some p }) s (ground arith) h).at;
  }

  forget-IsReplay :
      (u : Uuid) (ident : ℕ) (s : Ledger W)
      → IsReplay s
      → IsReplay (
          store u
            (record (health_of s u) { pending = forget_timer ident (health_of s u).pending })
            s)
  forget-IsReplay u ident s h =
      let p = forget_timer ident (health_of s u).pending in
      store-IsReplay u (record (health_of s u) { pending = p }) s (ground arith) h

  pub IsReplay-kept : IsKept {W = W} IsReplay
  unfolding add_listener remove_listener
  IsReplay-kept = record {
    adds = λ l s h. record { at = h.at };
    removes = λ ident s h. record { at = h.at };
    looks = λ u s h. record { at = λ v. rw (health_at-device s u v, device-fired s u) (h.at v) };
    identity = identity-IsReplay;
    appends = λ now u o d s e h. append-IsReplay now u o d s h;
    resolves = resolve-IsReplay;
    enters = λ now u content_id source session duration s e h.
        enter-IsReplay now u content_id source session duration s h;
    fires =
        expire-keeps IsReplay (λ timers s h. record { at = h.at }) forget-IsReplay
          (λ now t s h. resolve-IsReplay now t.uuid _ _ _ _ _ s h);
  }

  -- After any calls, every device shows exactly what the history of its records makes of it.
  pub devices-run :
      (urls : Urls) (w : W) (cs : List (Moment × Call W)) (v : Uuid)
      → let s = run (init urls w) cs in Tells v (records_of v s.fired) (health_of s v)
  devices-run urls w cs v = (run-keeps IsReplay-kept (init urls w) cs (IsReplay-init urls w)).at v
