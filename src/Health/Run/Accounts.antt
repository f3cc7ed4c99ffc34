-- ===== src/Health/Run/Accounts.antt =====
-- Every request that `DeliveryLedger` (custom_components/cast/health.py) begins is resolved by one
-- record, or is still pending.
use ha_int_gcast.Base.{
  ℕ, ◌+◌, ◌≡◌, refl, ap, Bool, Option, none, some, List, [], ◌∷◌, arith, count, count-append,
  is_some, nat_eq, if◌then◌else◌, String,
}
use ha_int_gcast.Base.Dict.{Dict, put, total, total-put}
use ha_int_gcast.Health.Outcome.{DeliveryOutcome}
use ha_int_gcast.Health.Types.{
  Uuid, Moment, Message, Observed, DeliveryRecord, PendingRequest, DeviceHealth, new_health,
}
use ha_int_gcast.Health.Verdicts.{forget_timer}
use ha_int_gcast.Health.Ledger.{
  Ledger, Urls, Details, health_at, health_of, append, resolve, resolution, detach, device, store,
  make_record,
}
use ha_int_gcast.Health.Ledger.Effects.{append-pending, append-devices, resolve-next_ident}
use ha_int_gcast.Health.Requests.{add_listener, remove_listener, update_identity, enter}
use ha_int_gcast.Health.Run.{Call, init, run}
use ha_int_gcast.Health.Run.Keeps.{IsKept, expire-keeps, run-keeps}

-- A record that resolved a request carries the time of the request.
abbrev pub is_answer : DeliveryRecord → Bool
is_answer r = is_some r.requested_at

abbrev pub one_if {ℓ} : {A : Type ℓ} → Option A → ℕ
one_if o = if is_some o then 1 else 0

abbrev pub outstanding : Dict Uuid DeviceHealth → ℕ
outstanding = total (λ h. one_if h.pending)

outstanding-put :
    (d : Dict Uuid DeviceHealth) (u : Uuid) (h : DeviceHealth)
    → outstanding (put d u h) + one_if (health_at d u).pending ≡ outstanding d + one_if h.pending
unfolding health_at
outstanding-put d u h = ground (arith, total-put (λ (g : DeviceHealth). one_if g.pending) d u h)

record IsAccounted {W : Type 0} (s : Ledger W) : Type 0 where
  accounted : s.next_ident ≡ count is_answer s.fired + outstanding s.devices

-- A resolution carries the time of the request exactly if there was one.
asked-resolution :
    (now : Moment) (p : Option PendingRequest) (error : Option Message) (responded : Bool)
    (observed : Observed) (unsolicited : Option String)
    → one_if (resolution now p error responded observed unsolicited).requested_at ≡ one_if p
unfolding resolution
asked-resolution now none error responded observed unsolicited = refl
asked-resolution now (some p) error responded observed unsolicited = refl

-- Clearing a handle leaves a pending request pending.
pub one_if-forget_timer :
    (ident : ℕ) (p : Option PendingRequest) → one_if (forget_timer ident p) ≡ one_if p
one_if-forget_timer ident none = refl
one_if-forget_timer ident (some p) = ground arith

module _ {W : Type 0} where
  outstanding-append :
      (now : Moment) (u : Uuid) (o : DeliveryOutcome) (d : Details) (s : Ledger W)
      → outstanding (append now u o d s).1.devices ≡ outstanding s.devices
  outstanding-append now u o d s =
      let h = health_of (append now u o d s).1 u in
      omega (
        arith,
        ap outstanding (append-devices now u o d s),
        outstanding-put s.devices u h,
        ap one_if (append-pending now u o d s),
      )

  outstanding-detach :
      (s : Ledger W) (u : Uuid)
      → outstanding (detach u s).devices + one_if (health_of s u).pending ≡ outstanding s.devices
  unfolding detach
  outstanding-detach s u =
      omega (arith, outstanding-put s.devices u (record (health_of s u) { pending = none }))

  outstanding-resolve :
      (now : Moment) (u : Uuid) (o : DeliveryOutcome) (error : Option Message) (responded : Bool)
      (observed : Observed) (unsolicited : Option String) (s : Ledger W)
      → outstanding (resolve now u o error responded observed unsolicited s).1.devices
          + one_if (health_of s u).pending
        ≡ outstanding s.devices
  unfolding resolve
  outstanding-resolve now u o error responded observed unsolicited s =
      omega (arith, outstanding-append now u o _ (detach u s), outstanding-detach s u)

  answers-append :
      (now : Moment) (u : Uuid) (o : DeliveryOutcome) (d : Details) (s : Ledger W)
      → count is_answer (append now u o d s).1.fired
        ≡ count is_answer s.fired + one_if d.requested_at
  unfolding append make_record
  answers-append now u o d s =
      omega (arith, count-append is_answer s.fired ((append now u o d s).0 ∷ []))

  looks-IsAccounted : (u : Uuid) (s : Ledger W) → IsAccounted s → IsAccounted (device s u)
  unfolding device
  looks-IsAccounted u s h =
      ground (arith, total-put (λ (g : DeviceHealth). one_if g.pending) s.devices u (new_health u))

  store-IsAccounted :
      (u : Uuid) (g : DeviceHealth) (s : Ledger W)
      → one_if g.pending ≡ one_if (health_of s u).pending
      → IsAccounted s
      → IsAccounted (store u g s)
  unfolding store
  store-IsAccounted u g s e h = omega (arith, outstanding-put s.devices u g)

  append-IsAccounted :
      (now : Moment) (u : Uuid) (o : DeliveryOutcome) (d : Details) (s : Ledger W)
      → d.requested_at ≡ none
      → IsAccounted s
      → IsAccounted (append now u o d s).1
  append-IsAccounted now u o d s e h = record {
    accounted =
        unfold append in
        omega (
          arith,
          h.accounted,
          answers-append now u o d s,
          ap one_if e,
          outstanding-append now u o d s,
        );
  }

  -- A resolution adds one answer if a request was pending, and then none is.
  answers-resolve :
      (now : Moment) (u : Uuid) (o : DeliveryOutcome) (error : Option Message) (responded : Bool)
      (observed : Observed) (unsolicited : Option String) (s : Ledger W)
      → count is_answer (resolve now u o error responded observed unsolicited s).1.fired
        ≡ count is_answer s.fired + one_if (health_of s u).pending
  unfolding resolve detach
  answers-resolve now u o error responded observed unsolicited s =
      let p = (health_of s u).pending in
      let d = resolution now p error responded observed unsolicited in
      omega (
        arith,
        answers-append now u o d (detach u s),
        asked-resolution now p error responded observed unsolicited,
      )

  resolve-IsAccounted :
      (now : Moment) (u : Uuid) (o : DeliveryOutcome) (error : Option Message) (responded : Bool)
      (observed : Observed) (unsolicited : Option String) (s : Ledger W)
      → IsAccounted s
      → IsAccounted (resolve now u o error responded observed unsolicited s).1
  resolve-IsAccounted now u o error responded observed unsolicited s h = record {
    accounted = omega (
      arith,
      h.accounted,
      resolve-next_ident now u o error responded observed unsolicited s,
      answers-resolve now u o error responded observed unsolicited s,
      outstanding-resolve now u o error responded observed unsolicited s,
    );
  }

  enter-IsAccounted :
      (now : Moment) (u : Uuid) (content_id source : String) (session : Option ℕ) (duration : ℕ)
      (s : Ledger W)
      → (health_of s u).pending ≡ none
      → IsAccounted s
      → IsAccounted (enter now u content_id source session duration s)
  enter-IsAccounted now u content_id source session duration s e h = record {
    accounted = omega (arith, h.accounted, ap one_if e, outstanding-put s.devices u _);
  }

  IsAccounted-kept : IsKept {W = W} IsAccounted
  unfolding add_listener remove_listener update_identity
  IsAccounted-kept = record {
    adds = λ l s h. record { accounted = h.accounted };
    removes = λ ident s h. record { accounted = h.accounted };
    looks = looks-IsAccounted;
    identity = λ now u i s h. store-IsAccounted u _ s refl h;
    appends = append-IsAccounted;
    resolves = resolve-IsAccounted;
    enters = enter-IsAccounted;
    fires =
        expire-keeps IsAccounted (λ timers s h. record { accounted = h.accounted })
          (λ u ident s h.
            store-IsAccounted u _ s (one_if-forget_timer ident (health_of s u).pending) h)
          (λ now t s h. resolve-IsAccounted now t.uuid _ _ _ _ _ s h);
  }

  -- After any calls, the requests begun are as many as the records that answer a request and the
  -- requests still pending: no request is lost, and none is resolved twice.
  pub requests-accounted :
      (urls : Urls) (w : W) (cs : List (Moment × Call W))
      → let s = run (init urls w) cs in
        s.next_ident ≡ count is_answer s.fired + outstanding s.devices
  requests-accounted urls w cs =
      let start : IsAccounted (init urls w) = unfold init in record { accounted = refl } in
      (run-keeps IsAccounted-kept (init urls w) cs start).accounted
