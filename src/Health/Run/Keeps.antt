-- ===== src/Health/Run/Keeps.antt =====
-- One induction for every invariant of the ledger (custom_components/cast/health.py): it is enough
-- that the parts of which the operations are composed keep it.
use ha_int_gcast.Base.{
  ℕ, ◌≡◌, refl, String, Bool, true, false, Option, none, some, List, [], ◌∷◌, if_elim, nat_eq, not,
  option_beq, string_eq, ap, arith,
}
use ha_int_gcast.Base.Dict.{Dict, get, remove}
use ha_int_gcast.Health.Outcome.{DeliveryOutcome, success, timeout}
use ha_int_gcast.Health.Types.{
  Uuid, Moment, Message, no_transition, Observed, nothing_observed, PendingRequest,
}
use ha_int_gcast.Health.Verdicts.{
  Identity, Status, is_request, forget_timer, reports_error, is_foreign, is_from, is_transition,
  is_stale_session, observed_by,
}
use ha_int_gcast.Health.Listener.{Listener}
use ha_int_gcast.Health.Ledger.{Ledger, Timer, store, Details, device, health_of, append, resolve}
use ha_int_gcast.Health.Ledger.Effects.{resolve-pending, health_at-device}
use ha_int_gcast.Health.Requests.{
  add_listener, remove_listener, update_identity, supersede, enter, begin_request, fire_timer,
  expired, expire, media_status, error_status, progress_status, record_observation,
  load_media_failed, load_failed_with, request_failed, record_outcome,
}
use ha_int_gcast.Health.Run.{
  Call, adds_listener, removes_listener, looks_up, identifies, begins, expires, reports,
  rejects_load, raises, records_outcome, step, run,
}

-- `P` survives every part but a change of the listeners. `appends` is about records that resolve no request.
pub record IsKeptInside {W : Type 0} (P : Ledger W → Type 0) : Type 0 where
  pub looks : (u : Uuid) (s : Ledger W) → P s → P (device s u)
  pub identity :
      (now : Moment) (u : Uuid) (i : Identity) (s : Ledger W) → P s → P (update_identity now u i s)
  pub appends :
      (now : Moment) (u : Uuid) (o : DeliveryOutcome) (d : Details) (s : Ledger W)
      → d.requested_at ≡ none
      → P s
      → P (append now u o d s).1
  pub resolves :
      (now : Moment) (u : Uuid) (o : DeliveryOutcome) (error : Option Message) (responded : Bool)
      (observed : Observed) (unsolicited : Option String) (s : Ledger W)
      → P s
      → P (resolve now u o error responded observed unsolicited s).1
  pub enters :
      (now : Moment) (u : Uuid) (content_id source : String) (session : Option ℕ) (duration : ℕ)
      (s : Ledger W)
      → (health_of s u).pending ≡ none
      → P s
      → P (enter now u content_id source session duration s)
  pub fires : (now : Moment) (handle : ℕ) (s : Ledger W) → P s → P (expire now handle s)

-- `P` survives every part. `appends` is about records that resolve no request.
pub record IsKept {W : Type 0} (P : Ledger W → Type 0) : Type 0 where
  pub adds : (l : Listener W) (s : Ledger W) → P s → P (add_listener l s)
  pub removes : (ident : ℕ) (s : Ledger W) → P s → P (remove_listener ident s)
  pub looks : (u : Uuid) (s : Ledger W) → P s → P (device s u)
  pub identity :
      (now : Moment) (u : Uuid) (i : Identity) (s : Ledger W) → P s → P (update_identity now u i s)
  pub appends :
      (now : Moment) (u : Uuid) (o : DeliveryOutcome) (d : Details) (s : Ledger W)
      → d.requested_at ≡ none
      → P s
      → P (append now u o d s).1
  pub resolves :
      (now : Moment) (u : Uuid) (o : DeliveryOutcome) (error : Option Message) (responded : Bool)
      (observed : Observed) (unsolicited : Option String) (s : Ledger W)
      → P s
      → P (resolve now u o error responded observed unsolicited s).1
  pub enters :
      (now : Moment) (u : Uuid) (content_id source : String) (session : Option ℕ) (duration : ℕ)
      (s : Ledger W)
      → (health_of s u).pending ≡ none
      → P s
      → P (enter now u content_id source session duration s)
  pub fires : (now : Moment) (handle : ℕ) (s : Ledger W) → P s → P (expire now handle s)

pub inside : {W : Type 0} {P : Ledger W → Type 0} → IsKept P → IsKeptInside P
inside k = record {
  looks = k.looks;
  identity = k.identity;
  appends = k.appends;
  resolves = k.resolves;
  enters = k.enters;
  fires = k.fires;
}

-- Does a call change the listeners?
abbrev pub is_listening : {W : Type 0} → Call W → Bool
is_listening (adds_listener l) = true
is_listening (removes_listener ident) = true
is_listening _ = false

-- A timer that fires, for a `P` that the clearing of a handle does not touch.
pub expire-keeps :
    {W : Type 0} (P : Ledger W → Type 0)
    → ((timers : Dict ℕ Timer) (s : Ledger W) → P s → P (record s { timers = timers }))
    → ((u : Uuid) (ident : ℕ) (s : Ledger W)
        → P s
        → P (
            store u
              (record (health_of s u) { pending = forget_timer ident (health_of s u).pending })
              s))
    → ((now : Moment) (t : Timer) (s : Ledger W)
        → P s
        → P
            (resolve now t.uuid timeout
              (some (no_transition t.duration))
              false
              nothing_observed
              none
              s).1)
    → (now : Moment) (handle : ℕ) (s : Ledger W) → P s
    → P (expire now handle s)
unfolding expire expired
expire-keeps P untimes forgets resolves now handle s h = fired (get s.timers handle)
  where
    fired : (o : Option Timer) → P (fire_timer now handle o s)
    fired none = h
    fired (some t) =
        let s' = record s { timers = remove s.timers handle } in
        let h' = forgets t.uuid t.ident s' (untimes (remove s.timers handle) s h) in
        if_elim P (is_request (health_of s t.uuid).pending t.ident) _ _ (resolves now t _ h') h'

module _ {W : Type 0} {P : Ledger W → Type 0} (k : IsKeptInside P) where
  supersede-keeps :
      (now : Moment) (u : Uuid) (pending : Option PendingRequest) (s : Ledger W)
      → P s
      → P (supersede now u pending s)
  supersede-keeps now u none s h = h
  supersede-keeps now u (some old) s h = k.resolves now u _ _ _ _ _ s h

  error_status-keeps :
      (now : Moment) (u : Uuid) (st : Status) (pending : Option PendingRequest) (s : Ledger W)
      → P s
      → P (error_status now u st pending s)
  unfolding record_observation
  error_status-keeps now u st none s h = k.resolves now u _ _ _ _ _ s h
  error_status-keeps now u st (some p) s h =
      if_elim P (is_foreign st.content_id p) _ _ (k.appends now u _ _ s refl h)
        (k.resolves now u _ _ _ _ _ s h)

  progress_status-keeps :
      (now : Moment) (u : Uuid) (st : Status) (pending : Option PendingRequest) (s : Ledger W)
      → P s
      → P (progress_status now u st pending s)
  progress_status-keeps now u st none s h = h
  progress_status-keeps now u st (some p) s h =
      if_elim P (not (option_beq st.content_id (some p.content_id))) s _ h (
        if_elim P (not (is_transition st.player_state)) s _ h (
          if_elim P (is_stale_session p.session_at_request st.media_session_id) s _ h
            (k.resolves now u success none true (observed_by st) none s h)))

  load_failed_with-keeps :
      (now : Moment) (u : Uuid) (m : Message) (pending : Option PendingRequest) (s : Ledger W)
      → P s
      → P (load_failed_with now u m pending s)
  load_failed_with-keeps now u m none s h = h
  load_failed_with-keeps now u m (some p) s h = k.resolves now u _ _ _ _ _ s h

-- Once superseded, the device has no pending request.
supersede-pending :
    {W : Type 0} (now : Moment) (u : Uuid) (pending : Option PendingRequest) (s : Ledger W)
    → (health_of s u).pending ≡ pending
    → (health_of (supersede now u pending s) u).pending ≡ none
supersede-pending now u none s e = e
supersede-pending now u (some old) s e = resolve-pending now u _ _ _ _ _ s

module _ {W : Type 0} {P : Ledger W → Type 0} (k : IsKeptInside P) where
  pub inside-keeps :
      (now : Moment) (c : Call W) (s : Ledger W) → is_listening c ≡ false → P s → P (step now c s)
  unfolding step begin_request media_status load_media_failed request_failed record_outcome
  inside-keeps now (adds_listener l) s out h = ground arith
  inside-keeps now (removes_listener ident) s out h = ground arith
  inside-keeps now (looks_up u) s out h = k.looks u s h
  inside-keeps now (identifies u i) s out h = k.identity now u i s h
  inside-keeps now (begins u content_id source session duration) s out h =
      let pending = (health_of s u).pending in
      k.enters now u content_id source session duration _
        (supersede-pending now u pending (device s u)
          (ap (λ g. g.pending) (health_at-device s u u)))
        (supersede-keeps k now u pending (device s u) (k.looks u s h))
  inside-keeps now (expires handle) s out h = k.fires now handle s h
  inside-keeps now (reports u st) s out h =
      let looked = k.looks u s h in
      if_elim P (reports_error st) _ _ (error_status-keeps k now u st _ _ looked)
        (progress_status-keeps k now u st _ _ looked)
  inside-keeps now (rejects_load u item code) s out h =
      load_failed_with-keeps k now u _ _ _ (k.looks u s h)
  inside-keeps now (raises u f connected launch_failure) s out h =
      k.resolves now u _ _ _ _ _ _ (k.looks u s h)
  inside-keeps now (records_outcome u o source content_id error responded) s out h =
      let looked = k.looks u s h in
      if_elim P (is_from (health_of s u).pending source) _ _ (k.resolves now u _ _ _ _ _ _ looked)
        (k.appends now u _ _ _ refl looked)

module _ {W : Type 0} {P : Ledger W → Type 0} (k : IsKept P) where
  pub step-keeps : (now : Moment) (c : Call W) (s : Ledger W) → P s → P (step now c s)
  unfolding step
  step-keeps now (adds_listener l) s h = k.adds l s h
  step-keeps now (removes_listener ident) s h = k.removes ident s h
  step-keeps now (looks_up u) s h = inside-keeps (inside k) now (looks_up u) s refl h
  step-keeps now (identifies u i) s h = inside-keeps (inside k) now (identifies u i) s refl h
  step-keeps now (begins u content_id source session duration) s h =
      inside-keeps (inside k) now (begins u content_id source session duration) s refl h
  step-keeps now (expires handle) s h = inside-keeps (inside k) now (expires handle) s refl h
  step-keeps now (reports u st) s h = inside-keeps (inside k) now (reports u st) s refl h
  step-keeps now (rejects_load u item code) s h =
      inside-keeps (inside k) now (rejects_load u item code) s refl h
  step-keeps now (raises u f connected launch_failure) s h =
      inside-keeps (inside k) now (raises u f connected launch_failure) s refl h
  step-keeps now (records_outcome u o source content_id error responded) s h =
      inside-keeps (inside k) now (records_outcome u o source content_id error responded) s refl h

  pub run-keeps : (s : Ledger W) (cs : List (Moment × Call W)) → P s → P (run s cs)
  unfolding run
  run-keeps s [] h = h
  run-keeps s ((now, c) ∷ cs) h = run-keeps (step now c s) cs (step-keeps now c s h)
