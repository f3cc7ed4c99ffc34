-- ===== src/Health/Isolation.antt =====
-- A callback about one device leaves every other device of `DeliveryLedger`
-- (custom_components/cast/health.py) as it is.
use ha_int_gcast.Base.{
  ℕ, ◌≡◌, refl, ◌∙◌, Bool, true, false, Option, none, some, ◌==◌, nat_eq, not, option_beq,
  string_eq, if_elim,
}
use ha_int_gcast.Base.Dict.{get, remove}
use ha_int_gcast.Health.Outcome.{success, timeout}
use ha_int_gcast.Health.Types.{
  Uuid, Moment, Message, no_transition, load_rejected, nothing_observed, PendingRequest,
}
use ha_int_gcast.Health.Verdicts.{
  Status, observed_by, reports_error, is_foreign, is_transition, is_stale_session, is_request,
  is_from, forget_timer,
}
use ha_int_gcast.Health.Ledger.{Ledger, Timer, health_of, device, store}
use ha_int_gcast.Health.Ledger.Effects.{
  health_at-put_ne, health_at-device, append-other, resolve-other,
}
use ha_int_gcast.Health.Requests.{
  add_listener, remove_listener, update_identity, identified, new_request, begin_request, supersede,
  expire, expired, fire_timer, media_status, error_status, progress_status, record_observation,
  load_media_failed, load_failed_with, request_failed, record_outcome,
}
use ha_int_gcast.Health.Run.{
  Call, adds_listener, removes_listener, looks_up, identifies, begins, expires, reports,
  rejects_load, raises, records_outcome, step,
}

abbrev rings_for : Option Timer → Uuid → Bool
rings_for none v = false
rings_for (some t) v = t.uuid == v

-- Is the call about the device `v`? A timer is about the device of its request.
abbrev pub concerns : {W : Type 0} → Call W → Ledger W → Uuid → Bool
concerns (adds_listener l) s v = false
concerns (removes_listener ident) s v = false
concerns (looks_up u) s v = u == v
concerns (identifies u i) s v = u == v
concerns (begins u content_id source session duration) s v = u == v
concerns (expires handle) s v = rings_for (get s.timers handle) v
concerns (reports u st) s v = u == v
concerns (rejects_load u item code) s v = u == v
concerns (raises u f connected launch_failure) s v = u == v
concerns (records_outcome u o source content_id error responded) s v = u == v

module _ {W : Type 0} (now : Moment) (u v : Uuid) (ne : (u == v) ≡ false) where
  abbrev Same : Ledger W → Ledger W → Type 0
  Same s s' = health_of s' v ≡ health_of s v

  supersede-Same :
      (pending : Option PendingRequest) (s : Ledger W) → Same s (supersede now u pending s)
  supersede-Same none s = refl
  supersede-Same (some old) s = resolve-other now u _ _ _ _ _ s v ne

  error_status-Same :
      (st : Status) (pending : Option PendingRequest) (s : Ledger W)
      → Same s (error_status now u st pending s)
  unfolding record_observation
  error_status-Same st none s = resolve-other now u _ _ _ _ _ s v ne
  error_status-Same st (some p) s =
      if_elim (Same s) (is_foreign st.content_id p) _ _ (append-other now u _ _ s v ne)
        (resolve-other now u _ _ _ _ _ s v ne)

  progress_status-Same :
      (st : Status) (pending : Option PendingRequest) (s : Ledger W)
      → Same s (progress_status now u st pending s)
  progress_status-Same st none s = refl
  progress_status-Same st (some p) s =
      if_elim (Same s) (not (option_beq st.content_id (some p.content_id))) s _ refl (
        if_elim (Same s) (not (is_transition st.player_state)) s _ refl (
          if_elim (Same s) (is_stale_session p.session_at_request st.media_session_id) s _ refl
            (resolve-other now u success none true (observed_by st) none s v ne)))

  load_failed_with-Same :
      (m : Message) (pending : Option PendingRequest) (s : Ledger W)
      → Same s (load_failed_with now u m pending s)
  load_failed_with-Same m none s = refl
  load_failed_with-Same m (some p) s = resolve-other now u _ _ _ _ _ s v ne

module _ {W : Type 0} (v : Uuid) where
  abbrev Keeps : Ledger W → Ledger W → Type 0
  Keeps s s' = health_of s' v ≡ health_of s v

  expire-isolates :
      (now : Moment) (handle : ℕ) (o : Option Timer) (s : Ledger W)
      → rings_for o v ≡ false
      → Keeps s (fire_timer now handle o s)
  unfolding expired store
  expire-isolates now handle none s ne = refl
  expire-isolates now handle (some t) s ne =
      let h = health_of s t.uuid in
      let g = record h { pending = forget_timer t.ident h.pending } in
      let rung = store t.uuid g (record s { timers = remove s.timers handle }) in
      let kept = health_at-put_ne s.devices t.uuid v g ne in
      if_elim (Keeps s) (is_request h.pending t.ident) _ rung
        (resolve-other now t.uuid timeout (some (no_transition t.duration)) false nothing_observed
            none rung v ne
          ∙ kept)
        kept

  -- A call leaves a device that it is not about exactly as it was: identity, history, counters,
  -- circuit and pending request.
  pub step-isolates :
      (now : Moment) (c : Call W) (s : Ledger W)
      → concerns c s v ≡ false
      → health_of (step now c s) v ≡ health_of s v
  unfolding step add_listener remove_listener update_identity store begin_request media_status
      load_media_failed request_failed record_outcome expire
  step-isolates now (adds_listener l) s ne = refl
  step-isolates now (removes_listener ident) s ne = refl
  step-isolates now (looks_up u) s ne = health_at-device s u v
  step-isolates now (identifies u i) s ne =
      health_at-put_ne s.devices u v (identified now i (health_of s u)) ne
  step-isolates now (begins u content_id source session duration) s ne =
      let before = supersede now u (health_of s u).pending (device s u) in
      let p = new_request now content_id source session before in
      health_at-put_ne before.devices u v (record (health_of before u) { pending = some p }) ne
      ∙ supersede-Same now u v ne (health_of s u).pending (device s u)
      ∙ health_at-device s u v
  step-isolates now (expires handle) s ne = expire-isolates now handle (get s.timers handle) s ne
  step-isolates now (reports u st) s ne =
      let looked = device s u in
      let pending = (health_of s u).pending in
      if_elim (Keeps looked) (reports_error st) _ _ (error_status-Same now u v ne st pending looked)
        (progress_status-Same now u v ne st pending looked)
      ∙ health_at-device s u v
  step-isolates now (rejects_load u item code) s ne =
      load_failed_with-Same now u v ne (load_rejected code item) (health_of s u).pending
        (device s u)
      ∙ health_at-device s u v
  step-isolates now (raises u f connected launch_failure) s ne =
      resolve-other now u _ _ _ _ _ (device s u) v ne ∙ health_at-device s u v
  step-isolates now (records_outcome u o source content_id error responded) s ne =
      let looked = device s u in
      if_elim (Keeps looked) (is_from (health_of s u).pending source) _ _
        (resolve-other now u _ _ _ _ _ looked v ne) (append-other now u _ _ looked v ne)
      ∙ health_at-device s u v
