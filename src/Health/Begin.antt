-- ===== src/Health/Begin.antt =====
-- `async_begin_request` (custom_components/cast/health.py).
use ha_int_gcast.Base.{
  ℕ, ◌≡◌, refl, ◌∙◌, String, false, Option, none, some, ◌++◌, ◌∷◌, [], arith, ==-refl, nat_eq,
}
use ha_int_gcast.Base.Dict.{get-put_self}
use ha_int_gcast.Health.Outcome.{unknown}
use ha_int_gcast.Health.Types.{
  Uuid, Moment, superseded, nothing_observed, DeliveryRecord, PendingRequest, DeviceHealth,
}
use ha_int_gcast.Health.Listener.{with_circuit}
use ha_int_gcast.Health.Ledger.{Ledger, device, health_at, health_of, resolve, tally}
use ha_int_gcast.Health.Ledger.Effects.{
  resolve-settles, resolve-outcome, health_at-put_self, health_at-device,
}
use ha_int_gcast.Health.Requests.{begin_request, supersede, enter, new_request, new_timer}
use ha_int_gcast.Health.Run.Timers.{pending_of, pending_of-enter}
use ha_int_gcast.Health.Expiry.{Deadline}
use ha_int_gcast.Health.Answers.{IsAnswer, resolve-Settled, Settled-device, pending_of-device}

-- What a device shows of its deliveries.
pub record Shows (g h : DeviceHealth) : Type 0 where
  pub outcome : g.last_outcome ≡ h.last_outcome
  pub success : g.last_success ≡ h.last_success
  pub failures : g.consecutive_failures ≡ h.consecutive_failures
  pub timeouts : g.consecutive_timeouts ≡ h.consecutive_timeouts

Shows-trans : {f g h : DeviceHealth} → Shows f g → Shows g h → Shows f h
Shows-trans a b = ground arith

-- An outcome that is no verdict changes nothing that the device shows.
unknown-Shows :
    (now : Moment) (r : DeliveryRecord) (h : DeviceHealth) (circuit : Option ℕ)
    → r.outcome ≡ unknown
    → Shows (with_circuit (tally now r h) circuit) h
unfolding tally
unknown-Shows now r h circuit e = ground arith

-- `s'` has a request pending on `u` as it was asked for, with a live timer of the given duration.
pub record Begun {W : Type 0} (now : Moment) (u : Uuid) (content_id source : String)
    (session : Option ℕ) (duration : ℕ) (s' : Ledger W) : Type 0 where
  pub request : PendingRequest
  pub pending : pending_of s' u ≡ some request
  pub content : request.content_id ≡ content_id
  pub source_kept : request.source ≡ source
  pub session_kept : request.session_at_request ≡ session
  pub asked : request.requested_at ≡ now.utc
  pub started : request.started ≡ now.monotonic
  pub deadline : Deadline s' u request
  pub lasts : deadline.timer.duration ≡ duration

module _ {W : Type 0} (now : Moment) (u : Uuid) (content_id source : String) (session : Option ℕ)
    (duration : ℕ) where
  -- The new request is pending with the content, source and session that were asked for, and its
  -- timer is live for the given duration, whatever was pending before.
  pub begin-Begun :
      (s : Ledger W)
      → Begun now u content_id source session duration
          (begin_request now u content_id source session duration s)
  unfolding begin_request
  begin-Begun s =
      let before = supersede now u (pending_of s u) (device s u) in
      record {
        request = new_request now content_id source session before;
        pending =
            pending_of-enter now u content_id source session duration before u ∙ rw (==-refl u);
        content = refl;
        source_kept = refl;
        session_kept = refl;
        asked = refl;
        started = refl;
        deadline = record {
          handle = before.next_handle;
          timer = new_timer u duration before;
          held = refl;
          live = get-put_self before.timers before.next_handle (new_timer u duration before);
          whose = refl;
          which = refl;
        };
        lasts = refl;
      }

  superseded-Shows :
      (s : Ledger W)
      → let g = (resolve now u unknown (some superseded) false nothing_observed none s).1 in
        Shows (health_of g u) (health_of s u)
  superseded-Shows s =
      let r = resolve now u unknown (some superseded) false nothing_observed none s in
      let shown =
        unknown-Shows now r.0 (record (health_of s u) { pending = none })
          (health_of r.1 u).circuit_open_until
          (resolve-outcome now u unknown (some superseded) false nothing_observed none s) in
      rw (resolve-settles now u unknown (some superseded) false nothing_observed none s) (record {
        outcome = shown.outcome;
        success = shown.success;
        failures = shown.failures;
        timeouts = shown.timeouts;
      })

  enter-Shows :
      (s : Ledger W)
      → Shows (health_of (enter now u content_id source session duration s) u) (health_of s u)
  enter-Shows s =
      let p = new_request now content_id source session s in
      rw (health_at-put_self s.devices u (record (health_of s u) { pending = some p }))
        (record { outcome = refl; success = refl; failures = refl; timeouts = refl })

  -- A request that was still pending is answered as unknown, which counts neither as a failure nor
  -- as a success: the device shows what it showed before.
  pub begin-supersedes :
      (s : Ledger W) (old : PendingRequest)
      → pending_of s u ≡ some old
      → let s' = begin_request now u content_id source session duration s in
        (r : DeliveryRecord) × (s'.fired ≡ s.fired ++ r ∷ [])
        × IsAnswer now old unknown (some superseded) false r
        × Shows (health_of s' u) (health_of s u)
  unfolding begin_request health_at
  begin-supersedes s old e =
      let before =
        (resolve now u unknown (some superseded) false nothing_observed none (device s u)).1 in
      let settled = Settled-device now u u old unknown (some superseded) false s before (
        resolve-Settled now u unknown (some superseded) false nothing_observed none (device s u) old
          (pending_of-device s u u ∙ e)) in
      rw e (
        settled.answer,
        settled.fired,
        settled.answers,
        rw (← health_at-device s u u)
            (Shows-trans (enter-Shows before) (superseded-Shows (device s u))),
      )
