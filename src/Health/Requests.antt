-- ===== src/Health/Requests.antt =====
-- The operations of `DeliveryLedger` in custom_components/cast/health.py, one function for each.
-- Every function takes the two clocks as they stand when the event loop runs the callback.
use ha_int_gcast.Base.{
  ℕ, suc, String, Bool, true, false, Option, none, some, List, [], ◌∷◌, ◌++◌, not, overwrite,
  option_beq, ◌==◌, string_eq, nat_eq, if◌then◌else◌,
}
use ha_int_gcast.Base.Dict.{get, put, remove}
use ha_int_gcast.Health.Outcome.{DeliveryOutcome, success, fetch_failed, timeout, unknown}
use ha_int_gcast.Health.Types.{
  Uuid, Moment, Message, superseded, no_transition, idle_error, unrequested_error, load_rejected,
  Observed, nothing_observed, PendingRequest, DeviceHealth,
}
use ha_int_gcast.Health.Verdicts.{
  Identity, Status, Failure, observed_by, reports_error, is_foreign, is_transition,
  is_stale_session, classify, is_request, forget_timer, is_from,
}
use ha_int_gcast.Health.Listener.{Listener}
use ha_int_gcast.Health.Ledger.{Ledger, Timer, health_of, device, store, append, resolve}

-- The writes of `async_update_identity` to a device.
abbrev pub identified : Moment → Identity → DeviceHealth → DeviceHealth
identified now i h = record h {
  entity_id = overwrite i.entity_id h.entity_id;
  name = overwrite i.name h.name;
  host = overwrite i.host h.host;
  port = overwrite i.port h.port;
  last_seen = if i.seen then some now.utc else h.last_seen;
}

module _ {W : Type 0} where
  -- `async_add_listener` and the callable that it returns
  unfoldable pub add_listener : Listener W → Ledger W → Ledger W
  add_listener l s = record s { listeners = s.listeners ++ l ∷ [] }

  abbrev without_listener : ℕ → List (Listener W) → List (Listener W)
  without_listener ident [] = []
  without_listener ident (l ∷ ls) = if l.ident == ident then ls else l ∷ without_listener ident ls

  unfoldable pub remove_listener : ℕ → Ledger W → Ledger W
  remove_listener ident s = record s { listeners = without_listener ident s.listeners }

  -- `async_update_identity`
  unfoldable pub update_identity : Moment → Uuid → Identity → Ledger W → Ledger W
  update_identity now uuid i s = store uuid (identified now i (health_of s uuid)) s

  -- The first part of `async_begin_request`: an unresolved request is superseded.
  abbrev pub supersede : Moment → Uuid → Option PendingRequest → Ledger W → Ledger W
  supersede now uuid none s = s
  supersede now uuid (some old) s =
      (resolve now uuid unknown (some superseded) false nothing_observed none s).1

  -- `PendingRequest(…)`, with the handle of the timer that is scheduled for it
  abbrev pub new_request : Moment → String → String → Option ℕ → Ledger W → PendingRequest
  new_request now content_id source session s = record {
    ident = s.next_ident;
    content_id = content_id;
    source = source;
    requested_at = now.utc;
    started = now.monotonic;
    session_at_request = session;
    cancel_timeout = some s.next_handle;
  }

  abbrev pub new_timer : Uuid → ℕ → Ledger W → Timer
  new_timer uuid duration s = record { uuid = uuid; ident = s.next_ident; duration = duration }

  -- `health.pending = pending` and `pending.cancel_timeout = async_call_later(…, _expire)`
  abbrev pub enter : Moment → Uuid → String → String → Option ℕ → ℕ → Ledger W → Ledger W
  enter now uuid content_id source session duration s =
      let h = health_of s uuid in
      record s {
        devices =
            put s.devices uuid
              (record h { pending = some (new_request now content_id source session s) });
        timers = put s.timers s.next_handle (new_timer uuid duration s);
        next_handle = suc s.next_handle;
        next_ident = suc s.next_ident;
      }

  -- `async_begin_request`
  unfoldable pub begin_request :
      Moment → Uuid → String → String → Option ℕ → ℕ → Ledger W → Ledger W
  begin_request now uuid content_id source session duration s =
      enter now uuid content_id source session duration
        (supersede now uuid (health_of s uuid).pending (device s uuid))

  -- `_expire`, for a timer that has left the event loop
  unfoldable pub expired : Moment → Timer → Ledger W → Ledger W
  expired now t s =
      let h = health_of s t.uuid in
      let s' = store t.uuid (record h { pending = forget_timer t.ident h.pending }) s in
      if is_request h.pending t.ident
      then (resolve now t.uuid timeout (some (no_transition t.duration)) false nothing_observed none
          s').1
      else s'

  -- The event loop runs a timer once; a handle that was cancelled or has run does nothing.
  abbrev pub fire_timer : Moment → ℕ → Option Timer → Ledger W → Ledger W
  fire_timer now handle none s = s
  fire_timer now handle (some t) s = expired now t (record s { timers = remove s.timers handle })

  unfoldable pub expire : Moment → ℕ → Ledger W → Ledger W
  expire now handle s = fire_timer now handle (get s.timers handle) s

  -- `_record_observation`
  unfoldable pub record_observation : Moment → Uuid → Option String → Observed → Ledger W → Ledger W
  record_observation now uuid content_id observed s =
      (append now uuid fetch_failed
        (record {
          source = "observed";
          content_id = content_id;
          error = some unrequested_error;
          responded = true;
          requested_at = none;
          elapsed = none;
          observed = observed;
        })
        s).1

  -- `async_media_status` on a status that reports an error, and on any other
  abbrev pub error_status : Moment → Uuid → Status → Option PendingRequest → Ledger W → Ledger W
  error_status now uuid st none s =
      (resolve now uuid fetch_failed (some idle_error) true (observed_by st) st.content_id s).1
  error_status now uuid st (some p) s =
      if is_foreign st.content_id p
      then record_observation now uuid st.content_id (observed_by st) s
      else (resolve now uuid fetch_failed (some idle_error) true (observed_by st) none s).1

  abbrev pub progress_status : Moment → Uuid → Status → Option PendingRequest → Ledger W → Ledger W
  progress_status now uuid st none s = s
  progress_status now uuid st (some p) s =
      if not (option_beq st.content_id (some p.content_id))
      then s
      else if not (is_transition st.player_state)
      then s
      else if is_stale_session p.session_at_request st.media_session_id
      then s
      else (resolve now uuid success none true (observed_by st) none s).1

  unfoldable pub media_status : Moment → Uuid → Status → Ledger W → Ledger W
  media_status now uuid st s =
      let s' = device s uuid in
      let pending = (health_of s uuid).pending in
      if reports_error st
      then error_status now uuid st pending s'
      else progress_status now uuid st pending s'

  -- `async_load_media_failed`
  abbrev pub load_failed_with :
      Moment → Uuid → Message → Option PendingRequest → Ledger W → Ledger W
  load_failed_with now uuid message none s = s
  load_failed_with now uuid message (some p) s =
      (resolve now uuid fetch_failed (some message) true nothing_observed none s).1

  unfoldable pub load_media_failed : Moment → Uuid → Option ℕ → Option ℕ → Ledger W → Ledger W
  load_media_failed now uuid queue_item_id error_code s =
      load_failed_with now uuid (load_rejected error_code queue_item_id) (health_of s uuid).pending
        (device s uuid)

  -- `async_request_failed`
  unfoldable pub request_failed :
      Moment → Uuid → Failure → Option Bool → Option String → Ledger W → Ledger W
  request_failed now uuid f connected launch_failure s =
      let v = classify f connected launch_failure in
      (resolve now uuid v.outcome (some v.text) v.responded nothing_observed none (device s uuid)).1

  -- `async_record`
  unfoldable pub record_outcome :
      Moment
      → Uuid
      → DeliveryOutcome
      → String
      → Option String
      → Option Message
      → Bool
      → Ledger W
      → Ledger W
  record_outcome now uuid outcome source content_id error responded s =
      if is_from (health_of s uuid).pending source
      then (resolve now uuid outcome error responded nothing_observed none (device s uuid)).1
      else (append now uuid outcome
          (record {
            source = source;
            content_id = content_id;
            error = error;
            responded = responded;
            requested_at = none;
            elapsed = none;
            observed = nothing_observed;
          })
          (device s uuid)).1
