-- ===== src/Health/Run.antt =====
-- The event loop runs the ledger's callbacks (custom_components/cast/health.py) one at a time: a
-- call is one of them with its arguments, and a run is any sequence of calls.
pub mod Keeps
pub mod Recent
pub mod Accounts
pub mod Links
pub mod Timers
pub mod Replay
pub mod Listens
use ha_int_gcast.Base.{ℕ, String, Bool, Option, List, [], ◌∷◌}
use ha_int_gcast.Health.Outcome.{DeliveryOutcome}
use ha_int_gcast.Health.Types.{Uuid, Moment, Message}
use ha_int_gcast.Health.Verdicts.{Identity, Status, Failure}
use ha_int_gcast.Health.Listener.{Listener}
use ha_int_gcast.Health.Ledger.{Ledger, Urls, device}
use ha_int_gcast.Health.Requests.{
  add_listener, remove_listener, update_identity, begin_request, expire, media_status,
  load_media_failed, request_failed, record_outcome,
}

pub data Call (W : Type 0) : Type 0 where
  adds_listener : Listener W → Call W
  removes_listener : ℕ → Call W
  looks_up : Uuid → Call W
  identifies : Uuid → Identity → Call W
  begins : Uuid → String → String → Option ℕ → ℕ → Call W
  expires : ℕ → Call W
  reports : Uuid → Status → Call W
  rejects_load : Uuid → Option ℕ → Option ℕ → Call W
  raises : Uuid → Failure → Option Bool → Option String → Call W
  records_outcome : Uuid → DeliveryOutcome → String → Option String → Option Message → Bool → Call W

-- `DeliveryLedger(hass, entry)`
unfoldable pub init : {W : Type 0} → Urls → W → Ledger W
init urls w = record {
  urls = urls;
  records = [];
  devices = [];
  listeners = [];
  timers = [];
  next_handle = 0;
  next_ident = 0;
  fired = [];
  signals = [];
  others = w;
}

module _ {W : Type 0} where
  unfoldable pub step : Moment → Call W → Ledger W → Ledger W
  step now (adds_listener l) s = add_listener l s
  step now (removes_listener ident) s = remove_listener ident s
  step now (looks_up u) s = device s u
  step now (identifies u i) s = update_identity now u i s
  step now (begins u content_id source session duration) s =
      begin_request now u content_id source session duration s
  step now (expires handle) s = expire now handle s
  step now (reports u st) s = media_status now u st s
  step now (rejects_load u item code) s = load_media_failed now u item code s
  step now (raises u f connected launch_failure) s =
      request_failed now u f connected launch_failure s
  step now (records_outcome u o source content_id error responded) s =
      record_outcome now u o source content_id error responded s

  unfoldable pub run : Ledger W → List (Moment × Call W) → Ledger W
  run s [] = s
  run s ((now, c) ∷ cs) = run (step now c s) cs
