-- ===== src/Health/Ledger.antt =====
-- `DeliveryLedger` of custom_components/cast/health.py: its state and the two methods through which
-- every record goes, `_append` and `_resolve`. The operations that call them are in Requests.antt.
-- `devices` hands out one object for each uuid and never replaces it, so a `health` that a method
-- holds is the entry of its uuid; a write to it is a write to the dict.
pub mod Effects
use ha_int_gcast.Base.{
  ℕ, ◌+◌, ◌-◌, String, Bool, false, Option, none, some, List, [], ◌∷◌, ◌++◌, ltb, not, ◌&&◌,
  is_some, or_else, length, drop, ◌==◌, string_eq, nat_eq, if◌then◌else◌,
}
use ha_int_gcast.Base.Dict.{Dict, get, put, remove}
use ha_int_gcast.Health.Outcome.{DeliveryOutcome, success, is_failure, is_verdict, is_timeout}
use ha_int_gcast.Health.Types.{
  Uuid, Moment, Message, Observed, UrlSource, override, internal_url, external_url, DeliveryRecord,
  PendingRequest, DeviceHealth, new_health,
}
use ha_int_gcast.Health.Listener.{Listener, notify}
use Prim.Native.String.{◌++◌ as str_append}
use text.Mathlib.Text.{starts_with}

-- What `_url_source` reads outside the ledger: the valid overrides of the entry, and the answers of
-- `get_url(allow_external=False)` and `get_url(allow_internal=False)`, `none` if they raise.
pub record Urls : Type 0 where
  pub overrides : Dict Uuid String
  pub internal : Option String
  pub external : Option String

-- A callback that `async_call_later` scheduled: the closure `_expire` of one request.
pub record Timer : Type 0 where
  pub uuid : Uuid
  pub ident : ℕ
  pub duration : ℕ

-- The ledger, with what it does to Home Assistant: live timers by handle, `cast_delivery_result`
-- events, `cast_health_updated` signals, and the state `others` that the listeners own.
pub record Ledger (W : Type 0) : Type 0 where
  pub urls : Urls
  pub records : List DeliveryRecord
  pub devices : Dict Uuid DeviceHealth
  pub listeners : List (Listener W)
  pub timers : Dict ℕ Timer
  pub next_handle : ℕ
  pub next_ident : ℕ
  pub fired : List DeliveryRecord
  pub signals : List Uuid
  pub others : W

-- LEDGER_SIZE
abbrev pub ledger_size : ℕ
ledger_size = 50

-- `deque.append` at a bound: a full deque loses its oldest item.
unfoldable pub push {ℓ} : {A : Type ℓ} → ℕ → List A → A → List A
push bound xs x = let ys = xs ++ x ∷ [] in if ltb bound (length ys) then drop 1 ys else ys

abbrev pub str_truthy : String → Bool
str_truthy s = not (s == "")

-- `_url_source`
abbrev under : Option String → String → Bool
under none content_id = false
under (some base) content_id = str_truthy base && starts_with content_id base

abbrev under_override : Option String → String → Bool
under_override none content_id = false
under_override (some base) content_id =
    str_truthy base && starts_with content_id (str_append base "/")

abbrev source_of : Urls → Uuid → String → Option UrlSource
source_of urls uuid content_id =
    if not (str_truthy content_id)
    then none
    else if under_override (get urls.overrides uuid) content_id
    then some override
    else if under urls.internal content_id
    then some internal_url
    else if under urls.external content_id
    then some external_url
    else none

unfoldable pub url_source : Urls → Uuid → Option String → Option UrlSource
unfolding get
url_source urls uuid none = none
url_source urls uuid (some content_id) = source_of urls uuid content_id

-- The keyword arguments of `_append`.
pub record Details : Type 0 where
  pub source : String
  pub content_id : Option String
  pub error : Option Message
  pub responded : Bool
  pub requested_at : Option ℕ
  pub elapsed : Option ℕ
  pub observed : Observed

unfoldable pub make_record :
    Moment → Urls → DeviceHealth → DeliveryOutcome → Details → DeliveryRecord
make_record now urls h outcome d = record {
  uuid = h.uuid;
  entity_id = h.entity_id;
  name = h.name;
  source = d.source;
  outcome = outcome;
  content_id = d.content_id;
  error = d.error;
  url_source = url_source urls h.uuid d.content_id;
  responded = d.responded;
  requested_at = d.requested_at;
  resolved_at = now.utc;
  elapsed = d.elapsed;
  player_state = d.observed.player_state;
  idle_reason = d.observed.idle_reason;
  media_session_id = d.observed.media_session_id;
}

-- `if outcome is OK: … elif outcome in FAILURE_OUTCOMES: …`
abbrev count_outcome : Moment → DeliveryOutcome → DeviceHealth → DeviceHealth
count_outcome now success h = record h {
  last_success = some now.utc;
  consecutive_failures = 0;
  consecutive_timeouts = 0;
}
count_outcome now outcome h =
    if is_failure outcome
    then record h {
      consecutive_failures = h.consecutive_failures + 1;
      consecutive_timeouts = if is_timeout outcome then h.consecutive_timeouts + 1 else 0;
    }
    else h

-- What `_append` writes to the device.
unfoldable pub tally : Moment → DeliveryRecord → DeviceHealth → DeviceHealth
tally now r h = count_outcome now r.outcome (record h {
  last_record = some r;
  last_outcome = if is_verdict r.outcome then r.outcome else h.last_outcome;
})

-- The details of a record that resolves `pending`, or of one that nothing asked for.
unfoldable pub resolution :
    Moment → Option PendingRequest → Option Message → Bool → Observed → Option String → Details
resolution now (some p) error responded observed unsolicited = record {
  source = p.source;
  content_id = some p.content_id;
  error = error;
  responded = responded;
  requested_at = some p.requested_at;
  elapsed = some (now.monotonic - p.started);
  observed = observed;
}
resolution now none error responded observed unsolicited = record {
  source = "observed";
  content_id = unsolicited;
  error = error;
  responded = responded;
  requested_at = none;
  elapsed = none;
  observed = observed;
}

abbrev pub handle_of : Option PendingRequest → Option ℕ
handle_of none = none
handle_of (some p) = p.cancel_timeout

-- `pending.cancel_timeout()`, if it is set.
unfoldable pub cancel : Option ℕ → Dict ℕ Timer → Dict ℕ Timer
cancel none timers = timers
cancel (some handle) timers = remove timers handle

-- The object that `device(uuid)` returns: the entry, or the one that it creates.
unfoldable pub health_at : Dict Uuid DeviceHealth → Uuid → DeviceHealth
health_at devices uuid = or_else (get devices uuid) (new_health uuid)

module _ {W : Type 0} where
  abbrev pub health_of : Ledger W → Uuid → DeviceHealth
  health_of s uuid = health_at s.devices uuid

  -- `device`: the ledger in which a uuid has an entry; `health_of` is the entry.
  unfoldable pub device : Ledger W → Uuid → Ledger W
  unfolding get put
  device s uuid =
      if is_some (get s.devices uuid)
      then s
      else record s { devices = put s.devices uuid (new_health uuid) }

  -- A write to the object that `devices` holds for a uuid.
  unfoldable pub store : Uuid → DeviceHealth → Ledger W → Ledger W
  store uuid h s = record s { devices = put s.devices uuid h }

  -- `_append`: the deque, the device, the event, the signal, and then every listener.
  unfoldable pub append :
      Moment → Uuid → DeliveryOutcome → Details → Ledger W → DeliveryRecord × Ledger W
  unfolding store
  append now uuid outcome d s =
      let r = make_record now s.urls (health_of s uuid) outcome d in
      let told = notify s.listeners now r (tally now r (health_of s uuid), s.others) in
      (
        r,
        record s {
          records = push ledger_size s.records r;
          devices = put s.devices uuid told.0;
          fired = s.fired ++ r ∷ [];
          signals = s.signals ++ (health_of s uuid).uuid ∷ [];
          others = told.1;
        },
      )

  -- The first half of `_resolve`: the request is detached and its timer cancelled.
  unfoldable pub detach : Uuid → Ledger W → Ledger W
  unfolding store cancel
  detach uuid s =
      let h = health_of s uuid in
      record s {
        devices = put s.devices uuid (record h { pending = none });
        timers = cancel (handle_of h.pending) s.timers;
      }

  -- `_resolve`
  unfoldable pub resolve :
      Moment
      → Uuid
      → DeliveryOutcome
      → Option Message
      → Bool
      → Observed
      → Option String
      → Ledger W
      → DeliveryRecord × Ledger W
  resolve now uuid outcome error responded observed unsolicited s =
      let pending = (health_of s uuid).pending in
      append now uuid outcome (resolution now pending error responded observed unsolicited)
        (detach uuid s)
