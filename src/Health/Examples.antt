-- ===== src/Health/Examples.antt =====
-- The theorems on `DeliveryLedger` (custom_components/cast/health.py) at concrete inputs, and tests.
use ha_int_gcast.Base.{
  same_iff, ℕ, ◌+◌, ◌≡◌, ◌≢◌, inl, inr, refl, String, true, false, Option, none, some, List, [],
  ◌∷◌, ◌++◌, arith, count, nat_eq, string_eq,
}
use ha_int_gcast.Base.Dict.{get, put, remove}
use ha_int_gcast.Health.Outcome.{success, fetch_failed, timeout, unknown}
use ha_int_gcast.Health.Types.{
  Moment, Thrown, playing, other, idle_error, no_transition, superseded, load_rejected,
  PendingRequest, DeliveryRecord,
}
use ha_int_gcast.Health.Verdicts.{Status, Failure, reports_error, classify}
use ha_int_gcast.Health.Ledger.{
  Ledger, Urls, device, health_at, health_of, append, resolve, detach, make_record, tally, push,
  ledger_size, resolution, cancel, store, url_source,
}
use ha_int_gcast.Health.Listener.{notify}
use ha_int_gcast.Health.Requests.{
  begin_request, expire, expired, media_status, request_failed, load_media_failed,
}
use ha_int_gcast.Health.Shutdown.{shutdown}
use ha_int_gcast.Health.Run.{Call, begins, reports, expires, init, step, run}
use ha_int_gcast.Health.Run.Recent.{last, records-run}
use ha_int_gcast.Health.Run.Accounts.{is_answer, outstanding, requests-accounted}
use ha_int_gcast.Health.Run.Links.{Linked}
use ha_int_gcast.Health.Run.Timers.{pending_of, timers-run}
use ha_int_gcast.Health.Run.Replay.{Tells, devices-run}
use ha_int_gcast.Health.History.{records_of}
use ha_int_gcast.Health.Answers.{IsAnswer, Settled}
use ha_int_gcast.Health.Confirm.{Confirms, media_status-Confirms, media_status-ignores}
use ha_int_gcast.Health.ErrorStatus.{error-settles}
use ha_int_gcast.Health.Expiry.{Deadline, pending-times_out}
use ha_int_gcast.Health.Begin.{Shows, begin-supersedes}
use ha_int_gcast.Health.Raise.{Names, load_failed-settles, raise-blames_successor}
use ha_int_gcast.Health.Isolation.{step-isolates}
use ha_int_gcast.Health.Shutdown.Silence.{shutdown-timers}

abbrev urls : Urls
urls = record { overrides = []; internal = some "http://ha:8123"; external = none }

abbrev at : ℕ → Moment
at t = record { utc = t; monotonic = t }

abbrev song : String
song = "http://ha:8123/song.mp3"

-- One request is superseded by another, which times out.
abbrev script : List (Moment × Call ℕ)
script =
    (at 0, begins 7 song "play_media" none 30000)
    ∷ (at 5, begins 7 song "announce" (some 3) 30000)
    ∷ (at 40000, expires 1)
    ∷ []

abbrev empty : Ledger ℕ
empty = init urls 0

abbrev asked : Ledger ℕ
asked = begin_request (at 0) 7 song "play_media" (some 3) 30000 empty

abbrev request : PendingRequest
request = record {
  ident = 0;
  content_id = song;
  source = "play_media";
  requested_at = 0;
  started = 0;
  session_at_request = some 3;
  cancel_timeout = some 0;
}

asked-pending : pending_of asked 7 ≡ some request
unfolding begin_request device health_at get put init
asked-pending = refl

empty-pending : pending_of empty 7 ≡ none
unfolding health_at get init
empty-pending = refl

abbrev started : Status
started = record {
  content_id = some song;
  player_state = some playing;
  idle_reason = none;
  media_session_id = some 4;
  player_is_idle = false;
}

abbrev failed : Option String → Status
failed content_id = record {
  content_id = content_id;
  player_state = some (other "IDLE");
  idle_reason = some "ERROR";
  media_session_id = some 3;
  player_is_idle = true;
}

abbrev hung : Thrown
hung = record {
  is_timeout_error = true;
  is_cast_error = false;
  is_request_timeout = false;
  is_request_failed = false;
  is_not_connected = false;
  is_connection_error = false;
  described = "TimeoutError: ";
}

abbrev watchdog : Failure
watchdog = record { err = hung; cause = none }

records-run_example : let s = run (init urls 0) script in s.records ≡ last ledger_size s.fired
records-run_example = records-run urls 0 script

requests-accounted_example :
    let s = run (init urls 0) script in
    s.next_ident ≡ count is_answer s.fired + outstanding s.devices
requests-accounted_example = requests-accounted urls 0 script

timers-run_example :
    let s = run (init urls 0) script in Linked (pending_of s) s.timers s.next_handle
timers-run_example = timers-run urls 0 script

devices-run_example :
    let s = run (init urls 0) script in Tells 7 (records_of 7 s.fired) (health_of s 7)
devices-run_example = devices-run urls 0 script 7

started-Confirms : Confirms started request
started-Confirms = record { content = refl; started = inl refl; fresh = inr (λ e. cc) }

media_status-Confirms_example :
    Settled (at 9) 7 request success none true asked (media_status (at 9) 7 started asked)
unfolding reports_error
media_status-Confirms_example =
    media_status-Confirms (at 9) 7 started request asked asked-pending refl started-Confirms

-- The session of before the request is stale metadata.
abbrev stale : Status
stale = record started { media_session_id = some 3 }

stale-unconfirmed : ¬ Confirms stale request
stale-unconfirmed c = elim c.fresh [ inl e ↦ cc | inr ne ↦ ne refl ]

media_status-ignores_example : media_status (at 9) 7 stale asked ≡ device asked 7
unfolding reports_error
media_status-ignores_example =
    media_status-ignores (at 9) 7 stale request asked asked-pending refl stale-unconfirmed

error-settles_example :
    Settled
      (at 9)
      7
      request
      fetch_failed
      (some idle_error)
      true
      asked
      (media_status (at 9) 7 (failed none) asked)
unfolding reports_error
error-settles_example =
    error-settles (at 9) 7 (failed none) asked refl request asked-pending (inl refl)

other_song : ◌≢◌ {A = String} "http://radio/" song
other_song e = ground (arith, same_iff "http://radio/" song)

abbrev first_call : List (Moment × Call ℕ)
first_call = (at 0, begins 7 song "play_media" (some 3) 30000) ∷ []

first_call-pending : pending_of (run (init urls 0) first_call) 7 ≡ some request
unfolding run step begin_request device health_at get put init
first_call-pending = refl

pending-times_out_example :
    let s = run (init urls 0) first_call in
    (d : Deadline s 7 request) × Settled
      (at 30000)
      7
      request
      timeout
      (some (no_transition d.timer.duration))
      false
      s
      (expire (at 30000) d.handle s)
pending-times_out_example =
    pending-times_out urls 0 first_call (at 30000) 7 request first_call-pending

begin-supersedes_example :
    let s' = begin_request (at 2) 7 song "announce" none 30000 asked in
    (r : DeliveryRecord) × (s'.fired ≡ asked.fired ++ r ∷ [])
    × IsAnswer (at 2) request unknown (some superseded) false r
    × Shows (health_of s' 7) (health_of asked 7)
begin-supersedes_example =
    begin-supersedes (at 2) 7 song "announce" none 30000 asked request asked-pending

load_failed-settles_example :
    ((p : PendingRequest)
      → pending_of asked 7 ≡ some p
      → Settled
          (at 9)
          7
          p
          fetch_failed
          (some (load_rejected (some 104) (some 1)))
          true
          asked
          (load_media_failed (at 9) 7 (some 1) (some 104) asked))
    × (pending_of asked 7 ≡ none
        → load_media_failed (at 9) 7 (some 1) (some 104) asked ≡ device asked 7)
load_failed-settles_example = load_failed-settles (at 9) 7 (some 1) (some 104) asked

raise-blames_successor_example :
    let s₁ = begin_request (at 1) 7 "http://ha:8123/probe.wav" "probe" none 30000 empty in
    let s₂ = begin_request (at 2) 7 song "announce" none 30000 s₁ in
    let s₃ = request_failed (at 3) 7 watchdog (some true) none s₂ in
    let v = classify watchdog (some true) none in
    (ra rb : DeliveryRecord) × (s₂.fired ≡ s₁.fired ++ ra ∷ [])
    × (s₃.fired ≡ s₂.fired ++ rb ∷ [])
    × Names ra "http://ha:8123/probe.wav" "probe" unknown (some superseded)
    × Names rb song "announce" v.outcome (some v.text)
    × (pending_of s₃ 7 ≡ none)
raise-blames_successor_example =
    raise-blames_successor (at 1) (at 2) (at 3) 7 "http://ha:8123/probe.wav" song "probe" "announce"
      none none 30000 30000 watchdog (some true) none empty

step-isolates_example : health_of (step (at 9) (reports 7 started) asked) 8 ≡ health_of asked 8
step-isolates_example = step-isolates 8 (at 9) (reports 7 started) asked refl

shutdown-timers_example : get (shutdown (run (init urls 0) first_call)).timers 0 ≡ none
shutdown-timers_example = shutdown-timers urls 0 first_call 0

-- The whole script: the first request is unknown, the second a timeout, and nothing is pending.
script_outcomes :
    let s = run empty script in
    (s.fired ≡ s.records)
    × (count is_answer s.fired ≡ 2)
    × ((health_of s 7).last_outcome ≡ timeout)
    × ((health_of s 7).consecutive_timeouts ≡ 1)
    × (pending_of s 7 ≡ none)
unfolding run step begin_request expire expired device health_at get put remove init resolve append
    detach make_record tally push resolution cancel store notify url_source
script_outcomes = (refl, refl, refl, refl, refl)
