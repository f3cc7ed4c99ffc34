-- ===== src/Probe/Examples.antt =====
-- The theorems on custom_components/cast/coordinator.py at concrete inputs, and tests.
use ha_int_gcast.Base.{
  ℕ, suc, ◌+◌, ◌*◌, ◌≤◌, ◌<◌, ◌≡◌, ◌≢◌, ◌↔◌, ◌⊎◌, inl, refl, String, true, false, none, some, List,
  [], ◌∷◌, arith, count, contains, nat_eq, if◌then◌else◌,
}
use ha_int_gcast.Base.Dict.{get, put, remove}
use ha_int_gcast.Health.Types.{Moment, playing, PendingRequest}
use ha_int_gcast.Health.Verdicts.{Status, reports_error, is_transition, is_stale_session}
use ha_int_gcast.Health.Listener.{notify}
use ha_int_gcast.Health.Ledger.{
  Ledger, Timer, Urls, device, health_at, health_of, append, resolve, detach, make_record, tally,
  push, resolution, cancel, store, url_source,
}
use ha_int_gcast.Health.Requests.{add_listener, begin_request, expire, expired, media_status}
use ha_int_gcast.Health.Run.{Call, begins, expires, init, step, run}
use ha_int_gcast.Health.Run.Timers.{pending_of}
use ha_int_gcast.Probe.Snapshot.{ProbeSnapshot, ProbeOptions}
use ha_int_gcast.Probe.Decide.{Due, decide, probe, decide-iff-Due}
use ha_int_gcast.Probe.Breaker.{backoff, on_probe_record}
use ha_int_gcast.Probe.Circuit.{served, timeout-blocks, success-closes}
use ha_int_gcast.Probe.Holds.{verdicts, is_verdict_on}
use ha_int_gcast.Repairs.Manager.{RepairManager, on_record}
use ha_int_gcast.Probe.Tasks.{Fleet, returns}
use ha_int_gcast.Probe.Cycle.{Surroundings, visit}
use ha_int_gcast.Probe.Single.{is_about}
use ha_int_gcast.Probe.Events.{Event, registers, updates, resumes, new_coordinator, runs}
use ha_int_gcast.Probe.AtMostOne.{runs-IsSingle}
use ha_int_gcast.Probe.Plays.{visit-plays}

abbrev urls : Urls
urls = record { overrides = []; internal = some "http://ha:8123"; external = none }

abbrev at : ℕ → Moment
at t = record { utc = t; monotonic = t }

abbrev clip : String
clip = "http://ha:8123/api/cast/probe.wav"

abbrev defaults : ProbeOptions
defaults = record { enabled = true; interval = 300; groups = true; video = false }

abbrev resting : ProbeSnapshot
resting = record {
  cast_type = some "audio";
  is_audio_group = false;
  app_id = none;
  app_idle = true;
  player_state = none;
  group_player_states = [];
  media_session_id = none;
}

-- A probe times out, and another one is pending.
abbrev script : List (Moment × Call RepairManager)
script =
    (at 0, begins 7 clip "probe" none 30000)
    ∷ (at 30000, expires 0)
    ∷ (at 300000, begins 7 clip "probe" none 30000)
    ∷ []

abbrev probed : Ledger RepairManager
probed = served 300 1 2 urls script

-- Another device's request comes and times out.
abbrev elsewhere : List (Moment × Call RepairManager)
elsewhere = (at 340000, begins 8 clip "probe" none 30000) ∷ (at 370000, expires 2) ∷ []

abbrev request : PendingRequest
request = record {
  ident = 1;
  content_id = clip;
  source = "probe";
  requested_at = 300000;
  started = 300000;
  session_at_request = none;
  cancel_timeout = some 1;
}

abbrev timer : Timer
timer = record { uuid = 7; ident = 1; duration = 30000 }

abbrev started : Status
started = record {
  content_id = some clip;
  player_state = some playing;
  idle_reason = none;
  media_session_id = some 4;
  player_is_idle = false;
}

abbrev expired_probe : Ledger RepairManager
expired_probe = expire (at 330000) 1 probed

abbrev confirmed : Ledger RepairManager
confirmed = media_status (at 300500) 7 started probed

probed-facts :
    (get probed.timers 1 ≡ some timer)
    × (pending_of probed 7 ≡ some request)
    × ((health_of probed 7).consecutive_timeouts ≡ 1)
    × (verdicts 7 (run expired_probe elsewhere).fired ≡ verdicts 7 expired_probe.fired)
    × (verdicts 7 (run confirmed elsewhere).fired ≡ verdicts 7 confirmed.fired)
unfolding run step begin_request media_status expire expired device health_at get put remove init
    resolve append detach make_record tally push resolution cancel store notify url_source
    add_listener on_probe_record is_verdict_on reports_error on_record is_transition
    is_stale_session
probed-facts = (refl, refl, refl, refl, refl)

twice : 1 ≤ (health_of probed 7).consecutive_timeouts
twice = rw probed-facts.2 (omega arith)

early : 500000 < 330000 + 1000 * backoff 300 (suc (health_of probed 7).consecutive_timeouts)
unfolding backoff
early = rw probed-facts.2 (omega arith)

timeout-blocks_example :
    (decide (at 500000) defaults [] 7 (some resting) (run expired_probe elsewhere)).0 ≢ probe
timeout-blocks_example =
    timeout-blocks 300 1 2 urls script (at 330000) 1 timer request elsewhere
      (refl, (refl, (refl, tt))) (refl, (refl, tt)) probed-facts.0 probed-facts.1 refl refl twice
      probed-facts.3 (at 500000) defaults [] (some resting) early

success-closes_example : (health_of (run confirmed elsewhere) 7).circuit_open_until ≡ none
unfolding reports_error
success-closes_example =
    success-closes 300 1 2 urls script (at 300500) 7 started request elsewhere
      (refl, (refl, (refl, tt))) (refl, (refl, tt)) probed-facts.1 refl refl
      (record { content = refl; started = inl refl; fresh = inl refl }) probed-facts.4

abbrev fresh : Ledger ℕ
fresh = init urls 300

decide-iff-Due_example :
    ((decide (at 5) defaults [] 7 (some resting) fresh ≡ (probe, fresh))
      ↔ Due (at 5) defaults [] 7 (some resting) fresh)
    × ((decide (at 5) defaults [] 7 (some resting) fresh).0 ≡ probe
        → Due (at 5) defaults [] 7 (some resting) fresh)
decide-iff-Due_example = decide-iff-Due (at 5) defaults [] 7 (some resting) fresh

abbrev home : Surroundings
home = record { snapshots = λ t. some resting; url = some clip; address = λ u a. a }

-- A cycle launches a probe, a second cycle finds it running, and the probe is confirmed.
abbrev cycles : List (Moment × Event ℕ)
cycles =
    (at 0, registers 7 3)
    ∷ (at 1, updates home defaults)
    ∷ (at 2, resumes 0 returns)
    ∷ (at 3, updates home defaults)
    ∷ []

runs-IsSingle_example :
    let c =
      (runs (record { coordinator = new_coordinator 1; ledger = fresh }) cycles).coordinator in
    count (is_about 7) c.tasks ≡ (if contains 7 c.running then 1 else 0)
runs-IsSingle_example = runs-IsSingle 1 fresh cycles 7

abbrev idle_fleet : Fleet ℕ
idle_fleet = record { coordinator = new_coordinator 1; ledger = fresh }

visit-plays_example :
    ((visit home (at 1) defaults clip (7, 3) idle_fleet).coordinator.plays ≡ [])
    ⊎ Due (at 1) defaults [] 7 (some resting) (device fresh 7)
visit-plays_example = visit-plays home (at 1) defaults clip 7 3 idle_fleet
