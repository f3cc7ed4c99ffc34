-- ===== src/Repairs/Examples.antt =====
-- The theorems on custom_components/cast/issues.py at concrete inputs, and tests.
use ha_int_gcast.Base.{ℕ, nat_eq, ◌≡◌, refl, true, none, some, List, [], ◌∷◌, leb, string_eq}
use ha_int_gcast.Base.Dict.{get, put, remove}
use ha_int_gcast.Health.Outcome.{DeliveryOutcome, fetch_failed, success}
use ha_int_gcast.Health.Types.{Moment, DeliveryRecord, new_health}
use ha_int_gcast.Repairs.Registry.{fetch_failed_issue, unreachable_issue, active}
use ha_int_gcast.Repairs.Stale.{DeviceEntry, check_stale, scan, scan_entry, reference}
use ha_int_gcast.Repairs.Operations.{Operation, records, checks_stale, new_manager, operate_all}
use ha_int_gcast.Repairs.Counts.{Agrees}
use ha_int_gcast.Repairs.Agreement.{issues-Agrees}
use ha_int_gcast.Repairs.Streak.{streak, is_fetch_failed, is_unreachable, issues-streak}
use ha_int_gcast.Health.Listener.{notify}
use ha_int_gcast.Health.Verdicts.{Status, reports_error, is_foreign}
use ha_int_gcast.Health.Ledger.{
  Urls, device, health_at, append, resolve, detach, make_record, tally, push, resolution, cancel,
  store, url_source,
}
use ha_int_gcast.Health.Requests.{add_listener, begin_request, media_status}
use ha_int_gcast.Health.Run.{Call, begins, reports, init, step, run}
use ha_int_gcast.Repairs.Registry.{create, same_issue}
use ha_int_gcast.Probe.Breaker.{on_probe_record}
use ha_int_gcast.Repairs.Manager.{on_record, on_fetch_failed, count_of}
use ha_int_gcast.Repairs.Heard.{since_ok, listening, run-issues}
use ha_int_gcast.Repairs.Unseen.{IsUnseen, check_stale-IsUnseen}
use ha_int_gcast.Repairs.Manager.{key_eq, StaleCandidate, RepairManager}

abbrev at : ℕ → Moment
at t = record { utc = t; monotonic = t }

abbrev delivery : DeliveryOutcome → DeliveryRecord
delivery o = record {
  uuid = 7;
  entity_id = none;
  name = none;
  source = "tts";
  outcome = o;
  content_id = none;
  error = none;
  url_source = none;
  responded = true;
  requested_at = none;
  resolved_at = 0;
  elapsed = none;
  player_state = none;
  idle_reason = none;
  media_session_id = none;
}

-- Two fetches fail after a success; the last operation comes first.
abbrev history : List Operation
history =
    records (new_health 7) (delivery fetch_failed)
    ∷ records (new_health 7) (delivery fetch_failed)
    ∷ records (new_health 7) (delivery success)
    ∷ []

issues-streak_example :
    let m = operate_all history in
    (active m.issues (fetch_failed_issue 7) ≡ leb 2 (streak is_fetch_failed 7 history))
    × (active m.issues (unreachable_issue 7) ≡ leb 2 (streak is_unreachable 7 history))
issues-streak_example = issues-streak history 7

streak_two : streak is_fetch_failed 7 history ≡ 2
unfolding streak
streak_two = refl

abbrev entry : DeviceEntry
entry = record { id = "abc"; uuid = some 7; name_by_user = none; name = some "Kitchen" }

issues-Agrees_example : Agrees (operate_all (checks_stale (at 900000000) [] (entry ∷ []) ∷ history))
issues-Agrees_example = issues-Agrees (checks_stale (at 900000000) [] (entry ∷ []) ∷ history)

-- The device answered once, at time 5.
abbrev candidate : StaleCandidate
candidate = record {
  device_id = "abc";
  name = "Kitchen";
  uuid = some 7;
  last_seen = some 5;
  tracked_since = 900000000;
}

abbrev seen_once : RepairManager
seen_once = record new_manager { last_seen = (7, 5) ∷ [] }

reported : get (check_stale (at 900000000) [] (entry ∷ []) seen_once).stale "abc" ≡ some candidate
unfolding check_stale scan scan_entry reference get put
reported = refl

check_stale-IsUnseen_example : IsUnseen 900000000 [] candidate
check_stale-IsUnseen_example =
    check_stale-IsUnseen (at 900000000) [] (entry ∷ []) seen_once "abc" candidate reported

abbrev urls : Urls
urls = record { overrides = []; internal = some "http://ha:8123"; external = none }

-- Two requests in a row are reported as failed.
abbrev failed : Status
failed = record {
  content_id = some "http://ha:8123/a.mp3";
  player_state = none;
  idle_reason = some "ERROR";
  media_session_id = none;
  player_is_idle = true;
}

abbrev calls : List (Moment × Call RepairManager)
calls =
    (at 1, begins 7 "http://ha:8123/a.mp3" "tts" none 30000)
    ∷ (at 2, reports 7 failed)
    ∷ (at 3, begins 7 "http://ha:8123/a.mp3" "tts" none 30000)
    ∷ (at 4, reports 7 failed)
    ∷ []

run-issues_example :
    let s = run (listening 300 1 2 urls) calls in
    (active s.others.issues (fetch_failed_issue 7) ≡ leb 2 (since_ok is_fetch_failed 7 0 s.fired))
    × (active s.others.issues (unreachable_issue 7) ≡ leb 2 (since_ok is_unreachable 7 0 s.fired))
run-issues_example = run-issues 300 1 2 urls calls 7 (refl, (refl, (refl, (refl, tt))))

-- The issue is then active.
raised : active (run (listening 300 1 2 urls) calls).others.issues (fetch_failed_issue 7) ≡ true
unfolding run step begin_request media_status device health_at get put remove init resolve append
    detach make_record tally push resolution cancel store notify url_source add_listener on_record
    on_fetch_failed create active count_of reports_error is_foreign same_issue on_probe_record
raised = refl
