-- ===== src/Player/Tracked.antt =====
-- How a tracked play request of custom_components/cast/media_player.py ends on the ledger.
use ha_int_gcast.Base.{String, Bool, true, false, Option, none, some, ◌≡◌}
use ha_int_gcast.Base.Result.{Result, returned, raised}
use ha_int_gcast.Health.Types.{Uuid, Moment, Thrown, PendingRequest}
use ha_int_gcast.Health.Ledger.{Ledger}
use ha_int_gcast.Health.Verdicts.{Failure, classify}
use ha_int_gcast.Health.Run.Timers.{pending_of}
use ha_int_gcast.Health.Answers.{Settled}
use ha_int_gcast.Player.Calls.{
  Reason, request_watchdog, Raised, not_implemented, home_assistant, foreign, World,
}
use ha_int_gcast.Player.Requests.{Outside, last_launch_failure, timeout_failure, error_failure}

-- The request that is pending on `u`, with its content and its source.
pub record Requested {W : Type 0} (u : Uuid) (content_id source : String) (l : Ledger W)
    : Type 0 where
  pub request : PendingRequest
  pub pending : pending_of l u ≡ some request
  pub content : request.content_id ≡ content_id
  pub source_kept : request.source ≡ source

-- An exception that neither clause of the method catches
abbrev pub is_uncaught : Raised → Bool
is_uncaught not_implemented = true
is_uncaught (foreign name) = true
is_uncaught _ = false

-- The ledger with the verdict on the exception `f`, on the request that was pending in `l`
pub record Judged {W : Type 0} (now : Moment) (u : Uuid) (content_id source : String) (f : Failure)
    (connected : Option Bool) (launch_failure : Option String) (l l' : Ledger W) : Type 0 where
  pub requested : Requested u content_id source l
  pub settled :
      let v = classify f connected launch_failure in
      Settled now u requested.request v.outcome (some v.text) v.responded l l'

-- The ends of a request on `u`: the call returned, the watchdog expired, Home Assistant's error was
-- raised, or an exception passed through.
pub data Ends {W : Type 0} (out : Outside W) (u : Uuid) (content_id source : String)
    : Result Raised (Unit {0}) × World W → Type 0 where
  plays :
      (w : World W)
      → Requested u content_id source w.ledger
      → Ends out u content_id source (returned tt, w)
  expires :
      (w : World W) (l : Ledger W) (t : Thrown)
      → Judged out.ended u content_id source (timeout_failure t) none none l w.ledger
      → Ends out u content_id source (raised (home_assistant request_watchdog (some t)), w)
  fails :
      (w : World W) (l : Ledger W) (reason : Reason) (cause : Option Thrown)
      → Judged out.ended u content_id source
          (error_failure (out.described reason) cause)
          (some w.entity.available)
          (last_launch_failure w.entity)
          l
          w.ledger
      → Ends out u content_id source (raised (home_assistant reason cause), w)
  escapes :
      (w : World W) (e : Raised)
      → is_uncaught e ≡ true
      → Requested u content_id source w.ledger
      → Ends out u content_id source (raised e, w)

-- The event loop leaves the request of `u` pending while the call runs, and the entity with its uuid.
pub record LeavesPending {W : Type 0} (u : Uuid) (f : World W → World W) : Type 0 where
  pub uuid : (w : World W) → w.entity.info.uuid ≡ u → (f w).entity.info.uuid ≡ u
  pub pending : (w : World W) → pending_of (f w).ledger u ≡ pending_of w.ledger u
