-- ===== src/Probe/Circuit.antt =====
-- The circuit of a device over the ledger's callbacks (custom_components/cast/coordinator.py and
-- custom_components/cast/health.py), with both listeners of an entry.
use ha_int_gcast.Base.{
  ℕ, suc, ◌+◌, ◌*◌, ◌≤◌, ◌<◌, ◌≡◌, ◌≢◌, refl, false, Option, none, some, List, arith, string_eq,
  nat_eq,
}
use ha_int_gcast.Base.Dict.{get}
use ha_int_gcast.Health.Types.{Uuid, Moment, PendingRequest}
use ha_int_gcast.Health.Verdicts.{Status, reports_error}
use ha_int_gcast.Health.Ledger.{Ledger, Urls, Timer, health_of}
use ha_int_gcast.Health.Requests.{add_listener, expire, media_status}
use ha_int_gcast.Health.Run.{Call, expires, reports, step, run}
use ha_int_gcast.Health.Run.Keeps.{inside, inside-keeps, is_listening}
use ha_int_gcast.Health.Run.Listens.{IsCalm, calm-keeps}
use ha_int_gcast.Health.Run.Replay.{IsReplay, IsReplay-init, IsReplay-kept}
use ha_int_gcast.Health.Run.Timers.{IsLinked, IsLinked-init, IsLinked-kept, pending_of}
use ha_int_gcast.Health.Confirm.{Confirms}
use ha_int_gcast.Repairs.Manager.{RepairManager}
use ha_int_gcast.Repairs.Operations.{new_manager}
use ha_int_gcast.Repairs.Heard.{both, listening, IsHeard-kept, run-IsHeard}
use ha_int_gcast.Probe.Snapshot.{ProbeSnapshot, ProbeOptions}
use ha_int_gcast.Probe.Breaker.{backoff}
use ha_int_gcast.Probe.Decide.{decide, probe, decide-iff-Due}
use ha_int_gcast.Probe.Opening.{expire-opens, media_status-closes}
use ha_int_gcast.Probe.Holds.{verdicts, Holds, Holds-kept}

module _ (interval ident breaker_ident : ℕ) (urls : Urls) where
  -- Both listeners at work, after any callbacks that leave them.
  abbrev pub served : List (Moment × Call RepairManager) → Ledger RepairManager
  served cs = run (listening interval ident breaker_ident urls) cs

  served-IsLinked : (cs : List (Moment × Call RepairManager)) → IsCalm cs → IsLinked (served cs)
  unfolding add_listener
  served-IsLinked cs calm =
      calm-keeps (inside IsLinked-kept) (listening interval ident breaker_ident urls) cs calm
        (IsLinked-kept.adds _ _ (IsLinked-kept.adds _ _ (IsLinked-init urls new_manager)))

  served-IsReplay : (cs : List (Moment × Call RepairManager)) → IsCalm cs → IsReplay (served cs)
  unfolding add_listener
  served-IsReplay cs calm =
      calm-keeps (inside IsReplay-kept) (listening interval ident breaker_ident urls) cs calm
        (IsReplay-kept.adds _ _ (IsReplay-kept.adds _ _ (IsReplay-init urls new_manager)))

  served-listeners :
      (cs : List (Moment × Call RepairManager))
      → IsCalm cs
      → (served cs).listeners ≡ both interval ident breaker_ident
  served-listeners cs calm = (run-IsHeard interval ident breaker_ident urls cs calm).listens

  -- What one more callback makes of the circuit stays until the next verdict on a probe.
  step-stays :
      (cs : List (Moment × Call RepairManager)) (now : Moment) (call : Call RepairManager)
      (u : Uuid) (c : Option ℕ) (rest : List (Moment × Call RepairManager))
      → IsCalm cs
      → is_listening call ≡ false
      → (health_of (step now call (served cs)) u).circuit_open_until ≡ c
      → IsCalm rest
      → let s = step now call (served cs) in
        verdicts u (run s rest).fired ≡ verdicts u s.fired
        → (health_of (run s rest) u).circuit_open_until ≡ c
  step-stays cs now call u c rest calm quiet there later same =
      let s = step now call (served cs) in
      let n = verdicts u s.fired in
      let heard =
        inside-keeps (IsHeard-kept interval ident breaker_ident) now call (served cs) quiet
          (run-IsHeard interval ident breaker_ident urls cs calm) in
      let told =
        inside-keeps (inside IsReplay-kept) now call (served cs) quiet (served-IsReplay cs calm) in
      let first : Holds interval ident breaker_ident u n c s = record {
        listens = heard.listens;
        keyed = (told.at u).keyed;
        least = omega arith;
        held = λ unchanged. there;
      } in
      (calm-keeps (Holds-kept interval ident breaker_ident u n c) s rest later first).held same

  -- When, on a ledger with both listeners and at any point of its callbacks, the timer of a probe fires
  -- and the device had timed out before, then for as long as no further success or timeout of a probe
  -- of the device is fired, whatever else happens, no probe of it is decided until the backoff of its
  -- timeouts in a row has passed, whatever the options, the running probes and the entity say.
  pub timeout-blocks :
      (cs : List (Moment × Call RepairManager)) (now : Moment) (handle : ℕ) (t : Timer)
      (p : PendingRequest) (rest : List (Moment × Call RepairManager))
      → IsCalm cs
      → IsCalm rest
      → get (served cs).timers handle ≡ some t
      → pending_of (served cs) t.uuid ≡ some p
      → p.source ≡ "probe"
      → t.ident ≡ p.ident
      → 1 ≤ (health_of (served cs) t.uuid).consecutive_timeouts
      → let after = expire now handle (served cs) in
        verdicts t.uuid (run after rest).fired ≡ verdicts t.uuid after.fired
        → (later : Moment) (o : ProbeOptions) (running : List Uuid)
          (snapshot : Option ProbeSnapshot)
        → later.monotonic
          < now.monotonic
            + 1000 * backoff interval (suc (health_of (served cs) t.uuid).consecutive_timeouts)
        → (decide later o running t.uuid snapshot (run after rest)).0 ≢ probe
  unfolding step
  timeout-blocks cs now handle t p rest calm further live e from which twice same later o running
        snapshot early decided =
      let due = (decide-iff-Due later o running t.uuid snapshot _).1 decided in
      let opened =
        expire-opens interval ident breaker_ident now (served cs) (served-listeners cs calm) p from
          handle t (served-IsLinked cs calm) live e which twice in
      let waited =
        due.closed _
          (step-stays cs now (expires handle) t.uuid _ rest calm refl opened further same) in
      omega arith

  -- A confirmed delivery of a probe, on a ledger with both listeners and at any point of its callbacks,
  -- closes the circuit, whatever it was, and it stays closed for as long as no further success or
  -- timeout of a probe of the device is fired.
  pub success-closes :
      (cs : List (Moment × Call RepairManager)) (now : Moment) (u : Uuid) (st : Status)
      (p : PendingRequest) (rest : List (Moment × Call RepairManager))
      → IsCalm cs
      → IsCalm rest
      → pending_of (served cs) u ≡ some p
      → p.source ≡ "probe"
      → reports_error st ≡ false
      → Confirms st p
      → let after = media_status now u st (served cs) in
        verdicts u (run after rest).fired ≡ verdicts u after.fired
        → (health_of (run after rest) u).circuit_open_until ≡ none
  unfolding step
  success-closes cs now u st p rest calm further e from clear c same =
      let closed =
        media_status-closes interval ident breaker_ident now (served cs) (served-listeners cs calm)
          p from u st e clear c in
      step-stays cs now (reports u st) u none rest calm refl closed further same
