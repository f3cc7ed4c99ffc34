-- ===== src/Repairs/Heard.antt =====
-- The repair manager (custom_components/cast/issues.py) on the ledger (custom_components/cast/health.py):
-- the delivery issues against the events that the ledger fired.
use ha_int_gcast.Base.{
  ap, ℕ, suc, ◌≡◌, refl, ◌∙◌, sym, String, Bool, false, Option, none, some, List, [], ◌∷◌, ◌++◌,
  leb, ◌==◌, nat_eq, arith, if◌then◌else◌, if_elim, is_some,
}
use ha_int_gcast.Base.Dict.{get}
use ha_int_gcast.Health.Outcome.{DeliveryOutcome, timeout}
use ha_int_gcast.Health.Types.{
  Uuid, Moment, Message, no_transition, nothing_observed, Observed, DeliveryRecord, DeviceHealth,
}
use ha_int_gcast.Health.Listener.{notify}
use ha_int_gcast.Health.Ledger.{
  Ledger, Urls, Details, device, health_of, append, resolve, detach, store, tally, make_record,
}
use ha_int_gcast.Health.Requests.{add_listener, update_identity}
use ha_int_gcast.Health.Run.{Call, init, run}
use ha_int_gcast.Health.Run.Listens.{IsCalm, calm-keeps}
use ha_int_gcast.Health.Run.Keeps.{IsKeptInside, expire-keeps}
use ha_int_gcast.Repairs.Registry.{fetch_failed_issue, unreachable_issue, active}
use ha_int_gcast.Repairs.Manager.{RepairManager, count_of, on_outcome, on_record}
use ha_int_gcast.Repairs.Operations.{new_manager}
use ha_int_gcast.Repairs.Counts.{Agrees, on_outcome-Agrees}
use ha_int_gcast.Repairs.Streak.{
  is_fetch_failed, is_unreachable, is_ok, fetch_count, unreachable_count,
}
use ha_int_gcast.Repairs.Listen.{repair_listener}
use ha_int_gcast.Health.Listener.{Listener}
use ha_int_gcast.Probe.Breaker.{breaker}

-- How a count of a device moves with a record.
abbrev pub next : (DeliveryOutcome → Bool) → Uuid → DeliveryRecord → ℕ → ℕ
next counts u r n =
    if r.uuid == u
    then (if is_ok r.outcome then 0 else if counts r.outcome then suc n else n)
    else n

-- How often an outcome came about for a device since its last success, over the events in order.
unfoldable pub since_ok : (DeliveryOutcome → Bool) → Uuid → ℕ → List DeliveryRecord → ℕ
since_ok counts u n [] = n
since_ok counts u n (r ∷ rs) = since_ok counts u (next counts u r n) rs

since_ok-snoc :
    (counts : DeliveryOutcome → Bool) (u : Uuid) (n : ℕ) (rs : List DeliveryRecord)
    (r : DeliveryRecord)
    → since_ok counts u n (rs ++ r ∷ []) ≡ next counts u r (since_ok counts u n rs)
unfolding since_ok
since_ok-snoc counts u n [] r = refl
since_ok-snoc counts u n (x ∷ rs) r = since_ok-snoc counts u (next counts u x n) rs r

-- The listeners in the order in which an entry is set up: the repair manager, then the breaker.
abbrev pub both : ℕ → ℕ → ℕ → List (Listener RepairManager)
both interval ident breaker_ident =
    repair_listener ident ∷ breaker (λ m. interval) breaker_ident ∷ []

-- Both listen, the manager's issues agree with its counts, and its counts with the events.
pub record IsHeard (ls : List (Listener RepairManager)) (s : Ledger RepairManager) : Type 0 where
  pub listens : s.listeners ≡ ls
  pub agrees : Agrees s.others
  pub fetches :
      (u : Uuid)
      → count_of s.others.consecutive_fetch_failures u ≡ since_ok is_fetch_failed u 0 s.fired
  pub misses :
      (u : Uuid) → count_of s.others.consecutive_unreachable u ≡ since_ok is_unreachable u 0 s.fired

tally-uuid : (now : Moment) (r : DeliveryRecord) (h : DeviceHealth) → (tally now r h).uuid ≡ h.uuid
unfolding tally
tally-uuid now r h = ground arith

module _ (interval ident breaker_ident : ℕ) where
  abbrev ls : List (Listener RepairManager)
  ls = both interval ident breaker_ident

  append-others :
      (now : Moment) (u : Uuid) (o : DeliveryOutcome) (d : Details) (s : Ledger RepairManager)
      → s.listeners ≡ ls
      → let r = (append now u o d s).0 in
        (append now u o d s).1.others
        ≡ on_outcome r.outcome (tally now r (health_of s u)) r s.others
  unfolding append notify on_record
  append-others now u o d s alone = rw alone refl

  append-IsHeard :
      (now : Moment) (u : Uuid) (o : DeliveryOutcome) (d : Details) (s : Ledger RepairManager)
      → IsHeard ls s
      → IsHeard ls (append now u o d s).1
  unfolding append make_record
  append-IsHeard now u o d s h =
      let r = (append now u o d s).0 in
      let hd = tally now r (health_of s u) in
      let told = append-others now u o d s h.listens in
      let same = tally-uuid now r (health_of s u) in
      record {
        listens = h.listens;
        agrees = rw told (on_outcome-Agrees hd r s.others h.agrees r.outcome);
        fetches = λ v.
            ap (λ m. count_of m.consecutive_fetch_failures v) told
            ∙ fetch_count r.outcome hd r s.others v
            ∙ rw (same, h.fetches v) (sym (since_ok-snoc is_fetch_failed v 0 s.fired r));
        misses = λ v.
            ap (λ m. count_of m.consecutive_unreachable v) told
            ∙ unreachable_count r.outcome hd r s.others v
            ∙ rw (same, h.misses v) (sym (since_ok-snoc is_unreachable v 0 s.fired r));
      }

  -- What does not touch the listeners, their state and the events
  same-IsHeard :
      (s s' : Ledger RepairManager)
      → s'.listeners ≡ s.listeners
      → s'.others ≡ s.others
      → s'.fired ≡ s.fired
      → IsHeard ls s
      → IsHeard ls s'
  same-IsHeard s s' l o f h = record {
    listens = l ∙ h.listens;
    agrees = rw o h.agrees;
    fetches = λ u. rw (o, f) (h.fetches u);
    misses = λ u. rw (o, f) (h.misses u);
  }

  resolve-IsHeard :
      (now : Moment) (u : Uuid) (o : DeliveryOutcome) (error : Option Message) (responded : Bool)
      (observed : Observed) (unsolicited : Option String) (s : Ledger RepairManager)
      → IsHeard ls s
      → IsHeard ls (resolve now u o error responded observed unsolicited s).1
  unfolding resolve detach
  resolve-IsHeard now u o error responded observed unsolicited s h =
      append-IsHeard now u o _ (detach u s) (same-IsHeard s (detach u s) refl refl refl h)

  pub IsHeard-kept : IsKeptInside (IsHeard ls)
  unfolding device store update_identity
  IsHeard-kept = record {
    looks = λ u s h.
        if_elim (IsHeard ls) (is_some (get s.devices u)) s _ h (same-IsHeard s _ refl refl refl h);
    identity = λ now u i s h. same-IsHeard s _ refl refl refl h;
    appends = λ now u o d s quiet h. append-IsHeard now u o d s h;
    resolves = resolve-IsHeard;
    enters = λ now u content_id source session duration s free h. same-IsHeard s _ refl refl refl h;
    fires =
        expire-keeps (IsHeard ls) (λ timers s h. same-IsHeard s _ refl refl refl h)
          (λ u i s h. same-IsHeard s _ refl refl refl h)
          (λ now t s h.
            resolve-IsHeard now t.uuid timeout (some (no_transition t.duration)) false
              nothing_observed none s h);
  }

  abbrev pub listening : Urls → Ledger RepairManager
  listening urls =
      add_listener (breaker (λ m. interval) breaker_ident)
        (add_listener (repair_listener ident) (init urls new_manager))

  pub run-IsHeard :
      (urls : Urls) (cs : List (Moment × Call RepairManager))
      → IsCalm cs
      → IsHeard ls (run (listening urls) cs)
  unfolding init add_listener active count_of get since_ok
  run-IsHeard urls cs calm = calm-keeps IsHeard-kept (listening urls) cs calm (record {
    listens = refl;
    agrees = record { fetch = λ v. refl; unreached = λ v. refl; stale = λ d. refl };
    fetches = λ v. refl;
    misses = λ v. refl;
  })

  -- When the repair manager and then the breaker have begun to listen to a new ledger, then after any
  -- of its callbacks that leave the listeners as they are, the fetch-failure issue of a device is
  -- active exactly when at least two of the fired events since its last success are failed fetches,
  -- and the unreachable issue likewise.
  pub run-issues :
      (urls : Urls) (cs : List (Moment × Call RepairManager)) (u : Uuid)
      → IsCalm cs
      → let s = run (listening urls) cs in
        (active s.others.issues (fetch_failed_issue u)
          ≡ leb 2 (since_ok is_fetch_failed u 0 s.fired))
        × (active s.others.issues (unreachable_issue u)
            ≡ leb 2 (since_ok is_unreachable u 0 s.fired))
  run-issues urls cs u calm =
      let h = run-IsHeard urls cs calm in
      (h.agrees.fetch u ∙ rw (h.fetches u) refl, h.agrees.unreached u ∙ rw (h.misses u) refl)
