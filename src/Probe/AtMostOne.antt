-- ===== src/Probe/AtMostOne.antt =====
-- No two probes of a device run at once (custom_components/cast/coordinator.py).
use ha_int_gcast.Base.{
  ℕ, ◌≡◌, refl, String, false, Option, none, some, List, [], ◌∷◌, arith, count, contains, nat_eq,
  if◌then◌else◌, if_elim,
}
use ha_int_gcast.Health.Types.{Uuid, Moment}
use ha_int_gcast.Health.Ledger.{Ledger, device}
use ha_int_gcast.Probe.Snapshot.{ProbeSnapshot, ProbeOptions}
use ha_int_gcast.Probe.Decide.{
  Decision, probe, still_running, not_connected, groups_disabled, video_disabled, circuit_open,
  not_idle_now, decide, decide-iff-Due,
}
use ha_int_gcast.Base.Dict.{put}
use ha_int_gcast.Probe.Tasks.{
  Coordinator, Fleet, register_target, unregister_target, shutdown_probes, probe_result,
}
use ha_int_gcast.Probe.Cycle.{Surroundings, launch_if, visit, visit_all, update_with, update_data}
use ha_int_gcast.Base.{not}
use ha_int_gcast.Probe.Single.{IsSingle, is_about, launch-IsSingle, resume-IsSingle}
use ha_int_gcast.Probe.Events.{
  Event, registers, unregisters, detaches, updates, resumes, calls, new_coordinator, updated,
  occurs, runs,
}

module _ {W : Type 0} (env : Surroundings) (now : Moment) (o : ProbeOptions) (url : String) where
  launch_if-IsSingle :
      (u : Uuid) (d : Decision) (n : Option ProbeSnapshot) (f : Fleet W)
      → (d ≡ probe → contains u f.coordinator.running ≡ false)
      → IsSingle f.coordinator
      → IsSingle (launch_if env now o url u d n f).coordinator
  launch_if-IsSingle u probe (some n) f idle h = launch-IsSingle env now o url u n f (idle refl) h
  launch_if-IsSingle u probe none f idle h = h
  launch_if-IsSingle u still_running n f idle h = h
  launch_if-IsSingle u not_connected n f idle h = h
  launch_if-IsSingle u groups_disabled n f idle h = h
  launch_if-IsSingle u video_disabled n f idle h = h
  launch_if-IsSingle u (circuit_open r) n f idle h = h
  launch_if-IsSingle u not_idle_now n f idle h = h

  visit-IsSingle :
      (target : Uuid × ℕ) (f : Fleet W)
      → IsSingle f.coordinator
      → IsSingle (visit env now o url target f).coordinator
  unfolding visit
  visit-IsSingle (u, target) f h =
      let c = f.coordinator in
      let s = device f.ledger u in
      let ds = decide now o c.running u (env.snapshots target) s in
      launch_if-IsSingle u ds.0 (env.snapshots target)
        (record {
          coordinator = record c { results = put c.results u (probe_result now ds.0) };
          ledger = ds.1;
        })
        (λ e. ((decide-iff-Due now o c.running u (env.snapshots target) s).1 e).idle)
        (record { one = h.one })

  visit_all-IsSingle :
      (ts : List (Uuid × ℕ)) (f : Fleet W)
      → IsSingle f.coordinator
      → IsSingle (visit_all env now o url ts f).coordinator
  unfolding visit_all
  visit_all-IsSingle [] f h = h
  visit_all-IsSingle (t ∷ ts) f h =
      visit_all-IsSingle ts (visit env now o url t f) (visit-IsSingle t f h)

unregister-IsSingle :
    (u : Uuid) (target : ℕ) (c : Coordinator) → IsSingle c → IsSingle (unregister_target u target c)
unfolding unregister_target
unregister-IsSingle u target c h = record { one = λ v. ground (arith, h.one v) }

module _ {W : Type 0} where
  update_with-IsSingle :
      (url : Option String) (env : Surroundings) (now : Moment) (o : ProbeOptions) (f : Fleet W)
      → IsSingle f.coordinator
      → IsSingle (updated f (update_with url env now o f)).coordinator
  update_with-IsSingle none env now o f h = h
  update_with-IsSingle (some url) env now o f h =
      visit_all-IsSingle env now o url f.coordinator.targets f h

  update-IsSingle :
      (env : Surroundings) (now : Moment) (o : ProbeOptions) (f : Fleet W)
      → IsSingle f.coordinator
      → IsSingle (updated f (update_data env now o f)).coordinator
  unfolding update_data
  update-IsSingle env now o f h =
      if_elim (λ g. IsSingle (updated f g).coordinator) (not o.enabled) (some f)
        (update_with env.url env now o f) h (update_with-IsSingle env.url env now o f h)

  occurs-IsSingle :
      (now : Moment) (e : Event W) (f : Fleet W)
      → IsSingle f.coordinator
      → IsSingle (occurs now e f).coordinator
  unfolding occurs register_target shutdown_probes
  occurs-IsSingle now (registers u target) f h = record { one = h.one }
  occurs-IsSingle now (unregisters u target) f h = unregister-IsSingle u target f.coordinator h
  occurs-IsSingle now detaches f h = record { one = h.one }
  occurs-IsSingle now (updates env o) f h = update-IsSingle env now o f h
  occurs-IsSingle now (resumes ident w) f h = resume-IsSingle now ident w f h
  occurs-IsSingle now (calls c) f h = h

  runs-keeps :
      (f : Fleet W) (es : List (Moment × Event W))
      → IsSingle f.coordinator
      → IsSingle (runs f es).coordinator
  unfolding runs
  runs-keeps f [] h = h
  runs-keeps f ((now, e) ∷ es) h = runs-keeps (occurs now e f) es (occurs-IsSingle now e f h)

  -- After any events, interleaved in any order, a device has exactly one probe task if the running
  -- set holds it, and none otherwise.
  pub runs-IsSingle :
      (ident : ℕ) (s : Ledger W) (es : List (Moment × Event W)) (u : Uuid)
      → let c =
          (runs (record { coordinator = new_coordinator ident; ledger = s }) es).coordinator in
        count (is_about u) c.tasks ≡ (if contains u c.running then 1 else 0)
  runs-IsSingle ident s es u =
      (runs-keeps (record { coordinator = new_coordinator ident; ledger = s }) es
          (record { one = λ v. refl })).one
        u
