-- ===== src/Probe/Plays.antt =====
-- What an update of custom_components/cast/coordinator.py plays the clip on.
use ha_int_gcast.Base.{ℕ, nat_eq, ◌≡◌, ◌⊎◌, inl, inr, refl, String, Option}
use ha_int_gcast.Health.Types.{Uuid, Moment}
use ha_int_gcast.Health.Ledger.{device}
use ha_int_gcast.Probe.Snapshot.{ProbeSnapshot, ProbeOptions}
use ha_int_gcast.Probe.Decide.{
  Decision, probe, still_running, not_connected, groups_disabled, video_disabled, circuit_open,
  not_idle_now, Due, decide, decide-iff-Due,
}
use ha_int_gcast.Base.Dict.{put}
use ha_int_gcast.Probe.Tasks.{Fleet, probe_result}
use ha_int_gcast.Probe.Cycle.{Surroundings, launch_if, visit}

module _ {W : Type 0} (env : Surroundings) (now : Moment) (o : ProbeOptions) (url : String) where
  launch_if-plays :
      (u : Uuid) (d : Decision) (n : Option ProbeSnapshot) (f : Fleet W)
      → ((launch_if env now o url u d n f).coordinator.plays ≡ f.coordinator.plays) ⊎ (d ≡ probe)
  launch_if-plays u probe n f = inr refl
  launch_if-plays u still_running n f = inl refl
  launch_if-plays u not_connected n f = inl refl
  launch_if-plays u groups_disabled n f = inl refl
  launch_if-plays u video_disabled n f = inl refl
  launch_if-plays u (circuit_open r) n f = inl refl
  launch_if-plays u not_idle_now n f = inl refl

  -- A visit of a target plays the clip only if a probe of the device is due there and then: on a
  -- device that is busy, excluded, blocked by its circuit or being probed, nothing is played.
  pub visit-plays :
      (u : Uuid) (target : ℕ) (f : Fleet W)
      → ((visit env now o url (u, target) f).coordinator.plays ≡ f.coordinator.plays)
        ⊎ Due now o f.coordinator.running u (env.snapshots target) (device f.ledger u)
  unfolding visit
  visit-plays u target f =
      let c = f.coordinator in
      let s = device f.ledger u in
      let ds = decide now o c.running u (env.snapshots target) s in
      elim (launch_if-plays u ds.0 (env.snapshots target) (record {
        coordinator = record c { results = put c.results u (probe_result now ds.0) };
        ledger = ds.1;
      })) [
        | inl quiet ↦ inl quiet
        | inr probed ↦ inr ((decide-iff-Due now o c.running u (env.snapshots target) s).1 probed)
      ]
