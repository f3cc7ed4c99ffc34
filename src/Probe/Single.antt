-- ===== src/Probe/Single.antt =====
-- The running set of custom_components/cast/coordinator.py and the probe tasks agree.
use ha_int_gcast.Base.{
  ap, ℕ, ◌+◌, ◌≡◌, refl, ◌∙◌, inl, inr, String, Bool, true, false, Option, none, some, List, [],
  ◌∷◌, ◌++◌, arith, count, count-append, contains, Bool-cases, Option-cases, nat_eq, ◌==◌, same_iff,
  if◌then◌else◌, if_elim,
}
use ha_int_gcast.Health.Types.{Uuid, Moment}
use ha_int_gcast.Health.Ledger.{health_of}
use ha_int_gcast.Probe.Snapshot.{ProbeSnapshot, ProbeOptions}
use ha_int_gcast.Health.Requests.{request_failed}
use ha_int_gcast.Health.Outcome.{DeliveryOutcome}
use ha_int_gcast.Base.{ltb, ◌&&◌}
use ha_int_gcast.Probe.Tasks.{
  Coordinator, Fleet, Task, Phase, playing_clip, waiting, quitting, Wakes, returns, breaks, raises,
  add, discard, find_task, set_phase, retire, finish, enter_phase, conclude, await_outcome,
  resume_phase, resume, new_task, awaits_probe, outcome_of, is_success,
}
use ha_int_gcast.Probe.Cycle.{Surroundings, launch}

contains-add :
    (u v : Uuid) (r : List Uuid) → contains v (add u r) ≡ (if u == v then true else contains v r)
unfolding add
contains-add u v r = ground (arith, same_iff u v)

contains-discard :
    (u v : Uuid) (r : List Uuid)
    → contains v (discard u r) ≡ (if u == v then false else contains v r)
unfolding discard
contains-discard u v [] = ground arith
contains-discard u v (w ∷ ws) =
    ground (arith, contains-discard u v ws, same_iff u v, same_iff w u, same_iff w v)

-- Is the task about `u`?
abbrev pub is_about : Uuid → Task → Bool
is_about u t = t.uuid == u

count-retire :
    (u : Uuid) (ident : ℕ) (ts : List Task) (t : Task)
    → find_task ident ts ≡ some t
    → count (is_about u) ts ≡ count (is_about u) (retire ident ts) + (if is_about u t then 1 else 0)
unfolding find_task retire
count-retire u ident [] t e = ground arith
count-retire u ident (s ∷ ts) t e = ground (arith, count-retire u ident ts t)

find_task-ident :
    (ident : ℕ) (ts : List Task) (t : Task) → find_task ident ts ≡ some t → t.ident ≡ ident
unfolding find_task
find_task-ident ident [] t e = ground arith
find_task-ident ident (s ∷ ts) t e =
    ground (arith, find_task-ident ident ts t, same_iff s.ident ident)

count-set_phase :
    (u : Uuid) (ident : ℕ) (phase : Phase) (ts : List Task)
    → count (is_about u) (set_phase ident phase ts) ≡ count (is_about u) ts
unfolding set_phase
count-set_phase u ident phase [] = refl
count-set_phase u ident phase (s ∷ ts) = ground (arith, count-set_phase u ident phase ts)

-- Every device has one probe task if it is in the running set, and none otherwise.
pub record IsSingle (c : Coordinator) : Type 0 where
  pub one : (u : Uuid) → count (is_about u) c.tasks ≡ (if contains u c.running then 1 else 0)

module _ {W : Type 0} where
  pub finish-IsSingle :
      (t : Task) (f : Fleet W)
      → find_task t.ident f.coordinator.tasks ≡ some t
      → IsSingle f.coordinator
      → IsSingle (finish t f).coordinator
  unfolding finish
  finish-IsSingle t f e h = record {
    one = λ u. ground (
      arith,
      count-retire u t.ident f.coordinator.tasks t e,
      h.one u,
      contains-discard t.uuid u f.coordinator.running,
      same_iff t.uuid u,
    );
  }

  enter-IsSingle :
      (t : Task) (phase : Phase) (f : Fleet W)
      → IsSingle f.coordinator
      → IsSingle (enter_phase t phase f).coordinator
  enter-IsSingle t phase f h = record {
    one = λ u. count-set_phase u t.ident phase f.coordinator.tasks ∙ h.one u;
  }

  pub launch-IsSingle :
      (env : Surroundings) (now : Moment) (o : ProbeOptions) (url : String) (u : Uuid)
      (n : ProbeSnapshot) (f : Fleet W)
      → contains u f.coordinator.running ≡ false
      → IsSingle f.coordinator
      → IsSingle (launch env now o url u n f).coordinator
  unfolding launch
  launch-IsSingle env now o url u n f idle h = record {
    one = λ v. elim (Bool-cases (u == v)) [
      | inr other ↦ ground (
        arith,
        count-append (is_about v) f.coordinator.tasks (launched ∷ []),
        h.one v,
        other,
        contains-add u v f.coordinator.running,
      )
      | inl same ↦
          let absent : contains v f.coordinator.running ≡ false =
            rw (← (same_iff u v).0 same) idle in
          ground (
            arith,
            count-append (is_about v) f.coordinator.tasks (launched ∷ []),
            h.one v,
            absent,
            same,
            contains-add u v f.coordinator.running,
          )
    ];
  }
    where
      launched : Task
      launched = new_task f.coordinator.next_task u n

  conclude-IsSingle :
      (t : Task) (outcome : Option DeliveryOutcome) (f : Fleet W)
      → find_task t.ident f.coordinator.tasks ≡ some t
      → IsSingle f.coordinator
      → IsSingle (conclude t outcome f).coordinator
  conclude-IsSingle t outcome f e h =
      let g : Fleet W = record f {
        coordinator = record f.coordinator { quits = f.coordinator.quits ++ t.uuid ∷ [] };
      } in
      if_elim (λ f'. IsSingle f'.coordinator) (is_success outcome && t.app_idle)
        (enter_phase t quitting g) (finish t f)
        (enter-IsSingle t quitting g (record { one = h.one })) (finish-IsSingle t f e h)

  await-IsSingle :
      (now : Moment) (t : Task) (deadline : ℕ) (f : Fleet W)
      → find_task t.ident f.coordinator.tasks ≡ some t
      → IsSingle f.coordinator
      → IsSingle (await_outcome now t deadline f).coordinator
  await-IsSingle now t deadline f e h =
      let d = health_of f.ledger t.uuid in
      if_elim (λ f'. IsSingle f'.coordinator) (awaits_probe d.pending)
        (if ltb deadline now.monotonic
          then conclude t none f
          else enter_phase t (waiting deadline) f)
        (conclude t (outcome_of d.last_record) f)
        (if_elim (λ f'. IsSingle f'.coordinator) (ltb deadline now.monotonic) (conclude t none f)
          (enter_phase t (waiting deadline) f) (conclude-IsSingle t none f e h)
          (enter-IsSingle t (waiting deadline) f h))
        (conclude-IsSingle t (outcome_of d.last_record) f e h)

  resume_phase-IsSingle :
      (now : Moment) (t : Task) (phase : Phase) (w : Wakes) (f : Fleet W)
      → find_task t.ident f.coordinator.tasks ≡ some t
      → IsSingle f.coordinator
      → IsSingle (resume_phase now t phase w f).coordinator
  unfolding finish
  resume_phase-IsSingle now t playing_clip returns f e h = await-IsSingle now t _ f e h
  resume_phase-IsSingle now t playing_clip breaks f e h = finish-IsSingle t f e h
  resume_phase-IsSingle now t playing_clip (raises x) f e h =
      finish-IsSingle t (record f { ledger = request_failed now t.uuid x none none f.ledger }) e h
  resume_phase-IsSingle now t (waiting d) returns f e h = await-IsSingle now t d f e h
  resume_phase-IsSingle now t (waiting d) breaks f e h = finish-IsSingle t f e h
  resume_phase-IsSingle now t (waiting d) (raises x) f e h = await-IsSingle now t d f e h
  resume_phase-IsSingle now t quitting w f e h = finish-IsSingle t f e h

  pub resume-IsSingle :
      (now : Moment) (ident : ℕ) (w : Wakes) (f : Fleet W)
      → IsSingle f.coordinator
      → IsSingle (resume now ident w f).coordinator
  unfolding resume
  resume-IsSingle now ident w f h = elim (Option-cases (find_task ident f.coordinator.tasks)) [
    | inl over ↦ rw over h
    | inr (t, e) ↦
        let own : find_task t.ident f.coordinator.tasks ≡ some t =
          ap (λ i. find_task i f.coordinator.tasks) (find_task-ident ident f.coordinator.tasks t e)
          ∙ e in
        rw e (resume_phase-IsSingle now t t.phase w f own h)
  ]
