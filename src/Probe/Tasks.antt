-- ===== src/Probe/Tasks.antt =====
-- `CastProbeCoordinator` of custom_components/cast/coordinator.py: its state, the update cycle and the
-- background task of a probe, cut at its awaits. `Fleet` is the coordinator beside the ledger.
use ha_int_gcast.Base.{
  ℕ, ◌+◌, String, Bool, true, false, Option, none, some, List, [], ◌∷◌, ◌++◌, ◌&&◌, ltb, contains,
  option_beq, ◌==◌, nat_eq, string_eq, if◌then◌else◌,
}
use ha_int_gcast.Base.Dict.{Dict, get, put, remove}
use ha_int_gcast.Health.Outcome.{DeliveryOutcome, success}
use ha_int_gcast.Health.Types.{Uuid, Moment, PendingRequest, DeliveryRecord}
use ha_int_gcast.Health.Verdicts.{Failure, delivery_timeout}
use ha_int_gcast.Health.Ledger.{Ledger, health_of}
use ha_int_gcast.Health.Requests.{request_failed, remove_listener}
use ha_int_gcast.Probe.Snapshot.{ProbeSnapshot}
use ha_int_gcast.Probe.Decide.{Decision}

pub record ProbeResult : Type 0 where
  pub checked_at : ℕ
  pub decision : Decision
  pub outcome : Option DeliveryOutcome

-- Where `_async_probe` awaits: the play request, the ledger's verdict, or the quitting of the app.
pub data Phase : Type 0 where
  playing_clip : Phase
  waiting : ℕ → Phase
  quitting : Phase

pub record Task : Type 0 where
  pub ident : ℕ
  pub uuid : Uuid
  pub app_idle : Bool
  pub phase : Phase

-- `targets` maps a device to the identity of its entity; `plays` and `quits` are the calls of
-- `quick_play_probe` and `quit_app_probe` that were made.
pub record Coordinator : Type 0 where
  pub targets : Dict Uuid ℕ
  pub running : List Uuid
  pub results : Dict Uuid ProbeResult
  pub tasks : List Task
  pub next_task : ℕ
  pub plays : List (Uuid × String)
  pub quits : List Uuid
  pub unsub_ledger : Option ℕ
  pub keepalive : Bool

pub record Fleet (W : Type 0) : Type 0 where
  pub coordinator : Coordinator
  pub ledger : Ledger W

-- `set.add` and `set.discard`
unfoldable pub add : Uuid → List Uuid → List Uuid
add uuid running = if contains uuid running then running else uuid ∷ running

unfoldable pub discard : Uuid → List Uuid → List Uuid
discard uuid [] = []
discard uuid (v ∷ vs) = let rest = discard uuid vs in if v == uuid then rest else v ∷ rest

unfoldable pub find_task : ℕ → List Task → Option Task
find_task ident [] = none
find_task ident (t ∷ ts) = if t.ident == ident then some t else find_task ident ts

unfoldable pub set_phase : ℕ → Phase → List Task → List Task
set_phase ident phase [] = []
set_phase ident phase (t ∷ ts) =
    if t.ident == ident then record t { phase = phase } ∷ ts else t ∷ set_phase ident phase ts

unfoldable pub retire : ℕ → List Task → List Task
retire ident [] = []
retire ident (t ∷ ts) = if t.ident == ident then ts else t ∷ retire ident ts

-- `async_register_target` and the callable that it returns
unfoldable pub register_target : Uuid → ℕ → Coordinator → Coordinator
register_target uuid target c = record c { targets = put c.targets uuid target }

unfoldable pub unregister_target : Uuid → ℕ → Coordinator → Coordinator
unregister_target uuid target c =
    if option_beq (get c.targets uuid) (some target)
    then record c { targets = remove c.targets uuid }
    else c

-- `health.pending is not None and health.pending.source == "probe"`
abbrev pub awaits_probe : Option PendingRequest → Bool
awaits_probe none = false
awaits_probe (some p) = p.source == "probe"

abbrev pub outcome_of : Option DeliveryRecord → Option DeliveryOutcome
outcome_of none = none
outcome_of (some r) = some r.outcome

abbrev pub is_success : Option DeliveryOutcome → Bool
is_success (some success) = true
is_success _ = false

-- `if uuid in self.data: self.data[uuid].outcome = …`
abbrev pub set_outcome :
    Uuid
    → Option DeliveryOutcome
    → Option ProbeResult
    → Dict Uuid ProbeResult
    → Dict Uuid ProbeResult
set_outcome uuid outcome none results = results
set_outcome uuid outcome (some r) results = put results uuid (record r { outcome = outcome })

abbrev pub new_task : ℕ → Uuid → ProbeSnapshot → Task
new_task ident uuid n = record {
  ident = ident;
  uuid = uuid;
  app_idle = n.app_idle;
  phase = playing_clip;
}

abbrev pub probe_result : Moment → Decision → ProbeResult
probe_result now d = record { checked_at = now.utc; decision = d; outcome = none }

module _ {W : Type 0} where
  -- `async_shutdown_probes`
  abbrev pub detached : Option ℕ → Ledger W → Ledger W
  detached none s = s
  detached (some ident) s = remove_listener ident s

  unfoldable pub shutdown_probes : Fleet W → Fleet W
  shutdown_probes f = record {
    coordinator = record f.coordinator { unsub_ledger = none; keepalive = false };
    ledger = detached f.coordinator.unsub_ledger f.ledger;
  }

  -- The `finally` of `_async_probe`
  unfoldable pub finish : Task → Fleet W → Fleet W
  finish t f =
      let c = f.coordinator in
      let outcome = outcome_of (health_of f.ledger t.uuid).last_record in
      record f {
        coordinator = record c {
          running = discard t.uuid c.running;
          results = set_outcome t.uuid outcome (get c.results t.uuid) c.results;
          tasks = retire t.ident c.tasks;
        };
      }

  abbrev pub enter_phase : Task → Phase → Fleet W → Fleet W
  enter_phase t phase f = record f {
    coordinator = record f.coordinator { tasks = set_phase t.ident phase f.coordinator.tasks };
  }

  -- After `_async_wait_for_outcome`: the app is quit if the probe succeeded on an idle device.
  abbrev pub conclude : Task → Option DeliveryOutcome → Fleet W → Fleet W
  conclude t outcome f =
      if is_success outcome && t.app_idle
      then enter_phase t quitting (record f {
        coordinator = record f.coordinator { quits = f.coordinator.quits ++ t.uuid ∷ [] };
      })
      else finish t f

  -- One turn of the loop of `_async_wait_for_outcome`
  abbrev pub await_outcome : Moment → Task → ℕ → Fleet W → Fleet W
  await_outcome now t deadline f =
      let h = health_of f.ledger t.uuid in
      if awaits_probe h.pending
      then if ltb deadline now.monotonic
        then conclude t none f
        else enter_phase t (waiting deadline) f
      else conclude t (outcome_of h.last_record) f

-- How an await of a task ends: it returns, it raises an exception that the task handles (TimeoutError
-- or HomeAssistantError), or it breaks off with another one, as a cancelled task does.
pub data Wakes : Type 0 where
  returns breaks : Wakes
  raises : Failure → Wakes

module _ {W : Type 0} where
  abbrev pub resume_phase : Moment → Task → Phase → Wakes → Fleet W → Fleet W
  resume_phase now t playing_clip returns f =
      await_outcome now t (now.monotonic + delivery_timeout + 5000) f
  resume_phase now t playing_clip (raises e) f =
      finish t (record f { ledger = request_failed now t.uuid e none none f.ledger })
  resume_phase now t playing_clip breaks f = finish t f
  resume_phase now t (waiting deadline) breaks f = finish t f
  resume_phase now t (waiting deadline) w f = await_outcome now t deadline f
  resume_phase now t quitting w f = finish t f

  abbrev pub resume_task : Moment → Option Task → Wakes → Fleet W → Fleet W
  resume_task now none w f = f
  resume_task now (some t) w f = resume_phase now t t.phase w f

  -- The event loop resumes a task by its identity; one that is over does nothing.
  unfoldable pub resume : Moment → ℕ → Wakes → Fleet W → Fleet W
  resume now ident w f = resume_task now (find_task ident f.coordinator.tasks) w f
