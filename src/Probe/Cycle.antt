-- ===== src/Probe/Cycle.antt =====
-- The update cycle of custom_components/cast/coordinator.py: `_async_update_data` after the topology
-- refresh, and the launch of a probe.
use ha_int_gcast.Base.{
  ℕ, suc, String, Option, none, some, List, [], ◌∷◌, ◌++◌, not, nat_eq, string_eq, if◌then◌else◌,
}
use ha_int_gcast.Base.Dict.{put}
use ha_int_gcast.Health.Types.{Uuid, Moment}
use ha_int_gcast.Health.Verdicts.{delivery_timeout}
use ha_int_gcast.Health.Ledger.{device}
use ha_int_gcast.Health.Requests.{begin_request}
use ha_int_gcast.Probe.Snapshot.{ProbeSnapshot, ProbeOptions}
use ha_int_gcast.Probe.Decide.{Decision, probe, decide}
use ha_int_gcast.Probe.Tasks.{Fleet, add, new_task, probe_result}

-- What a cycle reads outside the coordinator: `probe_snapshot()` of an entity, the address of the
-- clip (`none` if `get_url` raises), and the overrides as `rewrite_hass_url` applies them.
pub record Surroundings : Type 0 where
  pub snapshots : ℕ → Option ProbeSnapshot
  pub url : Option String
  pub address : Uuid → String → String

module _ {W : Type 0} (env : Surroundings) (now : Moment) (o : ProbeOptions) (url : String) where
  -- The task starts eagerly: it begins the request, and its first await is the play request.
  unfoldable pub launch : Uuid → ProbeSnapshot → Fleet W → Fleet W
  launch uuid n f =
      let c = f.coordinator in
      record {
        coordinator = record c {
          running = add uuid c.running;
          tasks = c.tasks ++ new_task c.next_task uuid n ∷ [];
          next_task = suc c.next_task;
          plays = c.plays ++ (uuid, env.address uuid url) ∷ [];
        };
        ledger =
            begin_request now uuid (env.address uuid url) "probe" n.media_session_id
              delivery_timeout f.ledger;
      }

  abbrev pub launch_if : Uuid → Decision → Option ProbeSnapshot → Fleet W → Fleet W
  launch_if uuid probe (some n) f = launch uuid n f
  launch_if uuid d n f = f

  -- The body of the loop over the targets
  unfoldable pub visit : Uuid × ℕ → Fleet W → Fleet W
  visit (uuid, target) f =
      let c = f.coordinator in
      let (d, s) = decide now o c.running uuid (env.snapshots target) (device f.ledger uuid) in
      launch_if uuid d (env.snapshots target) (record {
        coordinator = record c { results = put c.results uuid (probe_result now d) };
        ledger = s;
      })

  unfoldable pub visit_all : List (Uuid × ℕ) → Fleet W → Fleet W
  visit_all [] f = f
  visit_all (t ∷ ts) f = visit_all ts (visit t f)

module _ {W : Type 0} where
  abbrev pub update_with :
      Option String → Surroundings → Moment → ProbeOptions → Fleet W → Option (Fleet W)
  update_with none env now o f = none
  update_with (some url) env now o f = some (visit_all env now o url f.coordinator.targets f)

  -- `_async_update_data`; `none` stands for `UpdateFailed`.
  unfoldable pub update_data : Surroundings → Moment → ProbeOptions → Fleet W → Option (Fleet W)
  update_data env now o f = if not o.enabled then some f else update_with env.url env now o f
