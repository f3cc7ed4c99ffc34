-- ===== src/Probe/Decide.antt =====
-- `CastProbeCoordinator._decide` of custom_components/cast/coordinator.py.
use ha_int_gcast.Base.{
  ap, ℕ, ◌-◌, ◌≤◌, ◌≡◌, ◌⊎◌, ◌↔◌, inl, inr, refl, String, Bool, true, false, Option, none, some,
  List, not, ◌&&◌, ltb, contains, Option-cases, nat_eq, string_eq, ◌==◌, arith, if◌then◌else◌,
}
use ha_int_gcast.Health.Outcome.{unreachable, skipped_busy}
use ha_int_gcast.Health.Types.{Uuid, Moment, literal, not_idle}
use ha_int_gcast.Health.Ledger.{Ledger, health_of}
use ha_int_gcast.Health.Requests.{record_outcome}
use ha_int_gcast.Probe.Snapshot.{ProbeSnapshot, ProbeOptions, busy}

-- The strings that `_decide` returns.
pub data Decision : Type 0 where
  still_running not_connected groups_disabled video_disabled : Decision
  circuit_open : ℕ → Decision
  not_idle_now probe : Decision

-- `cast_type in ("audio", None)`
abbrev pub is_audio : Option String → Bool
is_audio none = true
is_audio (some cast_type) = cast_type == "audio"

-- `circuit_open_until - monotonic()`; the circuit is open while this is positive.
abbrev pub remaining : Moment → Option ℕ → ℕ
remaining now none = 0
remaining now (some until) = until - now.monotonic

module _ {W : Type 0} where
  -- The second half of `_decide`, when the device is connected.
  abbrev pub decide_snapshot :
      Moment → ProbeOptions → Uuid → ProbeSnapshot → Ledger W → Decision × Ledger W
  decide_snapshot now o uuid n s =
      let left = remaining now (health_of s uuid).circuit_open_until in
      if n.is_audio_group && not o.groups
      then (groups_disabled, s)
      else if not n.is_audio_group && not (is_audio n.cast_type) && not o.video
      then (video_disabled, s)
      else if ltb 0 left
      then (circuit_open left, s)
      else if busy n
      then (
        not_idle_now,
        record_outcome now uuid skipped_busy "probe" none
            (some (not_idle n.player_state n.group_player_states n.app_id)) false s,
      )
      else (probe, s)

  abbrev pub decide_connected :
      Moment → ProbeOptions → Uuid → Option ProbeSnapshot → Ledger W → Decision × Ledger W
  decide_connected now o uuid none s = (
    not_connected,
    record_outcome now uuid unreachable "probe" none
        (some (literal "no Cast channel to the device on port 8009 (entity unavailable)")) false s,
  )
  decide_connected now o uuid (some n) s = decide_snapshot now o uuid n s

  unfoldable pub decide :
      Moment
      → ProbeOptions
      → List Uuid
      → Uuid
      → Option ProbeSnapshot
      → Ledger W
      → Decision × Ledger W
  decide now o running uuid snapshot s =
      if contains uuid running then (still_running, s) else decide_connected now o uuid snapshot s

-- A probe is due: the device is connected, no probe of it runs, its kind is probed, its circuit is
-- closed or has waited long enough, and nothing plays that a probe would interrupt.
pub record Due {W : Type 0} (now : Moment) (o : ProbeOptions) (running : List Uuid) (uuid : Uuid)
    (snapshot : Option ProbeSnapshot) (s : Ledger W) : Type 0 where
  pub idle : contains uuid running ≡ false
  pub known : ProbeSnapshot
  pub connected : snapshot ≡ some known
  pub group_allowed : known.is_audio_group ≡ true → o.groups ≡ true
  pub video_allowed :
      known.is_audio_group ≡ false → (is_audio known.cast_type ≡ true) ⊎ (o.video ≡ true)
  pub closed :
      (until : ℕ) → (health_of s uuid).circuit_open_until ≡ some until → until ≤ now.monotonic
  pub quiet : busy known ≡ false

waited :
    (now : Moment) (circuit : Option ℕ)
    → ((until : ℕ) → circuit ≡ some until → until ≤ now.monotonic)
    → ltb 0 (remaining now circuit) ≡ false
waited now none h = ground arith
waited now (some until) h = ground (arith, h until refl)

waited_all :
    (now : Moment) (circuit : Option ℕ)
    → ltb 0 (remaining now circuit) ≡ false
    → (until : ℕ) → circuit ≡ some until
    → until ≤ now.monotonic
waited_all now none h until e = ground arith
waited_all now (some t) h until e = ground arith

module _ {W : Type 0} (now : Moment) (o : ProbeOptions) (running : List Uuid) (uuid : Uuid)
    (snapshot : Option ProbeSnapshot) (s : Ledger W) where
  -- When a probe is due, it is decided, and the decision leaves the ledger alone.
  Due-decide : Due now o running uuid snapshot s → decide now o running uuid snapshot s ≡ (probe, s)
  unfolding decide
  Due-decide d =
      rw (d.idle, d.connected)
        (ground (
          arith,
          waited now (health_of s uuid).circuit_open_until d.closed,
          d.quiet,
          d.group_allowed,
          d.video_allowed,
        ))

  decide-Due : (decide now o running uuid snapshot s).0 ≡ probe → Due now o running uuid snapshot s
  unfolding decide
  decide-Due e = elim (Option-cases snapshot) [
    | inl gone ↦ ground (arith, gone)
    | inr (n, here) ↦ record {
      idle = ground arith;
      known = n;
      connected = here;
      group_allowed = λ g. ground (arith, here, g);
      video_allowed = λ g. ground (arith, here, g);
      closed = waited_all now (health_of s uuid).circuit_open_until (ground (arith, here));
      quiet = ground (arith, here);
    }
  ]

  -- A probe is decided exactly when it is due: the device is connected and no probe of it runs, the
  -- options allow its kind, its circuit is closed or has waited out its backoff, and no player of it
  -- or of its group is busy. The ledger is then as it was.
  pub decide-iff-Due :
      ((decide now o running uuid snapshot s ≡ (probe, s)) ↔ Due now o running uuid snapshot s)
      × ((decide now o running uuid snapshot s).0 ≡ probe → Due now o running uuid snapshot s)
  decide-iff-Due = ((λ e. decide-Due (ap (λ d. d.0) e), Due-decide), decide-Due)
