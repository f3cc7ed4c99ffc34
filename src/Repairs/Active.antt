-- ===== src/Repairs/Active.antt =====
-- What is active in the registry after each operation of custom_components/cast/issues.py.
use ha_int_gcast.Base.{
  ap, ℕ, ◌≡◌, refl, ◌∙◌, String, Bool, true, false, some, [], ◌∷◌, inl, inr, is_some, if_elim, ◌&&◌,
  ◌==◌, nat_eq, string_eq, same_iff, arith, if◌then◌else◌, Bool-cases, option_beq,
}
use ha_int_gcast.Base.Dict.{Dict, get, put, remove, get-put, get-remove}
use ha_int_gcast.Health.Types.{Uuid}
use ha_int_gcast.Topology.Types.{GroupTopology, TopologyTracker}
use ha_int_gcast.Repairs.Registry.{
  IssueId, group_spans_issue, multihomed_issue, stale_device_issue, IssueRegistry, active,
  active-create, active-delete, same_issue, create, delete, Severity, Placeholders, warning,
  stale_placeholders, issue_eq,
}
use ha_int_gcast.Repairs.Manager.{
  StaleCandidate, count_of, check_multihomed, check_group, check_groups, is_true,
}
use ha_int_gcast.Repairs.Stale.{Cleared, clear_gone, raise_current, clear_seen}

pub count_of-put :
    (counts : Dict Uuid ℕ) (u v : Uuid) (n : ℕ)
    → count_of (put counts u n) v ≡ (if u == v then n else count_of counts v)
unfolding count_of
count_of-put counts u v n = ground (arith, get-put counts u v n)

-- An issue that is raised, or not, leaves every other one alone.
pub raising-other :
    (b : Bool) (id : IssueId) (severity : Severity) (p : Placeholders) (reg : IssueRegistry)
    (j : IssueId)
    → same_issue id j ≡ false
    → active (if b then create id severity p false reg else reg) j ≡ active reg j
raising-other b id severity p reg j off =
    if_elim (λ r. active r j ≡ active reg j) b (create id severity p false reg) reg
      (active-create id severity p false reg j ∙ rw off refl) refl

pub delete-other :
    (id : IssueId) (reg : IssueRegistry) (j : IssueId)
    → same_issue id j ≡ false
    → active (delete id reg) j ≡ active reg j
delete-other id reg j off = active-delete id reg j ∙ rw off refl

-- The topology issues leave every other issue alone.
module _ (j : IssueId) (off : (u : Uuid) → same_issue (group_spans_issue u) j ≡ false) where
  check_group-other :
      (u : Uuid) (g : GroupTopology) (reg : IssueRegistry)
      → active (check_group u g reg) j ≡ active reg j
  unfolding check_group
  check_group-other u g reg =
      if_elim (λ r. active r j ≡ active reg j) (is_true g.members_span_subnets)
        (create (group_spans_issue u) warning _ false reg) (delete (group_spans_issue u) reg)
        (active-create (group_spans_issue u) warning _ false reg j ∙ rw (off u) refl)
        (active-delete (group_spans_issue u) reg j ∙ rw (off u) refl)

  pub check_groups-other :
      (groups : Dict Uuid GroupTopology) (reg : IssueRegistry)
      → active (check_groups groups reg) j ≡ active reg j
  unfolding check_groups
  check_groups-other [] reg = refl
  check_groups-other ((u, g) ∷ groups) reg =
      check_groups-other groups (check_group u g reg) ∙ check_group-other u g reg

pub check_multihomed-other :
    (j : IssueId) (t : TopologyTracker) (reg : IssueRegistry)
    → same_issue multihomed_issue j ≡ false
    → active (check_multihomed t reg) j ≡ active reg j
unfolding check_multihomed
check_multihomed-other j t reg off =
    if_elim (λ r. active r j ≡ active reg j)
      (is_true t.multihomed && is_true t.internal_url_automatic)
      (create multihomed_issue warning _ false reg) (delete multihomed_issue reg)
      (active-create multihomed_issue warning _ false reg j ∙ rw off refl)
      (active-delete multihomed_issue reg j ∙ rw off refl)

-- The stale issues leave every other issue alone.
module _ (j : IssueId) (off : (d : String) → same_issue (stale_device_issue d) j ≡ false) where
  pub raise_current-other :
      (current : Dict String StaleCandidate) (reg : IssueRegistry)
      → active (raise_current current reg) j ≡ active reg j
  unfolding raise_current
  raise_current-other [] reg = refl
  raise_current-other ((d, c) ∷ current) reg =
      raise_current-other current _
      ∙ active-create (stale_device_issue d) warning _ true reg j
      ∙ rw (off d) refl

  pub clear_gone-other :
      (current stale : Dict String StaleCandidate) (reg : IssueRegistry)
      → active (clear_gone current stale reg) j ≡ active reg j
  unfolding clear_gone
  clear_gone-other current [] reg = refl
  clear_gone-other current ((d, c) ∷ stale) reg =
      clear_gone-other current stale _
      ∙ if_elim (λ r. active r j ≡ active reg j) (is_some (get current d)) reg
          (delete (stale_device_issue d) reg) refl
          (active-delete (stale_device_issue d) reg j ∙ rw (off d) refl)

  pub clear_seen-other :
      (u : Uuid) (cs : Dict String StaleCandidate) (s : Cleared)
      → active (clear_seen u cs s).registry j ≡ active s.registry j
  unfolding clear_seen
  clear_seen-other u [] s = refl
  clear_seen-other u ((d, c) ∷ cs) s =
      clear_seen-other u cs _
      ∙ if_elim (λ r. active r.registry j ≡ active s.registry j) (option_beq c.uuid (some u))
          (record { left = remove s.left d; registry = delete (stale_device_issue d) s.registry }) s
          (active-delete (stale_device_issue d) s.registry j ∙ rw (off d) refl) refl

same_stale : (d e : String) → same_issue (stale_device_issue d) (stale_device_issue e) ≡ (d == e)
unfolding same_issue
same_stale d e = ground arith

pub raise_current-active :
    (current : Dict String StaleCandidate) (reg : IssueRegistry) (d : String)
    → active (raise_current current reg) (stale_device_issue d)
      ≡ (if is_some (get current d) then true else active reg (stale_device_issue d))
unfolding raise_current get
raise_current-active [] reg d = refl
raise_current-active ((e, c) ∷ current) reg d =
    let raised =
      create (stale_device_issue e) warning (stale_placeholders c.name c.last_seen c.tracked_since)
        true reg in
    ground (
      arith,
      raise_current-active current raised d,
      active-create (stale_device_issue e) warning
          (stale_placeholders c.name c.last_seen c.tracked_since) true reg (stale_device_issue d),
      same_stale e d,
    )

-- One step of the loop that clears the issues of the candidates that are gone.
abbrev cleared : Dict String StaleCandidate → String → IssueRegistry → IssueRegistry
cleared current e reg = if is_some (get current e) then reg else delete (stale_device_issue e) reg

cleared-active :
    (current : Dict String StaleCandidate) (e d : String) (reg : IssueRegistry)
    → active (cleared current e reg) (stale_device_issue d) ≡ (
        if is_some (get current e)
        then active reg (stale_device_issue d)
        else (if e == d then false else active reg (stale_device_issue d)))
cleared-active current e d reg = elim (Bool-cases (is_some (get current e))) [
  | inl kept ↦ rw kept refl
  | inr gone ↦
      rw gone
        (active-delete (stale_device_issue e) reg (stale_device_issue d) ∙ rw (same_stale e d) refl)
]

pub clear_gone-active :
    (current stale : Dict String StaleCandidate) (reg : IssueRegistry) (d : String)
    → active (clear_gone current stale reg) (stale_device_issue d) ≡ (
        if is_some (get stale d)
        then (if is_some (get current d) then active reg (stale_device_issue d) else false)
        else active reg (stale_device_issue d))
unfolding clear_gone get
clear_gone-active current [] reg d = refl
clear_gone-active current ((e, c) ∷ stale) reg d =
    let rest = clear_gone-active current stale (cleared current e reg) d in
    elim (Bool-cases (e == d)) [
      | inr other ↦ ground (arith, rest, cleared-active current e d reg, other)
      | inl same ↦
          let here : get current e ≡ get current d = ap (get current) ((same_iff e d).0 same) in
          ground (arith, rest, cleared-active current e d reg, same, here)
    ]

-- The candidates and their issues, while `async_device_seen` clears them.
pub record InStep (s : Cleared) : Type 0 where
  pub agrees : (d : String) → active s.registry (stale_device_issue d) ≡ is_some (get s.left d)

pub clear_seen-InStep :
    (u : Uuid) (cs : Dict String StaleCandidate) (s : Cleared)
    → InStep s
    → InStep (clear_seen u cs s)
unfolding clear_seen
clear_seen-InStep u [] s h = h
clear_seen-InStep u ((e, c) ∷ cs) s h =
    let gone : Cleared = record {
      left = remove s.left e;
      registry = delete (stale_device_issue e) s.registry;
    } in
    clear_seen-InStep u cs _ (
      if_elim InStep (option_beq c.uuid (some u)) gone s
        (record {
          agrees = λ d. ground (
            arith,
            active-delete (stale_device_issue e) s.registry (stale_device_issue d),
            same_stale e d,
            get-remove s.left e d,
            h.agrees d,
          );
        })
        h)
