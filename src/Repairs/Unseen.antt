-- ===== src/Repairs/Unseen.antt =====
-- Which devices `async_check_stale` (custom_components/cast/issues.py) reports.
use ha_int_gcast.Base.{
  ◌+◌, ◌≤◌, ◌≡◌, ℕ, String, false, some, List, [], ◌∷◌, ltb, or_else, arith, nat_eq, string_eq,
  Bool-cases, inl, inr,
}
use ha_int_gcast.Base.Dict.{Dict, get, Each, Each-put}
use ha_int_gcast.Health.Types.{Uuid, Moment}
use ha_int_gcast.Repairs.Manager.{StaleCandidate, RepairManager, SeenKey, key_eq}
use ha_int_gcast.Repairs.Stale.{
  DeviceEntry, stale_after, Scan, reference, new_candidate, is_discovered, scan_entry, scan,
  check_stale,
}

-- A candidate was not discovered, and its last response, or the start of its tracking if it never
-- responded, is at least seven days old.
pub record IsUnseen (now : ℕ) (discovered : List Uuid) (c : StaleCandidate) : Type 0 where
  pub missing : is_discovered c.uuid discovered ≡ false
  pub old : or_else c.last_seen c.tracked_since + stale_after ≤ now

module _ (now : ℕ) (discovered : List Uuid) (last_seen : Dict Uuid ℕ) where
  abbrev AllUnseen : Dict String StaleCandidate → Type 0
  AllUnseen = Each (λ d c. IsUnseen now discovered c)

  candidate-IsUnseen :
      (tracked : Dict SeenKey ℕ) (e : DeviceEntry)
      → is_discovered e.uuid discovered ≡ false
      → ltb now (reference now last_seen tracked e + stale_after) ≡ false
      → IsUnseen now discovered (new_candidate now last_seen tracked e)
  unfolding reference
  candidate-IsUnseen tracked e missing old = record { missing = missing; old = ground arith }

  scan_entry-AllUnseen :
      (e : DeviceEntry) (s : Scan)
      → AllUnseen s.current
      → AllUnseen (scan_entry now discovered last_seen e s).current
  unfolding scan_entry
  scan_entry-AllUnseen e s h = elim (Bool-cases (is_discovered e.uuid discovered)) [
    | inl found ↦ rw found h
    | inr missing ↦
        rw missing
          (elim (Bool-cases (ltb now (reference now last_seen s.tracked e + stale_after))) [
            | inl recent ↦ rw recent h
            | inr old ↦ rw old (
                Each-put (λ d c. IsUnseen now discovered c) s.current e.id
                  (new_candidate now last_seen s.tracked e)
                  (candidate-IsUnseen s.tracked e missing old) h)
          ])
  ]

  scan-AllUnseen :
      (es : List DeviceEntry) (s : Scan)
      → AllUnseen s.current
      → AllUnseen (scan now discovered last_seen es s).current
  unfolding scan
  scan-AllUnseen [] s h = h
  scan-AllUnseen (e ∷ es) s h =
      scan-AllUnseen es (scan_entry now discovered last_seen e s) (scan_entry-AllUnseen e s h)

-- Every candidate that a check reports was not discovered, and has been unseen for seven days: its
-- last response is that old or, if there was none, the start of its tracking.
pub check_stale-IsUnseen :
    (now : Moment) (discovered : List Uuid) (entries : List DeviceEntry) (m : RepairManager)
    (d : String) (c : StaleCandidate)
    → get (check_stale now discovered entries m).stale d ≡ some c
    → IsUnseen now.utc discovered c
unfolding check_stale get
check_stale-IsUnseen now discovered entries m d c e =
    (scan-AllUnseen now.utc discovered m.last_seen entries
        (record { tracked = m.tracked_since; current = [] })
        (record { at = λ k v none_there. ground arith })).at
      d c e
