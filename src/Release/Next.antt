-- ===== src/Release/Next.antt =====
-- The next release version is newer than every tag of its date (scripts/set_version.py).
use ha_int_gcast.Base.{
  ℕ, ◌+◌, ◌≤◌, ◌<◌, ◌≡◌, ◌≢◌, refl, ap, ◌∙◌, true, some, List, [], ◌∷◌, ◌++◌, ==-refl, arith,
  nat_eq,
}
use ha_int_gcast.Playlist.Lines.{Text}
use ha_int_gcast.Release.Calver.{
  Date, is_date, parse_calver, bare, same_date, sequence_on, or_zero, last_sequence, next_calver,
}
use ha_int_gcast.Release.RoundTrip.{parse_calver-print_calver}

-- A tag that stands among the existing ones has no later sequence than the last.
last_sequence-le :
    (earlier later : List Text) (value : Text) (d : Date) (prefix : Text) (n : ℕ)
    → sequence_on d (parse_calver (bare prefix value)) ≡ some n
    → n ≤ last_sequence (earlier ++ value ∷ later) d prefix
unfolding last_sequence
last_sequence-le [] later value d prefix n h =
    let found : or_zero (sequence_on d (parse_calver (bare prefix value))) ≡ n = ap or_zero h in
    omega (arith, found)
last_sequence-le (tag ∷ earlier) later value d prefix n h =
    omega (arith, last_sequence-le earlier later value d prefix n h)

same_date_refl : (d : Date) → same_date d d ≡ true
same_date_refl d = simp (==-refl d.year, ==-refl d.month, ==-refl d.day) refl

-- `version` is one of the date `d` with a sequence that no existing tag of that date reaches, and so is
-- none of the existing tags.
pub record Follows (existing : List Text) (d : Date) (prefix version : Text) : Type 0 where
  pub sequence : ℕ
  pub parses : parse_calver version ≡ some (d, sequence)
  pub newer :
      (earlier later : List Text) (value : Text) (n : ℕ)
      → existing ≡ earlier ++ value ∷ later
      → sequence_on d (parse_calver (bare prefix value)) ≡ some n
      → n < sequence
  pub fresh :
      (earlier later : List Text) (value : Text)
      → existing ≡ earlier ++ value ∷ later
      → bare prefix value ≢ version

-- The next version has the release date and a sequence after that of every existing tag of the date,
-- with or without the tag prefix; so it is a new version, and one that can be read back.
pub next_calver-Follows :
    (existing : List Text) (d : Date) (prefix : Text)
    → is_date d ≡ true
    → Follows existing d prefix (next_calver existing d prefix)
unfolding next_calver
next_calver-Follows existing d prefix valid =
    let last = last_sequence existing d prefix in
    let read = parse_calver-print_calver d (last + 1) valid (omega arith) in
    record {
      sequence = last + 1;
      parses = read;
      newer = λ earlier later value n e h. newer earlier later value n e h;
      fresh = λ earlier later value e same. absurd (
          later_than_itself
            (newer earlier later value (last + 1) e (again value (ap parse_calver same ∙ read))));
    }
  where
    newer :
        (earlier later : List Text) (value : Text) (n : ℕ)
        → existing ≡ earlier ++ value ∷ later
        → sequence_on d (parse_calver (bare prefix value)) ≡ some n
        → n < last_sequence existing d prefix + 1
    newer earlier later value n e h =
        let there : last_sequence existing d prefix
            ≡ last_sequence (earlier ++ value ∷ later) d prefix =
          ap (λ tags. last_sequence tags d prefix) e in
        omega (arith, last_sequence-le earlier later value d prefix n h, there)

    again :
        (value : Text)
        → parse_calver (bare prefix value) ≡ some (d, last_sequence existing d prefix + 1)
        → sequence_on d (parse_calver (bare prefix value))
          ≡ some (last_sequence existing d prefix + 1)
    again value e = rw (e, same_date_refl d) refl

    later_than_itself : {n : ℕ} → n < n → ⊥
    later_than_itself h = omega (arith, h)
