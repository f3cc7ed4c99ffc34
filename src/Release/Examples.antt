-- ===== src/Release/Examples.antt =====
-- The theorems on scripts/set_version.py at concrete inputs, and tests.
use ha_int_gcast.Base.{◌≡◌, refl, arith, true, some, List, [], ◌∷◌}
use ha_int_gcast.Topology.Address.{code_points}
use ha_int_gcast.Playlist.Lines.{Text, has_prefix}
use ha_int_gcast.Release.Calver.{
  Date, is_date, value_from, all_digits, parse_sequence, parse_calver, decimal, decimal_in,
  two_digits, print_calver, bare, last_sequence, next_calver,
}
use ha_int_gcast.Release.RoundTrip.{parse_calver-print_calver}
use ha_int_gcast.Release.Next.{Follows, next_calver-Follows}

abbrev release_day : Date
release_day = record { year = 2026; month = 9; day = 3 }

release_day_valid : is_date release_day ≡ true
unfolding is_date
release_day_valid = refl

parse_calver-print_calver_example :
    parse_calver (print_calver release_day 12) ≡ some (release_day, 12)
parse_calver-print_calver_example =
    parse_calver-print_calver release_day 12 release_day_valid (omega arith)

abbrev tags : List Text
tags =
    code_points "v2026.09.03.2"
    ∷ code_points "v2026.09.03"
    ∷ code_points "v2026.08.31.7"
    ∷ code_points "v1.0"
    ∷ []

next_calver-Follows_example :
    Follows tags release_day (code_points "v") (next_calver tags release_day (code_points "v"))
next_calver-Follows_example =
    next_calver-Follows tags release_day (code_points "v") release_day_valid

third_of_the_day : next_calver tags release_day (code_points "v") ≡ code_points "2026.09.03.3"
unfolding next_calver last_sequence bare has_prefix parse_calver parse_sequence value_from
    all_digits is_date print_calver two_digits decimal decimal_in
third_of_the_day = refl
