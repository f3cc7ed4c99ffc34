-- ===== src/Release/Calver.antt =====
-- CalVer versions, scripts/set_version.py and the expression `CALVER_RE` of scripts/release_config.py, on
-- texts of code points; with Python's `date`, `int` and decimal `str` as far as they are used.
use ha_int_gcast.Base.{
  ℕ, zero, suc, ◌+◌, ◌-◌, ◌*◌, ◌/◌, ◌%◌, max, Bool, true, Option, none, some, List, [], ◌∷◌, ◌++◌,
  ◌&&◌, ◌||◌, leb, ltb, not, ◌==◌, nat_eq, if◌then◌else◌,
}
use ha_int_gcast.Playlist.Lines.{Text, has_prefix}

pub record Date : Type 0 where
  pub year : ℕ
  pub month : ℕ
  pub day : ℕ

-- `date(year, month, day)` raises ValueError unless this holds.
abbrev is_leap : ℕ → Bool
is_leap year = (year % 4 == 0) && (not (year % 100 == 0) || (year % 400 == 0))

abbrev days_in_month : ℕ → ℕ → ℕ
days_in_month year month =
    if month == 2
    then (if is_leap year then 29 else 28)
    else if (month == 4) || (month == 6) || (month == 9) || (month == 11)
    then 30
    else 31

unfoldable pub is_date : Date → Bool
is_date d =
    leb 1 d.year
    && leb d.year 9999
    && leb 1 d.month
    && leb d.month 12
    && leb 1 d.day
    && leb d.day (days_in_month d.year d.month)

-- `[0-9]` and `[1-9]`
abbrev pub is_ascii_digit : ℕ → Bool
is_ascii_digit c = leb 48 c && leb c 57

abbrev pub is_nonzero_digit : ℕ → Bool
is_nonzero_digit c = leb 49 c && leb c 57

-- `int` of a text of digits, after the value of the digits before
unfoldable pub value_from : ℕ → Text → ℕ
value_from acc [] = acc
value_from acc (c ∷ cs) = value_from (acc * 10 + (c - 48)) cs

unfoldable pub all_digits : Text → Bool
all_digits [] = true
all_digits (c ∷ cs) = is_ascii_digit c && all_digits cs

-- `(?:\.(?P<sequence>[1-9][0-9]*))?$`; a version without a sequence has the sequence 0.
unfoldable pub parse_sequence : Text → Option ℕ
parse_sequence [] = some 0
parse_sequence (dot ∷ []) = none
parse_sequence (dot ∷ c ∷ cs) =
    if dot == 46 && is_nonzero_digit c && all_digits cs then some (value_from 0 (c ∷ cs)) else none

abbrev pub with_date : Date → Option ℕ → Option (Date × ℕ)
with_date d none = none
with_date d (some sequence) = if is_date d then some (d, sequence) else none

-- `parse_calver`, `none` where it raises ValueError
unfoldable pub parse_calver : Text → Option (Date × ℕ)
parse_calver (y₁ ∷ y₂ ∷ y₃ ∷ y₄ ∷ dot ∷ m₁ ∷ m₂ ∷ dot' ∷ d₁ ∷ d₂ ∷ rest) =
    if all_digits (y₁ ∷ y₂ ∷ y₃ ∷ y₄ ∷ m₁ ∷ m₂ ∷ d₁ ∷ d₂ ∷ []) && dot == 46 && dot' == 46
    then with_date
        (record {
          year = value_from 0 (y₁ ∷ y₂ ∷ y₃ ∷ y₄ ∷ []);
          month = value_from 0 (m₁ ∷ m₂ ∷ []);
          day = value_from 0 (d₁ ∷ d₂ ∷ []);
        })
        (parse_sequence rest)
    else none
parse_calver _ = none

-- `str(n)`, by the number of digits that are left at most; `n` itself is enough of them.
unfoldable pub decimal_in : ℕ → ℕ → Text
decimal_in zero n = (48 + n % 10) ∷ []
decimal_in (suc fuel) n =
    let rest = decimal_in fuel (n / 10) in
    if ltb n 10 then (48 + n) ∷ [] else rest ++ (48 + n % 10) ∷ []

unfoldable pub decimal : ℕ → Text
decimal n = decimal_in n n

-- `f"{release_date:%Y.%m.%d}.{sequence}"`, for a year of four digits
unfoldable pub two_digits : ℕ → Text
two_digits n = (48 + n / 10 % 10) ∷ (48 + n % 10) ∷ []

unfoldable pub print_calver : Date → ℕ → Text
print_calver d sequence =
    two_digits (d.year / 100)
    ++ two_digits (d.year % 100)
    ++ 46 ∷ two_digits d.month
    ++ 46 ∷ two_digits d.day
    ++ 46 ∷ decimal sequence

-- `value[len(prefix):] if prefix and value.startswith(prefix) else value`
abbrev pub skip : Text → Text → Text
skip [] value = value
skip (p ∷ prefix) [] = []
skip (p ∷ prefix) (c ∷ value) = skip prefix value

unfoldable pub bare : Text → Text → Text
bare prefix value = if has_prefix prefix value then skip prefix value else value

abbrev pub same_date : Date → Date → Bool
same_date a b = a.year == b.year && a.month == b.month && a.day == b.day

-- The sequence of a tag of the release date
abbrev pub sequence_on : Date → Option (Date × ℕ) → Option ℕ
sequence_on d none = none
sequence_on d (some (e, sequence)) = if same_date e d then some sequence else none

abbrev pub or_zero : Option ℕ → ℕ
or_zero none = 0
or_zero (some n) = n

-- `max(sequences, default=0)`
unfoldable pub last_sequence : List Text → Date → Text → ℕ
last_sequence [] d prefix = 0
last_sequence (value ∷ existing) d prefix =
    max (or_zero (sequence_on d (parse_calver (bare prefix value))))
      (last_sequence existing d prefix)

-- `next_calver`
unfoldable pub next_calver : List Text → Date → Text → Text
next_calver existing d prefix = print_calver d (last_sequence existing d prefix + 1)
