-- ===== src/Release/RoundTrip.antt =====
-- A printed release version parses to what was printed (scripts/set_version.py).
use ha_int_gcast.Base.{
  ℕ, zero, suc, ◌+◌, ◌-◌, ◌*◌, ◌/◌, ◌%◌, ◌≤◌, ◌<◌, ◌≡◌, refl, ◌∙◌, Bool, true, false, some, [], ◌∷◌,
  ◌++◌, ltb, arith, nat_eq, Bool-cases, inl, inr,
}
use ha_int_gcast.Playlist.Lines.{Text}
use ha_int_gcast.Release.Calver.{
  Date, is_date, is_ascii_digit, is_nonzero_digit, value_from, all_digits, parse_sequence,
  parse_calver, decimal_in, decimal, two_digits, print_calver,
}

value_from-append :
    (acc : ℕ) (xs : Text) (c : ℕ)
    → value_from acc (xs ++ c ∷ []) ≡ value_from acc xs * 10 + (c - 48)
unfolding value_from
value_from-append acc [] c = refl
value_from-append acc (x ∷ xs) c = value_from-append (acc * 10 + (x - 48)) xs c

all_digits-append :
    (xs : Text) (c : ℕ)
    → all_digits xs ≡ true
    → is_ascii_digit c ≡ true
    → all_digits (xs ++ c ∷ []) ≡ true
unfolding all_digits
all_digits-append [] c h k = ground arith
all_digits-append (x ∷ xs) c h k = ground (arith, all_digits-append xs c)

-- Does a text begin with a digit that is not zero?
abbrev leads : Text → Bool
leads [] = false
leads (c ∷ cs) = is_nonzero_digit c

leads-append : (xs : Text) (c : ℕ) → leads xs ≡ true → leads (xs ++ c ∷ []) ≡ true
leads-append [] c h = ground arith
leads-append (x ∷ xs) c h = h

-- What the digits of a number are.
record IsDecimal (n : ℕ) (text : Text) : Type 0 where
  value : value_from 0 text ≡ n
  digits : all_digits text ≡ true
  first : 1 ≤ n → leads text ≡ true

one_digit-IsDecimal : (n : ℕ) → ltb n 10 ≡ true → IsDecimal n ((48 + n) ∷ [])
unfolding value_from all_digits
one_digit-IsDecimal n small = record {
  value = omega arith;
  digits = ground arith;
  first = λ k. ground arith;
}

more_digits-IsDecimal :
    (n : ℕ) (rest : Text)
    → ltb n 10 ≡ false
    → IsDecimal (n / 10) rest
    → IsDecimal n (rest ++ (48 + n % 10) ∷ [])
more_digits-IsDecimal n rest large h = record {
  value = value_from-append 0 rest (48 + n % 10) ∙ omega (arith, h.value);
  digits = all_digits-append rest (48 + n % 10) h.digits (ground arith);
  first = λ k. leads-append rest (48 + n % 10) (h.first (ground arith));
}

decimal_in-IsDecimal : (fuel n : ℕ) → n ≤ fuel → IsDecimal n (decimal_in fuel n)
unfolding decimal_in value_from all_digits
decimal_in-IsDecimal zero n h = record {
  value = omega arith;
  digits = ground arith;
  first = λ k. absurd (omega arith);
}
decimal_in-IsDecimal (suc fuel) n h = elim (Bool-cases (ltb n 10)) [
  | inl small ↦ rw small (one_digit-IsDecimal n small)
  | inr large ↦ rw large (
      more_digits-IsDecimal n (decimal_in fuel (n / 10)) large
        (decimal_in-IsDecimal fuel (n / 10) (ground arith)))
]

-- The sequence of a printed version
parse_sequence-decimal :
    (text : Text) (n : ℕ) → IsDecimal n text → 1 ≤ n → parse_sequence (46 ∷ text) ≡ some n
unfolding parse_sequence all_digits value_from
parse_sequence-decimal [] n h k = absurd (omega (arith, h.value, k))
parse_sequence-decimal (c ∷ cs) n h k = ground (arith, h.first k, h.digits, h.value)

-- The last two decimal places of a number, as the code points that `two_digits` prints.
abbrev tens : ℕ → ℕ
tens n = 48 + n / 10 % 10

abbrev ones : ℕ → ℕ
ones n = 48 + n % 10

is_ascii_digit-place : (n : ℕ) → is_ascii_digit (48 + n % 10) ≡ true
is_ascii_digit-place n = ground arith

two_places : (n : ℕ) → n < 100 → value_from 0 (tens n ∷ ones n ∷ []) ≡ n
unfolding value_from
two_places n h = omega arith

four_places :
    (n : ℕ)
    → n < 10000
    → value_from 0 (tens (n / 100) ∷ ones (n / 100) ∷ tens (n % 100) ∷ ones (n % 100) ∷ []) ≡ n
unfolding value_from
four_places n h = omega arith

places_digits :
    (a b c d : ℕ)
    → all_digits (tens a ∷ ones a ∷ tens b ∷ ones b ∷ tens c ∷ ones c ∷ tens d ∷ ones d ∷ []) ≡ true
unfolding all_digits
places_digits a b c d = ground (
  arith,
  is_ascii_digit-place (a / 10),
  is_ascii_digit-place a,
  is_ascii_digit-place (b / 10),
  is_ascii_digit-place b,
  is_ascii_digit-place (c / 10),
  is_ascii_digit-place c,
  is_ascii_digit-place (d / 10),
  is_ascii_digit-place d,
)

-- The bounds that a date keeps
record Bounds (d : Date) : Type 0 where
  year : d.year < 10000
  month : d.month < 100
  day : d.day < 100

is_date-Bounds : (d : Date) → is_date d ≡ true → Bounds d
unfolding is_date
is_date-Bounds d h = record { year = ground arith; month = ground arith; day = ground arith }

-- A version that is printed for a date of the calendar and a sequence from 1 on parses to that date
-- and that sequence.
pub parse_calver-print_calver :
    (d : Date) (sequence : ℕ)
    → is_date d ≡ true
    → 1 ≤ sequence
    → parse_calver (print_calver d sequence) ≡ some (d, sequence)
unfolding parse_calver print_calver two_digits decimal is_date
parse_calver-print_calver d sequence valid positive =
    let b = is_date-Bounds d valid in
    let digits = decimal_in-IsDecimal sequence sequence (omega arith) in
    let sequence_read =
      parse_sequence-decimal (decimal_in sequence sequence) sequence digits positive in
    simp
      (
        places_digits (d.year / 100) (d.year % 100) d.month d.day,
        four_places d.year b.year,
        two_places d.month b.month,
        two_places d.day b.day,
        sequence_read,
        valid,
      )
      refl
