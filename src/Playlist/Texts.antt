-- ===== src/Playlist/Texts.antt =====
-- A text of code points as a string; a number that is no Unicode scalar value, which Python's decoder
-- never gives, becomes U+FFFD.
use ha_int_gcast.Base.{ℕ, ◌≡◌, refl, Option, none, some, [], ◌∷◌, String}
use Prim.Native.Nat.{compare, Ordering}
use Prim.Native.Char.{Char, char}
use ha_int_gcast.Playlist.Lines.{Text}

abbrev low : (n : ℕ) (o : Ordering) → compare n 55296 ≡ o → Option Char
low n Ordering.lt e = some (char n (rw e tt))
low n o e = none

abbrev high :
    (n : ℕ) (a b c : Ordering)
    → compare n 55296 ≡ a
    → compare 57343 n ≡ b
    → compare n 1114112 ≡ c
    → Option Char
high n Ordering.gt Ordering.lt Ordering.lt ea eb ec = some (char n (rw (ea, eb, ec) tt))
high n a b c ea eb ec = none

abbrev or_char : Option Char → Option Char → Char
or_char (some c) d = c
or_char none (some d) = d
or_char none none = char 65533 tt

abbrev pub of_code : ℕ → Char
of_code n =
    or_char (low n (compare n 55296) refl)
      (high n (compare n 55296) (compare 57343 n) (compare n 1114112) refl refl refl)

unfoldable pub to_string : Text → String
to_string [] = String.[]
to_string (c ∷ cs) = String.◌∷◌ (of_code c) (to_string cs)
