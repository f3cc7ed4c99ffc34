-- ===== src/Playlist/Lines.antt =====
-- The texts of `parse_m3u` in custom_components/cast/helpers.py, as lists of code points: Python's
-- `splitlines`, `strip`, `startswith` and `split`, and `urlparse` as far as `_is_url` uses it.
use ha_int_gcast.Base.{
  ℕ, Bool, true, false, Option, none, some, List, [], ◌∷◌, ◌&&◌, ◌||◌, not, leb, contains, any,
  bool_beq, ◌==◌, nat_eq, if◌then◌else◌,
}

abbrev pub Text : Type 0
Text = List ℕ

-- A line boundary of `str.splitlines`
abbrev pub is_break : ℕ → Bool
is_break c = (leb 10 c && leb c 13) || (leb 28 c && leb c 30) || contains c (133 ∷ 8232 ∷ 8233 ∷ [])

abbrev pub is_space : ℕ → Bool
is_space c =
    (leb 9 c && leb c 13)
    || (leb 28 c && leb c 32)
    || (leb 8192 c && leb c 8202)
    || contains c (133 ∷ 160 ∷ 5760 ∷ 8232 ∷ 8233 ∷ 8239 ∷ 8287 ∷ 12288 ∷ [])

abbrev push_front : ℕ → List Text → List Text
push_front c [] = (c ∷ []) ∷ []
push_front c (line ∷ lines) = (c ∷ line) ∷ lines

-- `splitlines`; the flag says that the character before was a carriage return, which takes a line
-- feed with it.
unfoldable pub split_lines : Bool → Text → List Text
split_lines cr [] = []
split_lines cr (c ∷ cs) = elim (cr && c == 10) [
  | true ↦ split_lines false cs
  | false ↦ elim (is_break c) [
    | true ↦ [] ∷ split_lines (c == 13) cs
    | false ↦ push_front c (split_lines false cs)
  ]
]

-- `strip`
unfoldable pub strip_left : Text → Text
strip_left [] = []
strip_left (c ∷ cs) = let rest = strip_left cs in if is_space c then rest else c ∷ cs

abbrev pub drop_space : ℕ → Text → Text
drop_space c [] = if is_space c then [] else c ∷ []
drop_space c (d ∷ ds) = c ∷ d ∷ ds

unfoldable pub strip_right : Text → Text
strip_right [] = []
strip_right (c ∷ cs) = drop_space c (strip_right cs)

unfoldable pub strip : Text → Text
strip text = strip_right (strip_left text)

-- `startswith`
unfoldable pub has_prefix : Text → Text → Bool
has_prefix [] text = true
has_prefix (p ∷ ps) [] = false
has_prefix (p ∷ ps) (c ∷ cs) = if p == c then has_prefix ps cs else false

-- `text.split(marker)[0]`
unfoldable pub before : Text → Text → Text
unfolding has_prefix
before marker [] = []
before marker (c ∷ cs) =
    let rest = before marker cs in if has_prefix marker (c ∷ cs) then [] else c ∷ rest

abbrev extend : ℕ → Text × Option Text → Text × Option Text
extend c (field, rest) = (c ∷ field, rest)

-- `text.split(sep, 1)`
unfoldable pub split_once : ℕ → Text → Text × Option Text
split_once sep [] = ([], none)
split_once sep (c ∷ cs) =
    let rest = split_once sep cs in if c == sep then ([], some cs) else extend c rest

-- The characters of a scheme after its first letter
abbrev is_letter : ℕ → Bool
is_letter c = (leb 65 c && leb c 90) || (leb 97 c && leb c 122)

abbrev in_scheme : ℕ → Bool
in_scheme c = is_letter c || (leb 48 c && leb c 57) || contains c (43 ∷ 45 ∷ 46 ∷ [])

abbrev is_scheme : Text → Bool
is_scheme [] = false
is_scheme (c ∷ cs) = is_letter c && not (any (λ d. not (in_scheme d)) cs)

-- The text behind the scheme, and whether there is one; a text before the first colon that is no scheme
-- belongs to the rest.
abbrev after_scheme : Text → Text × Option Text → Bool × Text
after_scheme text (scheme, none) = (false, text)
after_scheme text (scheme, some rest) = if is_scheme scheme then (true, rest) else (false, text)

-- `_splitnetloc`: up to the start of a path, a query or a fragment
unfoldable pub until_path : Text → Text
until_path [] = []
until_path (c ∷ cs) =
    let rest = until_path cs in if contains c (47 ∷ 63 ∷ 35 ∷ []) then [] else c ∷ rest

abbrev network_location : Text → Text
network_location (a ∷ b ∷ rest) = if a == 47 && b == 47 then until_path rest else []
network_location text = []

-- `urlsplit` ignores leading control characters and spaces, and every tab and line break.
unfoldable pub strip_controls : Text → Text
strip_controls [] = []
strip_controls (c ∷ cs) = let rest = strip_controls cs in if leb c 32 then rest else c ∷ cs

unfoldable pub without_breaks : Text → Text
without_breaks [] = []
without_breaks (c ∷ cs) =
    let rest = without_breaks cs in if contains c (9 ∷ 10 ∷ 13 ∷ []) then rest else c ∷ rest

-- What `_is_url` makes of a text: yes, no, or `urlparse` raises ValueError.
pub data UrlCheck : Type 0 where
  is_valid is_invalid raises_value_error : UrlCheck

-- A bracket without its counterpart
abbrev is_unbalanced : Text → Bool
is_unbalanced location = not (bool_beq (contains 91 location) (contains 93 location))

abbrev checked : (Text → Bool) → Bool → Text → UrlCheck
checked accepts has_scheme [] = is_invalid
checked accepts has_scheme (c ∷ cs) =
    if is_unbalanced (c ∷ cs) || not (accepts (c ∷ cs))
    then raises_value_error
    else if has_scheme
    then is_valid
    else is_invalid

abbrev checked_parts : (Text → Bool) → Bool × Text → UrlCheck
checked_parts accepts (has_scheme, rest) = checked accepts has_scheme (network_location rest)

-- `_is_url`: there is a scheme and a network location. `accepts` stands for what `urlparse` asks of a
-- network location with balanced brackets: an IPv6 address between them, and no character that
-- normalizes to a separator.
unfoldable pub is_url : (Text → Bool) → Text → UrlCheck
unfolding split_once strip_controls without_breaks until_path
is_url accepts text =
    let clean = without_breaks (strip_controls text) in
    checked_parts accepts (after_scheme clean (split_once 58 clean))
