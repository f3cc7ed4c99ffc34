-- ===== src/Playlist/Pls.antt =====
-- `parse_pls` and `parse_playlist` of custom_components/cast/helpers.py. Python's `configparser` is a
-- parameter: it gives a file's `playlist` section with the values of its numbered options.
use ha_int_gcast.Base.{
  ℕ, zero, suc, String, Bool, true, false, Option, none, some, List, [], ◌∷◌, ◌++◌, ◌||◌, ◌==◌,
  nat_eq, if◌then◌else◌,
}
use ha_int_gcast.Base.Result.{Result, returned, raised, ◌>>=◌, ◌>>◌, require}
use ha_int_gcast.Topology.Address.{code_points}
use ha_int_gcast.Playlist.Lines.{Text, UrlCheck, is_valid, is_invalid, raises_value_error, is_url}
use ha_int_gcast.Playlist.Items.{
  PlaylistFailure, invalid_item, empty_playlist, Parsed, parsed, failed, uncaught, PlaylistItem,
  Answer, fetch_playlist, parse_m3u,
}

-- `section.get(option)`: BasicInterpolation raises on a value with a bare `%`.
pub data Lookup : Type 0 where
  absent interpolation_error : Lookup
  found : Text → Lookup

-- `getint(option)`; a negative number of entries counts as none, as in `range`.
pub data Number : Type 0 where
  no_option malformed : Number
  number : ℕ → Number

-- The options File, Length and Title by their number
pub record Section : Type 0 where
  pub version : Number
  pub number_of_entries : Number
  pub file : ℕ → Lookup
  pub length : ℕ → Lookup
  pub title : ℕ → Lookup

-- `read_string`: an error of the parser, or a file with or without a section `playlist`
pub data Config : Type 0 where
  parse_error no_playlist : Config
  playlist : Section → Config

-- What leaves the parsers: a PlaylistError, or an exception of `configparser` that nothing catches.
pub data Escape : Type 0 where
  playlist_error : PlaylistFailure → Escape
  cannot_parse invalid_playlist invalid_number : Escape
  uncaught_interpolation uncaught_value_error : Escape

abbrev optional : Lookup → Result Escape (Option (List Text))
optional absent = returned none
optional interpolation_error = raised uncaught_interpolation
optional (found text) = returned (some (text ∷ []))

abbrev first : Option (List Text) → Option Text
first none = none
first (some []) = none
first (some (text ∷ texts)) = some text

abbrev require_url : UrlCheck → Text → Result Escape (Unit {0})
require_url is_valid url = returned tt
require_url is_invalid url = raised (playlist_error (invalid_item url))
require_url raises_value_error url = raised uncaught_value_error

-- One round of the loop; an entry without a File option is skipped.
unfoldable pub pls_item : (Text → Bool) → Section → ℕ → Lookup → Result Escape (List PlaylistItem)
pls_item accepts s entry absent = returned []
pls_item accepts s entry interpolation_error = raised uncaught_interpolation
pls_item accepts s entry (found url) = do
  require_url (is_url accepts url) url
  length ← optional (s.length entry)
  title ← optional (s.title entry)
  returned (record { length = length; title = first title; url = url } ∷ [])

-- The loop, from an entry on, for so many entries
unfoldable pub pls_items : (Text → Bool) → Section → ℕ → ℕ → Result Escape (List PlaylistItem)
pls_items accepts s entry zero = returned []
pls_items accepts s entry (suc n) = do
  item ← pls_item accepts s entry (s.file entry)
  rest ← pls_items accepts s (suc entry) n
  returned (item ++ rest)

abbrev check_version : Number → Result Escape (Unit {0})
check_version no_option = raised invalid_playlist
check_version malformed = raised uncaught_value_error
check_version (number n) = require (n == 2) invalid_playlist

abbrev entries_of : Number → Result Escape ℕ
entries_of (number n) = returned n
entries_of _ = raised invalid_number

unfoldable pub parse_config : (Text → Bool) → Config → Result Escape (List PlaylistItem)
parse_config accepts parse_error = raised cannot_parse
parse_config accepts no_playlist = raised invalid_playlist
parse_config accepts (playlist s) = do
  check_version s.version
  n ← entries_of s.number_of_entries
  pls_items accepts s 1 n

abbrev fetched {ℓ} : {A : Type ℓ} → Parsed A → Result Escape A
fetched (parsed a) = returned a
fetched (failed e) = raised (playlist_error e)
fetched uncaught = raised uncaught_value_error

-- `parse_pls`
unfoldable pub parse_pls :
    (Text → Bool) → (Text → Config) → Answer → Result Escape (List PlaylistItem)
parse_pls accepts read_string answer = do
  text ← fetched (fetch_playlist answer [])
  parse_config accepts (read_string text)

abbrev same_text : Text → Text → Bool
same_text [] [] = true
same_text (c ∷ cs) (d ∷ ds) = if c == d then same_text cs ds else false
same_text _ _ = false

-- `endswith`
unfoldable pub has_suffix : Text → Text → Bool
has_suffix suffix [] = same_text suffix []
has_suffix suffix (c ∷ cs) =
    let later = has_suffix suffix cs in if same_text suffix (c ∷ cs) then true else later

unfoldable pub ends_with : String → String → Bool
ends_with text suffix = has_suffix (code_points suffix) (code_points text)

abbrev nonempty : List PlaylistItem → Result Escape (List PlaylistItem)
nonempty [] = raised (playlist_error empty_playlist)
nonempty (item ∷ items) = returned (item ∷ items)

-- `parse_playlist`
unfoldable pub parse_playlist :
    (Text → Bool) → (Text → Config) → (String → Answer) → String → Result Escape (List PlaylistItem)
parse_playlist accepts read_string http url = do
  items ←
      (if ends_with url ".m3u" || ends_with url ".m3u8"
        then fetched (parse_m3u accepts (http url))
        else parse_pls accepts read_string (http url))
  nonempty items
