-- ===== src/Playlist/Items.antt =====
-- `parse_m3u` and `parse_playlist` of custom_components/cast/helpers.py.
use ha_int_gcast.Base.{
  String, Bool, false, Option, none, some, List, [], ◌∷◌, contains, ◌==◌, string_eq, nat_eq, length,
  if◌then◌else◌, drop,
}
use ha_int_gcast.Topology.Address.{code_points}
use ha_int_gcast.Playlist.Lines.{
  Text, split_lines, strip, has_prefix, before, split_once, UrlCheck, is_valid, is_invalid,
  raises_value_error, is_url,
}

-- `PlaylistError` by what it says, and `PlaylistSupported`.
pub data PlaylistFailure : Type 0 where
  undecodable timed_out client_failed empty_playlist supported : PlaylistFailure
  invalid_item : Text → PlaylistFailure

-- A result, a PlaylistError, or the ValueError of `urlparse`, which nothing here catches.
pub data Parsed {ℓ} (A : Type ℓ) : Type ℓ where
  parsed : A → Parsed A
  failed : PlaylistFailure → Parsed A
  uncaught : Parsed A

pub record PlaylistItem : Type 0 where
  pub length : Option (List Text)
  pub title : Option Text
  pub url : Text

-- What the client session answers: a response with its content type and its decoded text, or one of
-- the two exceptions that `_fetch_playlist` handles.
pub data Answer : Type 0 where
  times_out fails : Answer
  responds : String → Option Text → Answer

abbrev decoded : Option Text → Parsed Text
decoded none = failed undecodable
decoded (some text) = parsed text

-- `_fetch_playlist`
unfoldable pub fetch_playlist : Answer → List String → Parsed Text
fetch_playlist times_out types = failed timed_out
fetch_playlist fails types = failed client_failed
fetch_playlist (responds content_type text) types =
    if contains content_type types then failed supported else decoded text

-- What a line is to the loop of `parse_m3u`.
pub data Line : Type 0 where
  extinf : List Text → Text → Line
  invalid_extinf hls comment blank : Line
  entry : Text → Line

-- `info[0].split(" ", 1)`
abbrev words : Text × Option Text → List Text
words (first, none) = first ∷ []
words (first, some second) = first ∷ second ∷ []

abbrev extinf_of : Text × Option Text → Line
extinf_of (info, none) = invalid_extinf
extinf_of (info, some title) = extinf (words (split_once 32 info)) (strip title)

abbrev extinf_tag : Text
extinf_tag = code_points "#EXTINF:"

abbrev other_line : Text → Line
other_line [] = blank
other_line (c ∷ cs) = if c == 35 then comment else entry (c ∷ cs)

unfoldable pub classify_line : Text → Line
classify_line line =
    if has_prefix extinf_tag line
    then extinf_of (split_once 44 (before extinf_tag (drop 8 line)))
    else if has_prefix (code_points "#EXT-X-VERSION:") line
    then hls
    else if has_prefix (code_points "#EXT-X-STREAM-INF:") line
    then hls
    else other_line line

unfoldable pub classify_lines : List Text → List Line
unfolding strip
classify_lines [] = []
classify_lines (line ∷ lines) = classify_line (strip line) ∷ classify_lines lines

abbrev pub cons_item : PlaylistItem → Parsed (List PlaylistItem) → Parsed (List PlaylistItem)
cons_item item (failed e) = failed e
cons_item item uncaught = uncaught
cons_item item (parsed items) = parsed (item ∷ items)

abbrev pub new_item : Option (List Text) → Option Text → Text → PlaylistItem
new_item length title url = record { length = length; title = title; url = url }

-- A line with a URL, by what `_is_url` makes of it, before the items of the later lines
abbrev pub taken : UrlCheck → PlaylistItem → Parsed (List PlaylistItem) → Parsed (List PlaylistItem)
taken is_valid item rest = cons_item item rest
taken is_invalid item rest = failed (invalid_item item.url)
taken raises_value_error item rest = uncaught

-- The loop, with the length and the title of the last EXTINF that no item has used.
unfoldable pub items :
    (Text → Bool) → List Line → Option (List Text) → Option Text → Parsed (List PlaylistItem)
items accepts [] length title = parsed []
items accepts (extinf l t ∷ lines) length title = items accepts lines (some l) (some t)
items accepts (invalid_extinf ∷ lines) length title = items accepts lines length title
items accepts (hls ∷ lines) length title = failed supported
items accepts (comment ∷ lines) length title = items accepts lines length title
items accepts (blank ∷ lines) length title = items accepts lines length title
items accepts (entry url ∷ lines) length title =
    taken (is_url accepts url) (new_item length title url) (items accepts lines none none)

abbrev pub parse_text : (Text → Bool) → Parsed Text → Parsed (List PlaylistItem)
parse_text accepts (failed e) = failed e
parse_text accepts uncaught = uncaught
parse_text accepts (parsed text) = items accepts (classify_lines (split_lines false text)) none none

-- `parse_m3u`
unfoldable pub parse_m3u : (Text → Bool) → Answer → Parsed (List PlaylistItem)
parse_m3u accepts answer =
    parse_text accepts (fetch_playlist answer ("application/vnd.apple.mpegurl" ∷ []))
