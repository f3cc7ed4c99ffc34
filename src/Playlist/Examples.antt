-- ===== src/Playlist/Examples.antt =====
-- The theorems on playlists (custom_components/cast/helpers.py) at concrete inputs, and tests.
use ha_int_gcast.Base.{◌≡◌, refl, true, false, some, [], ◌∷◌, ◌++◌}
use ha_int_gcast.Topology.Address.{code_points}
use ha_int_gcast.Playlist.Lines.{
  Text, is_url, is_valid, raises_value_error, split_lines, strip, strip_left, strip_right,
  has_prefix, before, split_once,
}
use ha_int_gcast.Playlist.Items.{
  items, classify_line, classify_lines, parse_m3u, fetch_playlist, responds, parsed, failed,
  supported, new_item,
}
use ha_int_gcast.Playlist.Entries.{Outcome, first_fault, parse_m3u-entries}

abbrev song : Text
song = code_points "http://radio/a.mp3"

song-is_url : is_url (λ location. true) song ≡ is_valid
unfolding is_url
song-is_url = refl

-- A bracket that nothing closes
unclosed : is_url (λ location. true) (code_points "http://[::1/a.mp3") ≡ raises_value_error
unfolding is_url
unclosed = refl

-- One entry with its length and title, in a file with carriage returns and a comment.
abbrev file : Text
file = code_points "#EXTM3U" ++ 13 ∷ 10 ∷ code_points "#EXTINF:5, A " ++ 13 ∷ 10 ∷ song

parse_m3u-entries_example :
    let lines = classify_lines (split_lines false file) in
    Outcome
      (first_fault (λ location. true) lines)
      lines
      (parse_m3u (λ location. true) (responds "audio/x-mpegurl" (some file)))
parse_m3u-entries_example = parse_m3u-entries (λ location. true) "audio/x-mpegurl" file refl

read :
    parse_m3u (λ location. true) (responds "audio/x-mpegurl" (some file))
    ≡ parsed (new_item (some (code_points "5" ∷ [])) (some (code_points "A")) song ∷ [])
unfolding parse_m3u fetch_playlist classify_lines classify_line items is_url split_lines strip
    strip_left strip_right has_prefix before split_once
read = refl

stream :
    parse_m3u
      (λ location. true)
      (responds "audio/x-mpegurl" (some (code_points "#EXT-X-VERSION:3")))
    ≡ failed supported
unfolding parse_m3u fetch_playlist classify_lines classify_line items is_url split_lines strip
    strip_left strip_right has_prefix before split_once
stream = refl
