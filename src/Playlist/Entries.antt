-- ===== src/Playlist/Entries.antt =====
-- The items of an m3u file against its text (custom_components/cast/helpers.py, `parse_m3u`).
use ha_int_gcast.Base.{
  ap, sym, ◌∙◌, ◌≡◌, refl, String, Bool, false, Option, none, some, List, [], ◌∷◌, map, contains,
  string_eq,
}
use ha_int_gcast.Playlist.Lines.{
  Text, split_lines, UrlCheck, is_valid, is_invalid, raises_value_error, is_url,
}
use ha_int_gcast.Playlist.Items.{
  supported, invalid_item, Parsed, parsed, failed, uncaught, PlaylistItem, Line, extinf,
  invalid_extinf, hls, comment, blank, entry, new_item, items, taken, cons_item, classify_lines,
  responds, fetch_playlist, parse_m3u,
}

-- The entries of a file, in order.
unfoldable pub entries : List Line → List Text
entries [] = []
entries (entry url ∷ lines) = url ∷ entries lines
entries (line ∷ lines) = entries lines

-- Why a file cannot be taken: an HLS tag, an entry that is no URL, or one that `urlparse` chokes on.
pub data Fault : Type 0 where
  hls_tag chokes : Fault
  no_url : Text → Fault

abbrev url_fault : UrlCheck → Text → Option Fault
url_fault is_valid url = none
url_fault is_invalid url = some (no_url url)
url_fault raises_value_error url = some chokes

abbrev fault : (Text → Bool) → Line → Option Fault
fault accepts hls = some hls_tag
fault accepts (entry url) = url_fault (is_url accepts url) url
fault accepts line = none

abbrev or_later : Option Fault → Option Fault → Option Fault
or_later none later = later
or_later (some f) later = some f

-- The first fault of a file
unfoldable pub first_fault : (Text → Bool) → List Line → Option Fault
first_fault accepts [] = none
first_fault accepts (line ∷ lines) = or_later (fault accepts line) (first_fault accepts lines)

-- What comes of a file with a fault
abbrev pub refusal : Fault → Parsed (List PlaylistItem)
refusal hls_tag = failed supported
refusal (no_url url) = failed (invalid_item url)
refusal chokes = uncaught

-- One item for each entry, in order
pub record Reads (lines : List Line) (p : Parsed (List PlaylistItem)) : Type 0 where
  pub read : List PlaylistItem
  pub result : p ≡ parsed read
  pub urls : map (λ i. i.url) read ≡ entries lines

-- By the first fault of a file
abbrev pub Outcome : Option Fault → List Line → Parsed (List PlaylistItem) → Type 0
Outcome none lines p = Reads lines p
Outcome (some f) lines p = p ≡ refusal f

cons_item-refusal : (item : PlaylistItem) (f : Fault) → cons_item item (refusal f) ≡ refusal f
cons_item-refusal item hls_tag = refl
cons_item-refusal item (no_url url) = refl
cons_item-refusal item chokes = refl

taken-Outcome :
    (check : UrlCheck) (length : Option (List Text)) (title : Option Text) (url : Text)
    (later : Option Fault) (lines : List Line) (rest : Parsed (List PlaylistItem))
    → Outcome later lines rest
    → Outcome
        (or_later (url_fault check url) later)
        (entry url ∷ lines)
        (taken check (new_item length title url) rest)
unfolding entries
taken-Outcome is_valid l t url none lines rest r = record {
  read = new_item l t url ∷ r.read;
  result = ap (cons_item (new_item l t url)) r.result;
  urls = ap (λ us. url ∷ us) r.urls;
}
taken-Outcome is_valid l t url (some f) lines rest r =
    ap (cons_item (new_item l t url)) r ∙ cons_item-refusal (new_item l t url) f
taken-Outcome is_invalid l t url later lines rest r = refl
taken-Outcome raises_value_error l t url later lines rest r = refl

-- A line that is no entry
passed-Outcome :
    (o : Option Fault) (line : Line) (lines : List Line) (p : Parsed (List PlaylistItem))
    → entries (line ∷ lines) ≡ entries lines
    → Outcome o lines p
    → Outcome o (line ∷ lines) p
passed-Outcome none line lines p same r = record {
  read = r.read;
  result = r.result;
  urls = r.urls ∙ sym same;
}
passed-Outcome (some f) line lines p same r = r

module _ (accepts : Text → Bool) where
  items-Outcome :
      (lines : List Line) (length : Option (List Text)) (title : Option Text)
      → Outcome (first_fault accepts lines) lines (items accepts lines length title)
  unfolding items first_fault entries
  items-Outcome [] l t = record { read = []; result = refl; urls = refl }
  items-Outcome (extinf a b ∷ lines) l t =
      passed-Outcome _ (extinf a b) lines _ refl (items-Outcome lines (some a) (some b))
  items-Outcome (invalid_extinf ∷ lines) l t =
      passed-Outcome _ invalid_extinf lines _ refl (items-Outcome lines l t)
  items-Outcome (hls ∷ lines) l t = refl
  items-Outcome (comment ∷ lines) l t =
      passed-Outcome _ comment lines _ refl (items-Outcome lines l t)
  items-Outcome (blank ∷ lines) l t = passed-Outcome _ blank lines _ refl (items-Outcome lines l t)
  items-Outcome (entry url ∷ lines) l t =
      taken-Outcome (is_url accepts url) l t url (first_fault accepts lines) lines _
        (items-Outcome lines none none)

  -- An m3u file that is fetched and is not announced as HLS gives one item for each of its entries, in
  -- the order of its lines, if none of these has a fault; otherwise its first fault decides: an HLS tag
  -- is told as supported, an entry that is no URL is refused by name, and the ValueError of `urlparse`
  -- on an entry leaves the parser.
  pub parse_m3u-entries :
      (content_type : String) (text : Text)
      → contains content_type ("application/vnd.apple.mpegurl" ∷ []) ≡ false
      → let lines = classify_lines (split_lines false text) in
        Outcome
          (first_fault accepts lines)
          lines
          (parse_m3u accepts (responds content_type (some text)))
  unfolding parse_m3u fetch_playlist
  parse_m3u-entries content_type text h =
      rw h (items-Outcome (classify_lines (split_lines false text)) none none)
