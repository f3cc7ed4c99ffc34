-- ===== src/Urls.antt =====
-- Per-device base URLs, custom_components/cast/urls.py. yarl is a parameter: a
-- record of its operations.
mod Examples
use ha_int_gcast.Base.{
  ℕ, String, Bool, true, false, Option, none, some, List, [], ◌∷◌, ◌&&◌, ◌||◌, not, is_some, ◌==◌,
  ◌≡◌, string_eq, nat_eq, if◌then◌else◌,
}
use ha_int_gcast.Base.Dict.{Dict, get, put}
use ha_int_gcast.Health.Types.{Uuid}
use ha_int_gcast.Health.Ledger.{str_truthy}
use ha_int_gcast.Playlist.Lines.{is_space}
use text.Mathlib.Text.{starts_with}
use Prim.Native.Char.{Char, code}

-- A parsed URL, by the properties of `yarl.URL` that the code reads or replaces.
pub record Url : Type 0 where
  pub scheme : String
  pub host : Option String
  pub explicit_port : Option ℕ
  pub path : String
  pub query_string : String
  pub fragment : String
  pub user : Option String

-- `yarl.URL(text)`, `none` if it raises ValueError or TypeError, `str(url)`, and the methods of a URL
-- that replace a part of it.
pub record UrlLibrary : Type 0 where
  pub parse : String → Option Url
  pub render : Url → String
  pub with_path : String → Url → Url
  pub with_scheme : String → Url → Url
  pub with_host : String → Url → Url
  pub with_port : Option ℕ → Url → Url

-- `text.lstrip()` and `text.rstrip()` of the characters that a test picks
unfoldable pub strip_front : (ℕ → Bool) → String → String
strip_front drops String.[] = String.[]
strip_front drops (String.◌∷◌ c s) =
    let rest = strip_front drops s in if drops (code c) then rest else String.◌∷◌ c s

abbrev keep_unless : (ℕ → Bool) → Char → String → String
keep_unless drops c String.[] = if drops (code c) then String.[] else String.◌∷◌ c String.[]
keep_unless drops c (String.◌∷◌ d s) = String.◌∷◌ c (String.◌∷◌ d s)

unfoldable pub strip_back : (ℕ → Bool) → String → String
strip_back drops String.[] = String.[]
strip_back drops (String.◌∷◌ c s) = keep_unless drops c (strip_back drops s)

-- `parsed.scheme in ("http", "https") and parsed.host and …`
unfoldable pub is_base : Url → Bool
is_base u =
    (u.scheme == "http" || u.scheme == "https")
    && truthy u.host
    && (u.path == "" || u.path == "/")
    && not (str_truthy u.query_string)
    && not (str_truthy u.fragment)
    && not (truthy u.user)
  where
    truthy : Option String → Bool
    truthy none = false
    truthy (some text) = str_truthy text

-- What `_is_own_url` asks Home Assistant: `is_hass_url(url)`, and the answers of `get_url` without
-- the external and without the internal address, `none` if they raise.
pub record Instance : Type 0 where
  pub is_hass_url : String → Bool
  pub internal : Option String
  pub external : Option String

abbrev starts_at : Option String → String → Bool
starts_at none url = false
starts_at (some base) url = starts_with url base

-- `_is_own_url`
unfoldable pub is_own_url : Instance → String → Bool
is_own_url hass url =
    hass.is_hass_url url || starts_at hass.internal url || starts_at hass.external url

module _ (y : UrlLibrary) where
  abbrev normalized : Option Url → Option String
  normalized none = none
  normalized (some u) =
      if is_base u then some (strip_back (λ c. c == 47) (y.render (y.with_path "" u))) else none

  -- `normalize_override`
  unfoldable pub normalize_override : String → Option String
  normalize_override text = normalized (y.parse (strip_back is_space (strip_front is_space text)))

  abbrev add_override : Option Uuid → Option String → Dict Uuid String → Dict Uuid String
  add_override (some uuid) (some base) d = put d uuid base
  add_override uuid base d = d

  -- `url_overrides`, of the option's entries with what their keys parse to
  unfoldable pub url_overrides : List (Option Uuid × String) → Dict Uuid String → Dict Uuid String
  url_overrides [] d = d
  url_overrides ((uuid, text) ∷ raw) d =
      url_overrides raw (add_override uuid (normalize_override text) d)

  abbrev pub at_base : Url → Url → String → Url
  at_base u target host =
      y.with_port target.explicit_port (y.with_host host (y.with_scheme target.scheme u))

  abbrev at_host : Url → Url → Option String → Option String
  at_host u target none = none
  at_host u target (some host) = some (y.render (at_base u target host))

  -- `none` if the URL or the base does not parse or the base has no host, at which the code raises.
  abbrev pub rebased : Option Url → Option Url → Option String
  rebased (some u) (some target) = at_host u target target.host
  rebased u target = none

  -- `rewrite_hass_url`
  unfoldable pub rewrite_hass_url : Instance → String → String → Option String
  rewrite_hass_url hass url base =
      if not (is_own_url hass url) then some url else rebased (y.parse url) (y.parse base)
