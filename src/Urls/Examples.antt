-- ===== src/Urls/Examples.antt =====
-- Tests of custom_components/cast/urls.py at concrete inputs.
use ha_int_gcast.Base.{◌≡◌, refl, false, none, some, ◌==◌, string_eq, if◌then◌else◌}
use ha_int_gcast.Urls.{
  Url, UrlLibrary, Instance, is_own_url, rewrite_hass_url, normalize_override, is_base, strip_front,
  strip_back,
}

abbrev clip : Url
clip = record {
  scheme = "http";
  host = some "ha";
  explicit_port = some 8123;
  path = "/api/tts.mp3";
  query_string = "";
  fragment = "";
  user = none;
}

abbrev proxy : Url
proxy = record clip { scheme = "https"; host = some "proxy"; explicit_port = none; path = "" }

-- A library that knows three texts.
abbrev library : UrlLibrary
library = record {
  parse = λ text.
      if text == "http://ha:8123/api/tts.mp3"
      then some clip
      else if text == "https://proxy/"
      then some proxy
      else none;
  render = λ u. if u.path == "" then "https://proxy/" else "https://proxy/api/tts.mp3";
  with_path = λ path u. record u { path = path; query_string = ""; fragment = "" };
  with_scheme = λ scheme u. record u { scheme = scheme };
  with_host = λ host u. record u { host = some host };
  with_port = λ port u. record u { explicit_port = port };
}

abbrev hass : Instance
hass = record { is_hass_url = λ url. false; internal = some "http://ha:8123"; external = none }

rewritten :
    rewrite_hass_url library hass "http://ha:8123/api/tts.mp3" "https://proxy/"
    ≡ some "https://proxy/api/tts.mp3"
unfolding rewrite_hass_url is_own_url
rewritten = refl

-- The blanks around an override and its slash at the end are dropped.
normalized : normalize_override library " https://proxy/ " ≡ some "https://proxy"
unfolding normalize_override is_base strip_front strip_back
normalized = refl
