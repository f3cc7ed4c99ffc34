-- ===== src/Probe/Clip.antt =====
-- The clip of the probe and the view that serves it, custom_components/cast/probe.py; with the header
-- that Python's `wave` writes.
use ha_int_gcast.Base.{
  ℕ, zero, suc, ◌+◌, ◌/◌, ◌%◌, ◌≡◌, refl, String, Option, none, some, List, [], ◌∷◌, ◌++◌, length,
  or_else, arith, ◌==◌, string_eq, if◌then◌else◌,
}
use Prim.Native.String.{◌++◌ as str_append}

-- A number in two or four bytes, the lowest first
unfoldable pub little_endian : ℕ → ℕ → List ℕ
little_endian zero n = []
little_endian (suc bytes) n = n % 256 ∷ little_endian bytes (n / 256)

unfoldable pub silence : ℕ → List ℕ
silence zero = []
silence (suc frames) = 128 ∷ silence frames

-- `_silent_wav` of so many frames at a rate: one channel of 8 bits
unfoldable pub silent_wav : ℕ → ℕ → List ℕ
silent_wav frames rate =
    (82 ∷ 73 ∷ 70 ∷ 70 ∷ [])
    ++ little_endian 4 (36 + frames)
    ++ (87 ∷ 65 ∷ 86 ∷ 69 ∷ 102 ∷ 109 ∷ 116 ∷ 32 ∷ [])
    ++ little_endian 4 16
    ++ little_endian 2 1
    ++ little_endian 2 1
    ++ little_endian 4 rate
    ++ little_endian 4 rate
    ++ little_endian 2 1
    ++ little_endian 2 8
    ++ (100 ∷ 97 ∷ 116 ∷ 97 ∷ [])
    ++ little_endian 4 frames
    ++ silence frames

-- SILENT_CLIP: `int(0.25 * 8000)` frames
abbrev pub silent_clip : List ℕ
unfolding silent_wav little_endian silence
silent_clip = silent_wav (8000 / 4) 8000

-- `hass.data[DATA_PROBE_TOKEN]`, and how often the view was registered
pub record ProbeView : Type 0 where
  pub token : Option String
  pub views : ℕ

pub data Response : Type 0 where
  not_found : Response
  clip_response : List ℕ → Response

-- `CastProbeView.get`
unfoldable pub get_clip : String → ProbeView → Response
get_clip token v = if token == or_else v.token "" then clip_response silent_clip else not_found

-- `async_setup_probe_view`, with what `secrets.token_urlsafe(16)` gives
abbrev with_token : String → Option String → ProbeView → ProbeView
with_token fresh none v = record { token = some fresh; views = suc v.views }
with_token fresh (some token) v = v

unfoldable pub setup_probe_view : String → ProbeView → String × ProbeView
setup_probe_view fresh v =
    let v' = with_token fresh v.token v in
    (str_append "/api/cast/probe/" (str_append (or_else v'.token "") ".wav"), v')

length-silence : (frames : ℕ) → length (silence frames) ≡ frames
unfolding silence
length-silence zero = refl
length-silence (suc frames) = omega (arith, length-silence frames)

-- The clip has a header of 44 bytes, and a byte for each frame.
pub length-silent_wav : (frames rate : ℕ) → length (silent_wav frames rate) ≡ 44 + frames
unfolding silent_wav little_endian
length-silent_wav frames rate = omega (arith, length-silence frames)

-- A second set-up gives the same URL and registers no second view.
pub setup_probe_view-once :
    (fresh other : String) (v : ProbeView)
    → let (url, v') = setup_probe_view fresh v in setup_probe_view other v' ≡ (url, v')
unfolding setup_probe_view
setup_probe_view-once fresh other v = ground arith
