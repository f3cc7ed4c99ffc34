-- ===== src/Callbacks.antt =====
-- `CastStatusListener` of custom_components/cast/helpers.py: the callbacks of pychromecast that a listener
-- passes on to its device, until it is invalidated.
mod Examples
use ha_int_gcast.Base.{
  ℕ, String, Bool, true, false, Option, none, some, List, [], ◌∷◌, ◌++◌, ◌≡◌, refl, nat_eq,
  string_eq, not, if◌then◌else◌, contains, ◌==◌, ap,
}
use ha_int_gcast.Health.Types.{Uuid}
use ha_int_gcast.Health.Verdicts.{Status}

-- The callbacks; a receiver status and a connection status are opaque to the listener.
pub data Callback : Type 0 where
  new_cast_status : ℕ → Callback
  new_media_status : Status → Callback
  load_media_failed : ℕ → ℕ → Callback
  new_connection_status : String → Callback
  added_to_multizone removed_from_multizone : String → Callback
  multizone_new_cast_status : String → ℕ → Callback
  multizone_new_media_status : String → Status → Callback

-- The methods of the device that the listener calls.
pub data DeviceCall : Type 0 where
  cast_status : ℕ → DeviceCall
  media_status : Status → DeviceCall
  load_failed : ℕ → ℕ → DeviceCall
  connection_status : String → DeviceCall
  multizone_status : String → Option Status → DeviceCall

-- Where pychromecast keeps the listener: on the chromecast, and in the multizone manager as a group or
-- as the listener of a device.
pub record Registrations : Type 0 where
  pub on_chromecast : List ℕ
  pub multizones : List Uuid
  pub multizone_listeners : List (Uuid × ℕ)

pub record StatusListener : Type 0 where
  pub ident : ℕ
  pub uuid : Uuid
  pub valid : Bool
  pub registrations : Registrations

-- `CastStatusListener(cast_device, chromecast, mz_mgr, mz_only)`
unfoldable pub new_listener : ℕ → Uuid → Bool → Bool → Registrations → StatusListener
new_listener ident uuid is_group mz_only r = record {
  ident = ident;
  uuid = uuid;
  valid = true;
  registrations = record {
    on_chromecast = if mz_only then r.on_chromecast else r.on_chromecast ++ ident ∷ [];
    multizones = if is_group then r.multizones ++ uuid ∷ [] else r.multizones;
    multizone_listeners =
        if is_group
        then r.multizone_listeners
        else if mz_only
        then r.multizone_listeners
        else r.multizone_listeners ++ (uuid, ident) ∷ [];
  };
}

-- What a valid listener makes of a callback.
abbrev pub passed_on : Callback → List DeviceCall
passed_on (new_cast_status status) = cast_status status ∷ []
passed_on (new_media_status status) = media_status status ∷ []
passed_on (load_media_failed item code) = load_failed item code ∷ []
passed_on (new_connection_status status) = connection_status status ∷ []
passed_on (added_to_multizone group) = []
passed_on (removed_from_multizone group) = multizone_status group none ∷ []
passed_on (multizone_new_cast_status group status) = []
passed_on (multizone_new_media_status group status) = multizone_status group (some status) ∷ []

-- The callback methods, each behind `if self._valid`
unfoldable pub receive : Callback → StatusListener → List DeviceCall
receive c l = if l.valid then passed_on c else []

unfoldable pub without_group : Uuid → List Uuid → List Uuid
without_group uuid [] = []
without_group uuid (v ∷ vs) = if v == uuid then vs else v ∷ without_group uuid vs

unfoldable pub without_entry : Uuid → ℕ → List (Uuid × ℕ) → List (Uuid × ℕ)
without_entry uuid ident [] = []
without_entry uuid ident ((v, i) ∷ rest) =
    if v == uuid
    then (if i == ident then rest else (v, i) ∷ without_entry uuid ident rest)
    else (v, i) ∷ without_entry uuid ident rest

-- `invalidate`, with `is_audio_group` of the device as it is then
unfoldable pub invalidate : Bool → StatusListener → StatusListener
invalidate is_group l = record l {
  valid = false;
  registrations =
      if is_group
      then record l.registrations { multizones = without_group l.uuid l.registrations.multizones }
      else record l.registrations {
        multizone_listeners = without_entry l.uuid l.ident l.registrations.multizone_listeners;
      };
}

-- A callback arrives, or the device, which is an audio group then or not, invalidates the listener.
pub data ListenerEvent : Type 0 where
  arrives : Callback → ListenerEvent
  invalidates : Bool → ListenerEvent

-- The calls that the device receives over a sequence of events
unfoldable pub deliver : StatusListener → List ListenerEvent → List DeviceCall
deliver l [] = []
deliver l (arrives c ∷ events) = receive c l ++ deliver l events
deliver l (invalidates is_group ∷ events) = deliver (invalidate is_group l) events

-- What the callbacks before the first invalidation pass on.
unfoldable pub before_invalidation : List ListenerEvent → List DeviceCall
before_invalidation [] = []
before_invalidation (arrives c ∷ events) = passed_on c ++ before_invalidation events
before_invalidation (invalidates is_group ∷ events) = []

deliver-invalid :
    (l : StatusListener) (events : List ListenerEvent) → l.valid ≡ false → deliver l events ≡ []
unfolding deliver receive invalidate
deliver-invalid l [] h = refl
deliver-invalid l (arrives c ∷ events) h = rw (deliver-invalid l events h) (rw h refl)
deliver-invalid l (invalidates is_group ∷ events) h =
    deliver-invalid (invalidate is_group l) events refl

-- However callbacks and invalidations interleave, the device of a valid listener receives exactly what
-- the callbacks before the first invalidation pass on; nothing of an old connection arrives later.
pub deliver-before_invalidation :
    (l : StatusListener) (events : List ListenerEvent)
    → l.valid ≡ true
    → deliver l events ≡ before_invalidation events
unfolding deliver receive invalidate before_invalidation
deliver-before_invalidation l [] h = refl
deliver-before_invalidation l (arrives c ∷ events) h =
    rw (deliver-before_invalidation l events h) (rw h refl)
deliver-before_invalidation l (invalidates is_group ∷ events) h =
    deliver-invalid (invalidate is_group l) events refl
