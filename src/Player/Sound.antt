-- ===== src/Player/Sound.antt =====
-- What holds of an entity of custom_components/cast/media_player.py through its whole life: the statuses of
-- the groups are dated, and without a chromecast it holds nothing of an old connection.
use ha_int_gcast.Base.{
  ℕ, zero, suc, is_some, ◌||◌, ◌++◌, ◌==◌, arith, String, Bool, true, false, Option, none, some,
  List, [], ◌∷◌, ◌≡◌, refl, string_eq, nat_eq,
}
use ha_int_gcast.Base.Dict.{Dict, get, get-put}
use ha_int_gcast.Base.Keys.{has_unique_keys, has_unique_keys-put}
use ha_int_gcast.Health.Types.{Moment}
use ha_int_gcast.Callbacks.{StatusListener}
use ha_int_gcast.Player.Types.{
  MediaStatus, CastStatus, Chromecast, Multizone, Write, sets_status, sets_time, schedules, Entity,
}
use ha_int_gcast.Player.Callbacks.{invalidate_entity, nth_write, without_nth, written}

-- What the entity holds of a connection
pub record Holding : Type 0 where
  pub chromecast : Option Chromecast
  pub mz_mgr : Option Multizone
  pub status_listener : Option StatusListener
  pub cast_status : Option CastStatus
  pub media_status : Option MediaStatus
  pub media_status_received : Option ℕ
  pub mz_media_status : Dict String (Option MediaStatus)
  pub mz_media_status_received : Dict String ℕ
  pub available : Bool
  pub unfinished : List Write

abbrev pub held : Entity → Holding
held e = record {
  chromecast = e.chromecast;
  mz_mgr = e.mz_mgr;
  status_listener = e.status_listener;
  cast_status = e.cast_status;
  media_status = e.media_status;
  media_status_received = e.media_status_received;
  mz_media_status = e.mz_media_status;
  mz_media_status_received = e.mz_media_status_received;
  available = e.available;
  unfinished = e.unfinished;
}

-- Does a callback under way still have to write the time of a group?
unfoldable pub awaits : String → List Write → Bool
awaits group [] = false
awaits group (sets_time g ∷ ws) = g == group || awaits group ws
awaits group (w ∷ ws) = awaits group ws

-- Every group status stands once, and has a time or a callback that is about to write it.
pub record IsDated (h : Holding) : Type 0 where
  pub unique : has_unique_keys h.mz_media_status ≡ true
  pub timed :
      (group : String)
      → is_some (get h.mz_media_status group) ≡ true
      → (is_some (get h.mz_media_status_received group) || awaits group h.unfinished) ≡ true

-- Nothing of a connection is left.
pub record IsBlank (h : Holding) : Type 0 where
  pub no_manager : h.mz_mgr ≡ none
  pub no_listener : h.status_listener ≡ none
  pub no_cast_status : h.cast_status ≡ none
  pub no_media : h.media_status ≡ none
  pub no_received : h.media_status_received ≡ none
  pub no_groups : h.mz_media_status ≡ []
  pub unavailable : h.available ≡ false
  pub no_writes : h.unfinished ≡ []

-- The entity is connected, with a multizone manager, or it is blank.
pub data Link (h : Holding) : Type 0 where
  linked : (c : Chromecast) (mz : Multizone) → h.chromecast ≡ some c → h.mz_mgr ≡ some mz → Link h
  blank : h.chromecast ≡ none → IsBlank h → Link h

pub record Sound (h : Holding) : Type 0 where
  pub dated : IsDated h
  pub link : Link h

abbrev pub IsSound : Entity → Type 0
IsSound e = Sound (held e)

awaits-append :
    (group : String) (vs ws : List Write)
    → awaits group (vs ++ ws) ≡ (awaits group vs || awaits group ws)
unfolding awaits
awaits-append group [] ws = refl
awaits-append group (sets_time g ∷ vs) ws = ground (arith, awaits-append group vs ws)
awaits-append group (sets_status g s ∷ vs) ws = awaits-append group vs ws
awaits-append group (schedules ∷ vs) ws = awaits-append group vs ws

abbrev is_time_of : String → Write → Bool
is_time_of group (sets_time g) = g == group
is_time_of group w = false

awaits-nth :
    (group : String) (n : ℕ) (ws : List Write) (w : Write)
    → nth_write n ws ≡ some w
    → awaits group ws ≡ (is_time_of group w || awaits group (without_nth n ws))
unfolding awaits nth_write without_nth
awaits-nth group n [] w h = ground arith
awaits-nth group zero (sets_time g ∷ ws) w h = ground arith
awaits-nth group zero (sets_status g s ∷ ws) w h = ground arith
awaits-nth group zero (schedules ∷ ws) w h = ground arith
awaits-nth group (suc n) (sets_time g ∷ ws) w h = ground (arith, awaits-nth group n ws w h)
awaits-nth group (suc n) (sets_status g s ∷ ws) w h = awaits-nth group n ws w h
awaits-nth group (suc n) (schedules ∷ ws) w h = awaits-nth group n ws w h

-- More writes ahead leave the dates.
pub ahead-IsDated :
    (e : Entity) (ws : List Write) (new_available : Bool)
    → IsDated (held e)
    → IsDated (held (record e { available = new_available; unfinished = ws ++ e.unfinished }))
ahead-IsDated e ws new_available d = record {
  unique = d.unique;
  timed = λ group there. ground (arith, d.timed group there, awaits-append group ws e.unfinished);
}

pub written-IsDated :
    (now : Moment) (n : ℕ) (e : Entity)
    → IsDated (held e)
    → (o : Option Write) → nth_write n e.unfinished ≡ o
    → IsDated (held (written now o (without_nth n e.unfinished) e))
unfolding awaits
written-IsDated now n e d none h = d
written-IsDated now n e d (some (sets_status group status)) h = record {
  unique = has_unique_keys-put e.mz_media_status group status d.unique;
  timed = λ g there. ground (
    arith,
    d.timed g,
    awaits-nth g n e.unfinished (sets_status group status) h,
    get-put e.mz_media_status group g status,
  );
}
written-IsDated now n e d (some (sets_time group)) h = record {
  unique = d.unique;
  timed = λ g there. ground (
    arith,
    d.timed g there,
    awaits-nth g n e.unfinished (sets_time group) h,
    get-put e.mz_media_status_received group g now.utc,
  );
}
written-IsDated now n e d (some schedules) h = record {
  unique = d.unique;
  timed = λ g there. ground (arith, d.timed g there, awaits-nth g n e.unfinished schedules h);
}

pub invalidate_entity-IsSound :
    (e : Entity) → e.unfinished ≡ [] → IsSound (record (invalidate_entity e) { available = false })
unfolding invalidate_entity has_unique_keys get
invalidate_entity-IsSound e quiet = record {
  dated = record { unique = refl; timed = λ group there. ground arith };
  link = blank refl (record {
    no_manager = refl;
    no_listener = refl;
    no_cast_status = refl;
    no_media = refl;
    no_received = refl;
    no_groups = refl;
    unavailable = refl;
    no_writes = quiet;
  });
}
