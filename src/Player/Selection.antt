-- ===== src/Player/Selection.antt =====
-- The status that an entity of custom_components/cast/media_player.py shows, against the media controller
-- that its commands go to.
use ha_int_gcast.Base.{
  refl, ℕ, String, true, Option, none, some, List, [], ◌∷◌, ◌≡◌, Option-cases, Bool-cases, ◌⊎◌, inl,
  inr, string_eq, same_iff, arith,
}
use ha_int_gcast.Base.Dict.{Dict, get}
use ha_int_gcast.Base.Keys.{has_unique_keys}
use ha_int_gcast.Health.Types.{Moment}
use ha_int_gcast.Topology.Types.{ChromecastInfo}
use ha_int_gcast.Player.Types.{MediaStatus, Multizone, Entity}
use ha_int_gcast.Player.Media.{
  first_group, key_error, is_uninformative, selected, media_selection, Controller, own,
  of_group_uuid, media_controller,
}
use ha_int_gcast.Player.Lifecycle.{Occurrence, alive, is_undisturbed}
use ha_int_gcast.Player.Sound.{held, IsDated, awaits, linked, blank, IsSound}
use ha_int_gcast.Player.Keeps.{alive-IsSound}

-- The last status of a controller's device, with its time
abbrev pub flat {ℓ} : {A : Type ℓ} → Option (Option A) → Option A
flat none = none
flat (some o) = o

unfoldable pub status_behind : Entity → Controller → Option MediaStatus
status_behind e own = e.media_status
status_behind e (of_group_uuid group) = flat (get e.mz_media_status group)

unfoldable pub received_behind : Entity → Controller → Option ℕ
received_behind e own = e.media_status_received
received_behind e (of_group_uuid group) = get e.mz_media_status_received group

-- A group that the search finds has that status.
first_group-get :
    (d : Dict String (Option MediaStatus)) (group : String) (status : MediaStatus)
    → has_unique_keys d ≡ true
    → first_group d ≡ some (group, status)
    → get d group ≡ some (some status)
unfolding first_group has_unique_keys get
first_group-get [] group status u h = ground arith
first_group-get ((k, none) ∷ d) group status u h =
    ground (arith, first_group-get d group status, same_iff k group)
first_group-get ((k, some s) ∷ d) group status u h =
    ground (arith, first_group-get d group status, same_iff k group)

-- What the entity selects is the status of the controller that it commands.
unfoldable pub Agrees : Entity → Type 0
Agrees e =
    let c = media_controller e in
    media_selection e ≡ selected (status_behind e c) (received_behind e c)

-- A callback has written a group's status and not yet its time, and reading the media status raises
-- KeyError.
pub record IsCaught (e : Entity) : Type 0 where
  pub group : String
  pub raises : media_selection e ≡ key_error group
  pub under_way : awaits group e.unfinished ≡ true

found-Agrees :
    (e : Entity) (group : String) (status : MediaStatus) (mz : Multizone)
    → IsDated (held e)
    → e.mz_mgr ≡ some mz
    → first_group e.mz_media_status ≡ some (group, status)
    → Agrees e ⊎ IsCaught e
unfolding Agrees media_selection media_controller status_behind received_behind
found-Agrees e group status mz d hm found =
    let there = first_group-get e.mz_media_status group status d.unique found in
    elim (Bool-cases (is_uninformative e.media_status)) [
      | inr informed ↦ inl (ground arith)
      | inl blind ↦ elim (Option-cases (get e.mz_media_status_received group)) [
        | inr (time, e') ↦ inl (ground arith)
        | inl missing ↦ inr (record {
          group = group;
          raises = ground arith;
          under_way = ground (arith, d.timed group (rw there refl));
        })
      ]
    ]

media_selection-Agrees : (e : Entity) → IsSound e → Agrees e ⊎ IsCaught e
unfolding Agrees media_selection media_controller status_behind received_behind first_group
media_selection-Agrees e h = elim h.link [
  | linked c mz hc hm ↦ elim (Option-cases (first_group e.mz_media_status)) [
    | inl nothing ↦ inl (ground arith)
    | inr ((group, status), found) ↦ found-Agrees e group status mz h.dated hm found
  ]
  | blank hc b ↦ let no_groups = b.no_groups in let no_manager = b.no_manager in inl (ground arith)
]

-- However an entity is connected, disconnected and called back, the writes of its callbacks for groups
-- interleaved with everything else, while no callback is under way when the connection goes: the
-- status and time that it shows are those of the device or group that its playback commands go to, or
-- a callback has written the status of a group and not yet its time, and reading the media status
-- raises KeyError for that group.
pub alive-Agrees :
    (entity_id : String) (info : ChromecastInfo) (life : List (Moment × Occurrence))
    → is_undisturbed entity_id info life ≡ true
    → Agrees (alive entity_id info life) ⊎ IsCaught (alive entity_id info life)
alive-Agrees entity_id info life calm =
    media_selection-Agrees (alive entity_id info life) (alive-IsSound entity_id info life calm)
