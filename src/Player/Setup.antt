-- ===== src/Player/Setup.antt =====
-- Which discovered devices become entities or dynamic groups, and when they go
-- (custom_components/cast/media_player.py): `async_setup_entry` with `_async_create_cast_device`,
-- `_async_tear_down` and `DynamicCastGroup`.
use ha_int_gcast.Base.{
  ℕ, suc, any, ◌++◌, String, Bool, true, false, Option, none, some, List, [], ◌∷◌, not, ◌&&◌,
  contains, ◌==◌, nat_eq, string_eq, if◌then◌else◌,
}
use ha_int_gcast.Health.Types.{Uuid}

-- A `ChromecastInfo` as far as the set-up reads it
pub record Discovered : Type 0 where
  pub uuid : Option Uuid
  pub is_dynamic_group : Bool
  pub has_services : Bool

-- A `DynamicCastGroup` object
pub record Group : Type 0 where
  pub ident : ℕ
  pub uuid : Uuid

-- `runtime_data.added_cast_devices`, the entities, those of them that are being removed, the dynamic
-- groups that listen, the tear-downs of groups that await their disconnect, and how often a
-- `set.remove` has raised KeyError.
pub record Devices : Type 0 where
  pub added_cast_devices : List Uuid
  pub entities : List Uuid
  pub leaving : List Uuid
  pub groups : List Group
  pub tear_downs : List Group
  pub next_group : ℕ
  pub key_errors : ℕ

abbrev pub no_devices : Devices
no_devices = record {
  added_cast_devices = [];
  entities = [];
  leaving = [];
  groups = [];
  tear_downs = [];
  next_group = 0;
  key_errors = 0;
}

-- `set.remove`
unfoldable pub set_remove : Uuid → List Uuid → List Uuid
set_remove u [] = []
set_remove u (v ∷ vs) = let rest = set_remove u vs in if v == u then vs else v ∷ rest

-- A new device: a group that listens, or an entity
abbrev pub added : Uuid → Bool → Devices → Devices
added u true s = record s {
  added_cast_devices = u ∷ s.added_cast_devices;
  groups = record { ident = s.next_group; uuid = u } ∷ s.groups;
  next_group = suc s.next_group;
}
added u false s = record s {
  added_cast_devices = u ∷ s.added_cast_devices;
  entities = u ∷ s.entities;
}

-- `_async_create_cast_device`, by `info.uuid`
unfoldable pub create_cast_device : Option Uuid → Bool → Devices → Devices
create_cast_device none is_dynamic s = s
create_cast_device (some u) is_dynamic s =
    if contains u s.added_cast_devices then s else added u is_dynamic s

-- `wanted_uuids is not None and str(discover.uuid) not in wanted_uuids`; an empty list is None.
unfoldable pub is_unwanted : List String → String → Bool
is_unwanted [] text = false
is_unwanted (wanted ∷ more) text = not (contains text (wanted ∷ more))

-- `async_cast_discovered`, with `str(discover.uuid)`
unfoldable pub cast_discovered : List String → String → Discovered → Devices → Devices
cast_discovered wanted text d s =
    if is_unwanted wanted text then s else create_cast_device d.uuid d.is_dynamic_group s

abbrev pub is_of : Uuid → Group → Bool
is_of u g = g.uuid == u

abbrev pub is_same : Group → Group → Bool
is_same g h = (g.ident == h.ident) && (g.uuid == h.uuid)

unfoldable pub listening_groups : Uuid → List Group → List Group
listening_groups u [] = []
listening_groups u (g ∷ gs) =
    let rest = listening_groups u gs in if is_of u g then g ∷ rest else rest

unfoldable pub drop_group : Group → List Group → List Group
drop_group g [] = []
drop_group g (h ∷ gs) = let rest = drop_group g gs in if is_same h g then gs else h ∷ rest

-- `_async_cast_removed` of every group that listens: the tear-downs begin, and await the disconnect.
abbrev pub begins_tear_downs : Option Uuid → Bool → Devices → Devices
begins_tear_downs none has_services s = s
begins_tear_downs (some u) has_services s =
    if has_services
    then s
    else record s { tear_downs = listening_groups u s.groups ++ s.tear_downs }

unfoldable pub cast_removed : Discovered → Devices → Devices
cast_removed d s = begins_tear_downs d.uuid d.has_services s

-- `_async_tear_down` of a group after the await; the handlers go last.
abbrev pub torn_down : Group → Devices → Devices
torn_down g s =
    if contains g.uuid s.added_cast_devices
    then record s {
      added_cast_devices = set_remove g.uuid s.added_cast_devices;
      groups = drop_group g s.groups;
    }
    else record s { key_errors = suc s.key_errors }

-- A tear-down of a group comes back from its await.
unfoldable pub group_disconnected : Group → Devices → Devices
group_disconnected g s =
    if any (is_same g) s.tear_downs
    then torn_down g (record s { tear_downs = drop_group g s.tear_downs })
    else s

-- `async_will_remove_from_hass` of an entity, until the await of its tear-down
unfoldable pub entity_removed : Uuid → Devices → Devices
entity_removed u s =
    if contains u s.entities
    then record s { entities = set_remove u s.entities; leaving = u ∷ s.leaving }
    else s

-- and after it
abbrev pub entity_torn_down : Uuid → Devices → Devices
entity_torn_down u s =
    if contains u s.added_cast_devices
    then record s { added_cast_devices = set_remove u s.added_cast_devices }
    else record s { key_errors = suc s.key_errors }

unfoldable pub entity_disconnected : Uuid → Devices → Devices
entity_disconnected u s =
    if contains u s.leaving
    then entity_torn_down u (record s { leaving = set_remove u s.leaving })
    else s

pub data Change : Type 0 where
  discovered : String → Discovered → Change
  lost : Discovered → Change
  group_returns : Group → Change
  entity_gone entity_returns : Uuid → Change

unfoldable pub change : List String → Change → Devices → Devices
change wanted (discovered text d) s = cast_discovered wanted text d s
change wanted (lost d) s = cast_removed d s
change wanted (group_returns g) s = group_disconnected g s
change wanted (entity_gone u) s = entity_removed u s
change wanted (entity_returns u) s = entity_disconnected u s

-- Any sequence of changes, the last one first
unfoldable pub changes : List String → List Change → Devices
changes wanted [] = no_devices
changes wanted (c ∷ earlier) = change wanted c (changes wanted earlier)

-- Is a device lost for good while the tear-down of a group of its uuid awaits the disconnect?
abbrev pub is_torn : Option Uuid → List Group → Bool
is_torn none gs = false
is_torn (some u) gs = any (is_of u) gs

abbrev pub is_second_loss : Change → Devices → Bool
is_second_loss (lost d) s = not d.has_services && is_torn d.uuid s.tear_downs
is_second_loss c s = false

unfoldable pub loses_once : List String → List Change → Bool
loses_once wanted [] = true
loses_once wanted (c ∷ earlier) =
    not (is_second_loss c (changes wanted earlier)) && loses_once wanted earlier
