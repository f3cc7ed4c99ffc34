-- ===== src/Player/Owners.antt =====
-- How many entities and dynamic groups a discovered device has
-- (custom_components/cast/media_player.py).
use ha_int_gcast.Base.{
  ◌+◌, ◌≤◌, ◌≡◌, refl, String, Bool, true, false, Option, none, some, List, [], ◌∷◌, not, ◌&&◌,
  contains, any, count-append, Bool-cases, inl, inr, if_elim, nat_eq, string_eq, same_iff, arith,
}
use ha_int_gcast.Health.Types.{Uuid}
use ha_int_gcast.Player.Setup.{
  Group, Devices, added, create_cast_device, is_unwanted, cast_discovered, is_same,
  listening_groups, drop_group, begins_tear_downs, cast_removed, torn_down, group_disconnected,
  entity_removed, entity_disconnected, is_torn, Change, discovered, lost, group_returns,
  entity_gone, entity_returns, is_second_loss, loses_once, change, changes,
}
use ha_int_gcast.Player.Counted.{
  times, times-set_remove, contains-times, of_uuid, amount, amount-without, any-amount,
  of_uuid-amount, of_uuid-without, amount-listening_groups, any-none,
}

-- The entities, those being removed included, and the listening groups of a uuid are as many as its
-- entries among the added devices, which is one at most; the tear-downs are of groups that listen, one
-- for each at most as often as it listens; and no removal of a uuid has raised.
pub record IsOwned (s : Devices) : Type 0 where
  pub owners :
      (u : Uuid)
      → times u s.entities + times u s.leaving + of_uuid u s.groups ≡ times u s.added_cast_devices
  pub single : (u : Uuid) → times u s.added_cast_devices ≤ 1
  pub going : (g : Group) → amount g s.tear_downs ≤ amount g s.groups
  pub raised : s.key_errors ≡ 0

added-IsOwned :
    (v : Uuid) (is_dynamic : Bool) (s : Devices)
    → contains v s.added_cast_devices ≡ false
    → IsOwned s
    → IsOwned (added v is_dynamic s)
unfolding times
added-IsOwned v true s new h = record {
  owners = λ u. ground (arith, h.owners u);
  single = λ u. ground (arith, h.single u, contains-times v s.added_cast_devices, same_iff v u);
  going = λ g. ground (arith, h.going g);
  raised = h.raised;
}
added-IsOwned v false s new h = record {
  owners = λ u. ground (arith, h.owners u);
  single = λ u. ground (arith, h.single u, contains-times v s.added_cast_devices, same_iff v u);
  going = h.going;
  raised = h.raised;
}

create-IsOwned :
    (uuid : Option Uuid) (is_dynamic : Bool) (s : Devices)
    → IsOwned s
    → IsOwned (create_cast_device uuid is_dynamic s)
unfolding create_cast_device
create-IsOwned none is_dynamic s h = h
create-IsOwned (some v) is_dynamic s h = elim (Bool-cases (contains v s.added_cast_devices)) [
  | inl known ↦ rw known h
  | inr new ↦ rw new (added-IsOwned v is_dynamic s new h)
]

begun-IsOwned :
    (uuid : Option Uuid) (has_services : Bool) (s : Devices)
    → (not has_services && is_torn uuid s.tear_downs) ≡ false
    → IsOwned s
    → IsOwned (begins_tear_downs uuid has_services s)
begun-IsOwned none has_services s once h = h
begun-IsOwned (some v) true s once h = h
begun-IsOwned (some v) false s once h = record {
  owners = h.owners;
  single = h.single;
  going = λ g. ground (
    arith,
    count-append (is_same g) (listening_groups v s.groups) s.tear_downs,
    amount-listening_groups g v s.groups,
    any-none v g s.tear_downs,
    h.going g,
    same_iff g.uuid v,
  );
  raised = h.raised;
}

-- The uuid of a group whose tear-down is under way is among the added ones.
listed :
    (g : Group) (s : Devices)
    → 1 ≤ amount g s.tear_downs
    → IsOwned s
    → contains g.uuid s.added_cast_devices ≡ true
listed g s there h = ground (
  arith,
  h.owners g.uuid,
  h.going g,
  of_uuid-amount g.uuid g s.groups refl,
  contains-times g.uuid s.added_cast_devices,
)

torn_down-IsOwned :
    (g : Group) (s : Devices)
    → 1 ≤ amount g s.tear_downs
    → IsOwned s
    → IsOwned (torn_down g (record s { tear_downs = drop_group g s.tear_downs }))
torn_down-IsOwned g s there h = rw (listed g s there h) (record {
  owners = λ u. ground (
    arith,
    h.owners u,
    h.going g,
    of_uuid-without u g s.groups,
    times-set_remove u g.uuid s.added_cast_devices,
    same_iff g.uuid u,
    of_uuid-amount u g s.groups,
  );
  single = λ u. ground (arith, h.single u, times-set_remove u g.uuid s.added_cast_devices);
  going =
      λ k. ground (arith, h.going k, amount-without k g s.tear_downs, amount-without k g s.groups);
  raised = h.raised;
})

group-IsOwned : (g : Group) (s : Devices) → IsOwned s → IsOwned (group_disconnected g s)
unfolding group_disconnected
group-IsOwned g s h = elim (Bool-cases (any (is_same g) s.tear_downs)) [
  | inr none_such ↦ rw none_such h
  | inl there ↦ rw there (torn_down-IsOwned g s (any-amount g s.tear_downs there) h)
]

removed-IsOwned : (v : Uuid) (s : Devices) → IsOwned s → IsOwned (entity_removed v s)
unfolding entity_removed times
removed-IsOwned v s h = elim (Bool-cases (contains v s.entities)) [
  | inr other ↦ rw other h
  | inl there ↦ rw there (record {
    owners = λ u. ground (
      arith,
      h.owners u,
      times-set_remove u v s.entities,
      contains-times v s.entities,
      same_iff v u,
    );
    single = h.single;
    going = h.going;
    raised = h.raised;
  })
]

entity-IsOwned : (v : Uuid) (s : Devices) → IsOwned s → IsOwned (entity_disconnected v s)
unfolding entity_disconnected
entity-IsOwned v s h = elim (Bool-cases (contains v s.leaving)) [
  | inr other ↦ rw other h
  | inl there ↦
      let known : contains v s.added_cast_devices ≡ true =
        ground
          (arith, h.owners v, contains-times v s.leaving, contains-times v s.added_cast_devices) in
      rw (there, known)
        (record {
          owners = λ u. ground (
            arith,
            h.owners u,
            times-set_remove u v s.leaving,
            contains-times v s.leaving,
            times-set_remove u v s.added_cast_devices,
            same_iff v u,
          );
          single = λ u. ground (arith, h.single u, times-set_remove u v s.added_cast_devices);
          going = h.going;
          raised = h.raised;
        })
]

change-IsOwned :
    (wanted : List String) (c : Change) (s : Devices)
    → is_second_loss c s ≡ false
    → IsOwned s
    → IsOwned (change wanted c s)
unfolding change cast_discovered cast_removed
change-IsOwned wanted (discovered text d) s once h =
    if_elim IsOwned (is_unwanted wanted text) s (create_cast_device d.uuid d.is_dynamic_group s) h
      (create-IsOwned d.uuid d.is_dynamic_group s h)
change-IsOwned wanted (lost d) s once h = begun-IsOwned d.uuid d.has_services s once h
change-IsOwned wanted (group_returns g) s once h = group-IsOwned g s h
change-IsOwned wanted (entity_gone v) s once h = removed-IsOwned v s h
change-IsOwned wanted (entity_returns v) s once h = entity-IsOwned v s h

-- After any discoveries, losses of devices, removals of entities and returns of tear-downs from their
-- awaits, in which no device is lost for good while a tear-down of its group awaits the disconnect,
-- the entities and listening dynamic groups of a uuid are as many as its entries among the added
-- devices, that is one at most, each tear-down under way is of a group that listens, and taking a uuid
-- away has never raised KeyError.
pub changes-IsOwned :
    (wanted : List String) (cs : List Change)
    → loses_once wanted cs ≡ true
    → IsOwned (changes wanted cs)
unfolding changes loses_once times
changes-IsOwned wanted [] once = record {
  owners = λ u. refl;
  single = λ u. omega arith;
  going = λ g. omega arith;
  raised = refl;
}
changes-IsOwned wanted (c ∷ earlier) once =
    let first : is_second_loss c (changes wanted earlier) ≡ false = ground arith in
    let others : loses_once wanted earlier ≡ true = ground arith in
    change-IsOwned wanted c (changes wanted earlier) first (changes-IsOwned wanted earlier others)
