-- ===== src/Player/Keeps.antt =====
-- The callbacks of an entity (custom_components/cast/media_player.py) against Player/Sound.
use ha_int_gcast.Base.{
  ℕ, ap, sym, true, ◌++◌, Bool-cases, inl, inr, String, Bool, false, Option, none, some, List, [],
  ◌∷◌, ◌≡◌, refl, ◌∙◌, if_elim, ◌==◌, string_eq, nat_eq, bool_beq, not, ◌&&◌, arith,
}
use ha_int_gcast.Health.Types.{Moment}
use ha_int_gcast.Topology.Types.{ChromecastInfo}
use ha_int_gcast.Callbacks.{StatusListener}
use mathlib.Core.Path.{subst}
use ha_int_gcast.Player.Types.{
  Chromecast, Multizone, Write, sets_status, sets_time, schedules, Entity, new_entity,
}
use ha_int_gcast.Player.Callbacks.{
  write_state, invalidate_entity, connect, disconnect, rediscovered, on_cast_status,
  on_media_status, on_group_status, poll_groups, availability_changed, on_connection_status,
  nth_write, without_nth, written, go_on_writing,
}
use ha_int_gcast.Player.Lifecycle.{
  Reception, cast_status, media_status, connection_status, group_status, react, heard, Occurrence,
  connects, disconnects, discovers, receives, writes_on, occur, alive, is_cut, is_idle,
  is_undisturbed,
}
use ha_int_gcast.Player.Sound.{
  held, IsDated, linked, blank, IsSound, ahead-IsDated, written-IsDated, invalidate_entity-IsSound,
}

unfinished-idle : (ws : List Write) → elim ws [ [] ↦ true | w ∷ rest ↦ false ] ≡ true → ws ≡ []
unfinished-idle [] h = refl
unfinished-idle (w ∷ ws) h = absurd (ground arith)

idle-unfinished : (e : Entity) → is_idle e ≡ true → e.unfinished ≡ []
idle-unfinished e h = unfinished-idle e.unfinished h

-- A write leaves the connection.
written-connection :
    (now : Moment) (o : Option Write) (rest : List Write) (e : Entity)
    → ((written now o rest e).chromecast ≡ e.chromecast)
      × ((written now o rest e).mz_mgr ≡ e.mz_mgr)
written-connection now none rest e = (refl, refl)
written-connection now (some (sets_status g s)) rest e = (refl, refl)
written-connection now (some (sets_time g)) rest e = (refl, refl)
written-connection now (some schedules) rest e = (refl, refl)

-- On a linked entity
module _ (e : Entity) (c : Chromecast) (mz : Multizone) (d : IsDated (held e))
    (hc : e.chromecast ≡ some c) (hm : e.mz_mgr ≡ some mz) where
  as_it_was : IsSound e
  as_it_was = record { dated = d; link = linked c mz hc hm }

  availability_changed-IsSound :
      (new_available : Bool) → IsSound (availability_changed new_available e)
  availability_changed-IsSound new_available =
      let polls = poll_groups e.mz_mgr in
      if_elim IsSound (new_available && not e.info.is_audio_group)
        (record e { available = new_available; unfinished = polls ++ e.unfinished })
        (write_state (record e { available = new_available }))
        (record { dated = ahead-IsDated e polls new_available d; link = linked c mz hc hm })
        (record { dated = record { unique = d.unique; timed = d.timed }; link = linked c mz hc hm })

  on_connection_status-IsSound :
      (status : String)
      → (status == "DISCONNECTED" && not (is_idle e)) ≡ false
      → IsSound (on_connection_status status e)
  unfolding on_connection_status invalidate_entity
  on_connection_status-IsSound status quiet = elim (Bool-cases (status == "DISCONNECTED")) [
    | inl gone ↦
        let idle : e.unfinished ≡ [] = idle-unfinished e (ground arith) in
        rw gone (invalidate_entity-IsSound e idle)
    | inr other ↦
        let new_available = status == "CONNECTED" in
        rw other (
          if_elim IsSound (bool_beq new_available e.available) e
            (availability_changed new_available e) as_it_was
            (availability_changed-IsSound new_available))
  ]

  react-IsSound :
      (now : Moment) (r : Reception)
      → (is_cut (receives r) && not (is_idle e)) ≡ false
      → IsSound (react now r e)
  unfolding react on_cast_status on_media_status on_group_status
  react-IsSound now (cast_status status) quiet = record {
    dated = record { unique = d.unique; timed = d.timed };
    link = linked c mz hc hm;
  }
  react-IsSound now (media_status status) quiet = record {
    dated = record { unique = d.unique; timed = d.timed };
    link = linked c mz hc hm;
  }
  react-IsSound now (connection_status status) quiet = on_connection_status-IsSound status quiet
  react-IsSound now (group_status group status) quiet = record {
    dated = ahead-IsDated e (sets_status group status ∷ []) e.available d;
    link = linked c mz hc hm;
  }

  through-IsSound :
      (now : Moment) (r : Reception) (l : Option StatusListener)
      → (is_cut (receives r) && not (is_idle e)) ≡ false
      → IsSound (heard now r l e)
  through-IsSound now r none quiet = as_it_was
  through-IsSound now r (some l) quiet =
      if_elim IsSound l.valid (react now r e) e (react-IsSound now r quiet) as_it_was

  written-IsSound : (now : Moment) (n : ℕ) → IsSound (go_on_writing now n e)
  unfolding go_on_writing
  written-IsSound now n = record {
    dated = written-IsDated now n e d (nth_write n e.unfinished) refl;
    link =
        let keeps =
          written-connection now (nth_write n e.unfinished) (without_nth n e.unfinished) e in
        linked c mz (keeps.0 ∙ hc) (keeps.1 ∙ hm);
  }

unheard-IsSound :
    (now : Moment) (r : Reception) (e : Entity) (l : Option StatusListener)
    → l ≡ none
    → IsSound e
    → IsSound (heard now r l e)
unheard-IsSound now r e none h s = s
unheard-IsSound now r e (some l) h s = absurd (ground arith)

heard-IsSound :
    (now : Moment) (r : Reception) (e : Entity)
    → (is_cut (receives r) && not (is_idle e)) ≡ false
    → IsSound e
    → IsSound (heard now r e.status_listener e)
heard-IsSound now r e quiet h = elim h.link [
  | linked c mz hc hm ↦ through-IsSound e c mz h.dated hc hm now r e.status_listener quiet
  | blank hc b ↦ unheard-IsSound now r e e.status_listener b.no_listener h
]

unwritten : (now : Moment) (n : ℕ) (e : Entity) → e.unfinished ≡ [] → go_on_writing now n e ≡ e
unfolding go_on_writing nth_write
unwritten now n e h = ap (λ ws. written now (nth_write n ws) (without_nth n ws) e) h

go_on-IsSound : (now : Moment) (n : ℕ) (e : Entity) → IsSound e → IsSound (go_on_writing now n e)
go_on-IsSound now n e h = elim h.link [
  | linked c mz hc hm ↦ written-IsSound e c mz h.dated hc hm now n
  | blank hc b ↦ subst IsSound (sym (unwritten now n e b.no_writes)) h
]

pub occur-IsSound :
    (now : Moment) (o : Occurrence) (e : Entity)
    → (is_cut o && not (is_idle e)) ≡ false
    → IsSound e
    → IsSound (occur now o e)
unfolding occur connect disconnect rediscovered invalidate_entity
occur-IsSound now (connects ident c mz registrations) e quiet h = record {
  dated = record { unique = h.dated.unique; timed = h.dated.timed };
  link = linked c mz refl refl;
}
occur-IsSound now disconnects e quiet h =
    invalidate_entity-IsSound e (idle-unfinished e (ground arith))
occur-IsSound now (discovers info) e quiet h =
    if_elim IsSound (e.info.uuid == info.uuid) (record e { info = info }) e h h
occur-IsSound now (receives r) e quiet h = heard-IsSound now r e quiet h
occur-IsSound now (writes_on n) e quiet h = go_on-IsSound now n e h

pub alive-IsSound :
    (entity_id : String) (info : ChromecastInfo) (life : List (Moment × Occurrence))
    → is_undisturbed entity_id info life ≡ true
    → IsSound (alive entity_id info life)
unfolding alive invalidate_entity is_undisturbed
alive-IsSound entity_id info [] calm = invalidate_entity-IsSound (new_entity entity_id info) refl
alive-IsSound entity_id info ((now, o) ∷ earlier) calm =
    let e = alive entity_id info earlier in
    let quiet : (is_cut o && not (is_idle e)) ≡ false = ground arith in
    let before : is_undisturbed entity_id info earlier ≡ true = ground arith in
    occur-IsSound now o e quiet (alive-IsSound entity_id info earlier before)
