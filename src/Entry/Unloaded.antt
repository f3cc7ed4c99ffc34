-- ===== src/Entry/Unloaded.antt =====
-- What an unloaded entry leaves behind (custom_components/cast/__init__.py).
use ha_int_gcast.Base.{
  ℕ, ◌≡◌, refl, ap, sym, true, false, Option, none, some, List, [], ◌∷◌, arith, nat_eq,
}
use ha_int_gcast.Base.Dict.{Dict, get}
use ha_int_gcast.Health.Types.{Uuid, Moment}
use ha_int_gcast.Health.Listener.{notify}
use ha_int_gcast.Health.Ledger.{Ledger, Urls, store, health_of}
use ha_int_gcast.Health.Requests.{add_listener, remove_listener}
use ha_int_gcast.Health.Run.{Call, init, run}
use ha_int_gcast.Health.Run.Keeps.{inside}
use ha_int_gcast.Health.Run.Listens.{Listens, IsCalm, calm-keeps, run-Listens}
use ha_int_gcast.Health.Run.Timers.{IsLinked, store-IsLinked, IsLinked-kept, IsLinked-init}
use ha_int_gcast.Health.Shutdown.{shutdown}
use ha_int_gcast.Health.Shutdown.Silence.{shutdown-linked}
use ha_int_gcast.Topology.Types.{TopologyTracker}
use ha_int_gcast.Repairs.Manager.{RepairManager}
use ha_int_gcast.Repairs.Operations.{new_manager}
use ha_int_gcast.Repairs.Listen.{repair_listener}
use ha_int_gcast.Repairs.Store.{Texts, Saved, data_to_save, write_seen, async_load, detach_manager}
use ha_int_gcast.Probe.Tasks.{Coordinator, shutdown_probes}
use ha_int_gcast.Discovery.Browser.{Discoverer, begin_unload, go_on, release, over}
use ha_int_gcast.Discovery.Lock.{is_guarded}
use ha_int_gcast.Entry.Setup.{
  Entry, get_ledger, repairs_ident, coordinator_ident, breaker_listener, setup_entry, used,
  unload_entry, stop_discovery,
}

-- Loading the last-seen times leaves no request pending.
write_seen-IsLinked :
    {W : Type 0} (d : Dict Uuid ℕ) (l : Ledger W) → IsLinked l → IsLinked (write_seen d l)
unfolding write_seen
write_seen-IsLinked [] l h = h
write_seen-IsLinked ((u, t) ∷ d) l h =
    write_seen-IsLinked d (store u (record (health_of l u) { last_seen = some t }) l)
      (store-IsLinked u (record (health_of l u) { last_seen = some t }) l refl h)

write_seen-listeners :
    {W : Type 0} (d : Dict Uuid ℕ) (l : Ledger W) → (write_seen d l).listeners ≡ l.listeners
unfolding write_seen store
write_seen-listeners [] l = refl
write_seen-listeners ((u, t) ∷ d) l =
    write_seen-listeners d (store u (record (health_of l u) { last_seen = some t }) l)

-- Nothing at all, as what the listeners' state satisfies
abbrev Anything : RepairManager → Type 0
Anything m = Unit

-- The entry as it was set up and used
record IsRunning (interval : ℕ) (e : Entry) : Type 0 where
  linked : IsLinked e.ledger
  listens :
      Listens (repair_listener repairs_ident ∷ breaker_listener interval ∷ []) Anything e.ledger
  attached : e.unsub_repairs ≡ some repairs_ident

setup_entry-IsRunning :
    (x : Texts) (saved : Saved) (urls : Urls) (interval : ℕ) (t : TopologyTracker) (d : Discoverer)
    → IsRunning interval (setup_entry x saved urls interval t d)
unfolding setup_entry get_ledger async_load add_listener init
setup_entry-IsRunning x saved urls interval t d =
    let fresh = init urls new_manager in
    let seen = (async_load x saved (repair_listener repairs_ident) new_manager fresh).0.last_seen in
    record {
      linked = record {
        links = (write_seen-IsLinked seen fresh (IsLinked-init urls new_manager)).links;
      };
      listens = record { listeners = rw (write_seen-listeners seen fresh) refl; owned = tt };
      attached = refl;
    }

-- No timer and no listener is left, the coordinator asks for no update, the file holds the manager as
-- it is at the end, and the lock of the discovery is free.
pub record IsUnloaded (x : Texts) (e : Entry) : Type 0 where
  pub timers : (handle : ℕ) → get e.ledger.timers handle ≡ none
  pub listeners : e.ledger.listeners ≡ []
  pub saved : e.saved ≡ data_to_save x e.ledger.others
  pub quiet : e.coordinator.keepalive ≡ false
  pub unlocked : e.discovery.locked ≡ false

-- A guarded discovery is stopped with its lock released.
stop_discovery-unlocked :
    (d : Discoverer) → is_guarded over d ≡ true → (stop_discovery d).locked ≡ false
unfolding is_guarded begin_unload go_on release
stop_discovery-unlocked d h = ground arith

-- The ledger when the coordinator and the repair manager have let go of it
abbrev let_go : Coordinator → Option ℕ → Ledger RepairManager → Ledger RepairManager
let_go c unsub l =
    (detach_manager unsub (shutdown_probes (record { coordinator = c; ledger = l })).ledger).1

let_go-silent :
    (interval : ℕ) (c : Coordinator) (unsub : Option ℕ) (l : Ledger RepairManager)
    → c.unsub_ledger ≡ some coordinator_ident
    → unsub ≡ some repairs_ident
    → l.listeners ≡ repair_listener repairs_ident ∷ breaker_listener interval ∷ []
    → (let_go c unsub l).listeners ≡ []
unfolding detach_manager shutdown_probes remove_listener
let_go-silent interval c unsub l probes repairs ls = rw (probes, repairs, ls) refl

let_go-IsLinked :
    (c : Coordinator) (unsub : Option ℕ) (l : Ledger RepairManager)
    → c.unsub_ledger ≡ some coordinator_ident
    → unsub ≡ some repairs_ident
    → IsLinked l
    → IsLinked (let_go c unsub l)
unfolding detach_manager shutdown_probes remove_listener
let_go-IsLinked c unsub l probes repairs h = rw (probes, repairs) (record { links = h.links })

unload-IsUnloaded :
    (x : Texts) (interval : ℕ) (stopping flushing : List (Moment × Call RepairManager)) (e : Entry)
    → IsRunning interval e
    → IsCalm stopping
    → IsCalm flushing
    → e.coordinator.unsub_ledger ≡ some coordinator_ident
    → is_guarded over e.discovery ≡ true
    → IsUnloaded x (unload_entry x true stopping flushing e)
unfolding unload_entry shutdown notify shutdown_probes
unload-IsUnloaded x interval stopping flushing e h calm calm' probes guarded =
    let l = run e.ledger stopping in
    let held = run-Listens _ Anything (λ now r g w q. tt) e.ledger stopping calm h.listens in
    let last = let_go e.coordinator e.unsub_repairs l in
    let silent =
      let_go-silent interval e.coordinator e.unsub_repairs l probes h.attached held.listeners in
    let linked =
      let_go-IsLinked e.coordinator e.unsub_repairs l probes h.attached
        (calm-keeps (inside IsLinked-kept) e.ledger stopping calm h.linked) in
    let rest =
      run-Listens [] (λ m. m ≡ last.others) (λ now r g w q. q) last flushing calm'
        (record { listeners = silent; owned = refl }) in
    record {
      timers = λ handle.
          shutdown-linked (run last flushing) handle
            (calm-keeps (inside IsLinked-kept) last flushing calm' linked);
      listeners = rest.listeners;
      saved = ap (data_to_save x) (sym rest.owned);
      quiet = refl;
      unlocked = stop_discovery-unlocked e.discovery guarded;
    }

-- An entry that was set up, used by any callbacks and unloaded leaves no timer and no listener of the
-- ledger; its file holds the repair manager as it is at the end, whatever the ledger went through
-- while the file was written; no probe update is due, and the lock of the discovery is free. The
-- callbacks change no listener, and when the unload begins the coordinator is still attached and the
-- discovery between its steps.
pub unload_entry-IsUnloaded :
    (x : Texts) (saved : Saved) (urls : Urls) (interval : ℕ) (t : TopologyTracker)
    (d₀ d : Discoverer) (c : Coordinator)
    (cs stopping flushing : List (Moment × Call RepairManager))
    → IsCalm cs
    → IsCalm stopping
    → IsCalm flushing
    → c.unsub_ledger ≡ some coordinator_ident
    → is_guarded over d ≡ true
    → let e = used cs c d (setup_entry x saved urls interval t d₀) in
      IsUnloaded x (unload_entry x true stopping flushing e)
unfolding used
unload_entry-IsUnloaded x saved urls interval t d₀ d c cs stopping flushing calm calm' calm_late
      probes guarded =
    let e₀ = setup_entry x saved urls interval t d₀ in
    let h = setup_entry-IsRunning x saved urls interval t d₀ in
    unload-IsUnloaded x interval stopping flushing (used cs c d e₀)
      (record {
        linked = calm-keeps (inside IsLinked-kept) e₀.ledger cs calm h.linked;
        listens = run-Listens _ Anything (λ now r g w q. tt) e₀.ledger cs calm h.listens;
        attached = h.attached;
      })
      calm' calm_late probes guarded
