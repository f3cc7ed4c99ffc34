-- ===== src/Discovery/Lock.antt =====
-- The lock of the internal discovery (custom_components/cast/discovery.py), over interleavings of
-- the set-up, the unload and a stop of Home Assistant.
use ha_int_gcast.Base.{
  ◌≡◌, refl, Bool, true, false, bool_beq, not, ◌&&◌, List, [], ◌∷◌, is_some, arith, if◌then◌else◌,
}
use ha_int_gcast.Discovery.Browser.{
  Discoverer, release, setup_discovery, home_assistant_stops, Unload, over, removes, stops,
  begin_unload, go_on, DiscoveryEvent, sets_up, stops_home_assistant, begins_unload, goes_on,
  discovery_step, discovery_run,
}

-- Between the steps of an unload the lock is held exactly while a browser runs or an unload is under
-- way, and the listener is that of the browser.
unfoldable pub is_guarded : Unload → Discoverer → Bool
is_guarded over s =
    bool_beq s.locked (is_some s.browser)
    && bool_beq (is_some s.listener) (is_some s.browser)
    && bool_beq (is_some s.unsub_discovery_stop) (is_some s.browser)
is_guarded (removes handle) s =
    s.locked && not (is_some s.browser) && is_some handle && not (is_some s.unsub_discovery_stop)
is_guarded stops s =
    s.locked
    && not (is_some s.browser)
    && not (is_some s.listener)
    && not (is_some s.unsub_discovery_stop)

-- No lock was released that was not held.
pub record IsSafe (p : Unload × Discoverer) : Type 0 where
  pub no_fault : p.1.faults ≡ 0
  pub guarded : is_guarded p.0 p.1 ≡ true

abbrev races_now : DiscoveryEvent → Unload → Bool
races_now stops_home_assistant (removes handle) = true
races_now e u = false

step-IsSafe :
    (e : DiscoveryEvent) (u : Unload) (s : Discoverer)
    → IsSafe (u, s)
    → races_now e u ≡ false
    → IsSafe (discovery_step e (u, s))
unfolding is_guarded discovery_step setup_discovery home_assistant_stops begin_unload go_on release
step-IsSafe sets_up over s h n = record { no_fault = ground arith; guarded = ground arith }
step-IsSafe sets_up (removes handle) s h n = record {
  no_fault = ground arith;
  guarded = ground arith;
}
step-IsSafe sets_up stops s h n = record { no_fault = ground arith; guarded = ground arith }
step-IsSafe stops_home_assistant over s h n = record {
  no_fault = ground arith;
  guarded = ground arith;
}
step-IsSafe stops_home_assistant (removes handle) s h n = absurd (ground arith)
step-IsSafe stops_home_assistant stops s h n = record {
  no_fault = ground arith;
  guarded = ground arith;
}
step-IsSafe begins_unload over s h n = record { no_fault = ground arith; guarded = ground arith }
step-IsSafe begins_unload (removes handle) s h n = h
step-IsSafe begins_unload stops s h n = h
step-IsSafe goes_on over s h n = h
step-IsSafe goes_on (removes handle) s h n = record {
  no_fault = ground arith;
  guarded = ground arith;
}
step-IsSafe goes_on stops s h n = record { no_fault = ground arith; guarded = ground arith }

-- Does Home Assistant stop while an unload has taken the references and not yet removed the listener?
unfoldable pub races : List DiscoveryEvent → Bool
races [] = false
races (e ∷ earlier) =
    let before = races earlier in if races_now e (discovery_run earlier).0 then true else before

races-now :
    (e : DiscoveryEvent) (es : List DiscoveryEvent)
    → races (e ∷ es) ≡ false
    → (races_now e (discovery_run es).0 ≡ false) × (races es ≡ false)
unfolding races
races-now e es h = ground arith

run-IsSafe : (es : List DiscoveryEvent) → races es ≡ false → IsSafe (discovery_run es)
unfolding discovery_run is_guarded
run-IsSafe [] h = record { no_fault = refl; guarded = refl }
run-IsSafe (e ∷ es) h =
    let (now, before) = races-now e es h in
    step-IsSafe e (discovery_run es).0 (discovery_run es).1 (run-IsSafe es before) now

-- An unload with a stop of Home Assistant after its first step
unfoldable pub raced : Unload × Discoverer → Unload × Discoverer
raced p =
    discovery_step goes_on (
      discovery_step goes_on (discovery_step stops_home_assistant (discovery_step begins_unload p)))

race-faults :
    (u : Unload) (s : Discoverer)
    → IsSafe (u, s)
    → is_some s.browser ≡ true
    → (raced (u, s)).1.faults ≡ 1
unfolding raced is_guarded discovery_step home_assistant_stops begin_unload go_on release
race-faults over s h running = ground (arith, h.no_fault, h.guarded, running)
race-faults (removes handle) s h running = absurd (ground (arith, h.guarded, running))
race-faults stops s h running = absurd (ground (arith, h.guarded, running))

-- While Home Assistant never stops between the first and the second step of an unload, no lock is
-- released that is not held, and it is held exactly while a browser runs or an unload is under way.
pub discovery_run-IsSafe : (es : List DiscoveryEvent) → races es ≡ false → IsSafe (discovery_run es)
discovery_run-IsSafe es h = run-IsSafe es h

-- If it does stop there while a browser runs, the lock is released twice.
pub discovery_run-raced :
    (es : List DiscoveryEvent)
    → races es ≡ false
    → is_some (discovery_run es).1.browser ≡ true
    → (raced (discovery_run es)).1.faults ≡ 1
discovery_run-raced es h running =
    race-faults (discovery_run es).0 (discovery_run es).1 (run-IsSafe es h) running
