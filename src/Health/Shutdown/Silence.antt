-- ===== src/Health/Shutdown/Silence.antt =====
-- The timers of the ledger after `async_shutdown` (custom_components/cast/health.py).
use ha_int_gcast.Base.{
  ℕ, ◌≡◌, Option, none, some, List, [], ◌∷◌, arith, nat_eq, ◌==◌, inl, inr, Option-cases,
  Bool-cases,
}
use ha_int_gcast.Base.Dict.{Dict, get, get-remove}
use ha_int_gcast.Health.Types.{Uuid, Moment, DeviceHealth}
use ha_int_gcast.Health.Ledger.{Ledger, Urls, Timer, health_at, cancel, handle_of}
use ha_int_gcast.Health.Run.{Call, init, run}
use ha_int_gcast.Health.Run.Timers.{IsLinked, timers-run}
use ha_int_gcast.Health.Shutdown.{shutdown, shutdown_devices}

cancel-gone :
    (timers : Dict ℕ Timer) (o : Option ℕ) (handle : ℕ)
    → get timers handle ≡ none
    → get (cancel o timers) handle ≡ none
unfolding cancel
cancel-gone timers none handle e = e
cancel-gone timers (some h) handle e = ground (arith, get-remove timers h handle)

cancel_self : (timers : Dict ℕ Timer) (handle : ℕ) → get (cancel (some handle) timers) handle ≡ none
unfolding cancel
cancel_self timers handle = ground (arith, get-remove timers handle handle)

-- The loop sets no timer.
loop-gone :
    (d : Dict Uuid DeviceHealth) (timers : Dict ℕ Timer) (handle : ℕ)
    → get timers handle ≡ none
    → get (shutdown_devices d timers).1 handle ≡ none
unfolding shutdown_devices
loop-gone [] timers handle e = e
loop-gone ((u, h) ∷ d) timers handle e =
    loop-gone d (cancel (handle_of h.pending) timers) handle
      (cancel-gone timers (handle_of h.pending) handle e)

-- The loop cancels the timer of every device that the ledger knows.
loop-cancels :
    (d : Dict Uuid DeviceHealth) (timers : Dict ℕ Timer) (u : Uuid) (h : DeviceHealth) (handle : ℕ)
    → get d u ≡ some h
    → handle_of h.pending ≡ some handle
    → get (shutdown_devices d timers).1 handle ≡ none
unfolding shutdown_devices get
loop-cancels [] timers u h handle g e = cc
loop-cancels ((v, h') ∷ d) timers u h handle g e = elim (Bool-cases (v == u)) [
  | inl here ↦
      let same : handle_of h'.pending ≡ some handle = ground (arith, here) in
      loop-gone d (cancel (handle_of h'.pending) timers) handle
        (rw same (cancel_self timers handle))
  | inr there ↦
      loop-cancels d (cancel (handle_of h'.pending) timers) u h handle (ground (arith, there)) e
]

-- A device with a request that holds a handle is known.
known :
    (d : Dict Uuid DeviceHealth) (u : Uuid) (handle : ℕ)
    → handle_of (health_at d u).pending ≡ some handle
    → (h : DeviceHealth) × (get d u ≡ some h) × (handle_of h.pending ≡ some handle)
unfolding health_at
known d u handle e = elim (Option-cases (get d u)) [
  | inl gone ↦ ground (arith, gone)
  | inr (h, g) ↦ (h, g, ground (arith, g))
]

-- A shutdown leaves no timer live where every live timer belongs to a pending request.
pub shutdown-linked :
    {W : Type 0} (s : Ledger W) (handle : ℕ) → IsLinked s → get (shutdown s).timers handle ≡ none
unfolding shutdown
shutdown-linked s handle h = elim (Option-cases (get s.timers handle)) [
  | inl gone ↦ loop-gone s.devices s.timers handle gone
  | inr (t, live) ↦
      let (h, found, held) = known s.devices t.uuid handle (h.links.owned handle t live) in
      loop-cancels s.devices s.timers t.uuid h handle found held
]

-- After any calls, a shutdown leaves no timer live, so that no callback of the ledger runs later.
pub shutdown-timers :
    {W : Type 0} (urls : Urls) (w : W) (cs : List (Moment × Call W)) (handle : ℕ)
    → get (shutdown (run (init urls w) cs)).timers handle ≡ none
shutdown-timers urls w cs handle =
    shutdown-linked (run (init urls w) cs) handle (record { links = timers-run urls w cs })
