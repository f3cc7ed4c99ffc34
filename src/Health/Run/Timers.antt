-- ===== src/Health/Run/Timers.antt =====
-- The timers of `DeliveryLedger` (custom_components/cast/health.py): in every state that the calls
-- reach, each pending request has exactly one live timer, and that timer resolves it.
use ha_int_gcast.Base.{
  ℕ, ◌≡◌, refl, sym, ap, ◌∙◌, String, Bool, true, false, Option, none, some, List, arith, inl, inr,
  ==-refl, Bool-cases, Option-cases, nat_beq_iff, nat_eq, ◌==◌, if◌then◌else◌,
}
use ha_int_gcast.Base.Dict.{get, remove}
use ha_int_gcast.Health.Outcome.{DeliveryOutcome, timeout}
use ha_int_gcast.Health.Types.{
  Uuid, Moment, Message, no_transition, Observed, nothing_observed, PendingRequest, DeviceHealth,
}
use ha_int_gcast.Health.Verdicts.{forget_timer, is_request}
use ha_int_gcast.Health.Ledger.{
  Ledger, Timer, Urls, Details, health_at, health_of, device, store, append, resolve, cancel,
  handle_of,
}
use ha_int_gcast.Health.Ledger.Effects.{
  health_at-put, health_at-device, device-timers, device-next_handle, append-pending, append-other,
  resolve-pending, resolve-other, resolve-timers, resolve-next_handle,
}
use ha_int_gcast.Health.Requests.{
  add_listener, remove_listener, update_identity, enter, new_request, new_timer, expire, expired,
  fire_timer,
}
use ha_int_gcast.Health.Run.{Call, init, run}
use ha_int_gcast.Health.Run.Keeps.{IsKept, run-keeps}
use ha_int_gcast.Health.Run.Links.{Linked, Linked-same, Linked-unlink, Linked-link}

module _ {W : Type 0} where
  abbrev pub pending_of : Ledger W → Uuid → Option PendingRequest
  pending_of s u = (health_of s u).pending

  pub record IsLinked (s : Ledger W) : Type 0 where
    pub links : Linked (pending_of s) s.timers s.next_handle

  pub pending_of-append :
      (now : Moment) (u : Uuid) (o : DeliveryOutcome) (d : Details) (s : Ledger W) (v : Uuid)
      → pending_of (append now u o d s).1 v ≡ pending_of s v
  pending_of-append now u o d s v = elim (Bool-cases (u == v)) [
    | inl e ↦ ground (arith, append-pending now u o d s, nat_beq_iff u v)
    | inr ne ↦ ap (λ h. h.pending) (append-other now u o d s v ne)
  ]

  pub pending_of-resolve :
      (now : Moment) (u : Uuid) (o : DeliveryOutcome) (error : Option Message) (responded : Bool)
      (observed : Observed) (unsolicited : Option String) (s : Ledger W) (v : Uuid)
      → pending_of (resolve now u o error responded observed unsolicited s).1 v
        ≡ (if u == v then none else pending_of s v)
  pending_of-resolve now u o error responded observed unsolicited s v = elim (Bool-cases (u == v)) [
    | inl e ↦
        ground
          (arith, resolve-pending now u o error responded observed unsolicited s, nat_beq_iff u v)
    | inr ne ↦
        rw ne
          (ap (λ h. h.pending) (resolve-other now u o error responded observed unsolicited s v ne))
  ]

  pending_of-store :
      (u : Uuid) (h : DeviceHealth) (s : Ledger W) (v : Uuid)
      → pending_of (store u h s) v ≡ (if u == v then h.pending else pending_of s v)
  unfolding store
  pending_of-store u h s v = ground (arith, health_at-put s.devices u v h)

  looks-IsLinked : (u : Uuid) (s : Ledger W) → IsLinked s → IsLinked (device s u)
  looks-IsLinked u s h = record {
    links =
        Linked-same h.links (λ v. ap (λ g. g.pending) (health_at-device s u v)) (device-timers s u)
          (device-next_handle s u);
  }

  pub pending_of-enter :
      (now : Moment) (u : Uuid) (content_id source : String) (session : Option ℕ) (duration : ℕ)
      (s : Ledger W) (v : Uuid)
      → pending_of (enter now u content_id source session duration s) v
        ≡ (if u == v then some (new_request now content_id source session s) else pending_of s v)
  pending_of-enter now u content_id source session duration s v =
      let h = health_of s u in
      let p = new_request now content_id source session s in
      ground (arith, health_at-put s.devices u v (record h { pending = some p }))

  enter-IsLinked :
      (now : Moment) (u : Uuid) (content_id source : String) (session : Option ℕ) (duration : ℕ)
      (s : Ledger W)
      → pending_of s u ≡ none
      → IsLinked s
      → IsLinked (enter now u content_id source session duration s)
  enter-IsLinked now u content_id source session duration s free h = record {
    links =
        Linked-link h.links (pending_of (enter now u content_id source session duration s)) u
          (new_request now content_id source session s) (new_timer u duration s)
          (pending_of-enter now u content_id source session duration s) free refl refl refl;
  }

  pub store-IsLinked :
      (u : Uuid) (g : DeviceHealth) (s : Ledger W)
      → g.pending ≡ pending_of s u
      → IsLinked s
      → IsLinked (store u g s)
  unfolding store
  store-IsLinked u g s e h = record {
    links =
        Linked-same h.links (λ v. ground (arith, pending_of-store u g s v, nat_beq_iff u v)) refl
          refl;
  }

  resolve-IsLinked :
      (now : Moment) (u : Uuid) (o : DeliveryOutcome) (error : Option Message) (responded : Bool)
      (observed : Observed) (unsolicited : Option String) (s : Ledger W)
      → IsLinked s
      → IsLinked (resolve now u o error responded observed unsolicited s).1
  resolve-IsLinked now u o error responded observed unsolicited s h = record {
    links =
        Linked-unlink h.links _ u
          (pending_of-resolve now u o error responded observed unsolicited s)
          (resolve-timers now u o error responded observed unsolicited s)
          (resolve-next_handle now u o error responded observed unsolicited s);
  }

  -- A live timer finds the request that it was set for still pending.
  pub live_timer-pending :
      (s : Ledger W) (handle : ℕ) (t : Timer)
      → IsLinked s
      → get s.timers handle ≡ some t
      → is_request (pending_of s t.uuid) t.ident ≡ true
  live_timer-pending s handle t h g = elim (Option-cases (pending_of s t.uuid)) [
    | inl idle ↦ ground (arith, idle, h.links.owned handle t g)
    | inr (p, busy) ↦ ground (arith, busy, h.links.owned handle t g, h.links.timed t.uuid p busy)
  ]

  -- The ledger when `_expire` has cleared the handle of the request that its timer holds.
  abbrev pub rung : ℕ → Timer → Ledger W → Ledger W
  rung handle t s =
      let h = health_of s t.uuid in
      store t.uuid (record h { pending = forget_timer t.ident h.pending })
        (record s { timers = remove s.timers handle })

  -- A live timer resolves its request: the guard of `_expire` passes.
  pub expire-resolve :
      (now : Moment) (handle : ℕ) (t : Timer) (s : Ledger W)
      → IsLinked s
      → get s.timers handle ≡ some t
      → expire now handle s
        ≡ (resolve now t.uuid timeout
            (some (no_transition t.duration))
            false
            nothing_observed
            none
            (rung handle t s)).1
  unfolding expire expired
  expire-resolve now handle t s h g =
      rw (g, fire_timer, expired) (rw (live_timer-pending s handle t h g) refl)

  pub pending_of-rung :
      (handle : ℕ) (t : Timer) (s : Ledger W) (v : Uuid)
      → pending_of (rung handle t s) v
        ≡ (if t.uuid == v then forget_timer t.ident (pending_of s t.uuid) else pending_of s v)
  pending_of-rung handle t s v =
      pending_of-store t.uuid _ (record s { timers = remove s.timers handle }) v

-- A timer that is live when it rings.
module _ {W : Type 0} (now : Moment) (handle : ℕ) (t : Timer) (s : Ledger W) (h : IsLinked s)
    (g : get s.timers handle ≡ some t) where
  abbrev text : Option Message
  text = some (no_transition t.duration)

  pub pending_of-expire :
      (v : Uuid)
      → pending_of (expire now handle s) v ≡ (if t.uuid == v then none else pending_of s v)
  pending_of-expire v =
      let r = rung handle t s in
      rw (expire-resolve now handle t s h g) (
        ground (
          arith,
          pending_of-resolve now t.uuid timeout text false nothing_observed none r v,
          pending_of-rung handle t s v,
        ))

  forgotten-handle :
      (p : Option PendingRequest)
      → is_request p t.ident ≡ true
      → handle_of (forget_timer t.ident p) ≡ none
  forgotten-handle none e = refl
  forgotten-handle (some p) e = ground arith

  pub timers-expire : (expire now handle s).timers ≡ remove s.timers handle
  unfolding cancel store
  timers-expire =
      let r = rung handle t s in
      let gone : handle_of (pending_of r t.uuid) ≡ none =
        rw (pending_of-rung handle t s t.uuid, ==-refl t.uuid)
          (forgotten-handle _ (live_timer-pending s handle t h g)) in
      rw (expire-resolve now handle t s h g) (
        resolve-timers now t.uuid timeout text false nothing_observed none r
        ∙ ap (λ o. cancel o r.timers) gone)

  pub next_handle-expire : (expire now handle s).next_handle ≡ s.next_handle
  unfolding store
  next_handle-expire =
      rw (expire-resolve now handle t s h g)
        (resolve-next_handle now t.uuid timeout text false nothing_observed none (rung handle t s))

  expire-IsLinked : IsLinked (expire now handle s)
  unfolding cancel
  expire-IsLinked = record {
    links =
        Linked-unlink h.links (pending_of (expire now handle s)) t.uuid pending_of-expire
          (timers-expire ∙ ap (λ o. cancel o s.timers) (sym (h.links.owned handle t g)))
          next_handle-expire;
  }

module _ {W : Type 0} where
  fires-IsLinked :
      (now : Moment) (handle : ℕ) (s : Ledger W) → IsLinked s → IsLinked (expire now handle s)
  unfolding expire
  fires-IsLinked now handle s h = elim (Option-cases (get s.timers handle)) [
    | inl gone ↦ rw (gone, fire_timer) h
    | inr (t, g) ↦ expire-IsLinked now handle t s h g
  ]

  pub IsLinked-kept : IsKept {W = W} IsLinked
  unfolding add_listener remove_listener update_identity append
  IsLinked-kept = record {
    adds = λ l s h. record { links = h.links };
    removes = λ ident s h. record { links = h.links };
    looks = looks-IsLinked;
    identity = λ now u i s h. store-IsLinked u _ s refl h;
    appends = λ now u o d s e h. record {
      links = Linked-same h.links (pending_of-append now u o d s) refl refl;
    };
    resolves = resolve-IsLinked;
    enters = enter-IsLinked;
    fires = fires-IsLinked;
  }

  pub IsLinked-init : (urls : Urls) (w : W) → IsLinked (init urls w)
  unfolding init get health_at
  IsLinked-init urls w = record {
    links = record { owned = λ handle t g. cc; given = λ handle t g. cc; timed = λ u p g. cc };
  }

  -- After any calls, the pending requests and the live timers point at each other, one to one.
  pub timers-run :
      (urls : Urls) (w : W) (cs : List (Moment × Call W))
      → let s = run (init urls w) cs in Linked (pending_of s) s.timers s.next_handle
  timers-run urls w cs = (run-keeps IsLinked-kept (init urls w) cs (IsLinked-init urls w)).links
