-- ===== src/Health/Expiry.antt =====
-- `_expire` (custom_components/cast/health.py): no request stays pending past its timeout.
use ha_int_gcast.Base.{
  ℕ, ◌≡◌, ap, ◌∙◌, false, none, some, List, arith, inl, inr, Option-cases, nat_eq, nat_beq_iff,
}
use ha_int_gcast.Base.Dict.{get}
use ha_int_gcast.Health.Outcome.{timeout}
use ha_int_gcast.Health.Types.{
  Uuid, Moment, Message, no_transition, nothing_observed, PendingRequest,
}
use ha_int_gcast.Health.Ledger.{Ledger, Urls, Timer, store}
use ha_int_gcast.Health.Requests.{expire}
use ha_int_gcast.Health.Run.{Call, init, run}
use ha_int_gcast.Health.Run.Timers.{
  IsLinked, pending_of, rung, expire-resolve, pending_of-rung, timers-run,
}
use ha_int_gcast.Health.Answers.{Settled, resolve-Settled}

-- The live timer of a pending request.
pub record Deadline {W : Type 0} (s : Ledger W) (u : Uuid) (p : PendingRequest) : Type 0 where
  pub handle : ℕ
  pub timer : Timer
  pub held : p.cancel_timeout ≡ some handle
  pub live : get s.timers handle ≡ some timer
  pub whose : timer.uuid ≡ u
  pub which : timer.ident ≡ p.ident

module _ {W : Type 0} where
  deadline :
      (s : Ledger W) (u : Uuid) (p : PendingRequest)
      → IsLinked s
      → pending_of s u ≡ some p
      → Deadline s u p
  deadline s u p h e = elim (Option-cases p.cancel_timeout) [
    | inl unset ↦ ground (arith, unset, h.links.timed u p e)
    | inr (handle, held) ↦ elim (Option-cases (get s.timers handle)) [
      | inl gone ↦ ground (arith, held, gone, h.links.timed u p e)
      | inr (t, live) ↦ record {
        handle = handle;
        timer = t;
        held = held;
        live = live;
        whose = ground (arith, held, live, h.links.timed u p e);
        which = ground (arith, held, live, h.links.timed u p e);
      }
    ]
  ]

  -- Clearing the handle changes nothing that the answer shows.
  forgotten-Settled :
      (now : Moment) (u : Uuid) (p : PendingRequest) (m : Message) (s s' : Ledger W)
      → Settled now u (record p { cancel_timeout = none }) timeout (some m) false s s'
      → Settled now u p timeout (some m) false s s'
  forgotten-Settled now u p m s s' h = record {
    answer = h.answer;
    fired = h.fired;
    answers = record {
      outcome = h.answers.outcome;
      error_kept = h.answers.error_kept;
      responded_kept = h.answers.responded_kept;
      source = h.answers.source;
      content = h.answers.content;
      asked = h.answers.asked;
      resolved = h.answers.resolved;
      took = h.answers.took;
    };
    cleared = h.cleared;
  }

  pub rung-pending :
      (s : Ledger W) (handle : ℕ) (t : Timer) (p : PendingRequest)
      → pending_of s t.uuid ≡ some p
      → t.ident ≡ p.ident
      → pending_of (rung handle t s) t.uuid ≡ some (record p { cancel_timeout = none })
  rung-pending s handle t p e which =
      ground (arith, pending_of-rung handle t s t.uuid, nat_beq_iff p.ident t.ident)

  expire-Settled :
      (now : Moment) (s : Ledger W) (handle : ℕ) (t : Timer) (p : PendingRequest)
      → IsLinked s
      → get s.timers handle ≡ some t
      → pending_of s t.uuid ≡ some p
      → t.ident ≡ p.ident
      → Settled now t.uuid p timeout (some (no_transition t.duration)) false s (expire now handle s)
  unfolding store
  expire-Settled now s handle t p h live e which =
      let m = no_transition t.duration in
      let r = rung handle t s in
      let q =
        resolve-Settled now t.uuid timeout (some m) false nothing_observed none r
          (record p { cancel_timeout = none }) (rung-pending s handle t p e which) in
      rw (expire-resolve now handle t s h live) (
        forgotten-Settled now t.uuid p m s _
          (record { answer = q.answer; fired = q.fired; answers = q.answers; cleared = q.cleared }))

  -- In every state that the calls reach, a pending request has a live timer, and when that timer
  -- fires the request is answered as a timeout to which the device did not respond.
  pub pending-times_out :
      (urls : Urls) (w : W) (cs : List (Moment × Call W)) (now : Moment) (u : Uuid)
      (p : PendingRequest)
      → let s = run (init urls w) cs in
        pending_of s u ≡ some p
        → (d : Deadline s u p) × Settled now u p timeout
            (some (no_transition d.timer.duration))
            false
            s
            (expire now d.handle s)
  pending-times_out urls w cs now u p e =
      let s = run (init urls w) cs in
      let h : IsLinked s = record { links = timers-run urls w cs } in
      let d = deadline s u p h e in
      let settled =
        expire-Settled now s d.handle d.timer p h d.live (ap (pending_of s) d.whose ∙ e) d.which in
      (d, rw d.whose at settled)
