-- ===== src/Health/Run/Links.antt =====
-- The pending requests and the live timers of `DeliveryLedger` (custom_components/cast/health.py) as
-- two maps that point at each other, whatever else the ledger holds.
use ha_int_gcast.Base.{
  ℕ, suc, ◌<◌, ◌≡◌, ◌≢◌, refl, sym, ap, ◌∙◌, false, Option, none, some, arith, inl, inr, Bool-cases,
  Option-cases, nat_eq, ◌==◌, if◌then◌else◌,
}
use ha_int_gcast.Base.Dict.{Dict, get, put, get-put, get-remove}
use ha_int_gcast.Health.Types.{Uuid, PendingRequest}
use ha_int_gcast.Health.Ledger.{Timer, cancel, handle_of}

-- Whose request a timer is for.
abbrev pub target : Option Timer → Option (Uuid × ℕ)
target none = none
target (some t) = some (t.uuid, t.ident)

abbrev pub live : Dict ℕ Timer → Option ℕ → Option (Uuid × ℕ)
live timers none = none
live timers (some handle) = target (get timers handle)

-- A live timer is the one that the pending request of its device would cancel, its handle was given
-- out, and every pending request has its timer live.
pub record Linked (pending : Uuid → Option PendingRequest) (timers : Dict ℕ Timer) (next : ℕ)
    : Type 0 where
  pub owned :
      (handle : ℕ) (t : Timer)
      → get timers handle ≡ some t
      → handle_of (pending t.uuid) ≡ some handle
  pub given : (handle : ℕ) (t : Timer) → get timers handle ≡ some t → handle < next
  pub timed :
      (u : Uuid) (p : PendingRequest)
      → pending u ≡ some p
      → live timers p.cancel_timeout ≡ some (u, p.ident)

cancel-get :
    (timers : Dict ℕ Timer) (o : Option ℕ) (handle : ℕ) (t : Timer)
    → get (cancel o timers) handle ≡ some t
    → (get timers handle ≡ some t) × (o ≢ some handle)
unfolding cancel
cancel-get timers none handle t g = (g, λ e. cc)
cancel-get timers (some h) handle t g =
    (ground (arith, get-remove timers h handle), λ e. ground (arith, get-remove timers h handle))

live-cancel :
    (timers : Dict ℕ Timer) (o : Option ℕ) (h : Option ℕ)
    → ((handle : ℕ) → o ≡ some handle → h ≢ some handle)
    → live (cancel o timers) h ≡ live timers h
unfolding cancel
live-cancel timers none h apart = refl
live-cancel timers (some i) none apart = refl
live-cancel timers (some i) (some j) apart = ground (arith, get-remove timers i j, apart i)

module _ {pending : Uuid → Option PendingRequest} {timers : Dict ℕ Timer} {next : ℕ}
    (l : Linked pending timers next) where
  pub Linked-same :
      {pending' : Uuid → Option PendingRequest} {timers' : Dict ℕ Timer} {next' : ℕ}
      → ((u : Uuid) → pending' u ≡ pending u)
      → timers' ≡ timers
      → next' ≡ next
      → Linked pending' timers' next'
  Linked-same same e n = record {
    owned = λ handle t g. ap handle_of (same t.uuid) ∙ l.owned handle t (rw e at g);
    given = λ handle t g. rw n (l.given handle t (rw e at g));
    timed = λ u p g. ap (λ ts. live ts p.cancel_timeout) e ∙ l.timed u p (sym (same u) ∙ g);
  }

  -- Two devices do not share a timer.
  timed-apart :
      (u v : Uuid) (p : PendingRequest) (handle : ℕ)
      → (u == v) ≡ false
      → pending v ≡ some p
      → handle_of (pending u) ≡ some handle
      → p.cancel_timeout ≢ some handle
  timed-apart u v p handle ne g hu hv = elim (Option-cases (pending u)) [
    | inl idle ↦ ground (arith, idle, hu)
    | inr (q, busy) ↦ ground (arith, busy, l.timed u q busy, l.timed v p g, hu, hv)
  ]

  module _ (pending' : Uuid → Option PendingRequest) (u : Uuid)
      (detached : (v : Uuid) → pending' v ≡ (if u == v then none else pending v)) where
    unlink-owned :
        (handle : ℕ) (t : Timer)
        → get (cancel (handle_of (pending u)) timers) handle ≡ some t
        → handle_of (pending' t.uuid) ≡ some handle
    unlink-owned handle t g =
        let (before, kept) = cancel-get timers (handle_of (pending u)) handle t g in
        ground (arith, detached t.uuid, l.owned handle t before, kept)

    unlink-timed :
        (v : Uuid) (p : PendingRequest)
        → pending' v ≡ some p
        → live (cancel (handle_of (pending u)) timers) p.cancel_timeout ≡ some (v, p.ident)
    unlink-timed v p g = elim (Bool-cases (u == v)) [
      | inl e ↦ ground (arith, detached v)
      | inr ne ↦
          let before : pending v ≡ some p = ground (arith, detached v) in
          live-cancel timers (handle_of (pending u)) p.cancel_timeout
            (λ handle hu. timed-apart u v p handle ne before hu)
          ∙ l.timed v p before
    ]

    -- A request is detached and its timer cancelled.
    pub Linked-unlink :
        {timers' : Dict ℕ Timer} {next' : ℕ}
        → timers' ≡ cancel (handle_of (pending u)) timers
        → next' ≡ next
        → Linked pending' timers' next'
    Linked-unlink e n = record {
      owned = λ handle t g. unlink-owned handle t (rw e at g);
      given = λ handle t g.
          rw n
            (l.given handle t (cancel-get timers (handle_of (pending u)) handle t (rw e at g)).0);
      timed = λ v p g. ap (λ ts. live ts p.cancel_timeout) e ∙ unlink-timed v p g;
    }

  live-put :
      (t : Timer) (h : Option ℕ) (x : Uuid × ℕ)
      → live timers h ≡ some x
      → live (put timers next t) h ≡ some x
  live-put t none x e = e
  live-put t (some handle) x e = elim (Option-cases (get timers handle)) [
    | inl gone ↦ ground (arith, gone)
    | inr (t', g) ↦ ground (arith, g, l.given handle t' g, get-put timers next handle t)
  ]

  module _ (pending' : Uuid → Option PendingRequest) (u : Uuid) (p : PendingRequest) (t : Timer)
      (entered : (v : Uuid) → pending' v ≡ (if u == v then some p else pending v)) where
    link-owned :
        pending u ≡ none
        → p.cancel_timeout ≡ some next
        → t.uuid ≡ u
        → (handle : ℕ) (t' : Timer) → get (put timers next t) handle ≡ some t'
        → handle_of (pending' t'.uuid) ≡ some handle
    link-owned free fresh whose handle t' g =
        ground (arith, entered t'.uuid, get-put timers next handle t, l.owned handle t')

    link-timed :
        p.cancel_timeout ≡ some next
        → t.uuid ≡ u
        → t.ident ≡ p.ident
        → (v : Uuid) (q : PendingRequest) → pending' v ≡ some q
        → live (put timers next t) q.cancel_timeout ≡ some (v, q.ident)
    link-timed fresh whose which v q g = elim (Bool-cases (u == v)) [
      | inl e ↦ ground (arith, entered v, get-put timers next next t)
      | inr ne ↦
          let before : pending v ≡ some q = ground (arith, entered v) in
          live-put t q.cancel_timeout (v, q.ident) (l.timed v q before)
    ]

    -- A request is entered with a fresh handle where none is pending.
    pub Linked-link :
        pending u ≡ none
        → p.cancel_timeout ≡ some next
        → t.uuid ≡ u
        → t.ident ≡ p.ident
        → Linked pending' (put timers next t) (suc next)
    Linked-link free fresh whose which = record {
      owned = link-owned free fresh whose;
      given = λ handle t' g. ground (arith, get-put timers next handle t, l.given handle t');
      timed = link-timed fresh whose which;
    }
