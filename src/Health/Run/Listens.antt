-- ===== src/Health/Run/Listens.antt =====
-- The listeners of the ledger (custom_components/cast/health.py) over its callbacks: who listens, and
-- what the listeners' own state satisfies.
use ha_int_gcast.Base.{
  ◌≡◌, refl, ◌∙◌, String, Bool, false, Option, none, some, List, [], ◌∷◌, is_some, if_elim, nat_eq,
}
use ha_int_gcast.Base.Dict.{get}
use ha_int_gcast.Health.Outcome.{DeliveryOutcome, timeout}
use ha_int_gcast.Health.Types.{
  Uuid, Moment, Message, no_transition, nothing_observed, Observed, DeliveryRecord, DeviceHealth,
}
use ha_int_gcast.Health.Listener.{Listener, notify}
use ha_int_gcast.Health.Ledger.{Ledger, Details, device, append, resolve, detach, store}
use ha_int_gcast.Health.Requests.{update_identity}
use ha_int_gcast.Health.Run.{Call, run, step}
use ha_int_gcast.Health.Run.Keeps.{IsKeptInside, expire-keeps, is_listening, inside-keeps}

-- The listeners are `ls`, and what they own satisfies `Q`.
pub record Listens {W : Type 0} (ls : List (Listener W)) (Q : W → Type 0) (s : Ledger W)
    : Type 0 where
  pub listeners : s.listeners ≡ ls
  pub owned : Q s.others

-- The listeners' calls preserve `Q`.
abbrev pub Preserved : {W : Type 0} → List (Listener W) → (W → Type 0) → Type 0
Preserved {W} ls Q =
    (now : Moment) (r : DeliveryRecord) (h : DeviceHealth) (w : W)
    → Q w
    → Q (notify ls now r (h, w)).1

module _ {W : Type 0} (ls : List (Listener W)) (Q : W → Type 0) (kept : Preserved ls Q) where
  append-Listens :
      (now : Moment) (u : Uuid) (o : DeliveryOutcome) (d : Details) (s : Ledger W)
      → Listens ls Q s
      → Listens ls Q (append now u o d s).1
  unfolding append
  append-Listens now u o d s h = record {
    listeners = h.listeners;
    owned = rw h.listeners (kept now _ _ s.others h.owned);
  }

  same-Listens :
      (s s' : Ledger W)
      → s'.listeners ≡ s.listeners
      → s'.others ≡ s.others
      → Listens ls Q s
      → Listens ls Q s'
  same-Listens s s' l o h = record { listeners = l ∙ h.listeners; owned = rw o h.owned }

  resolve-Listens :
      (now : Moment) (u : Uuid) (o : DeliveryOutcome) (error : Option Message) (responded : Bool)
      (observed : Observed) (unsolicited : Option String) (s : Ledger W)
      → Listens ls Q s
      → Listens ls Q (resolve now u o error responded observed unsolicited s).1
  unfolding resolve detach
  resolve-Listens now u o error responded observed unsolicited s h =
      append-Listens now u o _ (detach u s) (same-Listens s (detach u s) refl refl h)

  Listens-kept : IsKeptInside (Listens ls Q)
  unfolding device store update_identity
  Listens-kept = record {
    looks = λ u s h.
        if_elim (Listens ls Q) (is_some (get s.devices u)) s _ h (same-Listens s _ refl refl h);
    identity = λ now u i s h. same-Listens s _ refl refl h;
    appends = λ now u o d s quiet h. append-Listens now u o d s h;
    resolves = resolve-Listens;
    enters = λ now u content_id source session duration s free h. same-Listens s _ refl refl h;
    fires =
        expire-keeps (Listens ls Q) (λ timers s h. same-Listens s _ refl refl h)
          (λ u i s h. same-Listens s _ refl refl h)
          (λ now t s h.
            resolve-Listens now t.uuid timeout (some (no_transition t.duration)) false
              nothing_observed none s h);
  }

-- Calls that leave the listeners as they are
abbrev pub IsCalm : {W : Type 0} → List (Moment × Call W) → Type 0
IsCalm [] = Unit
IsCalm ((now, c) ∷ cs) = (is_listening c ≡ false) × IsCalm cs

-- What survives every callback that leaves the listeners survives any of them.
pub calm-keeps :
    {W : Type 0} {P : Ledger W → Type 0}
    → IsKeptInside P
    → (s : Ledger W) (cs : List (Moment × Call W)) → IsCalm cs
    → P s
    → P (run s cs)
unfolding run
calm-keeps k s [] calm h = h
calm-keeps k s ((now, c) ∷ cs) calm h =
    calm-keeps k (step now c s) cs calm.1 (inside-keeps k now c s calm.0 h)

pub run-Listens :
    {W : Type 0} (ls : List (Listener W)) (Q : W → Type 0)
    → Preserved ls Q
    → (s : Ledger W) (cs : List (Moment × Call W)) → IsCalm cs
    → Listens ls Q s
    → Listens ls Q (run s cs)
run-Listens ls Q kept s cs calm h = calm-keeps (Listens-kept ls Q kept) s cs calm h
