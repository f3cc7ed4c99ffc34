-- ===== src/Health/Answers.antt =====
-- The record with which `_resolve` (custom_components/cast/health.py) answers a pending request.
use ha_int_gcast.Base.{◌-◌, ◌≡◌, refl, ap, ◌∙◌, String, Bool, Option, none, some, ◌++◌, ◌∷◌, []}
use ha_int_gcast.Health.Outcome.{DeliveryOutcome}
use ha_int_gcast.Health.Types.{
  Uuid, Moment, Message, Observed, DeliveryRecord, PendingRequest, DeviceHealth,
}
use ha_int_gcast.Health.Ledger.{
  Ledger, Urls, device, resolve, resolution, append, detach, make_record,
}
use ha_int_gcast.Health.Ledger.Effects.{
  resolve-pending, resolve-fired, device-fired, health_at-device,
}
use ha_int_gcast.Health.Run.Timers.{pending_of}

-- `r` is the one record that answers the request `p`, with the outcome `o` and the evidence
-- `responded` and `error`.
pub record IsAnswer (now : Moment) (p : PendingRequest) (o : DeliveryOutcome)
    (error : Option Message) (responded : Bool) (r : DeliveryRecord) : Type 0 where
  pub outcome : r.outcome ≡ o
  pub error_kept : r.error ≡ error
  pub responded_kept : r.responded ≡ responded
  pub source : r.source ≡ p.source
  pub content : r.content_id ≡ some p.content_id
  pub asked : r.requested_at ≡ some p.requested_at
  pub resolved : r.resolved_at ≡ now.utc
  pub took : r.elapsed ≡ some (now.monotonic - p.started)

-- `s'` is `s` with the request of `u` answered by one more event, and no request pending there.
pub record Settled {W : Type 0} (now : Moment) (u : Uuid) (p : PendingRequest) (o : DeliveryOutcome)
    (error : Option Message) (responded : Bool) (s s' : Ledger W) : Type 0 where
  pub answer : DeliveryRecord
  pub fired : s'.fired ≡ s.fired ++ answer ∷ []
  pub answers : IsAnswer now p o error responded answer
  pub cleared : pending_of s' u ≡ none

make_record-IsAnswer :
    (now : Moment) (urls : Urls) (h : DeviceHealth) (o : DeliveryOutcome) (error : Option Message)
    (responded : Bool) (observed : Observed) (unsolicited : Option String) (p : PendingRequest)
    (pending : Option PendingRequest)
    → pending ≡ some p
    → IsAnswer now p o error responded
        (make_record now urls h o (resolution now pending error responded observed unsolicited))
unfolding make_record resolution
make_record-IsAnswer now urls h o error responded observed unsolicited p pending e = rw e (record {
  outcome = refl;
  error_kept = refl;
  responded_kept = refl;
  source = refl;
  content = refl;
  asked = refl;
  resolved = refl;
  took = refl;
})

module _ {W : Type 0} (now : Moment) (u : Uuid) (o : DeliveryOutcome) (error : Option Message)
    (responded : Bool) (observed : Observed) (unsolicited : Option String) (s : Ledger W)
    (p : PendingRequest) where
  pub resolve-IsAnswer :
      pending_of s u ≡ some p
      → IsAnswer now p o error responded (resolve now u o error responded observed unsolicited s).0
  unfolding resolve append detach
  resolve-IsAnswer e =
      make_record-IsAnswer now s.urls _ o error responded observed unsolicited p (pending_of s u) e

  pub resolve-Settled :
      pending_of s u ≡ some p
      → Settled now u p o error responded s
          (resolve now u o error responded observed unsolicited s).1
  resolve-Settled e = record {
    answer = (resolve now u o error responded observed unsolicited s).0;
    fired = resolve-fired now u o error responded observed unsolicited s;
    answers = resolve-IsAnswer e;
    cleared = resolve-pending now u o error responded observed unsolicited s;
  }

-- The lookup of the device before a resolution changes nothing of it.
pub Settled-device :
    {W : Type 0} (now : Moment) (u v : Uuid) (p : PendingRequest) (o : DeliveryOutcome)
    (error : Option Message) (responded : Bool) (s s' : Ledger W)
    → Settled now u p o error responded (device s v) s'
    → Settled now u p o error responded s s'
Settled-device now u v p o error responded s s' h = record {
  answer = h.answer;
  fired = h.fired ∙ ap (λ rs. rs ++ h.answer ∷ []) (device-fired s v);
  answers = h.answers;
  cleared = h.cleared;
}

pub pending_of-device :
    {W : Type 0} (s : Ledger W) (u v : Uuid) → pending_of (device s u) v ≡ pending_of s v
pending_of-device s u v = ap (λ h. h.pending) (health_at-device s u v)
