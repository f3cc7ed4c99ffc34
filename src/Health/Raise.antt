-- ===== src/Health/Raise.antt =====
-- `async_request_failed` and `async_load_media_failed` (custom_components/cast/health.py).
use ha_int_gcast.Base.{
  ℕ, ◌≡◌, ap, ◌∙◌, String, Bool, true, false, Option, none, some, ◌++◌, ◌∷◌, [], arith, ◌⊎◌,
}
use ha_int_gcast.Health.Outcome.{DeliveryOutcome, fetch_failed, unreachable, timeout, unknown}
use ha_int_gcast.Health.Types.{
  Uuid, Moment, Message, load_rejected, superseded, nothing_observed, DeliveryRecord,
  PendingRequest,
}
use ha_int_gcast.Health.Verdicts.{Failure, classify, answered}
use ha_int_gcast.Health.Ledger.{Ledger, device}
use ha_int_gcast.Health.Requests.{begin_request, request_failed, load_media_failed}
use ha_int_gcast.Health.Run.Timers.{pending_of}
use ha_int_gcast.Health.Begin.{begin-Begun, begin-supersedes}
use ha_int_gcast.Health.Answers.{Settled, Settled-device, resolve-Settled, pending_of-device}

-- Every exception is a failure, and the evidence fits the outcome: the device responded exactly if
-- the outcome is a failed fetch, and otherwise it was unreachable or timed out.
pub classify_evidence :
    (f : Failure) (connected : Option Bool) (launch_failure : Option String)
    → let v = classify f connected launch_failure in
      ((v.responded ≡ true) × (v.outcome ≡ fetch_failed))
      ⊎ ((v.responded ≡ false) × ((v.outcome ≡ unreachable) ⊎ (v.outcome ≡ timeout)))
unfolding classify
classify_evidence f connected launch_failure = ground arith

-- A rejected launch: pychromecast's RequestFailed, with the connection up or a reason reported, is
-- a failed fetch; with neither, the device is unreachable.
pub classify_request_failed :
    (f : Failure) (connected : Option Bool) (launch_failure : Option String)
    → f.err.is_timeout_error ≡ false
    → f.err.is_cast_error ≡ true
    → f.err.is_request_timeout ≡ false
    → f.err.is_request_failed ≡ true
    → ((answered connected launch_failure ≡ true)
        → (classify f connected launch_failure).outcome ≡ fetch_failed)
      × ((answered connected launch_failure ≡ false)
          → (classify f connected launch_failure).outcome ≡ unreachable)
unfolding classify
classify_request_failed f connected launch_failure a b c d = ground arith

-- The record `r` answers a request for `content` of `source`.
pub record Names (r : DeliveryRecord) (content_id source_of : String) (o : DeliveryOutcome)
    (e : Option Message) : Type 0 where
  pub content : r.content_id ≡ some content_id
  pub source : r.source ≡ source_of
  pub outcome : r.outcome ≡ o
  pub error : r.error ≡ e

module _ {W : Type 0} (now : Moment) (u : Uuid) where
  -- An exception resolves the pending request of its device by the verdict on it.
  pub raise-settles :
      (f : Failure) (connected : Option Bool) (launch_failure : Option String) (s : Ledger W)
      (p : PendingRequest)
      → pending_of s u ≡ some p
      → let v = classify f connected launch_failure in
        Settled now u p v.outcome
          (some v.text)
          v.responded
          s
          (request_failed now u f connected launch_failure s)
  unfolding request_failed
  raise-settles f connected launch_failure s p e =
      let v = classify f connected launch_failure in
      Settled-device now u u p v.outcome (some v.text) v.responded s _ (
        resolve-Settled now u v.outcome (some v.text) v.responded nothing_observed none (device s u)
          p (pending_of-device s u u ∙ e))

  -- A LOAD_FAILED callback resolves the pending request as a failed fetch to which the device
  -- responded; with no request pending it records nothing.
  pub load_failed-settles :
      (item code : Option ℕ) (s : Ledger W)
      → ((p : PendingRequest)
          → pending_of s u ≡ some p
          → Settled now u p fetch_failed
              (some (load_rejected code item))
              true
              s
              (load_media_failed now u item code s))
        × (pending_of s u ≡ none → load_media_failed now u item code s ≡ device s u)
  unfolding load_media_failed
  load_failed-settles item code s = (
    λ p e. rw e (
        Settled-device now u u p fetch_failed (some (load_rejected code item)) true s _ (
          resolve-Settled now u fetch_failed (some (load_rejected code item)) true nothing_observed
            none (device s u) p (pending_of-device s u u ∙ e))),
    λ e. rw e,
  )

-- The exception of a superseded request is charged to its successor. When request `a` and then request
-- `b` begin on a device and `a` raises, with whatever evidence, then `a` was answered as unknown when `b`
-- began, and it is `b` that gets the verdict on the exception, and is not pending any more.
pub raise-blames_successor :
    {W : Type 0} (t₁ t₂ t₃ : Moment) (u : Uuid) (a b sa sb : String) (na nb : Option ℕ) (da db : ℕ)
    (f : Failure) (connected : Option Bool) (launch_failure : Option String) (s : Ledger W)
    → let s₁ = begin_request t₁ u a sa na da s in
      let s₂ = begin_request t₂ u b sb nb db s₁ in
      let s₃ = request_failed t₃ u f connected launch_failure s₂ in
      let v = classify f connected launch_failure in
      (ra rb : DeliveryRecord) × (s₂.fired ≡ s₁.fired ++ ra ∷ [])
      × (s₃.fired ≡ s₂.fired ++ rb ∷ [])
      × Names ra a sa unknown (some superseded)
      × Names rb b sb v.outcome (some v.text)
      × (pending_of s₃ u ≡ none)
raise-blames_successor t₁ t₂ t₃ u a b sa sb na nb da db f connected launch_failure s =
    let s₁ = begin_request t₁ u a sa na da s in
    let first = begin-Begun t₁ u a sa na da s in
    let (ra, fired, answers, shows) =
      begin-supersedes t₂ u b sb nb db s₁ first.request first.pending in
    let second = begin-Begun t₂ u b sb nb db s₁ in
    let settled =
      raise-settles t₃ u f connected launch_failure (begin_request t₂ u b sb nb db s₁)
        second.request second.pending in
    (
      ra,
      settled.answer,
      fired,
      settled.fired,
      record {
        content = answers.content ∙ ap some first.content;
        source = answers.source ∙ first.source_kept;
        outcome = answers.outcome;
        error = answers.error_kept;
      },
      record {
        content = settled.answers.content ∙ ap some second.content;
        source = settled.answers.source ∙ second.source_kept;
        outcome = settled.answers.outcome;
        error = settled.answers.error_kept;
      },
      settled.cleared,
    )
