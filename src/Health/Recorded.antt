-- ===== src/Health/Recorded.antt =====
-- `async_record` (custom_components/cast/health.py): what a caller's own outcome does to the ledger.
use ha_int_gcast.Base.{
  ◌≡◌, refl, ap, ◌∙◌, String, Bool, true, false, Option, none, some, [], ◌∷◌, ◌++◌, arith,
  Bool-cases, inl, inr, string_eq, same_iff, if◌then◌else◌,
}
use ha_int_gcast.Health.Outcome.{DeliveryOutcome}
use ha_int_gcast.Health.Types.{
  Uuid, Moment, Message, nothing_observed, DeliveryRecord, PendingRequest,
}
use ha_int_gcast.Health.Ledger.{Ledger, Details, device, append, make_record}
use ha_int_gcast.Health.Ledger.Effects.{append-fired, append-pending, device-fired}
use ha_int_gcast.Health.Verdicts.{is_from}
use ha_int_gcast.Health.Requests.{record_outcome}
use ha_int_gcast.Health.Run.Timers.{pending_of}
use ha_int_gcast.Health.Answers.{Settled-device, resolve-Settled, pending_of-device}

-- `s'` is `s` with one more event, of the outcome and the source; a request that was pending from the
-- same source is resolved by it, and any other stays pending.
pub record Recorded {W : Type 0} (u : Uuid) (o : DeliveryOutcome) (source : String)
    (s s' : Ledger W) : Type 0 where
  pub noted : DeliveryRecord
  pub fired : s'.fired ≡ s.fired ++ noted ∷ []
  pub outcome : noted.outcome ≡ o
  pub source_kept : noted.source ≡ source
  pub pending : pending_of s' u ≡ (if is_from (pending_of s u) source then none else pending_of s u)

is_from-source :
    (pending : Option PendingRequest) (source : String)
    → is_from pending source ≡ true
    → (p : PendingRequest) × (pending ≡ some p) × (p.source ≡ source)
is_from-source none source h = absurd (ground arith)
is_from-source (some p) source h = (p, refl, (same_iff p.source source).0 h)

module _ {W : Type 0} (now : Moment) (u : Uuid) (o : DeliveryOutcome) (source : String)
    (content_id : Option String) (error : Option Message) (responded : Bool) (s : Ledger W) where
  noted_outcome : (d : Details) → (append now u o d (device s u)).0.outcome ≡ o
  unfolding append make_record
  noted_outcome d = refl

  noted_source : (d : Details) → (append now u o d (device s u)).0.source ≡ d.source
  unfolding append make_record
  noted_source d = refl

  by_append :
      is_from (pending_of s u) source ≡ false
      → Recorded u o source s (record_outcome now u o source content_id error responded s)
  unfolding record_outcome
  by_append h =
      let d : Details = record {
        source = source;
        content_id = content_id;
        error = error;
        responded = responded;
        requested_at = none;
        elapsed = none;
        observed = nothing_observed;
      } in
      let noted = (append now u o d (device s u)).0 in
      rw h (record {
        noted = noted;
        fired =
            append-fired now u o d (device s u) ∙ ap (λ rs. rs ++ noted ∷ []) (device-fired s u);
        outcome = noted_outcome d;
        source_kept = noted_source d;
        pending = append-pending now u o d (device s u) ∙ pending_of-device s u u ∙ rw h refl;
      })

  by_resolve :
      is_from (pending_of s u) source ≡ true
      → Recorded u o source s (record_outcome now u o source content_id error responded s)
  unfolding record_outcome
  by_resolve h =
      let (p, there, same) = is_from-source (pending_of s u) source h in
      let settled = Settled-device now u u p o error responded s _ (
        resolve-Settled now u o error responded nothing_observed none (device s u) p
          (pending_of-device s u u ∙ there)) in
      rw h (record {
        noted = settled.answer;
        fired = settled.fired;
        outcome = settled.answers.outcome;
        source_kept = settled.answers.source ∙ same;
        pending = settled.cleared ∙ rw h refl;
      })

  pub record_outcome-Recorded :
      Recorded u o source s (record_outcome now u o source content_id error responded s)
  record_outcome-Recorded = elim (Bool-cases (is_from (pending_of s u) source)) [
    | inl h ↦ by_resolve h
    | inr h ↦ by_append h
  ]
