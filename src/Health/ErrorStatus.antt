-- ===== src/Health/ErrorStatus.antt =====
-- `async_media_status` (custom_components/cast/health.py) on a status that reports idleReason=ERROR.
use ha_int_gcast.Base.{
  same_iff, ◌≡◌, ◌≢◌, ◌⊎◌, refl, ap, ◌∙◌, String, true, false, Option, none, some, ◌++◌, ◌∷◌, [],
  arith, string_eq,
}
use ha_int_gcast.Health.Outcome.{fetch_failed}
use ha_int_gcast.Health.Types.{
  Uuid, Moment, Message, idle_error, Observed, DeliveryRecord, PendingRequest,
}
use ha_int_gcast.Health.Verdicts.{Status, observed_by, reports_error, is_foreign}
use ha_int_gcast.Health.Ledger.{
  Ledger, Details, device, resolve, resolution, append, detach, make_record,
}
use ha_int_gcast.Health.Ledger.Effects.{device-fired}
use ha_int_gcast.Health.Requests.{media_status, record_observation}
use ha_int_gcast.Health.Run.Timers.{pending_of, pending_of-append}
use ha_int_gcast.Health.Answers.{Settled, Settled-device, resolve-Settled, pending_of-device}

-- `s'` is `s` with one more event: a failure that was observed, of media nobody here asked for.
pub record Noted {W : Type 0} (content : Option String) (s s' : Ledger W) : Type 0 where
  pub note : DeliveryRecord
  pub fired : s'.fired ≡ s.fired ++ note ∷ []
  pub outcome : note.outcome ≡ fetch_failed
  pub source : note.source ≡ "observed"
  pub content_kept : note.content_id ≡ content
  pub responded : note.responded ≡ true
  pub unasked : note.requested_at ≡ none

own_not_foreign :
    (c : Option String) (p : PendingRequest)
    → (c ≡ none) ⊎ (c ≡ some p.content_id)
    → is_foreign c p ≡ false
unfolding is_foreign
own_not_foreign none p h = refl
own_not_foreign (some c) p h = ground (arith, same_iff c p.content_id)

other_foreign : (c : String) (p : PendingRequest) → c ≢ p.content_id → is_foreign (some c) p ≡ true
unfolding is_foreign
other_foreign c p h = ground (arith, same_iff c p.content_id)

Noted-append :
    {W : Type 0} (now : Moment) (u : Uuid) (d : Details) {content : Option String} (s : Ledger W)
    → d.source ≡ "observed"
    → d.responded ≡ true
    → d.requested_at ≡ none
    → d.content_id ≡ content
    → Noted content s (append now u fetch_failed d s).1
unfolding append make_record
Noted-append now u d s source responded asked kept = record {
  note = (append now u fetch_failed d s).0;
  fired = refl;
  outcome = refl;
  source = source;
  content_kept = kept;
  responded = responded;
  unasked = asked;
}

-- The lookup and the detaching before a record leave the events as they are.
Noted-since :
    {W : Type 0} {content : Option String} {s t s' : Ledger W}
    → t.fired ≡ s.fired
    → Noted content t s'
    → Noted content s s'
Noted-since e n = record {
  note = n.note;
  fired = n.fired ∙ ap (λ rs. rs ++ n.note ∷ []) e;
  outcome = n.outcome;
  source = n.source;
  content_kept = n.content_kept;
  responded = n.responded;
  unasked = n.unasked;
}

unasked-details :
    (now : Moment) (pending : Option PendingRequest) (m : Message) (observed : Observed)
    (content : Option String)
    → pending ≡ none
    → let d = resolution now pending (some m) true observed content in
      (d.source ≡ "observed")
      × (d.responded ≡ true)
      × (d.requested_at ≡ none)
      × (d.content_id ≡ content)
unfolding resolution
unasked-details now pending m observed content e = rw e (refl, refl, refl, refl)

resolve-Noted :
    {W : Type 0} (now : Moment) (u : Uuid) (m : Message) (observed : Observed)
    (content : Option String) (s : Ledger W)
    → pending_of s u ≡ none
    → Noted content s (resolve now u fetch_failed (some m) true observed content s).1
unfolding resolve detach
resolve-Noted now u m observed content s e =
    let (source, responded, asked, kept) =
      unasked-details now (pending_of s u) m observed content e in
    let d = resolution now (pending_of s u) (some m) true observed content in
    Noted-since {t = detach u s} refl
      (Noted-append now u d (detach u s) source responded asked kept)

module _ {W : Type 0} (now : Moment) (u : Uuid) (st : Status) (s : Ledger W)
    (error : reports_error st ≡ true) where
  -- An error for the requested content, or for no content in particular, resolves the pending
  -- request of the device as a failed fetch to which the device responded.
  pub error-settles :
      (p : PendingRequest)
      → pending_of s u ≡ some p
      → (st.content_id ≡ none) ⊎ (st.content_id ≡ some p.content_id)
      → Settled now u p fetch_failed (some idle_error) true s (media_status now u st s)
  unfolding media_status
  error-settles p e own =
      rw (error, e, own_not_foreign st.content_id p own)
        (Settled-device now u u p fetch_failed (some idle_error) true s _ (
          resolve-Settled now u fetch_failed (some idle_error) true (observed_by st) none
            (device s u) p (pending_of-device s u u ∙ e)))

  -- An error for other content is noted as an observed failure, and every request stays pending.
  pub error-notes :
      (p : PendingRequest) (c : String)
      → pending_of s u ≡ some p
      → st.content_id ≡ some c
      → c ≢ p.content_id
      → Noted (some c) s (media_status now u st s)
        × ((v : Uuid) → pending_of (media_status now u st s) v ≡ pending_of s v)
  unfolding media_status record_observation
  error-notes p c e content other =
      rw (error, e, content, other_foreign c p other)
        (
          Noted-since (device-fired s u) (Noted-append now u _ (device s u) refl refl refl refl),
          λ v. pending_of-append now u _ _ (device s u) v ∙ pending_of-device s u v,
        )

  -- An error on a device with nothing pending is noted with the content that the status names.
  pub error-unasked : pending_of s u ≡ none → Noted st.content_id s (media_status now u st s)
  unfolding media_status
  error-unasked e =
      rw (error, e)
        (Noted-since (device-fired s u) (
          resolve-Noted now u idle_error (observed_by st) st.content_id (device s u)
            (pending_of-device s u u ∙ e)))
