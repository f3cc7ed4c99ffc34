-- ===== src/Health/Confirm.antt =====
-- When `async_media_status` (custom_components/cast/health.py) confirms a delivery.
use ha_int_gcast.Base.{
  ℕ, ◌≡◌, ◌≢◌, ◌⊎◌, inl, inr, refl, ◌∙◌, true, false, Option, none, some, arith, option_beq,
  option_beq_iff, nat_eq, string_eq, Bool-cases,
}
use ha_int_gcast.Health.Outcome.{success}
use ha_int_gcast.Health.Types.{Uuid, Moment, PlayerState, playing, buffering, PendingRequest}
use ha_int_gcast.Health.Verdicts.{
  Status, observed_by, reports_error, is_transition, is_stale_session,
}
use ha_int_gcast.Health.Ledger.{Ledger, device, resolve}
use ha_int_gcast.Health.Requests.{media_status, progress_status}
use ha_int_gcast.Health.Run.Timers.{pending_of}
use ha_int_gcast.Health.Answers.{Settled, Settled-device, resolve-Settled, pending_of-device}

-- The evidence that the design asks for: the content that was requested, a player that started on
-- it, and a media session that is not the one of before the request.
pub record Confirms (st : Status) (p : PendingRequest) : Type 0 where
  pub content : st.content_id ≡ some p.content_id
  pub started : (st.player_state ≡ some playing) ⊎ (st.player_state ≡ some buffering)
  pub fresh : (p.session_at_request ≡ none) ⊎ (st.media_session_id ≢ p.session_at_request)

started_transition :
    (s : Option PlayerState) → (s ≡ some playing) ⊎ (s ≡ some buffering) → is_transition s ≡ true
unfolding is_transition
started_transition s h = ground arith

transition_started :
    (s : Option PlayerState) → is_transition s ≡ true → (s ≡ some playing) ⊎ (s ≡ some buffering)
unfolding is_transition
transition_started s h = ground arith

fresh_not_stale :
    (session reported : Option ℕ)
    → (session ≡ none) ⊎ (reported ≢ session)
    → is_stale_session session reported ≡ false
unfolding is_stale_session
fresh_not_stale none reported h = refl
fresh_not_stale (some n) reported h = ground (arith, option_beq_iff reported (some n))

not_stale_fresh :
    (session reported : Option ℕ)
    → is_stale_session session reported ≡ false
    → (session ≡ none) ⊎ (reported ≢ session)
unfolding is_stale_session
not_stale_fresh none reported h = inl refl
not_stale_fresh (some n) reported h = inr (λ e. ground (arith, option_beq_iff reported (some n)))

module _ {W : Type 0} (now : Moment) (u : Uuid) (st : Status) (p : PendingRequest) where
  pub progress-Confirms :
      (s : Ledger W)
      → Confirms st p
      → progress_status now u st (some p) s
        ≡ (resolve now u success none true (observed_by st) none s).1
  progress-Confirms s c =
      let matched = (option_beq_iff st.content_id (some p.content_id)).1 c.content in
      rw (matched, started_transition _ c.started, fresh_not_stale _ _ c.fresh)

  progress-ignores : (s : Ledger W) → ¬ Confirms st p → progress_status now u st (some p) s ≡ s
  progress-ignores s unconfirmed =
      elim (Bool-cases (option_beq st.content_id (some p.content_id))) [
        | inr foreign ↦ rw foreign
        | inl matched ↦ rw matched (elim (Bool-cases (is_transition st.player_state)) [
          | inr still ↦ rw still
          | inl moving ↦
              rw moving
                (elim (Bool-cases (is_stale_session p.session_at_request st.media_session_id)) [
                  | inl stale ↦ rw stale
                  | inr fresh ↦ absurd (
                      unconfirmed (record {
                        content = (option_beq_iff st.content_id (some p.content_id)).0 matched;
                        started = transition_started _ moving;
                        fresh = not_stale_fresh _ _ fresh;
                      }))
                ])
        ])
      ]

  -- A status that reports no error and carries all of the evidence resolves the pending request of
  -- its device as a success to which the device responded.
  pub media_status-Confirms :
      (s : Ledger W)
      → pending_of s u ≡ some p
      → reports_error st ≡ false
      → Confirms st p
      → Settled now u p success none true s (media_status now u st s)
  unfolding media_status
  media_status-Confirms s e calm c =
      rw (calm, e, progress-Confirms (device s u) c)
        (Settled-device now u u p success none true s _ (
          resolve-Settled now u success none true (observed_by st) none (device s u) p
            (pending_of-device s u u ∙ e)))

  -- A status that reports no error and lacks a part of the evidence does nothing but to look the
  -- device up: the request stays pending and nothing is recorded.
  pub media_status-ignores :
      (s : Ledger W)
      → pending_of s u ≡ some p
      → reports_error st ≡ false
      → ¬ Confirms st p
      → media_status now u st s ≡ device s u
  unfolding media_status
  media_status-ignores s e calm unconfirmed =
      rw (calm, e) (progress-ignores (device s u) unconfirmed)
