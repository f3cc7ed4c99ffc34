-- ===== src/Health/Run/Recent.antt =====
-- The deque `records` of `DeliveryLedger` (custom_components/cast/health.py) against the events that
-- `_append` fires on the bus.
use ha_int_gcast.Base.{
  ℕ, ◌-◌, ◌≡◌, refl, ap, ◌∙◌, List, [], ◌∷◌, ◌++◌, arith, drop, length, length-append, length-drop,
  drop-append, drop-drop, if_elim, is_some, nat_eq,
}
use ha_int_gcast.Base.Dict.{get}
use ha_int_gcast.Health.Types.{DeliveryRecord, Moment}
use ha_int_gcast.Health.Ledger.{
  Ledger, Urls, push, ledger_size, append, resolve, detach, device, store,
}
use ha_int_gcast.Health.Requests.{add_listener, remove_listener, update_identity}
use ha_int_gcast.Health.Run.{Call, init, run}
use ha_int_gcast.Health.Run.Keeps.{IsKept, expire-keeps, run-keeps}

-- The last `n` items.
abbrev pub last {ℓ} : {A : Type ℓ} → ℕ → List A → List A
last n xs = drop (length xs - n) xs

-- A bounded deque holds the last items of what was appended to it.
pub push-last :
    {A : Type 0} (n : ℕ) (xs : List A) (x : A) → push n (last n xs) x ≡ last n (xs ++ x ∷ [])
unfolding push
push-last n xs x =
    let k = length xs - n in
    let zs = xs ++ x ∷ [] in
    rw (← drop-append k xs (x ∷ []) (omega arith))
      (ground (arith, drop-drop 1 k zs, length-drop k zs, length-append xs (x ∷ [])))

record IsRecent {W : Type 0} (s : Ledger W) : Type 0 where
  recent : s.records ≡ last ledger_size s.fired

module _ {W : Type 0} where
  appends-recent :
      (s : Ledger W) (r : DeliveryRecord)
      → IsRecent s
      → push ledger_size s.records r ≡ last ledger_size (s.fired ++ r ∷ [])
  appends-recent s r h = ap (λ rs. push ledger_size rs r) h.recent ∙ push-last ledger_size s.fired r

  IsRecent-kept : IsKept {W = W} IsRecent
  unfolding add_listener remove_listener device store update_identity append resolve detach
  IsRecent-kept = record {
    adds = λ l s h. record { recent = h.recent };
    removes = λ ident s h. record { recent = h.recent };
    looks =
        λ u s h. if_elim IsRecent (is_some (get s.devices u)) s _ h (record { recent = h.recent });
    identity = λ now u i s h. record { recent = h.recent };
    appends = λ now u o d s e h. record { recent = appends-recent s _ h };
    resolves = λ now u o error responded observed unsolicited s h. record {
      recent = appends-recent s _ h;
    };
    enters = λ now u content_id source session duration s e h. record { recent = h.recent };
    fires =
        expire-keeps IsRecent (λ timers s h. record { recent = h.recent })
          (λ u ident s h. record { recent = h.recent })
          (λ now t s h. record { recent = appends-recent s _ h });
  }

  -- After any calls, the ledger holds the last 50 of the records that it fired as events, in order.
  pub records-run :
      (urls : Urls) (w : W) (cs : List (Moment × Call W))
      → let s = run (init urls w) cs in s.records ≡ last ledger_size s.fired
  records-run urls w cs =
      (run-keeps IsRecent-kept (init urls w) cs (unfold init in record { recent = refl })).recent
