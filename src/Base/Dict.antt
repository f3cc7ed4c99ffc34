-- ===== src/Base/Dict.antt =====
-- Python's `dict` as an association list in insertion order: a write to a present key keeps its
-- place, a write to a new key goes to the end.
use ha_int_gcast.Base.Tests.{if◌then◌else◌, Bool-cases, or_else}
use ha_int_gcast.Base.Same.{Equality, ◌==◌, same_iff}
use Prim.Native.Nat.{ℕ, ◌+◌}
use mathlib.Core.Path.{◌≡◌, refl, sym, ap, ◌∙◌}
use mathlib.Core.Logic.{inl, inr}
use mathlib.Core.Option.{Option, none, some}
use mathlib.Core.List.{List, [], ◌∷◌}
use native.Mathlib.Omega.{arith}

abbrev pub Dict {ℓ κ} : Type ℓ → Type κ → Type (ℓ ⊔ κ)
Dict K V = List (K × V)

module _ {ℓ κ} {K : Type ℓ} {V : Type κ} ⦃e : Equality K⦄ where
  -- The value under a key, as `.get` gives it.
  unfoldable pub get : Dict K V → K → Option V
  get [] k = none
  get ((j, v) ∷ d) k = if j == k then some v else get d k

  -- Item assignment.
  unfoldable pub put : Dict K V → K → V → Dict K V
  put [] k v = (k, v) ∷ []
  put ((j, w) ∷ d) k v = if j == k then (j, v) ∷ d else (j, w) ∷ put d k v

  -- `.pop(k, None)`, and `del` of a key that is there.
  unfoldable pub remove : Dict K V → K → Dict K V
  remove [] k = []
  remove ((j, v) ∷ d) k = let rest = remove d k in if j == k then rest else (j, v) ∷ rest

  pub get-put :
      (d : Dict K V) (k j : K) (v : V) → get (put d k v) j ≡ (if k == j then some v else get d j)
  unfolding get put
  get-put [] k j v = refl
  get-put ((i, w) ∷ d) k j v =
      ground (arith, same_iff k j, same_iff i k, same_iff i j, get-put d k j v)

  pub get-put_self : (d : Dict K V) (k : K) (v : V) → get (put d k v) k ≡ some v
  get-put_self d k v = ground (arith, get-put d k k v, same_iff k k)

  pub get-remove :
      (d : Dict K V) (k j : K) → get (remove d k) j ≡ (if k == j then none else get d j)
  unfolding get remove
  get-remove [] k j = ground arith
  get-remove ((i, v) ∷ d) k j =
      ground (arith, same_iff i k, same_iff i j, same_iff k j, get-remove d k j)

  -- A predicate on every value that the keys reach.
  pub record Each {μ} (P : K → V → Type μ) (d : Dict K V) : Type (ℓ ⊔ κ ⊔ μ) where
    pub at : (k : K) (v : V) → get d k ≡ some v → P k v

  pub Each-put {μ} :
      (P : K → V → Type μ) (d : Dict K V) (k : K) (v : V) → P k v → Each P d → Each P (put d k v)
  Each-put P d k v new h = record {
    at = λ j w e.
        let written = sym (get-put d k j v) ∙ e in
        elim (Bool-cases (k == j)) [
          | inr other ↦ h.at j w (rw other at written)
          | inl same ↦
              let stored : some v ≡ some w = rw same at written in
              let value : v ≡ w = ap (λ o. or_else o v) stored in
              rw (← (same_iff k j).0 same, ← value) new
        ];
  }

abbrev pub measure {κ} : {V : Type κ} → (V → ℕ) → Option V → ℕ
measure f none = 0
measure f (some v) = f v

-- The sum of a measure over the values.
module _ {ℓ κ} {K : Type ℓ} {V : Type κ} where
  abbrev pub total : (V → ℕ) → Dict K V → ℕ
  total f [] = 0
  total f ((k, v) ∷ d) = f v + total f d

module _ {ℓ κ} {K : Type ℓ} {V : Type κ} ⦃e : Equality K⦄ where
  pub total-put :
      (f : V → ℕ) (d : Dict K V) (k : K) (v : V)
      → total f (put d k v) + measure f (get d k) ≡ total f d + f v
  unfolding get put
  total-put f [] k v = omega arith
  total-put f ((j, w) ∷ d) k v = ground (arith, total-put f d k v)
