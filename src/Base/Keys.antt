-- ===== src/Base/Keys.antt =====
-- The keys of a dict: each stands once.
use ha_int_gcast.Base.Tests.{if◌then◌else◌, is_some}
use ha_int_gcast.Base.Same.{Equality, ◌==◌, same_iff}
use ha_int_gcast.Base.Dict.{Dict, get, put, get-put}
use mathlib.Core.Path.{◌≡◌, refl}
use mathlib.Core.Bool.{Bool, true, false}
use mathlib.Core.List.{[], ◌∷◌}
use native.Mathlib.Omega.{arith}

module _ {ℓ κ} {K : Type ℓ} {V : Type κ} ⦃e : Equality K⦄ where
  -- Every key stands once.
  unfoldable pub has_unique_keys : Dict K V → Bool
  has_unique_keys [] = true
  has_unique_keys ((k, v) ∷ d) = if is_some (get d k) then false else has_unique_keys d

  is_some-put :
      (d : Dict K V) (k j : K) (v : V)
      → is_some (get (put d k v) j) ≡ (if k == j then true else is_some (get d j))
  is_some-put d k j v = ground (arith, get-put d k j v)

  pub has_unique_keys-put :
      (d : Dict K V) (k : K) (v : V) → has_unique_keys d ≡ true → has_unique_keys (put d k v) ≡ true
  unfolding has_unique_keys put get
  has_unique_keys-put [] k v h = refl
  has_unique_keys-put ((j, w) ∷ d) k v h =
      ground (arith, has_unique_keys-put d k v, is_some-put d k j v, same_iff j k, same_iff k j)
