-- ===== src/Player/Counted.antt =====
-- Counting uuids and groups in the lists of Player/Setup (custom_components/cast/media_player.py).
use ha_int_gcast.Base.{
  ℕ, ◌-◌, ◌≤◌, ◌≡◌, refl, true, false, List, [], ◌∷◌, contains, count, any, ◌==◌, nat_eq, string_eq,
  same_iff, arith, if◌then◌else◌,
}
use ha_int_gcast.Health.Types.{Uuid}
use ha_int_gcast.Player.Setup.{Group, set_remove, is_of, is_same, listening_groups, drop_group}

-- How often a uuid stands in a list
unfoldable pub times : Uuid → List Uuid → ℕ
times u vs = count (λ v. v == u) vs

pub times-set_remove :
    (u v : Uuid) (vs : List Uuid)
    → times u (set_remove v vs) ≡ (if v == u then times u vs - 1 else times u vs)
unfolding times set_remove
times-set_remove u v [] = ground arith
times-set_remove u v (w ∷ vs) =
    ground (arith, times-set_remove u v vs, same_iff v u, same_iff w v, same_iff w u)

pub contains-times :
    (u : Uuid) (vs : List Uuid) → contains u vs ≡ (if times u vs == 0 then false else true)
unfolding times
contains-times u [] = refl
contains-times u (v ∷ vs) = ground (arith, contains-times u vs)

-- How many groups of a uuid stand in a list, and how often one of them does.
abbrev pub of_uuid : Uuid → List Group → ℕ
of_uuid u gs = count (is_of u) gs

abbrev pub amount : Group → List Group → ℕ
amount g gs = count (is_same g) gs

pub amount-without :
    (g h : Group) (gs : List Group)
    → amount g (drop_group h gs) ≡ (if is_same g h then amount g gs - 1 else amount g gs)
unfolding drop_group
amount-without g h [] = ground arith
amount-without g h (x ∷ gs) = ground (
  arith,
  amount-without g h gs,
  same_iff x.ident h.ident,
  same_iff x.uuid h.uuid,
  same_iff g.ident h.ident,
  same_iff g.uuid h.uuid,
  same_iff g.ident x.ident,
  same_iff g.uuid x.uuid,
)

pub any-amount : (g : Group) (gs : List Group) → any (is_same g) gs ≡ true → 1 ≤ amount g gs
any-amount g [] h = ground arith
any-amount g (x ∷ gs) h = ground (arith, any-amount g gs)

pub of_uuid-amount :
    (u : Uuid) (g : Group) (gs : List Group) → g.uuid ≡ u → amount g gs ≤ of_uuid u gs
of_uuid-amount u g [] own = omega arith
of_uuid-amount u g (x ∷ gs) own =
    ground (arith, of_uuid-amount u g gs own, same_iff g.uuid x.uuid, same_iff x.uuid u)

pub of_uuid-without :
    (u : Uuid) (g : Group) (gs : List Group)
    → 1 ≤ amount g gs
    → of_uuid u (drop_group g gs) ≡ (if is_of u g then of_uuid u gs - 1 else of_uuid u gs)
unfolding drop_group
of_uuid-without u g [] there = omega arith
of_uuid-without u g (x ∷ gs) there = ground (
  arith,
  of_uuid-without u g gs,
  same_iff x.ident g.ident,
  same_iff x.uuid g.uuid,
  same_iff g.ident x.ident,
  same_iff g.uuid x.uuid,
  same_iff x.uuid u,
  same_iff g.uuid u,
  of_uuid-amount u g gs,
)

pub amount-listening_groups :
    (g : Group) (u : Uuid) (gs : List Group)
    → amount g (listening_groups u gs) ≡ (if is_of u g then amount g gs else 0)
unfolding listening_groups
amount-listening_groups g u [] = ground arith
amount-listening_groups g u (x ∷ gs) = ground (
  arith,
  amount-listening_groups g u gs,
  same_iff g.uuid x.uuid,
  same_iff x.uuid u,
  same_iff g.uuid u,
)

pub any-none :
    (u : Uuid) (g : Group) (gs : List Group)
    → any (is_of u) gs ≡ false
    → g.uuid ≡ u
    → amount g gs ≡ 0
any-none u g [] h own = refl
any-none u g (x ∷ gs) h own =
    ground (arith, any-none u g gs, same_iff g.uuid x.uuid, same_iff x.uuid u)
