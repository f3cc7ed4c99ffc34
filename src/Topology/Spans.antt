-- ===== src/Topology/Spans.antt =====
-- When a speaker group spans subnets (custom_components/cast/topology.py).
use ha_int_gcast.Base.{
  ◌≡◌, ◌≢◌, ◌↔◌, refl, ◌∙◌, sym, Bool, true, false, Option, none, some, List, [], ◌∷◌, contains,
  option_beq, ◌==◌, same_iff, ==-refl, arith, if◌then◌else◌, Bool-cases, inl, inr,
}
use ha_int_gcast.Topology.Address.{Network}
use ha_int_gcast.Topology.Groups.{network_eq, add_known, known_in, more_than_one, spans}

-- Is `a` the known subnet of the leader or of a member?
unfoldable pub holds : Network → List (Option Network) → Bool
holds a [] = false
holds a (subnet ∷ subnets) = if option_beq subnet (some a) then true else holds a subnets

contains-add_known :
    (a : Network) (subnet : Option Network) (known : List Network)
    → contains a (add_known subnet known)
      ≡ (if option_beq subnet (some a) then true else contains a known)
contains-add_known a none known = refl
contains-add_known a (some n) known = elim (Bool-cases (n == a)) [
  | inr other ↦ elim (Bool-cases (contains n known)) [
    | inl old ↦ rw (other, old) refl
    | inr new ↦ rw (other, new) (rw other refl)
  ]
  | inl same ↦ elim (Bool-cases (contains n known)) [
    | inl old ↦ rw (same, old) (rw (← (same_iff n a).0 same) old)
    | inr new ↦ rw (same, new) (rw same refl)
  ]
]

contains-known_in :
    (a : Network) (subnets : List (Option Network))
    → contains a (known_in subnets) ≡ holds a subnets
unfolding known_in holds
contains-known_in a [] = refl
contains-known_in a (subnet ∷ subnets) =
    contains-add_known a subnet (known_in subnets) ∙ rw (contains-known_in a subnets) refl

-- No element is in the list twice.
abbrev Distinct : List Network → Type 0
Distinct [] = Unit
Distinct (a ∷ rest) = (contains a rest ≡ false) × Distinct rest

add_known-Distinct :
    (subnet : Option Network) (known : List Network)
    → Distinct known
    → Distinct (add_known subnet known)
add_known-Distinct none known h = h
add_known-Distinct (some n) known h = elim (Bool-cases (contains n known)) [
  | inl old ↦ rw old h
  | inr new ↦ rw new (new, h)
]

known_in-Distinct : (subnets : List (Option Network)) → Distinct (known_in subnets)
unfolding known_in
known_in-Distinct [] = tt
known_in-Distinct (subnet ∷ subnets) =
    add_known-Distinct subnet (known_in subnets) (known_in-Distinct subnets)

-- Two different members of a list
pub record Differ (has : Network → Bool) : Type 0 where
  pub first : Network
  pub second : Network
  pub has_first : has first ≡ true
  pub has_second : has second ≡ true
  pub apart : first ≢ second

Distinct-Differ :
    (known : List Network)
    → Distinct known
    → more_than_one known ≡ some true
    → Differ (λ a. contains a known)
Distinct-Differ [] h e = ground arith
Distinct-Differ (a ∷ []) h e = ground arith
Distinct-Differ (a ∷ b ∷ rest) h e = record {
  first = a;
  second = b;
  has_first = rw (==-refl a) refl;
  has_second = ground (arith, ==-refl b);
  apart = λ p. ground (arith, h.0, (same_iff b a).1 (sym p));
}

Differ-more :
    (known : List Network) → Differ (λ a. contains a known) → more_than_one known ≡ some true
Differ-more [] d = ground (arith, d.has_first)
Differ-more (a ∷ []) d =
    let one : a ≡ d.first = (same_iff a d.first).0 (ground (arith, d.has_first)) in
    let two : a ≡ d.second = (same_iff a d.second).0 (ground (arith, d.has_second)) in
    absurd (d.apart (sym one ∙ two))
Differ-more (a ∷ b ∷ rest) d = ground arith

none_known :
    (known : List Network) → more_than_one known ≡ none → (a : Network) → contains a known ≡ false
none_known [] e a = refl
none_known (n ∷ known) e a = ground arith

all_unknown :
    (known : List Network) → ((a : Network) → contains a known ≡ false) → more_than_one known ≡ none
all_unknown [] h = refl
all_unknown (n ∷ known) h = ground (arith, h n, ==-refl n)

-- A group spans subnets exactly when two of the subnets that are known of its leader and its members
-- differ, and nothing is claimed exactly when none is known.
pub spans-Differ :
    (subnets : List (Option Network))
    → ((spans subnets ≡ some true) ↔ Differ (λ a. holds a subnets))
      × ((spans subnets ≡ none) ↔ ((a : Network) → holds a subnets ≡ false))
unfolding spans
spans-Differ subnets = ((one_way, other_way), (nothing, unknown_all))
  where
    one_way : spans subnets ≡ some true → Differ (λ a. holds a subnets)
    one_way e =
        let d = Distinct-Differ (known_in subnets) (known_in-Distinct subnets) e in
        record {
          first = d.first;
          second = d.second;
          has_first = sym (contains-known_in d.first subnets) ∙ d.has_first;
          has_second = sym (contains-known_in d.second subnets) ∙ d.has_second;
          apart = d.apart;
        }

    other_way : Differ (λ a. holds a subnets) → spans subnets ≡ some true
    other_way d = Differ-more (known_in subnets) (record {
      first = d.first;
      second = d.second;
      has_first = contains-known_in d.first subnets ∙ d.has_first;
      has_second = contains-known_in d.second subnets ∙ d.has_second;
      apart = d.apart;
    })

    nothing : spans subnets ≡ none → (a : Network) → holds a subnets ≡ false
    nothing e a = sym (contains-known_in a subnets) ∙ none_known (known_in subnets) e a

    unknown_all : ((a : Network) → holds a subnets ≡ false) → spans subnets ≡ none
    unknown_all h = all_unknown (known_in subnets) (λ a. contains-known_in a subnets ∙ h a)
