-- ===== src/Topology/Address.antt =====
-- IPv4 addresses and networks, as custom_components/cast/topology.py uses Python's `ipaddress`.
use Prim.Native.Char.{code}
use ha_int_gcast.Base.{
  ℕ, ◌+◌, ◌-◌, ◌*◌, ◌%◌, ◌^◌, ◌≡◌, String, Bool, true, false, Option, none, some, List, [], ◌∷◌,
  leb, ltb, ◌&&◌, ◌||◌, length, ◌==◌, ==-refl, nat_eq, if◌then◌else◌,
}

-- The code points of a text.
abbrev pub code_points : String → List ℕ
code_points String.[] = []
code_points (String.◌∷◌ c s) = code c ∷ code_points s

-- `text.split(sep)` at one character: the first field, and the others.
unfoldable pub split : ℕ → List ℕ → List ℕ × List (List ℕ)
split sep [] = ([], [])
split sep (c ∷ cs) =
    let (field, fields) = split sep cs in
    if c == sep then ([], field ∷ fields) else (c ∷ field, fields)

abbrev pub is_digit : ℕ → Bool
is_digit c = leb 48 c && leb c 57

-- The value of a text of ASCII digits, `none` if it holds anything else.
unfoldable pub digits : ℕ → List ℕ → Option ℕ
digits value [] = some value
digits value (c ∷ cs) =
    let rest = digits (10 * value + (c - 48)) cs in if is_digit c then rest else none

abbrev pub at_most : ℕ → Option ℕ → Option ℕ
at_most bound none = none
at_most bound (some n) = if leb n bound then some n else none

-- A leading zero is an ambiguous octal notation unless it is the whole text.
abbrev pub has_leading_zero : List ℕ → Bool
has_leading_zero [] = false
has_leading_zero (c ∷ []) = false
has_leading_zero (c ∷ d ∷ cs) = c == 48

-- One octet: one to three digits, no leading zero, at most 255.
unfoldable pub octet : List ℕ → Option ℕ
unfolding digits
octet [] = none
octet (c ∷ cs) =
    if ltb 3 (length (c ∷ cs)) || has_leading_zero (c ∷ cs)
    then none
    else at_most 255 (digits 0 (c ∷ cs))

-- Four octets, most significant first.
abbrev pub join : Option ℕ → Option ℕ → Option ℕ → Option ℕ → Option ℕ
join (some a) (some b) (some c) (some d) = some (((a * 256 + b) * 256 + c) * 256 + d)
join a b c d = none

abbrev pub of_fields : List ℕ × List (List ℕ) → Option ℕ
of_fields (a, b ∷ c ∷ d ∷ []) = join (octet a) (octet b) (octet c) (octet d)
of_fields fields = none

-- `_as_ipv4`: a text that is no IPv4 address, an IPv6 address among them, gives `none`.
abbrev pub as_ipv4 : Option String → Option ℕ
as_ipv4 none = none
as_ipv4 (some host) = of_fields (split 46 (code_points host))

pub record Network : Type 0 where
  pub network_address : ℕ
  pub prefix : ℕ

-- The host bits of an address under a prefix
abbrev pub block : ℕ → ℕ
block prefix = 2 ^ (32 - prefix)

-- `IPv4Network(f"{ip}/{prefix}", strict=False)`
unfoldable pub network_of : ℕ → ℕ → Network
network_of ip prefix = record { network_address = ip - ip % block prefix; prefix = prefix }

-- `ip in net`
unfoldable pub contains_ip : Network → ℕ → Bool
contains_ip net ip = ip - ip % block net.prefix == net.network_address

-- An address is in the network of its own prefix.
pub network_of-contains : (ip prefix : ℕ) → contains_ip (network_of ip prefix) ip ≡ true
unfolding contains_ip network_of
network_of-contains ip prefix = ==-refl (ip - ip % block prefix)
