-- ===== src/Policy/Check.antt =====
-- internal/policy/policy.go: reserved groups, `Validate` and `CheckInvariants`.
use nebula_control_plane.Prelude.{
  ℕ, suc, ◌+◌, String, Bool, true, false, ◌||◌, ◌&&◌, not, List, [], ◌∷◌, Option, none, some,
  if◌then◌else◌, leb, str_eq,
}
use nebula_control_plane.Policy.Text.{cut, atoi, zero_int}
use nebula_control_plane.Policy.Types.{Rule, control_plane, lighthouse}

-- `IsReservedGroup`.
unfoldable pub is_reserved_group : String → Bool
is_reserved_group g = str_eq g control_plane || str_eq g lighthouse

-- `GrantsReservedGroup`.
unfoldable pub grants_reserved_group : List String → Bool
grants_reserved_group [] = false
grants_reserved_group (g ∷ gs) =
    let rest = grants_reserved_group gs in if is_reserved_group g then true else rest

-- `ContainsReservedRef`, over the rules.
unfoldable pub contains_reserved_ref : List Rule → Bool
contains_reserved_ref [] = false
contains_reserved_ref (r ∷ rs) =
    let rest = contains_reserved_ref rs in
    if is_reserved_group r.from_group || is_reserved_group r.to_group then true else rest

-- `CheckInvariants`: the number of the first rule that names a reserved group, and the group.
unfoldable pub check_invariants : ℕ → List Rule → Option (ℕ × String)
check_invariants i [] = none
check_invariants i (r ∷ rs) =
    let rest = check_invariants (suc i) rs in
    if is_reserved_group r.from_group
    then some (i, r.from_group)
    else if is_reserved_group r.to_group
    then some (i, r.to_group)
    else rest

pub data Fault : Type 0 where
  empty_group bad_proto bad_port : ℕ → Fault

abbrev pub known_proto : String → Bool
known_proto p = str_eq p "tcp" || str_eq p "udp" || str_eq p "icmp" || str_eq p "any"

abbrev pub port_in_range : Option ℕ → Bool
port_in_range none = false
port_in_range (some n) = leb (zero_int + 1) n && leb n (zero_int + 65535)

abbrev pub both_in_range : Option (String × String) → String → Bool
both_in_range none p = port_in_range (atoi p)
both_in_range (some (lo, hi)) p = port_in_range (atoi lo) && port_in_range (atoi hi)

-- `validatePort`: true where it returns no error.
unfoldable pub validate_port : String → Bool
validate_port p = if str_eq p "any" then true else both_in_range (cut p) p

-- `Validate`: what is wrong with the first rule that is not well-formed.
unfoldable pub validate : ℕ → List Rule → Option Fault
validate i [] = none
validate i (r ∷ rs) =
    let rest = validate (suc i) rs in
    if str_eq r.from_group "" || str_eq r.to_group ""
    then some (empty_group i)
    else if not (known_proto r.proto)
    then some (bad_proto i)
    else if not (validate_port r.port)
    then some (bad_port i)
    else rest

-- `ValidateQuery`; `to_lower` is strings.ToLower.
unfoldable pub validate_query : (String → String) → String → String → Bool
validate_query to_lower proto port =
    known_proto (to_lower proto) && (if str_eq port "any" then true else validate_port port)
