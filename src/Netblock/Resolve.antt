-- ===== src/Netblock/Resolve.antt =====
-- internal/netblock/netblock.go, `Resolve`, `ResolveFull`, `NetblockCIDRs`, `Carves` and `allCarves`: what the allocator and the
-- placement of blocks read of the table.
use nebula_control_plane.Prelude.{
  ℕ, String, Bool, ◌&&◌, not, List, Option, none, some, if◌then◌else◌, str_eq, find, keep, map,
}
use nebula_control_plane.Net.Prefix.{Prefix, is_valid}
use nebula_control_plane.Netblock.Types.{
  not_found, Result, ok, err, Netblock, prefix, default_name, is_named, reserved_kind?, is_default,
  has_name,
}

-- `ipam.Resolved`.
pub record Resolved : Type 0 where
  pub id : ℕ
  pub name : String
  pub cidr : Prefix
  pub named : Bool
  pub is_reserved : Bool

abbrev pub resolved : Netblock → Resolved
resolved n = record {
  id = n.id;
  name = n.name;
  cidr = prefix n;
  named = is_named n.kind;
  is_reserved = reserved_kind? n.kind;
}

-- A row of the snapshot: one whose prefix can be read.
abbrev pub listed : String → Netblock → Bool
listed name n = is_valid (prefix n) && has_name name n

abbrev pub or_not_found : Option Netblock → Result Resolved
or_not_found none = err not_found
or_not_found (some n) = ok (resolved n)

abbrev pub or_default : List Netblock → String → Option Netblock → Result Resolved
or_default rows name (some n) = ok (resolved n)
or_default rows name none =
    if str_eq name default_name
    then err not_found
    else or_not_found (find (listed default_name) rows)

-- `ResolveFull`, in a snapshot of the rows.
unfoldable pub resolve_full : List Netblock → String → Result Resolved
resolve_full rows name =
    let wanted = if str_eq name "" then default_name else name in
    or_default rows wanted (find (listed wanted) rows)

abbrev pub range_or_not_found : Option Netblock → Result Prefix
range_or_not_found none = err not_found
range_or_not_found (some n) = ok (prefix n)

abbrev pub range_or_default : List Netblock → String → Option Netblock → Result Prefix
range_or_default rows name (some n) = ok (prefix n)
range_or_default rows name none =
    if str_eq name default_name
    then err not_found
    else range_or_not_found (find (listed default_name) rows)

-- `Resolve`, in a snapshot of the rows.
unfoldable pub resolve_cidr : List Netblock → String → Result Prefix
resolve_cidr rows name =
    let wanted = if str_eq name "" then default_name else name in
    range_or_default rows wanted (find (listed wanted) rows)

-- `NetblockCIDRs`; the source lists them in the order of a map.
unfoldable pub netblock_cidrs : List Netblock → List (String × Prefix)
netblock_cidrs rows = map (λ n. (n.name, prefix n)) (keep (λ n. is_valid (prefix n)) rows)

-- `Carves`: every block but the default one.
unfoldable pub carves : List Netblock → List Prefix
carves rows = map prefix (keep (λ n. is_valid (prefix n) && not (is_default n.kind)) rows)

-- `allCarves`, of the rows that the registry has read.
unfoldable pub all_carves : List Netblock → List Prefix
all_carves rows = map prefix (keep (λ n. is_valid (prefix n)) rows)
