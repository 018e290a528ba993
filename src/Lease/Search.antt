-- ===== src/Lease/Search.antt =====
-- internal/ipam/ipam.go, `resolve`, `firstFree` and `netblockIDContaining`: what the allocator looks up.
use nebula_control_plane.Prelude.{
  ℕ, zero, suc, ◌-◌, String, Bool, false, ◌&&◌, not, List, [], ◌∷◌, Option, none, some,
  if◌then◌else◌, leb, ◌==◌, str_eq, count, keep,
}
use nebula_control_plane.Net.Prefix.{Prefix, is_valid, size, masked, contains, overlaps}
use nebula_control_plane.Netblock.Types.{Result, ok, err, central_name, default_name}
use nebula_control_plane.Netblock.Resolve.{Resolved}
use nebula_control_plane.Lease.Types.{
  Db, unknown_sub_range, unresolved, Outcome, done, refused, Pool, Resolver, has_ip,
}

abbrev pub sub_range : String → List (String × Prefix) → Option Prefix
sub_range name [] = none
sub_range name ((key, p) ∷ ranges) = if str_eq key name then some p else sub_range name ranges

-- The loop of `firstFree` over the addresses of a range that pass its tests, so many at most.
unfoldable pub scan : Prefix → (ℕ → Bool) → ℕ → ℕ → Option ℕ
scan range usable zero a = none
scan range usable (suc n) a =
    let rest = scan range usable n (suc a) in
    if contains range a then (if usable a then some a else rest) else none

-- `hostCapacity`.
unfoldable pub host_capacity : Prefix → ℕ
host_capacity p = if not (is_valid p) then 0 else if leb (size p.bits) 1 then 0 else size p.bits - 1

-- A block outside of the registry: no id, and neither named nor reserved.
abbrev pub bare : String → Prefix → Resolved
bare name p = record { id = 0; name = name; cidr = p; named = false; is_reserved = false }

abbrev pub avoided_by : Prefix → Result (List Prefix) → List Prefix
avoided_by range (err e) = []
avoided_by range (ok cs) = keep (overlaps range) cs

abbrev pub or_sub_range : String → Option Prefix → Outcome Resolved
or_sub_range name none = refused unknown_sub_range
or_sub_range name (some p) = done (bare name p)

abbrev pub resolved_by : Result Resolved → Resolved → Resolved
resolved_by (ok def) res = def
resolved_by (err e) res = res

abbrev pub unless_reserved : Result Resolved → Result Resolved → Outcome Resolved
unless_reserved def (err e) = refused (unresolved e)
unless_reserved def (ok res) = done (if res.is_reserved then resolved_by def res else res)

abbrev pub id_of : ℕ → ℕ → Result Resolved → ℕ
id_of a other (err e) = other
id_of a other (ok res) = if contains res.cidr a then res.id else other

-- `netblockIDContaining`; 0 where it finds none.
unfoldable pub netblock_id_containing {ℓ} : {R : Type ℓ} → Option (Resolver R) → R → ℕ → ℕ
netblock_id_containing none r a = 0
netblock_id_containing (some ops) r a =
    id_of a (id_of a 0 (ops.resolve_full r default_name)) (ops.resolve_full r central_name)

module _ {ℓ} {R : Type ℓ} (pool : Pool) where
  -- The carves that `firstFree` keeps clear of.
  abbrev pub avoided : Option (Resolver R) → R → Resolved → List Prefix
  avoided none r res = []
  avoided (some ops) r res = if res.named then [] else avoided_by res.cidr (ops.carves r)

  abbrev pub usable : Option (Resolver R) → R → Resolved → Db → ℕ → Bool
  usable wired r res db a =
      not (a == (masked res.cidr).addr)
      && ((count (λ (b : ℕ). b == a) pool.reserved == 0)
          && ((count (has_ip a) db.allocations == 0)
              && (count (λ c. contains c a) (avoided wired r res) == 0)))

  -- `firstFree`; none where the block is exhausted.
  unfoldable pub first_free : Option (Resolver R) → R → Resolved → Db → Option ℕ
  first_free wired r res db =
      scan res.cidr (usable wired r res db) (size res.cidr.bits) (masked res.cidr).addr

  -- `resolve`.
  unfoldable pub resolve : Option (Resolver R) → R → String → Outcome Resolved
  resolve (some ops) r name =
      unless_reserved (ops.resolve_full r default_name) (ops.resolve_full r name)
  resolve none r name =
      if str_eq name ""
      then done (bare "" pool.prefix)
      else or_sub_range name (sub_range name pool.sub_ranges)
