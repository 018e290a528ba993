-- ===== src/Lease/Tests.antt =====
-- Leases from a block of eight addresses.
use nebula_control_plane.Prelude.{
  ℕ, ◌+◌, ◌≡◌, ◌≢◌, ◌==◌, refl, true, [], ◌∷◌, some, arith, count, find, keep, update,
}
use nebula_control_plane.Net.Prefix.{Prefix, masked, contains, overlaps, prefix_inside}
use nebula_control_plane.Net.Slots.{IsPool}
use nebula_control_plane.Netblock.Types.{prefix, unwired, Result}
use nebula_control_plane.Netblock.Types
use nebula_control_plane.Netblock.Registry.{add, validate_cidr}
use nebula_control_plane.Netblock.Resolve.{resolve_full, carves, Resolved}
use nebula_control_plane.Netblock.History.{call_env, empty_table, called, added}
use nebula_control_plane.Lease.Types.{Pool, Resolver, Call, Db, done, has_ip}
use nebula_control_plane.Lease.Operations.{
  ensure_device, purge_expired, attempts, allocate, allocate_specific, release,
}
use nebula_control_plane.Lease.Search.{bare, scan, first_free, resolve}
use nebula_control_plane.Lease.Free.{IsLowest, IsFree, first_free-Lowest}
use nebula_control_plane.Lease.Registry.{View, registry_resolver, allocate-registry}
use nebula_control_plane.Lease.History.{released_held_back, allocates, at_once}

-- 10.42.2.0.
abbrev base : ℕ
base = 170525184

abbrev overlay : Prefix
overlay = record { addr = 170524672; bits = 16 }

overlay-IsPool : IsPool overlay
overlay-IsPool = record { bits-le = omega arith; aligned = refl; addr-lt = omega arith }

abbrev web_range : Prefix
web_range = record { addr = base; bits = 29 }

abbrev conf : Pool
conf = record { prefix = overlay; sub_ranges = []; reserved = (base + 1) ∷ []; quarantine_ttl = 50 }

abbrev blocks : Types.Db
blocks =
    (add (call_env overlay [] unwired true true) (record { rows = []; next_id = 1; log = [] }) "web"
      web_range "" "admin" 100).0

-- The registry has read the table as it is.
abbrev read : View
read = record { table = blocks; snapshot = blocks.rows }

abbrev resolver : Resolver View
resolver = registry_resolver (call_env overlay [] unwired true true)

abbrev at : ℕ → Call
at now = record { now = now; reads = true; writes = true }

abbrev alone : ℕ → Db → Db
alone n db = db

abbrev no_lease : Db
no_lease = record { devices = []; allocations = []; next_id = 1 }

-- The base address is skipped, and the next one is reserved.
granted :
    (allocate conf (some resolver) (at 200) alone "host" "web" "token" no_lease read).1
    ≡ done (base + 2)
unfolding allocate resolve resolve_full attempts first_free scan ensure_device purge_expired add
    validate_cidr prefix_inside contains masked count find keep
granted = refl

allocate-registry_example :
    (count
        (λ n. contains (prefix n) (base + 2))
        (allocate conf
          (some resolver)
          (at 200)
          alone
          "host"
          "web"
          "token"
          no_lease
          read).0.1.snapshot
      ≡ 1)
    × (count
          (has_ip (base + 2))
          (allocate conf
            (some resolver)
            (at 200)
            alone
            "host"
            "web"
            "token"
            no_lease
            read).0.0.allocations
        ≡ 1)
    × (count (λ (b : ℕ). b == base + 2) conf.reserved ≡ 0)
allocate-registry_example =
    allocate-registry overlay [] overlay-IsPool unwired true true conf (at 200) alone "host" "web"
      "token" no_lease read (base + 2)
      (
        called (empty_table 1 []) (added unwired true true "web" web_range "" "admin" 100),
        (
          blocks,
          called (empty_table 1 []) (added unwired true true "web" web_range "" "admin" 100),
          refl,
        ),
      )
      granted

-- A range without a name that begins as the block does: the block is kept clear of.
abbrev wide : Resolved
wide = bare "" (record { addr = base; bits = 28 })

first_free-Lowest_example :
    IsLowest
      (IsFree conf (some resolver) read wide no_lease)
      (first_free conf (some resolver) read wide no_lease)
first_free-Lowest_example = first_free-Lowest conf (some resolver) read wide no_lease

first_free_above : first_free conf (some resolver) read wide no_lease ≡ some (base + 8)
unfolding first_free scan add validate_cidr prefix_inside contains masked count keep carves overlaps
first_free_above = refl

abbrev leased : Db
leased =
    (allocate_specific conf (some resolver) (at 200) "host" (base + 3) "genesis" no_lease read).0

abbrev released : Db
released = (release conf (at 300) (base + 3) leased).0

was_released : (release conf (at 300) (base + 3) leased).1 ≡ done tt
unfolding allocate_specific release ensure_device purge_expired contains masked count find keep
    update resolve_full add validate_cidr prefix_inside
was_released = refl

-- Another host has an address of the block meanwhile.
abbrev later : Db
later = (allocate conf (some resolver) (at 310) alone "other" "web" "token" released read).0.0

released_held_back_example :
    ((allocate conf (some resolver) (at 349) alone "third" "web" "token" later read).1
      ≢ done (base + 3))
    × ((allocate_specific conf (some resolver) (at 349) "third" (base + 3) "token" later read).1
        ≢ done (base + 3))
released_held_back_example =
    released_held_back conf (some resolver) (at 300) (at 349) alone "third" "web" "token" (base + 3)
      (base + 3) leased later read refl was_released
      (allocates at_once (at 310) alone "other" "web" "token" read (omega arith) (λ n s h. h))
      (omega arith) (λ n s h. h)
