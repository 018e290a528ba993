-- ===== src/Lease/Types.antt =====
-- internal/ipam/ipam.go: the tables devices and ip_allocations, and what an allocator is made over. An
-- address is its 32-bit number, a time or a duration a natural number of nanoseconds.
use nebula_control_plane.Prelude.{ℕ, String, Bool, true, false, List, ◌==◌, ◌&&◌}
use nebula_control_plane.Net.Prefix.{Prefix}
use nebula_control_plane.Netblock.Types.{Error, Result}
use nebula_control_plane.Netblock.Resolve.{Resolved}

pub record Device : Type 0 where
  pub id : ℕ
  pub name : String
  pub created_at : ℕ

-- `stateAllocated`, `stateQuarantined`.
pub data State : Type 0 where
  allocated quarantined : State

pub record Allocation : Type 0 where
  pub id : ℕ
  pub ip : ℕ
  pub device_id : ℕ
  pub state : State
  pub allocated_at : ℕ
  pub released_at : ℕ
  pub quarantine_until : ℕ
  pub netblock_id : ℕ
  pub method : String

pub record Db : Type 0 where
  pub devices : List Device
  pub allocations : List Allocation
  pub next_id : ℕ

-- The sentinel errors, a block that does not resolve and why, and a failing database.
pub data LeaseError : Type 0 where
  pool_exhausted contended unknown_sub_range out_of_pool addr_taken not_allocated failed :
      LeaseError
  unresolved : Error → LeaseError

pub data Outcome {ℓ} (A : Type ℓ) : Type ℓ where
  done : A → Outcome A
  refused : LeaseError → Outcome A

pub record Pool : Type 0 where
  pub prefix : Prefix
  pub sub_ranges : List (String × Prefix)
  pub reserved : List ℕ
  pub quarantine_ttl : ℕ

-- `IDResolver`, `NetblockResolver.Carves` and `NetblockGrower` over the state of a resolver that has
-- them all, as *netblock.Registry has.
pub record Resolver {ℓ} (R : Type ℓ) : Type ℓ where
  pub resolve_full : R → String → Result Resolved
  pub carves : R → Result (List Prefix)
  pub grow : R → String → String → R × Result Prefix

-- The time of a call, and whether the database answers its reads and carries out its writes.
pub record Call : Type 0 where
  pub now : ℕ
  pub reads : Bool
  pub writes : Bool

abbrev pub max_alloc_attempts : ℕ
max_alloc_attempts = 100

abbrev pub allocated? : State → Bool
allocated? allocated = true
allocated? quarantined = false

abbrev pub quarantined? : State → Bool
quarantined? allocated = false
quarantined? quarantined = true

-- The `WHERE` clauses.
abbrev pub has_ip : ℕ → Allocation → Bool
has_ip a l = l.ip == a

abbrev pub is_allocated : ℕ → Allocation → Bool
is_allocated a l = (l.ip == a) && allocated? l.state
