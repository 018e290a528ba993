-- ===== src/Netblock/Types.antt =====
-- internal/netblock/netblock.go: the table netblocks. The text of a prefix is the prefix, and a time
-- a natural number; rows stand newest first.
use nebula_control_plane.Prelude.{ℕ, String, Bool, true, false, List, str_eq, ◌&&◌}
use nebula_control_plane.Net.Prefix.{Prefix, masked, same_prefix}

-- `KindReserved`, `KindDefault`, `KindNamed`.
pub data Kind : Type 0 where
  reserved default named : Kind

pub data Error : Type 0 where
  not_found exists no_name bad_cidr out_of_pool overlap protected_block stranded pool_full : Error
  bad_prefix_len reserved_kind bad_kind db_error : Error

pub data Result {ℓ} (A : Type ℓ) : Type ℓ where
  ok : A → Result A
  err : Error → Result A

pub record Netblock : Type 0 where
  pub id : ℕ
  pub name : String
  pub cidr : Prefix
  pub kind : Kind
  pub description : String
  pub is_protected : Bool
  pub created_at : ℕ
  pub created_by : String

-- `Netblock.Prefix`.
abbrev pub prefix : Netblock → Prefix
prefix n = masked n.cidr

-- The calls of the audit hook: the actor, the block and its prefix.
pub data AuditEvent : Type 0 where
  seeded autogrown : String → String → Prefix → AuditEvent

pub record Db : Type 0 where
  pub rows : List Netblock
  pub next_id : ℕ
  pub log : List AuditEvent

-- The live addresses: nobody is asked, they cannot be read, or they are these.
pub data Live : Type 0 where
  unwired unread : Live
  live_addrs : List ℕ → Live

-- What a `Registry` is made over, and whether the database answers the reads of a call and carries
-- out its write.
pub record Env : Type 0 where
  pub pool : Prefix
  pub reserved : List ℕ
  pub live : Live
  pub reads : Bool
  pub writes : Bool

abbrev pub central_name : String
central_name = "central"

abbrev pub default_name : String
default_name = "default"

abbrev pub is_named : Kind → Bool
is_named reserved = false
is_named default = false
is_named named = true

abbrev pub reserved_kind? : Kind → Bool
reserved_kind? reserved = true
reserved_kind? default = false
reserved_kind? named = false

abbrev pub is_default : Kind → Bool
is_default reserved = false
is_default default = true
is_default named = false

-- The `WHERE` clauses.
abbrev pub has_name : String → Netblock → Bool
has_name name n = str_eq n.name name

abbrev pub has_cidr : String → Prefix → Netblock → Bool
has_cidr name p n = str_eq n.name name && same_prefix n.cidr p
