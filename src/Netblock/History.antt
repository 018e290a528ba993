-- ===== src/Netblock/History.antt =====
-- internal/netblock/netblock.go: sequences of calls, and the addresses of the blocks that they leave.
use nebula_control_plane.Prelude.{ℕ, ◌≤◌, String, Bool, List, [], count, All, All-map}
use nebula_control_plane.Net.Prefix.{Prefix, contains}
use nebula_control_plane.Net.Overlap.{Inside}
use nebula_control_plane.Net.Slots.{IsPool}
use nebula_control_plane.Netblock.Types.{Kind, AuditEvent, prefix, Db, Live, Env}
use nebula_control_plane.Netblock.Registry.{add, seed, update_block, remove, grow}
use nebula_control_plane.Netblock.Apart.{Apart-count}
use nebula_control_plane.Netblock.Carved.{IsCarved}
use nebula_control_plane.Netblock.Writing.{
  add-IsCarved, seed-IsCarved, update_block-IsCarved, remove-IsCarved,
}
use nebula_control_plane.Netblock.Growing.{grow-IsCarved}

module _ (pool : Prefix) (reserved : List ℕ) where
  -- What one call sees: the live addresses, and how the database answers it.
  abbrev pub call_env : Live → Bool → Bool → Env
  call_env live reads writes = record {
    pool = pool;
    reserved = reserved;
    live = live;
    reads = reads;
    writes = writes;
  }

  -- One call that runs alone, whatever it is given and whatever the database answers.
  pub data Step (db : Db) : Db → Type 0 where
    added :
        (live : Live) (reads writes : Bool) (name : String) (cidr : Prefix)
        (description actor : String) (now : ℕ)
        → Step db (add (call_env live reads writes) db name cidr description actor now).0
    seeding :
        (live : Live) (reads writes : Bool) (name : String) (cidr : Prefix) (kind : Kind)
        (description actor : String) (now : ℕ)
        → Step db (seed (call_env live reads writes) db name cidr kind description actor now).0
    updated :
        (live : Live) (reads writes : Bool) (name : String) (cidr : Prefix) (description : String)
        → Step db (update_block (call_env live reads writes) db name cidr description).0
    removed :
        (live : Live) (reads writes : Bool) (name : String)
        → Step db (remove (call_env live reads writes) db name).0
    grown :
        (live : Live) (reads writes : Bool) (name actor : String)
        → Step db (grow (call_env live reads writes) db name actor).0

  -- The tables that calls lead to from an empty one.
  pub data Reached : Db → Type 0 where
    empty_table :
        (next_id : ℕ) (log : List AuditEvent)
        → Reached (record { rows = []; next_id = next_id; log = log })
    called : {db db' : Db} → Reached db → Step db db' → Reached db'

  module _ (whole : IsPool pool) where
    Step-IsCarved : (db db' : Db) → Step db db' → IsCarved pool db → IsCarved pool db'
    Step-IsCarved db _ (added l r w name cidr d a now) h =
        add-IsCarved (call_env l r w) db h name cidr d a now
    Step-IsCarved db _ (seeding l r w name cidr k d a now) h =
        seed-IsCarved (call_env l r w) db h name cidr k d a now
    Step-IsCarved db _ (updated l r w name cidr d) h =
        update_block-IsCarved (call_env l r w) db h name cidr d
    Step-IsCarved db _ (removed l r w name) h = remove-IsCarved (call_env l r w) db h name
    Step-IsCarved db _ (grown l r w name a) h = grow-IsCarved (call_env l r w) db h name a whole

    pub Reached-IsCarved : (db : Db) → Reached db → IsCarved pool db
    Reached-IsCarved _ (empty_table n log) = record { rows_valid = tt; apart = tt }
    Reached-IsCarved _ (called {db} {db'} r s) = Step-IsCarved db db' s (Reached-IsCarved db r)

    -- For a pool that is cut off at its length, whatever calls of `Add`, `Seed`, `Update`, `Remove` and
    -- `Grow` were made, one after the other and with whatever arguments and failures: an address lies
    -- in at most one block, and every block lies in the pool.
    pub blocks_disjoint :
        (db : Db) (a : ℕ)
        → Reached db
        → (count (λ n. contains (prefix n) a) db.rows ≤ 1)
          × All (λ n. Inside (prefix n) pool) db.rows
    blocks_disjoint db a r =
        let h = Reached-IsCarved db r in
        (Apart-count db.rows a h.apart, All-map (λ n row. row.inside) db.rows h.rows_valid)
