-- ===== src/Netblock/Tests.antt =====
-- A pool of 65536 addresses with a block for web.
use nebula_control_plane.Prelude.{
  ℕ, ◌+◌, ◌≤◌, ◌≡◌, refl, true, false, [], ◌∷◌, arith, count, find, keep, All,
}
use nebula_control_plane.Net.Prefix.{
  Prefix, masked, contains, overlaps, prefix_inside, next_slot, slots_from, slots,
}
use nebula_control_plane.Net.Overlap.{Inside}
use nebula_control_plane.Net.Slots.{IsPool}
use nebula_control_plane.Netblock.Types.{named, ok, prefix, Db, Env, unwired, has_name}
use nebula_control_plane.Netblock.Registry.{validate_cidr, new_row, add}
use nebula_control_plane.Netblock.Resolve.{all_carves}
use nebula_control_plane.Netblock.Suggest.{range_clear, suggest}
use nebula_control_plane.Netblock.Placement.{Exact, suggest-Exact}
use nebula_control_plane.Netblock.History.{call_env, empty_table, called, added, blocks_disjoint}
use nebula_control_plane.Netblock.Acceptance.{suggested_accepted}

-- 10.42.0.0.
abbrev base : ℕ
base = 170524672

abbrev overlay : Prefix
overlay = record { addr = base; bits = 16 }

overlay-IsPool : IsPool overlay
overlay-IsPool = record { bits-le = omega arith; aligned = refl; addr-lt = omega arith }

abbrev env : Env
env = call_env overlay ((base + 1) ∷ []) unwired true true

abbrev start : Db
start = record { rows = []; next_id = 1; log = [] }

abbrev central_range : Prefix
central_range = record { addr = base; bits = 24 }

abbrev web_range : Prefix
web_range = record { addr = base + 512; bits = 29 }

abbrev carved : Db
carved = (add env start "web" web_range "" "admin" 100).0

blocks_disjoint_example :
    (count (λ n. contains (prefix n) (base + 513)) carved.rows ≤ 1)
    × All (λ n. Inside (prefix n) overlay) carved.rows
blocks_disjoint_example =
    blocks_disjoint overlay ((base + 1) ∷ []) overlay-IsPool carved (base + 513)
      (called (empty_table 1 []) (added unwired true true "web" web_range "" "admin" 100))

has_web : carved.rows ≡ new_row start "web" web_range named "" false 100 "admin" ∷ []
unfolding add validate_cidr prefix_inside contains masked count
has_web = refl

-- The next free block goes to the next /24.
suggested :
    suggest env.reserved (all_carves carved.rows) 26 overlay
    ≡ ok (record { addr = base + 256; bits = 26 })
unfolding suggest all_carves add validate_cidr prefix_inside contains masked count find slots
    slots_from next_slot range_clear overlaps keep
suggested = refl

suggest-Exact_example :
    Exact env.reserved
      (all_carves carved.rows)
      (masked overlay)
      26
      (suggest env.reserved (all_carves carved.rows) 26 overlay)
suggest-Exact_example =
    suggest-Exact env.reserved (all_carves carved.rows) overlay 26 (omega arith) (omega arith)
      (omega arith) (omega arith)

not_taken : count (has_name "db") carved.rows ≡ 0
unfolding add validate_cidr prefix_inside contains masked count
not_taken = refl

suggested_accepted_example :
    (add env carved "db" (record { addr = base + 256; bits = 26 }) "" "admin" 200).1
    ≡ ok (new_row carved "db" (record { addr = base + 256; bits = 26 }) named "" false 200 "admin")
suggested_accepted_example =
    suggested_accepted env carved overlay-IsPool refl carved.rows 26
      (record { addr = base + 256; bits = 26 }) "db" "" "admin" 200 refl (omega arith) (omega arith)
      suggested refl refl not_taken refl
