-- ===== src/Netblock/Growing.antt =====
-- internal/netblock/netblock.go, `Grow`: a block that doubles, and the other blocks.
use nebula_control_plane.Prelude.{
  ◌-◌, ◌≤◌, ◌<◌, ◌≡◌, refl, String, Bool, true, false, ◌||◌, not, some, arith, ltb, ◌==◌, count,
  find, All, All-both, All-find, Bool-cases, Option-cases, inl, inr,
}
use nebula_control_plane.Net.Prefix.{
  Prefix, is_valid, masked, contains, overlaps, prefix_inside, buddy_of, parent,
}
use nebula_control_plane.Net.Overlap.{Inside, masked_valid, masked_twice, prefix_inside-Inside}
use nebula_control_plane.Netblock.Types.{
  Result, ok, err, Netblock, prefix, Db, Env, is_named, has_name, has_cidr,
}
use nebula_control_plane.Netblock.Registry.{get, clashes, range_free, grow, grow_free, grow_found}
use nebula_control_plane.Netblock.Apart.{IsRow, Free, unclashed-Free, Apart-Free}
use nebula_control_plane.Netblock.Carved.{IsCarved, same_rows, update-IsCarved, if_keeps}
use nebula_control_plane.Net.Slots.{IsPool, Inside-IsPool}
use nebula_control_plane.Net.Buddy.{buddy_covers}

within : (c d : Bool) → (c || not d) ≡ false → d ≡ true
within c d e = ground arith

masked_bits : (p : Prefix) → (masked p).bits ≤ 32 → p.bits ≤ 32
unfolding masked
masked_bits p v = elim (Bool-cases (is_valid p)) [
  | inl a ↦ ground arith
  | inr a ↦ absurd (omega (arith, rw a at v))
]

module _ (env : Env) (db : Db) (h : IsCarved env.pool db) where
  pub get-found :
      (name : String) (n : Netblock)
      → get env db name ≡ ok n
      → find (has_name name) db.rows ≡ some n
  unfolding get
  get-found name n e = elim (Bool-cases env.reads) [
    | inr a ↦ absurd (cc (rw a at e))
    | inl a ↦ elim (Option-cases (find (has_name name) db.rows)) [
      | inl b ↦ absurd (cc (rw (a, b) at e))
      | inr (m, b) ↦ cc (rw (a, b) at e)
    ]
  ]

  grow_free-IsCarved :
      (n : Netblock) (cur next : Prefix) (actor : String) (r : Result Bool)
      → masked next ≡ next
      → next.bits ≤ 32
      → Inside next env.pool
      → (r ≡ ok true → All (Free next n.name) db.rows)
      → IsCarved env.pool (grow_free env db n cur next actor r).0
  grow_free-IsCarved n cur next actor (err x) whole v inside free = h
  grow_free-IsCarved n cur next actor (ok false) whole v inside free = h
  grow_free-IsCarved n cur next actor (ok true) whole v inside free =
      let moved =
        update-IsCarved env.pool db n.name cur next (λ m. record m { cidr = next }) (λ m. refl)
          (λ m. whole) v inside (free refl) h in
      if_keeps env.pool (not env.writes) _ _ h (
        if_keeps env.pool (count (has_cidr n.name cur) db.rows == 0) _ _ h
          (same_rows env.pool _ _ refl moved))

  -- A range that `rangeFree` passes is apart from every other block.
  range_free-Free :
      (p : Prefix) (name : String) → range_free env db p name ≡ ok true → All (Free p name) db.rows
  unfolding range_free
  range_free-Free p name e = elim (Bool-cases (not (count (contains p) env.reserved == 0))) [
    | inl a ↦ absurd (cc (rw a at e))
    | inr a ↦ elim (Bool-cases env.reads) [
      | inr b ↦ absurd (cc (rw (a, b) at e))
      | inl b ↦ elim (Bool-cases (count (clashes p name) db.rows == 0)) [
        | inr c ↦ absurd (cc (rw (a, b, c) at e))
        | inl c ↦ unclashed-Free env.pool p name db.rows h.rows_valid c
      ]
    ]
  ]

  -- Where a lower half and its buddy are free of other blocks, so is the whole.
  parent-Free :
      (n : Netblock)
      → IsPool (prefix n)
      → 0 < (prefix n).bits
      → (parent (prefix n)).addr ≡ (prefix n).addr
      → All (Free (prefix n) n.name) db.rows
      → All (Free (buddy_of (prefix n)) n.name) db.rows
      → All (Free (parent (prefix n)) n.name) db.rows
  parent-Free n pool longer lower mine buddy =
      All-both
        (λ m f g k. elim (Bool-cases (overlaps (parent (prefix n)) (prefix m))) [
          | inr o ↦ o
          | inl o ↦ elim (buddy_covers (prefix n) pool longer lower (prefix m) o) [
            | inl c ↦ absurd (cc (f k, c))
            | inr c ↦ absurd (cc (g k, c))
          ]
        ])
        db.rows mine buddy

  row-IsPool : (n : Netblock) → IsPool env.pool → IsRow env.pool n → IsPool (prefix n)
  row-IsPool n pool r =
      let twice : masked (prefix n) ≡ prefix n = masked_twice n.cidr (masked_bits n.cidr r.valid) in
      rw twice at (Inside-IsPool (prefix n) env.pool pool r.inside)

  grow_found-IsCarved :
      (actor : String) (r : Result Netblock)
      → IsPool env.pool
      → ((n : Netblock) → r ≡ ok n → IsRow env.pool n × All (Free (prefix n) n.name) db.rows)
      → IsCarved env.pool (grow_found env db actor r).0
  grow_found-IsCarved actor (err x) pool found = h
  grow_found-IsCarved actor (ok n) pool found =
      let (row, mine) = found n refl in
      let whole = row-IsPool n pool row in
      if_keeps env.pool (not (is_named n.kind)) _ _ h (elim (Bool-cases ((prefix n).bits == 0)) [
        | inl a ↦ rw a h
        | inr a ↦ elim (Bool-cases ((parent (prefix n)).addr == (prefix n).addr)) [
          | inr b ↦ rw (a, b) h
          | inl b ↦
              elim (Bool-cases (
                ltb (parent (prefix n)).bits env.pool.bits
                || not (prefix_inside (parent (prefix n)) env.pool))) [
                  | inl c ↦ rw (a, b, c) h
                  | inr c ↦
                      let longer : 0 < (prefix n).bits = ground arith in
                      let lower : (parent (prefix n)).addr ≡ (prefix n).addr = ground arith in
                      let fine : (prefix n).bits - 1 ≤ 32 = omega (arith, whole.bits-le) in
                      let v : (parent (prefix n)).bits ≤ 32 =
                        rw
                          (masked_valid
                            (record { addr = (prefix n).addr; bits = (prefix n).bits - 1 }) fine)
                          fine in
                      let inside =
                        (prefix_inside-Inside (parent (prefix n)) env.pool v).0
                          (within (ltb (parent (prefix n)).bits env.pool.bits) _ c) in
                      let twice : masked (parent (prefix n)) ≡ parent (prefix n) =
                        masked_twice _ fine in
                      rw (a, b, c)
                        (grow_free-IsCarved n (prefix n) (parent (prefix n)) actor
                          (range_free env db (buddy_of (prefix n)) n.name) twice v inside
                          (λ e.
                            parent-Free n whole longer lower mine
                              (range_free-Free (buddy_of (prefix n)) n.name e)))
                ]
        ]
      ])

  pub grow-IsCarved :
      (name actor : String) → IsPool env.pool → IsCarved env.pool (grow env db name actor).0
  unfolding grow
  grow-IsCarved name actor pool = grow_found-IsCarved actor (get env db name) pool (λ n e.
      let f = get-found name n e in
      (
        (All-find (IsRow env.pool) (has_name name) db.rows n h.rows_valid f).0,
        Apart-Free (has_name name) db.rows n h.apart f,
      ))
