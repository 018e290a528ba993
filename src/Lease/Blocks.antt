-- ===== src/Lease/Blocks.antt =====
-- internal/netblock/netblock.go: the ranges that ResolveFull and Grow return are blocks.
use nebula_control_plane.Prelude.{
  ℕ, ◌≤◌, ◌<◌, ◌≡◌, refl, ap, String, Bool, true, false, ◌||◌, not, List, some, arith,
  if◌then◌else◌, ltb, ◌==◌, Bool-cases, Option-cases, inl, inr, count, find, find-count, All-find,
  count_mono, count-update_some, str_eq,
}
use nebula_control_plane.Net.Prefix.{
  Prefix, masked, contains, same_prefix, parent, prefix_inside, buddy_of,
}
use nebula_control_plane.Net.Overlap.{masked_twice}
use nebula_control_plane.Netblock.Types.{
  Result, ok, err, Netblock, prefix, Live, Env, is_named, has_name, has_cidr, db_error,
  default_name, not_found,
}
use nebula_control_plane.Netblock.Types
use nebula_control_plane.Netblock.Registry.{get, grow, grow_found, grow_free, range_free}
use nebula_control_plane.Netblock.Resolve.{Resolved, resolved, resolve_full, or_default, listed}
use nebula_control_plane.Netblock.Apart.{IsRow}
use nebula_control_plane.Netblock.Carved.{IsCarved}
use nebula_control_plane.Netblock.Growing.{get-found}

-- Some block has this very prefix.
abbrev pub HasBlock : List Netblock → Prefix → Type 0
HasBlock rows p = (count (λ n. same_prefix (prefix n) p) rows == 0) ≡ false

same_prefix_refl : (p : Prefix) → same_prefix p p ≡ true
same_prefix_refl p = ground arith

pub resolve_full-HasBlock :
    (rows : List Netblock) (name : String) (res : Resolved)
    → resolve_full rows name ≡ ok res
    → HasBlock rows res.cidr
unfolding resolve_full
resolve_full-HasBlock rows name res e = chosen (if str_eq name "" then default_name else name) e
  where
    found :
        (wanted : String) (n : Netblock)
        → find (listed wanted) rows ≡ some n
        → ok (resolved n) ≡ ok res
        → HasBlock rows res.cidr
    found wanted n f k =
        let whole : resolved n ≡ res = cc k in
        let same : prefix n ≡ res.cidr = ap (λ (t : Resolved). t.cidr) whole in
        rw (← same) (
          find-count (listed wanted) (λ m. same_prefix (prefix m) (prefix n)) rows n f
            (same_prefix_refl (prefix n)))

    chosen :
        (wanted : String)
        → or_default rows wanted (find (listed wanted) rows) ≡ ok res
        → HasBlock rows res.cidr
    chosen wanted k = elim (Option-cases (find (listed wanted) rows)) [
      | inr (n, f) ↦ found wanted n f (rw f at k)
      | inl f ↦ elim (Bool-cases (str_eq wanted default_name)) [
        | inl d ↦ absurd (cc (rw (f, d) at k))
        | inr d ↦ elim (Option-cases (find (listed default_name) rows)) [
          | inl g ↦ absurd (cc (rw (f, d, g) at k))
          | inr (n, g) ↦ found default_name n g (rw (f, d, g) at k)
        ]
      ]
    ]

same_contains :
    (a : ℕ) (p q : Prefix) → contains q a ≡ true → same_prefix p q ≡ true → contains p a ≡ true
unfolding contains
same_contains a p q c s =
    let bits : p.bits ≡ q.bits = ground arith in
    let addr : p.addr ≡ q.addr = ground arith in rw (bits, addr) c

-- Where a range is a block, an address of it is in a block.
pub within_block :
    (cidr : Prefix) (a : ℕ) (rows : List Netblock)
    → HasBlock rows cidr
    → contains cidr a ≡ true
    → 0 < count (λ n. contains (prefix n) a) rows
within_block cidr a rows h c =
    let least =
      count_mono (λ (n : Netblock). same_prefix (prefix n) cidr)
        (λ (n : Netblock). contains (prefix n) a) (λ n s. same_contains a (prefix n) cidr c s)
        rows in
    ground arith

-- A range that an operation returns is a block of the table that it leaves.
abbrev Has : Types.Db × Result Prefix → Type 0
Has (db, ok p) = HasBlock db.rows p
Has (db, err e) = Unit {0}

if_Has : (c : Bool) (x y : Types.Db × Result Prefix) → Has x → Has y → Has (if c then x else y)
if_Has true x y h k = h
if_Has false x y h k = k

Has-ok :
    (db : Types.Db) (r : Result Prefix) (p : Prefix) → Has (db, r) → r ≡ ok p → HasBlock db.rows p
Has-ok db (ok q) p h e = let same : q ≡ p = cc e in rw (← same) h
Has-ok db (err x) p h e = absurd (cc e)

module _ (env : Env) (db : Types.Db) where
  grow_free-Has :
      (n : Netblock) (cur next : Prefix) (actor : String) (r : Result Bool)
      → masked next ≡ next
      → Has (grow_free env db n cur next actor r)
  grow_free-Has n cur next actor (err x) whole = tt
  grow_free-Has n cur next actor (ok false) whole = tt
  grow_free-Has n cur next actor (ok true) whole =
      if_Has (not env.writes) _ _ tt (elim (Bool-cases (count (has_cidr n.name cur) db.rows == 0)) [
        | inl b ↦ rw b tt
        | inr b ↦
            let here : Netblock → Bool = λ m. same_prefix (prefix m) next in
            let moves : same_prefix (masked next) next ≡ true = rw whole (same_prefix_refl next) in
            let kept =
              count-update_some (has_cidr n.name cur) here
                (λ (m : Netblock). record m { cidr = next }) (λ m h. moves) db.rows in
            rw b (ground arith)
      ])

  grow_found-Has :
      (actor : String) (r : Result Netblock)
      → ((n : Netblock) → r ≡ ok n → (prefix n).bits ≤ 32)
      → Has (grow_found env db actor r)
  grow_found-Has actor (err x) valid = tt
  grow_found-Has actor (ok n) valid =
      let v = valid n refl in
      let whole : masked (parent (prefix n)) ≡ parent (prefix n) =
        masked_twice _ (omega (arith, v)) in
      if_Has (not (is_named n.kind)) _ _ tt (
        if_Has ((prefix n).bits == 0) _ _ tt (
          if_Has (not ((parent (prefix n)).addr == (prefix n).addr)) _ _ tt (
            if_Has
              (ltb (parent (prefix n)).bits env.pool.bits
                || not (prefix_inside (parent (prefix n)) env.pool))
              _ _ tt
              (grow_free-Has n (prefix n) (parent (prefix n)) actor
                (range_free env db (buddy_of (prefix n)) n.name) whole))))

  pub grow-HasBlock :
      (name actor : String) (p : Prefix)
      → IsCarved env.pool db
      → (grow env db name actor).1 ≡ ok p
      → HasBlock (grow env db name actor).0.rows p
  unfolding grow
  grow-HasBlock name actor p h e =
      Has-ok (grow env db name actor).0 _ p
        (grow_found-Has actor (get env db name) (λ n f.
          (All-find (IsRow env.pool) (has_name name) db.rows n h.rows_valid
            (get-found env db h name n f)).0.valid))
        e
