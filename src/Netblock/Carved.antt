-- ===== src/Netblock/Carved.antt =====
-- internal/netblock/netblock.go: the invariant of the table, and the writes that keep it.
use nebula_control_plane.Prelude.{
  ◌≤◌, ◌≡◌, String, Bool, true, false, none, arith, if◌then◌else◌, ◌==◌, count, keep, All, All-map,
  All-both, count_zero-All, All-update, All-keep, Bool-cases, inl, inr, str_eq,
}
use nebula_control_plane.Net.Prefix.{Prefix, is_valid, masked, contains, prefix_inside}
use nebula_control_plane.Net.Overlap.{Inside, masked_valid, prefix_inside-Inside}
use nebula_control_plane.Netblock.Types.{Netblock, prefix, Db, Env, has_name, has_cidr}
use nebula_control_plane.Netblock.Registry.{clashes, validate_cidr, insert, set_cidr}
use nebula_control_plane.Netblock.Apart.{Apart, IsRow, Free, update-Apart, keep-Apart}

-- What a range that passed `validateCIDR` satisfies.
pub record IsValidated (env : Env) (db : Db) (cidr : Prefix) (exclude : String) : Type 0 where
  pub valid : cidr.bits ≤ 32
  pub inside : Inside (masked cidr) env.pool
  pub unclashed : (count (clashes (masked cidr) exclude) db.rows == 0) ≡ true

pub validate_cidr-IsValidated :
    (env : Env) (db : Db) (cidr : Prefix) (exclude : String)
    → validate_cidr env db cidr exclude ≡ none
    → IsValidated env db cidr exclude
unfolding validate_cidr
validate_cidr-IsValidated env db cidr exclude e = elim (Bool-cases (is_valid cidr)) [
  | inr a ↦ absurd (cc (rw a at e))
  | inl a ↦ elim (Bool-cases (prefix_inside (masked cidr) env.pool)) [
    | inr b ↦ absurd (cc (rw (a, b) at e))
    | inl b ↦ elim (Bool-cases (count (contains (masked cidr)) env.reserved == 0)) [
      | inr c ↦ absurd (cc (rw (a, b, c) at e))
      | inl c ↦ elim (Bool-cases env.reads) [
        | inr d ↦ absurd (cc (rw (a, b, c, d) at e))
        | inl d ↦ elim (Bool-cases (count (clashes (masked cidr) exclude) db.rows == 0)) [
          | inr k ↦ absurd (cc (rw (a, b, c, d, k) at e))
          | inl k ↦
              let v : cidr.bits ≤ 32 = ground arith in
              record {
                valid = v;
                inside =
                    (prefix_inside-Inside (masked cidr) env.pool (rw (masked_valid cidr v) v)).0 b;
                unclashed = k;
              }
        ]
      ]
    ]
  ]
]

module _ (pool : Prefix) where
  -- The invariant of the table.
  pub record IsCarved (db : Db) : Type 0 where
    pub rows_valid : All (IsRow pool) db.rows
    pub apart : Apart db.rows

  pub same_rows : (db db' : Db) → db'.rows ≡ db.rows → IsCarved db → IsCarved db'
  same_rows db db' e h = record { rows_valid = rw e h.rows_valid; apart = rw e h.apart }

  -- A block of a new name on a range that no block overlaps.
  pub insert-IsCarved :
      (db : Db) (n : Netblock)
      → IsRow pool n
      → count (has_name n.name) db.rows ≡ 0
      → All (Free (prefix n) "") db.rows
      → IsCarved db
      → IsCarved (insert n db)
  insert-IsCarved db n row fresh free h = record {
    rows_valid = (row, h.rows_valid);
    apart = (
      All-both {Q = λ m. (str_eq m.name n.name ≡ false) × (str_eq m.name "" ≡ false)}
          (λ m f g. (g.0, f g.1)) db.rows free
          (All-both (λ m f r. (f, r.is_called)) db.rows
            (count_zero-All (has_name n.name) db.rows fresh) h.rows_valid),
      h.apart,
    );
  }

  -- A guarded `UPDATE` of one block to a range in the pool that every other block is apart from.
  pub update-IsCarved :
      (db : Db) (name : String) (old p : Prefix) (f : Netblock → Netblock)
      → ((n : Netblock) → (f n).name ≡ n.name)
      → ((n : Netblock) → prefix (f n) ≡ p)
      → p.bits ≤ 32
      → Inside p pool
      → All (Free p name) db.rows
      → IsCarved db
      → IsCarved (set_cidr name old f db).0
  update-IsCarved db name old p f same_name placed v inside free h = record {
    rows_valid = All-update (IsRow pool) (has_cidr name old) f db.rows (
        All-map
          (λ m r. elim (Bool-cases (has_cidr name old m)) [
            | inl t ↦ rw t (record {
              is_called = rw (same_name m) r.is_called;
              valid = rw (placed m) v;
              inside = rw (placed m) inside;
            })
            | inr t ↦ rw t r
          ])
          db.rows h.rows_valid);
    apart = update-Apart name old p f same_name placed db.rows free h.apart;
  }

  pub keep-IsCarved :
      (db : Db) (q : Netblock → Bool) → IsCarved db → IsCarved (record db { rows = keep q db.rows })
  keep-IsCarved db q h = record {
    rows_valid = All-keep (IsRow pool) q db.rows h.rows_valid;
    apart = keep-Apart q db.rows h.apart;
  }

  -- A test between two outcomes that keep the blocks apart.
  pub if_keeps {ℓ} :
      {A : Type ℓ} (c : Bool) (x y : Db × A)
      → IsCarved x.0
      → IsCarved y.0
      → IsCarved (if c then x else y).0
  if_keeps true x y h k = h
  if_keeps false x y h k = k
