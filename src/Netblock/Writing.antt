-- ===== src/Netblock/Writing.antt =====
-- internal/netblock/netblock.go: `Add`, `Seed`, `Update` and `Remove`, and the invariant of the table.
use nebula_control_plane.Prelude.{
  ℕ, ◌≤◌, ◌≡◌, refl, String, Bool, true, false, ◌||◌, not, none, arith, ◌==◌, count, find, All,
  count-find, Bool-cases, Option-cases, inl, inr, str_eq,
}
use nebula_control_plane.Net.Prefix.{Prefix, masked, zero_prefix}
use nebula_control_plane.Net.Overlap.{Inside, masked_valid, masked_twice}
use nebula_control_plane.Netblock.Types.{
  Kind, Result, ok, err, Netblock, prefix, Db, Env, is_named, has_name, named, default_name,
  central_name,
}
use nebula_control_plane.Netblock.Registry.{
  get, validate_cidr, check_no_stranded, new_row, insert, add, seed, set_cidr, changed_row,
  update_valid, update_found, update_block, remove, remove_found,
}
use nebula_control_plane.Netblock.Apart.{Free, unclashed-Free}
use nebula_control_plane.Netblock.Carved.{
  validate_cidr-IsValidated, IsCarved, same_rows, insert-IsCarved, update-IsCarved, keep-IsCarved,
  if_keeps,
}

module _ (env : Env) (db : Db) (h : IsCarved env.pool db) where
  validated_row :
      (cidr : Prefix) (exclude : String)
      → validate_cidr env db cidr exclude ≡ none
      → ((masked cidr).bits ≤ 32)
        × Inside (masked cidr) env.pool
        × All (Free (masked cidr) exclude) db.rows
  validated_row cidr exclude e =
      let ok_range = validate_cidr-IsValidated env db cidr exclude e in
      (
        rw (masked_valid cidr ok_range.valid) ok_range.valid,
        ok_range.inside,
        unclashed-Free env.pool (masked cidr) exclude db.rows h.rows_valid ok_range.unclashed,
      )

  new_row-IsCarved :
      (name : String) (cidr : Prefix) (kind : Kind) (description : String) (guard : Bool) (now : ℕ)
      (actor : String)
      → str_eq name "" ≡ false
      → validate_cidr env db cidr "" ≡ none
      → count (has_name name) db.rows ≡ 0
      → IsCarved env.pool (insert (new_row db name cidr kind description guard now actor) db)
  new_row-IsCarved name cidr kind description guard now actor called e fresh =
      let (v, inside, free) = validated_row cidr "" e in
      let twice = masked_twice cidr (validate_cidr-IsValidated env db cidr "" e).valid in
      insert-IsCarved env.pool db (new_row db name cidr kind description guard now actor)
        (record { is_called = called; valid = rw twice v; inside = rw twice inside }) fresh
        (rw twice free) h

  pub add-IsCarved :
      (name : String) (cidr : Prefix) (description actor : String) (now : ℕ)
      → IsCarved env.pool (add env db name cidr description actor now).0
  unfolding add
  add-IsCarved name cidr description actor now = elim (Bool-cases (str_eq name "")) [
    | inl a ↦ rw a h
    | inr a ↦ elim (Bool-cases (str_eq name central_name || str_eq name default_name)) [
      | inl b ↦ rw (a, b) h
      | inr b ↦ elim (Option-cases (validate_cidr env db cidr "")) [
        | inr (x, c) ↦ rw (a, b, c) h
        | inl c ↦ elim (Bool-cases env.writes) [
          | inr d ↦ rw (a, b, c, d) h
          | inl d ↦ elim (Bool-cases (count (has_name name) db.rows == 0)) [
            | inr k ↦ rw (a, b, c, d, k) h
            | inl k ↦
                let fresh : count (has_name name) db.rows ≡ 0 = ground arith in
                rw (a, b, c, d, k)
                  (new_row-IsCarved name cidr named description false now actor a c fresh)
          ]
        ]
      ]
    ]
  ]

  pub seed-IsCarved :
      (name : String) (cidr : Prefix) (kind : Kind) (description actor : String) (now : ℕ)
      → IsCarved env.pool (seed env db name cidr kind description actor now).0
  unfolding seed
  seed-IsCarved name cidr kind description actor now = elim (Bool-cases (str_eq name "")) [
    | inl a ↦ rw a h
    | inr a ↦ elim (Bool-cases (is_named kind)) [
      | inl b ↦ rw (a, b) h
      | inr b ↦ elim (Bool-cases env.reads) [
        | inr c ↦ rw (a, b, c) h
        | inl c ↦ elim (Option-cases (find (has_name name) db.rows)) [
          | inr (n, d) ↦ rw (a, b, c, d) h
          | inl d ↦ elim (Option-cases (validate_cidr env db cidr "")) [
            | inr (x, k) ↦ rw (a, b, c, d, k) h
            | inl k ↦ elim (Bool-cases env.writes) [
              | inr l ↦ rw (a, b, c, d, k, l) h
              | inl l ↦
                  let fresh : count (has_name name) db.rows ≡ 0 =
                    ground (arith, count-find (has_name name) db.rows d) in
                  let row = new_row-IsCarved name cidr kind description true now actor a k fresh in
                  rw (a, b, c, d, k, l) (same_rows env.pool _ _ refl row)
            ]
          ]
        ]
      ]
    ]
  ]

  update_valid-IsCarved :
      (n : Netblock) (p : Prefix) (description : String)
      → masked p ≡ p
      → p.bits ≤ 32
      → Inside p env.pool
      → All (Free p n.name) db.rows
      → IsCarved env.pool (update_valid env db n p description none).0
  update_valid-IsCarved n p description whole v inside free =
      elim (Option-cases (check_no_stranded env.live (prefix n) p)) [
        | inr (x, a) ↦ rw a h
        | inl a ↦ elim (Bool-cases env.writes) [
          | inr b ↦ rw (a, b) h
          | inl b ↦
              elim (Bool-cases
                ((set_cidr n.name (prefix n) (changed_row p description) db).1 == 0)) [
                  | inl c ↦ rw (a, b, c) h
                  | inr c ↦
                      rw (a, b, c)
                        (update-IsCarved env.pool db n.name (prefix n) p (changed_row p description)
                          (λ m. refl) (λ m. whole) v inside free h)
                ]
        ]
      ]

  update_found-IsCarved :
      (cidr : Prefix) (description : String) (r : Result Netblock)
      → IsCarved env.pool (update_found env db cidr description r).0
  update_found-IsCarved cidr description (err x) = h
  update_found-IsCarved cidr description (ok n) =
      if_keeps env.pool n.is_protected _ _ h
        (elim (Option-cases (validate_cidr env db cidr n.name)) [
          | inr (x, b) ↦ rw b h
          | inl b ↦
              let (v, inside, free) = validated_row cidr n.name b in
              let twice =
                masked_twice cidr (validate_cidr-IsValidated env db cidr n.name b).valid in
              rw b (update_valid-IsCarved n (masked cidr) description twice v inside free)
        ])

  remove_found-IsCarved :
      (name : String) (r : Result Netblock) → IsCarved env.pool (remove_found env db name r).0
  remove_found-IsCarved name (err x) = h
  remove_found-IsCarved name (ok n) =
      if_keeps env.pool n.is_protected _ _ h
        (elim (Option-cases (check_no_stranded env.live (prefix n) zero_prefix)) [
          | inr (x, b) ↦ rw b h
          | inl b ↦ rw b (
              if_keeps env.pool env.writes _ _
                (keep-IsCarved env.pool db (λ m. not (has_name name m)) h) h)
        ])

  pub update_block-IsCarved :
      (name : String) (cidr : Prefix) (description : String)
      → IsCarved env.pool (update_block env db name cidr description).0
  unfolding update_block
  update_block-IsCarved name cidr description =
      update_found-IsCarved cidr description (get env db name)

  pub remove-IsCarved : (name : String) → IsCarved env.pool (remove env db name).0
  unfolding remove
  remove-IsCarved name = remove_found-IsCarved name (get env db name)
