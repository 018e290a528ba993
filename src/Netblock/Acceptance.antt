-- ===== src/Netblock/Acceptance.antt =====
-- internal/netblock/netblock.go: `Suggest` and `Add` together.
use nebula_control_plane.Prelude.{
  ℕ, ◌≤◌, ◌≡◌, refl, String, Bool, true, false, ◌&&◌, ◌||◌, not, List, [], ◌∷◌, arith,
  if◌then◌else◌, ◌==◌, count, keep, inl, inr, Bool-cases, str_eq, none, subst,
}
use nebula_control_plane.Net.Prefix.{Prefix, is_valid, contains, overlaps}
use nebula_control_plane.Net.Overlap.{prefix_inside-Inside}
use nebula_control_plane.Net.Slots.{IsPool, IsPool-masked}
use nebula_control_plane.Netblock.Types.{
  named, ok, Netblock, prefix, Db, Env, central_name, default_name, has_name,
}
use nebula_control_plane.Netblock.Registry.{clashes, validate_cidr, new_row, add}
use nebula_control_plane.Netblock.Resolve.{all_carves}
use nebula_control_plane.Netblock.Suggest.{range_clear, suggest}
use nebula_control_plane.Netblock.Placement.{IsPlace, suggest-Exact}

neither : (c : Bool) (x y : ℕ) → y ≡ 0 → (if c && false then x else y) ≡ 0
neither true x y e = e
neither false x y e = e

-- A range that none of the prefixes overlaps clashes with no row.
unclashed :
    (p : Prefix) (rows : List Netblock)
    → count (λ c. is_valid c && overlaps p c) (all_carves rows) ≡ 0
    → count (clashes p "") rows ≡ 0
unfolding count all_carves keep
unclashed p [] e = refl
unclashed p (n ∷ rows) e = elim (Bool-cases (is_valid (prefix n))) [
  | inr v ↦ rw v (neither (not (str_eq n.name "")) _ _ (unclashed p rows (rw v at e)))
  | inl v ↦ elim (Bool-cases (overlaps p (prefix n))) [
    | inl o ↦ absurd (omega (arith, rw (v, v, o) at e))
    | inr o ↦
        rw (v, o) (neither (not (str_eq n.name "")) _ _ (unclashed p rows (rw (v, v, o) at e)))
  ]
]

module _ (env : Env) (db : Db) (whole : IsPool env.pool) (reads : env.reads ≡ true) where
  IsPlace-validate_cidr :
      (bits : ℕ) (p : Prefix)
      → bits ≤ 32
      → IsPlace env.reserved (all_carves db.rows) env.pool bits p
      → validate_cidr env db p "" ≡ none
  unfolding validate_cidr range_clear
  IsPlace-validate_cidr bits p hi (same, cut_off, inside, clear) =
      let v : p.bits ≤ 32 = rw same hi in
      let valid : is_valid p ≡ true = ground arith in
      let within = (prefix_inside-Inside p env.pool v).1 inside in
      let unreserved : (count (contains p) env.reserved == 0) ≡ true = ground arith in
      let free : count (clashes p "") db.rows ≡ 0 = unclashed p db.rows (ground arith) in
      rw (cut_off, valid, within, unreserved, reads, free) refl

  -- Where the database answers, the pool is cut off at its length and what the registry has read of the
  -- table is still current: a range that `Suggest` proposes for a length between the pool's and 32
  -- is accepted by the next `Add`, for any name that is not empty, not central or default, and not
  -- taken.
  pub suggested_accepted :
      (snapshot : List Netblock) (bits : ℕ) (p : Prefix) (name description actor : String) (now : ℕ)
      → snapshot ≡ db.rows
      → env.pool.bits ≤ bits
      → bits ≤ 32
      → suggest env.reserved (all_carves snapshot) bits env.pool ≡ ok p
      → str_eq name "" ≡ false
      → (str_eq name central_name || str_eq name default_name) ≡ false
      → count (has_name name) db.rows ≡ 0
      → env.writes ≡ true
      → (add env db name p description actor now).1
        ≡ ok (new_row db name p named description false now actor)
  unfolding add
  suggested_accepted snapshot bits p name description actor now current lo hi suggested a b fresh
        w =
      let e = rw current at suggested in
      elim (suggest-Exact env.reserved (all_carves db.rows) env.pool bits whole.bits-le
        whole.addr-lt lo hi) [
          | inr (full, none_fits) ↦ absurd (cc (full, e))
          | inl (q, f, place) ↦
              let same : q ≡ p = cc (f, e) in
              let place' = rw (IsPool-masked env.pool whole) at place in
              let c =
                IsPlace-validate_cidr bits p hi
                  (subst (IsPlace env.reserved (all_carves db.rows) env.pool bits) same place') in
              rw (a, b, c, w, fresh) refl
        ]
