-- ===== src/Netblock/Apart.antt =====
-- internal/netblock/netblock.go: blocks that share no address, and what keeps them so.
use nebula_control_plane.Prelude.{
  ℕ, ◌≤◌, ◌≡◌, refl, ◌∙◌, String, Bool, true, false, List, [], ◌∷◌, arith, if◌then◌else◌, ◌==◌,
  count, update, keep, find, All, All-find, some, subst, All-map, All-update, All-both, All-keep,
  All-count_zero, count_zero-All, Bool-cases, inl, inr, str_eq, eq_iff,
}
use nebula_control_plane.Net.Prefix.{Prefix, is_valid, contains, overlaps}
use nebula_control_plane.Net.Overlap.{Inside, overlaps_comm, apart_disjoint}
use nebula_control_plane.Netblock.Types.{Netblock, prefix, has_cidr}
use nebula_control_plane.Netblock.Registry.{clashes}

pub other_name : (s t : String) → str_eq s t ≡ false → str_eq t s ≡ false
other_name s t e = elim (Bool-cases (str_eq t s)) [
  | inl h ↦ absurd (ground (arith, eq_iff s t, eq_iff t s))
  | inr h ↦ h
]

abbrev pub Distinct : Netblock → Netblock → Type 0
Distinct n m = (str_eq m.name n.name ≡ false) × (overlaps (prefix n) (prefix m) ≡ false)

-- No two blocks share a name or an address.
abbrev pub Apart : List Netblock → Type 0
Apart [] = Unit {0}
Apart (n ∷ ns) = All (Distinct n) ns × Apart ns

module _ (pool : Prefix) where
  -- A row as the registry writes it: it has a name, and its prefix is valid and in the pool.
  pub record IsRow (n : Netblock) : Type 0 where
    pub is_called : str_eq n.name "" ≡ false
    pub valid : (prefix n).bits ≤ 32
    pub inside : Inside (prefix n) pool

-- Every block but the named one is apart from a range.
abbrev pub Free : Prefix → String → Netblock → Type 0
Free p name m = str_eq m.name name ≡ false → overlaps p (prefix m) ≡ false

pub unclashed-Free :
    (pool p : Prefix) (name : String) (ns : List Netblock)
    → All (IsRow pool) ns
    → (count (clashes p name) ns == 0) ≡ true
    → All (Free p name) ns
unclashed-Free pool p name ns rows e =
    All-both
      (λ n r c h. let v : is_valid (prefix n) ≡ true = ground (arith, r.valid) in ground arith) ns
      rows (count_zero-All (clashes p name) ns (ground arith))

-- A guarded `UPDATE` of the prefix of one block to a range that every other block is apart from.
module _ (name : String) (old p : Prefix) (f : Netblock → Netblock)
    (named : (n : Netblock) → (f n).name ≡ n.name)
    (placed : (n : Netblock) → prefix (f n) ≡ p) where
  untouched :
      (n : Netblock) (ns : List Netblock)
      → str_eq n.name name ≡ true
      → All (Distinct n) ns
      → update (has_cidr name old) f ns ≡ ns
  unfolding update
  untouched n [] e d = refl
  untouched n (m ∷ ms) e d =
      let same : n.name ≡ name = ground (arith, eq_iff n.name name) in
      let miss : str_eq m.name name ≡ false = rw same at d.0.0 in
      rw (miss, untouched n ms e d.1) refl

  pub update-Apart :
      (ns : List Netblock)
      → All (Free p name) ns
      → Apart ns
      → Apart (update (has_cidr name old) f ns)
  unfolding update
  update-Apart [] free a = tt
  update-Apart (n ∷ ns) free a = elim (Bool-cases (has_cidr name old n)) [
    | inl hit ↦
        let same : str_eq n.name name ≡ true = ground arith in
        let is_name : n.name ≡ name = ground (arith, eq_iff n.name name) in
        rw (hit, untouched n ns same a.0)
          (
            All-both (λ m d g. rw (named n, placed n) (d.0, g (rw is_name at d.0))) ns a.0 free.1,
            a.1,
          )
    | inr miss ↦ rw miss (
      All-update (Distinct n) (has_cidr name old) f ns
          (All-map (λ m d. spread n m miss free.0 d) ns a.0),
      update-Apart ns free.1 a.1,
    )
  ]
    where
      spread :
          (n m : Netblock)
          → has_cidr name old n ≡ false
          → Free p name n
          → Distinct n m
          → Distinct n (if has_cidr name old m then f m else m)
      spread n m miss g d = elim (Bool-cases (has_cidr name old m)) [
        | inr k ↦ rw k d
        | inl k ↦
            let is_name : m.name ≡ name = ground (arith, eq_iff m.name name) in
            rw (k, named m, placed m)
              (d.0, overlaps_comm (prefix n) p ∙ g (other_name name n.name (rw is_name at d.0)))
      ]

-- An address lies in at most one of them.
pub Apart-count :
    (ns : List Netblock) (a : ℕ) → Apart ns → count (λ n. contains (prefix n) a) ns ≤ 1
unfolding count
Apart-count [] a h = omega arith
Apart-count (n ∷ ns) a h = elim (Bool-cases (contains (prefix n) a)) [
  | inr out ↦ rw out (Apart-count ns a h.1)
  | inl within ↦
      let none_else : count (λ m. contains (prefix m) a) ns ≡ 0 =
        All-count_zero (λ m. contains (prefix m) a) ns
          (All-map (λ m d. apart_disjoint (prefix n) (prefix m) a d.1 within) ns h.0) in
      rw within (omega arith)
]

pub keep-Apart : (q : Netblock → Bool) (ns : List Netblock) → Apart ns → Apart (keep q ns)
unfolding keep
keep-Apart q [] a = tt
keep-Apart q (n ∷ ns) a = elim (Bool-cases (q n)) [
  | inl k ↦ rw k (All-keep (Distinct n) q ns a.0, keep-Apart q ns a.1)
  | inr k ↦ rw k (keep-Apart q ns a.1)
]

-- A block of the table is apart from every other.
pub Apart-Free :
    (p : Netblock → Bool) (ns : List Netblock) (n : Netblock)
    → Apart ns
    → find p ns ≡ some n
    → All (Free (prefix n) n.name) ns
unfolding find
Apart-Free p [] n a e = tt
Apart-Free p (m ∷ ms) n a e = elim (Bool-cases (p m)) [
  | inl t ↦
      let same : m ≡ n = cc (rw t at e) in
      subst (λ k. All (Free (prefix k) k.name) (m ∷ ms)) same
        (λ h. absurd (ground (arith, eq_iff m.name m.name)), All-map (λ k d h. d.1) ms a.0)
  | inr t ↦
      let rest = rw t at e in
      let d = (All-find (Distinct m) p ms n a.0 rest).0 in
      (λ h. overlaps_comm (prefix n) (prefix m) ∙ d.1, Apart-Free p ms n a.1 rest)
]
