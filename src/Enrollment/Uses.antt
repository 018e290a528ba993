-- ===== src/Enrollment/Uses.antt =====
-- internal/enrollment/enrollment.go and internal/joinkey/joinkey.go: how many enrollments a join key
-- admits.
use nebula_control_plane.Prelude.{
  ℕ, ◌+◌, ◌≤◌, ◌<◌, Bool, true, false, List, [], ◌∷◌, some, if◌then◌else◌, ◌≡◌, ◌≢◌, ap, sym, subst,
  arith, Bool-cases, inl, inr, ◌==◌, find, count, All, All-map, All-count_zero, Descending,
  Descending-All,
}
use nebula_control_plane.JoinKey.Keys.{JoinKey, consumable, used}
use nebula_control_plane.Enrollment.Types.{Enrollment, Tables, joined_by}

-- The use of a key that was counted for a row that is still to be recorded.
abbrev pub spare : ℕ → JoinKey → ℕ
spare j k = if k.id == j then 1 else 0

abbrev pub Capped : JoinKey → Type 0
Capped k = k.max_uses ≢ 0 → k.used_count ≤ k.max_uses

-- A key has been used for each of its enrollments, and no more than its limit.
abbrev pub Covers : ℕ → List Enrollment → JoinKey → Type 0
Covers j rows k = (1 ≤ k.id) × (count (joined_by k.id) rows + spare j k ≤ k.used_count) × Capped k

-- Enrollments name keys that were created.
abbrev pub Covered : ℕ → Tables → Type 0
Covered j t =
    Descending (λ k. k.id) t.keys.next_id t.keys.rows
    × All (Covers j t.rows) t.keys.rows
    × All (λ r. r.join_key_id < t.keys.next_id) t.rows
    × (j < t.keys.next_id)

abbrev pub key_id : JoinKey → ℕ
key_id k = k.id

-- The key that a lookup finds is the only one with its number.
pub find_unique :
    (p : JoinKey → Bool) (n : ℕ) (rows : List JoinKey) (k : JoinKey)
    → Descending key_id n rows
    → find p rows ≡ some k
    → (k.id < n) × All (λ x. x.id ≡ k.id → x ≡ k) rows
unfolding find
find_unique p n [] k d e = cc
find_unique p n (x ∷ rows) k d e = elim (Bool-cases (p x)) [
  | inl t ↦
      let same : some x ≡ some k = rw t at e in
      let is_key : x ≡ k = ground arith in
      (
        subst (λ y. y.id < n) is_key d.0,
        (
          λ i. is_key,
          All-map (λ s below i. absurd (omega (arith, subst (λ y. s.id < y.id) is_key below))) rows
              (Descending-All key_id x.id rows d.1),
        ),
      )
  | inr t ↦
      let (below, unique) = find_unique p x.id rows k d.1 (rw t at e) in
      (omega (arith, d.0), (λ i. absurd (omega arith), unique))
]

pub insert-Covers :
    (j : ℕ) (r : Enrollment) (rows : List Enrollment) (k : JoinKey)
    → r.join_key_id ≡ j
    → Covers j rows k
    → Covers 0 (r ∷ rows) k
unfolding count
insert-Covers j r rows k e c = (c.0, ground (arith, c.0, c.1, e), c.2)

pub forget-Covers :
    (j : ℕ) (rows : List Enrollment) (k : JoinKey) → Covers j rows k → Covers 0 rows k
forget-Covers j rows k c = (c.0, ground (arith, c.0, c.1), c.2)

-- A `Consume` that counts a use counts it for the key that was looked up.
pub consumable_self :
    (jk : JoinKey) (rows : List JoinKey)
    → All (λ x. x.id ≡ jk.id → x ≡ jk) rows
    → (count (consumable jk) rows == 0) ≡ false
    → consumable jk jk ≡ true
consumable_self jk rows unique n = elim (Bool-cases (consumable jk jk)) [
  | inl t ↦ t
  | inr t ↦
      let none_passes : All (λ x. consumable jk x ≡ false) rows =
        All-map
          (λ x only. elim (Bool-cases (consumable jk x)) [
            | inr u ↦ u
            | inl u ↦ subst (λ y. consumable jk y ≡ false) (sym (only (ground arith))) t
          ])
          rows unique in
      absurd (ground (arith, All-count_zero (consumable jk) rows none_passes))
]

pub use-Covers :
    (jk k : JoinKey) (rows : List Enrollment)
    → (k.id ≡ jk.id → k ≡ jk)
    → consumable jk jk ≡ true
    → Covers 0 rows k
    → Covers jk.id rows (if consumable jk k then used k else k)
use-Covers jk k rows only self c = elim (Bool-cases (consumable jk k)) [
  | inl t ↦
      let is_key : k ≡ jk = only (ground arith) in
      let limit : k.max_uses ≡ jk.max_uses = ap (λ x. x.max_uses) is_key in
      rw t (c.0, ground (arith, c.0, c.1), λ m. ground (arith, limit))
  | inr t ↦
      let other : k.id ≢ jk.id =
        λ e. absurd (cc (subst (λ x. consumable jk x ≡ true) (sym (only e)) self, t)) in
      rw t (c.0, ground (arith, c.0, c.1, other), c.2)
]
