-- ===== src/Prelude/Tables.antt =====
-- Rows numbered by a primary key that only grows, newest first.
use Prim.Native.Nat.{ℕ, ◌≤◌, ◌<◌}
use mathlib.Core.Path.{◌≡◌, refl, sym, ◌∙◌}
use mathlib.Core.Logic.{inl, inr}
use mathlib.Core.Bool.{Bool, true, false}
use mathlib.Core.Option.{Option, none, some}
use mathlib.Core.List.{List, [], ◌∷◌}
use native.Mathlib.Omega.{arith}
use nebula_control_plane.Prelude.Tests.{ltb, if◌then◌else◌, Bool-cases, Option-cases}
use nebula_control_plane.Prelude.Lists.{All, All-map, update}

module _ {ℓ} {A : Type ℓ} where
  -- `ORDER BY id DESC LIMIT 1` among the rows that pass a test.
  abbrev newer : (A → ℕ) → A → Option A → Option A
  newer id x none = some x
  newer id x (some y) = if ltb (id x) (id y) then some y else some x

  unfoldable pub newest : (A → ℕ) → (A → Bool) → List A → Option A
  newest id p [] = none
  newest id p (x ∷ xs) = if p x then newer id x (newest id p xs) else newest id p xs

-- The keys fall along the list and stay below `n`.
abbrev pub Descending {ℓ} : {A : Type ℓ} → (A → ℕ) → ℕ → List A → Type 0
Descending id n [] = Unit
Descending id n (x ∷ xs) = (id x < n) × Descending id (id x) xs

module _ {ℓ} {A : Type ℓ} (id : A → ℕ) where
  pub Descending-mono : (m n : ℕ) (xs : List A) → m ≤ n → Descending id m xs → Descending id n xs
  Descending-mono m n [] h d = tt
  Descending-mono m n (x ∷ xs) h d = (omega arith, d.1)

  pub Descending-All : (n : ℕ) (xs : List A) → Descending id n xs → All (λ x. id x < n) xs
  Descending-All n [] d = tt
  Descending-All n (x ∷ xs) d =
      (d.0, Descending-All n xs (Descending-mono (id x) n xs (omega arith) d.1))

module _ {ℓ} {A : Type ℓ} (id : A → ℕ) (p : A → Bool) where
  pub newest-lt :
      (n : ℕ) (xs : List A) (r : A) → Descending id n xs → newest id p xs ≡ some r → id r < n
  unfolding newest
  newest-lt n [] r d e = cc
  newest-lt n (x ∷ xs) r d e = elim (Option-cases (newest id p xs)) [
    | inl q ↦ ground arith
    | inr (y, q) ↦ ground (arith, newest-lt (id x) xs y d.1 q)
  ]

  -- A head that passes is the newest.
  pub newest-head :
      (x : A) (xs : List A) → Descending id (id x) xs → p x ≡ true → newest id p (x ∷ xs) ≡ some x
  unfolding newest
  newest-head x xs d h = elim (Option-cases (newest id p xs)) [
    | inl q ↦ ground arith
    | inr (y, q) ↦ ground (arith, newest-lt (id x) xs y d q)
  ]

  pub newest-tail : (x : A) (xs : List A) → p x ≡ false → newest id p (x ∷ xs) ≡ newest id p xs
  unfolding newest
  newest-tail x xs h = rw h

  pub newest-passes : (xs : List A) (r : A) → newest id p xs ≡ some r → p r ≡ true
  unfolding newest
  newest-passes [] r e = cc
  newest-passes (x ∷ xs) r e = elim (Option-cases (newest id p xs)) [
    | inl q ↦ ground arith
    | inr (y, q) ↦ ground (arith, newest-passes xs y q)
  ]

  -- The row that the query returns is the only one with its key.
  pub newest_unique :
      (n : ℕ) (xs : List A) (r : A)
      → Descending id n xs
      → newest id p xs ≡ some r
      → All (λ s. id s ≡ id r → s ≡ r) xs
  newest_unique n [] r d e = tt
  newest_unique n (x ∷ xs) r d e = elim (Bool-cases (p x)) [
    | inl h ↦
        let same : some x ≡ some r = sym (newest-head x xs d.1 h) ∙ e in
        (λ k. cc, All-map (λ s b k. absurd (ground arith)) xs (Descending-All id (id x) xs d.1))
    | inr h ↦
        let rest : newest id p xs ≡ some r = sym (newest-tail x xs h) ∙ e in
        (
          λ k. absurd (omega (arith, newest-lt (id x) xs r d.1 rest)),
          newest_unique (id x) xs r d.1 rest,
        )
  ]

module _ {ℓ} {A : Type ℓ} (id : A → ℕ) (p : A → Bool) (f : A → A) where
  -- An `UPDATE` that leaves the key alone.
  pub Descending-update :
      ((x : A) → id (f x) ≡ id x)
      → (n : ℕ) (xs : List A) → Descending id n xs
      → Descending id n (update p f xs)
  unfolding update
  Descending-update keeps n [] d = tt
  Descending-update keeps n (x ∷ xs) d = elim (Bool-cases (p x)) [
    | inl h ↦ rw (h, keeps x) (d.0, Descending-update keeps (id x) xs d.1)
    | inr h ↦ rw h (d.0, Descending-update keeps (id x) xs d.1)
  ]

  abbrev pub changed : A → A
  changed x = if p x then f x else x

  abbrev pub changed? : Option A → Option A
  changed? none = none
  changed? (some x) = some (changed x)

  changed_id : ((x : A) → id (f x) ≡ id x) → (x : A) → id (changed x) ≡ id x
  changed_id keeps x = elim (Bool-cases (p x)) [ inl h ↦ rw h (keeps x) | inr h ↦ rw h ]

  newer-changed :
      ((x : A) → id (f x) ≡ id x)
      → (x : A) (o : Option A) → newer id (changed x) (changed? o) ≡ changed? (newer id x o)
  newer-changed keeps x none = refl
  newer-changed keeps x (some y) =
      rw (changed_id keeps x, changed_id keeps y)
        (elim (Bool-cases (ltb (id x) (id y))) [ inl h ↦ rw h | inr h ↦ rw h ])

  -- Nor does it change which row a query returns, when the query does not see the change.
  pub newest-update :
      (q : A → Bool)
      → ((x : A) → id (f x) ≡ id x)
      → ((x : A) → q (f x) ≡ q x)
      → (xs : List A) → newest id q (update p f xs) ≡ changed? (newest id q xs)
  unfolding newest update
  newest-update q keeps blind [] = refl
  newest-update q keeps blind (x ∷ xs) =
      let same : q (changed x) ≡ q x = elim (Bool-cases (p x)) [
        | inl h ↦ rw h (blind x)
        | inr h ↦ rw h
      ] in
      let rest = newest-update q keeps blind xs in
      elim (Bool-cases (q x)) [
        | inl h ↦ rw (same, h, rest) (newer-changed keeps x (newest id q xs))
        | inr h ↦ rw (same, h) rest
      ]
