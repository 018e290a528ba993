-- ===== src/Prelude/Lists.antt =====
-- Lists measured by native numbers, searched, counted and rewritten by Boolean tests: the rows of
-- a table under `WHERE`, `COUNT`, `UPDATE` and `DELETE`.
use Prim.Native.Nat.{ℕ, zero, suc, ◌+◌, ◌≤◌}
use mathlib.Core.Path.{◌≡◌, refl, subst}
use mathlib.Core.Logic.{inl, inr}
use mathlib.Core.Bool.{Bool, true, false}
use mathlib.Core.Option.{Option, none, some}
use mathlib.Core.List.{List, [], ◌∷◌, ◌++◌}
use native.Mathlib.Omega.{arith}
use nebula_control_plane.Prelude.Tests.{if◌then◌else◌, ◌==◌, Bool-cases}

module _ {ℓ} {A : Type ℓ} where
  abbrev pub length : List A → ℕ
  length [] = 0
  length (x ∷ xs) = suc (length xs)

  pub length-append : (xs ys : List A) → length (xs ++ ys) ≡ length xs + length ys
  length-append [] ys = omega arith
  length-append (x ∷ xs) ys = omega (arith, length-append xs ys)

  -- The rows that pass a test, in order.
  unfoldable pub keep : (A → Bool) → List A → List A
  keep p [] = []
  keep p (x ∷ xs) = if p x then x ∷ keep p xs else keep p xs

  -- `COUNT(*)` of the rows that pass a test.
  unfoldable pub count : (A → Bool) → List A → ℕ
  count p [] = 0
  count p (x ∷ xs) = if p x then suc (count p xs) else count p xs

  -- The first row that passes a test.
  unfoldable pub find : (A → Bool) → List A → Option A
  find p [] = none
  find p (x ∷ xs) = if p x then some x else find p xs

  -- `UPDATE`: the rows that pass a test are rewritten, the others stay.
  unfoldable pub update : (A → Bool) → (A → A) → List A → List A
  update p f [] = []
  update p f (x ∷ xs) = (if p x then f x else x) ∷ update p f xs

-- Every element satisfies a predicate; by recursion, so that it computes to tuples.
abbrev pub All {ℓ κ} : {A : Type ℓ} → (A → Type κ) → List A → Type κ
All P [] = Unit
All P (x ∷ xs) = P x × All P xs

module _ {ℓ κ μ} {A : Type ℓ} {P : A → Type κ} {Q : A → Type μ} where
  pub All-map : ((x : A) → P x → Q x) → (xs : List A) → All P xs → All Q xs
  All-map f [] h = tt
  All-map f (x ∷ xs) h = (f x h.0, All-map f xs h.1)

module _ {ℓ κ} {A : Type ℓ} (P : A → Type κ) where
  pub All-update :
      (p : A → Bool) (f : A → A) (xs : List A)
      → All (λ x. P (if p x then f x else x)) xs
      → All P (update p f xs)
  unfolding update
  All-update p f [] h = tt
  All-update p f (x ∷ xs) h = (h.0, All-update p f xs h.1)

module _ {ℓ} {A : Type ℓ} (p : A → Bool) where
  pub count-append : (xs ys : List A) → count p (xs ++ ys) ≡ count p xs + count p ys
  unfolding count
  count-append [] ys = omega arith
  count-append (x ∷ xs) ys = ground (arith, count-append xs ys)

  -- An element more than the two parts around it.
  pub count-middle :
      (xs : List A) (y : A) (ys : List A)
      → count p (xs ++ (y ∷ ys)) ≡ (if p y then suc (count p (xs ++ ys)) else count p (xs ++ ys))
  unfolding count
  count-middle xs y ys = rw (count-append xs (y ∷ ys), count-append xs ys) (ground arith)

  -- An `UPDATE` that makes no row pass adds none, and leaves none of those that it touches.
  pub count-update-le :
      (q : A → Bool) (f : A → A)
      → ((x : A) → q x ≡ true → p (f x) ≡ true → p x ≡ true)
      → (xs : List A) → count p (update q f xs) ≤ count p xs
  unfolding count update
  count-update-le q f none_new [] = omega arith
  count-update-le q f none_new (x ∷ xs) =
      ground (arith, none_new x, count-update-le q f none_new xs)

  pub count-update_none :
      (f : A → A) → ((x : A) → p (f x) ≡ false) → (xs : List A) → count p (update p f xs) ≡ 0
  unfolding count update
  count-update_none f kills [] = refl
  count-update_none f kills (x ∷ xs) = ground (arith, kills x, count-update_none f kills xs)

module _ {ℓ κ} {A : Type ℓ} (P : A → Type κ) where
  pub All-find :
      (p : A → Bool) (xs : List A) (x : A) → All P xs → find p xs ≡ some x → P x × (p x ≡ true)
  unfolding find
  All-find p [] x h e = cc
  All-find p (y ∷ ys) x h e = elim (Bool-cases (p y)) [
    | inl t ↦ let same : y ≡ x = cc (rw t at e) in subst (λ z. P z × (p z ≡ true)) same (h.0, t)
    | inr f ↦ All-find p ys x h.1 (rw f at e)
  ]

  pub All-append : (xs ys : List A) → All P xs → All P ys → All P (xs ++ ys)
  All-append [] ys h k = k
  All-append (x ∷ xs) ys h k = (h.0, All-append xs ys h.1 k)

  -- What holds of all holds of the two parts around an element, and of it.
  pub All-middle :
      (xs : List A) (y : A) (ys : List A) → All P (xs ++ (y ∷ ys)) → P y × All P (xs ++ ys)
  All-middle [] y ys h = h
  All-middle (x ∷ xs) y ys h = let (k, r) = All-middle xs y ys h.1 in (k, (h.0, r))

module _ {ℓ} {A : Type ℓ} (p : A → Bool) where
  pub find_passes : (xs : List A) (x : A) → find p xs ≡ some x → p x ≡ true
  unfolding find
  find_passes [] x e = cc
  find_passes (y ∷ ys) x e = elim (Bool-cases (p y)) [
    | inl t ↦ let same : some y ≡ some x = rw t at e in ground arith
    | inr t ↦ find_passes ys x (rw t at e)
  ]

module _ {ℓ} {A : Type ℓ} (p q : A → Bool) where
  pub find-count :
      (xs : List A) (x : A) → find p xs ≡ some x → q x ≡ true → (count q xs == 0) ≡ false
  unfolding find count
  find-count [] x e h = cc
  find-count (y ∷ ys) x e h = elim (Bool-cases (p y)) [
    | inl t ↦ let same : some y ≡ some x = rw t at e in ground arith
    | inr t ↦ ground (arith, find-count ys x (rw t at e) h)
  ]

module _ {ℓ} {A : Type ℓ} (p q : A → Bool) (f : A → A) where
  -- An `UPDATE` that leaves alone what a query looks for changes at most the row that it finds.
  pub find-update :
      ((x : A) → p (f x) ≡ p x)
      → (xs : List A) (x : A) → find p xs ≡ some x
      → find p (update q f xs) ≡ some (if q x then f x else x)
  unfolding find update
  find-update blind [] x e = cc
  find-update blind (y ∷ ys) x e = elim (Bool-cases (p y)) [
    | inl t ↦ elim (Bool-cases (q y)) [ inl u ↦ ground (arith, blind y) | inr u ↦ ground arith ]
    | inr t ↦ elim (Bool-cases (q y)) [
      | inl u ↦ rw (u, blind y, t) (find-update blind ys x (rw t at e))
      | inr u ↦ rw (u, t) (find-update blind ys x (rw t at e))
    ]
  ]

-- `LIMIT`.
abbrev pub take {ℓ} : {A : Type ℓ} → ℕ → List A → List A
take zero xs = []
take (suc n) [] = []
take (suc n) (x ∷ xs) = x ∷ take n xs

pub length-take {ℓ} : {A : Type ℓ} (n : ℕ) (xs : List A) → length (take n xs) ≤ n
length-take zero xs = omega arith
length-take (suc n) [] = omega arith
length-take (suc n) (x ∷ xs) = omega (arith, length-take n xs)
