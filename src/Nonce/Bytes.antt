-- ===== src/Nonce/Bytes.antt =====
-- internal/nonce/nonce.go: the bytes of a timestamp, put and read.
use native.Mathlib.Nat.{pow-suc, div-div-eq-div-mul, div-add-mod, div-eq_of_lt, div-one, mod-lt}
use nebula_control_plane.Prelude.{
  ℕ, zero, suc, ◌+◌, ◌*◌, ◌/◌, ◌%◌, ◌^◌, ◌<◌, ◌≡◌, refl, ◌∙◌, sym, ap, true, List, [], ◌∷◌, ◌++◌,
  arith, length, take, All,
}
use nebula_control_plane.Nonce.Keyring.{put_bytes, read_bytes, drop, same_bytes}

pub length-put_bytes : (k n : ℕ) → length (put_bytes k n) ≡ k
unfolding put_bytes
length-put_bytes zero n = refl
length-put_bytes (suc k) n = omega (arith, length-put_bytes k n)

-- What a list of bytes is.
abbrev pub AreBytes : List ℕ → Type 0
AreBytes bs = All (λ (b : ℕ). b < 256) bs

pub put_bytes-AreBytes : (k n : ℕ) → AreBytes (put_bytes k n)
unfolding put_bytes
put_bytes-AreBytes zero n = tt
put_bytes-AreBytes (suc k) n = (mod-lt (n / 256 ^ k) (omega arith), put_bytes-AreBytes k n)

pub take-AreBytes : (n : ℕ) (bs : List ℕ) → AreBytes bs → AreBytes (take n bs)
take-AreBytes zero bs h = tt
take-AreBytes (suc n) [] h = tt
take-AreBytes (suc n) (b ∷ bs) h = (h.0, take-AreBytes n bs h.1)

shift : (n k : ℕ) → n / 256 ^ suc k * 256 + n / 256 ^ k % 256 ≡ n / 256 ^ k
shift n k =
    let e : n / 256 ^ suc k ≡ n / 256 ^ k / 256 =
      rw (pow-suc 256 k) (sym (div-div-eq-div-mul n (256 ^ k) 256)) in
    rw e (omega (arith, div-add-mod (n / 256 ^ k) 256))

read-put : (k n acc : ℕ) → acc ≡ n / 256 ^ k → read_bytes acc (put_bytes k n) ≡ n
unfolding put_bytes read_bytes
read-put zero n acc e = e ∙ div-one n
read-put (suc k) n acc e = read-put k n (acc * 256 + n / 256 ^ k % 256) (rw e (shift n k))

-- What `PutUint64` writes of a 64-bit number, `Uint64` reads.
pub read_bytes-put_bytes : (n : ℕ) → n < 2 ^ 64 → read_bytes 0 (put_bytes 8 n) ≡ n
read_bytes-put_bytes n h = read-put 8 n 0 (sym (div-eq_of_lt h))

pub same_bytes_refl : (bs : List ℕ) → same_bytes bs bs ≡ true
unfolding same_bytes
same_bytes_refl [] = refl
same_bytes_refl (b ∷ bs) = ground (arith, same_bytes_refl bs)

pub take-split : (xs ys : List ℕ) (n : ℕ) → length xs ≡ n → take n (xs ++ ys) ≡ xs
take-split [] ys zero e = refl
take-split [] ys (suc n) e = absurd (omega (arith, e))
take-split (x ∷ xs) ys zero e = absurd (omega (arith, e))
take-split (x ∷ xs) ys (suc n) e = ap (λ t. x ∷ t) (take-split xs ys n (omega (arith, e)))

pub drop-split : (xs ys : List ℕ) (n : ℕ) → length xs ≡ n → drop n (xs ++ ys) ≡ ys
drop-split [] ys zero e = refl
drop-split [] ys (suc n) e = absurd (omega (arith, e))
drop-split (x ∷ xs) ys zero e = absurd (omega (arith, e))
drop-split (x ∷ xs) ys (suc n) e = drop-split xs ys n (omega (arith, e))
