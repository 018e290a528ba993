-- ===== src/Nonce/Keyring.antt =====
-- internal/nonce/nonce.go: `NewKeyring`, `Mint` and `Verify`. A byte is a natural number, a time one of
-- seconds, a duration one of nanoseconds;
-- the text of a nonce is whatever base64url encodes into.
use nebula_control_plane.Prelude.{
  ℕ, zero, suc, ◌+◌, ◌-◌, ◌*◌, ◌/◌, ◌%◌, ◌^◌, Bool, true, false, ◌&&◌, not, List, [], ◌∷◌, ◌++◌,
  Option, none, some, if◌then◌else◌, ltb, ◌==◌, length, take, count,
}

pub data Verdict : Type 0 where
  accepted malformed expired bad_mac : Verdict

pub data Refusal : Type 0 where
  no_key short_key : Refusal

pub record Keyring : Type 0 where
  pub keys : List (List ℕ)
  pub ttl : ℕ
  pub max_skew : ℕ

-- `macLen`, `tsLen`, `DefaultTTL`, `DefaultMaxSkew`.
abbrev pub mac_len : ℕ
mac_len = 16

abbrev pub ts_len : ℕ
ts_len = 8

abbrev pub second : ℕ
second = 1000000000

abbrev pub default_ttl : ℕ
default_ttl = 60 * second

abbrev pub default_max_skew : ℕ
default_max_skew = 30 * second

abbrev pub or_else : ℕ → ℕ → ℕ
or_else def n = if n == 0 then def else n

abbrev pub primary : List (List ℕ) → List ℕ
primary [] = []
primary (key ∷ keys) = key

-- `NewKeyring`.
unfoldable pub new_keyring : List (List ℕ) → ℕ → ℕ → Keyring × Option Refusal
new_keyring keys ttl max_skew =
    let ring : Keyring = record {
      keys = keys;
      ttl = or_else default_ttl ttl;
      max_skew = or_else default_max_skew max_skew;
    } in
    let nothing : Keyring = record { keys = []; ttl = 0; max_skew = 0 } in
    if length keys == 0
    then (nothing, some no_key)
    else if not (count (λ (k : List ℕ). ltb (length k) 16) keys == 0)
    then (nothing, some short_key)
    else (ring, none)

-- `binary.BigEndian`, for so many bytes: the highest byte comes first.
unfoldable pub put_bytes : ℕ → ℕ → List ℕ
put_bytes zero n = []
put_bytes (suc k) n = n / 256 ^ k % 256 ∷ put_bytes k n

unfoldable pub read_bytes : ℕ → List ℕ → ℕ
read_bytes acc [] = acc
read_bytes acc (b ∷ bs) = read_bytes (acc * 256 + b) bs

-- `raw[n:]`.
abbrev pub drop : ℕ → List ℕ → List ℕ
drop zero bs = bs
drop (suc n) [] = []
drop (suc n) (b ∷ bs) = drop n bs

-- `hmac.Equal`.
unfoldable pub same_bytes : List ℕ → List ℕ → Bool
same_bytes [] [] = true
same_bytes [] (c ∷ cs) = false
same_bytes (b ∷ bs) [] = false
same_bytes (b ∷ bs) (c ∷ cs) = (b == c) && same_bytes bs cs

-- The bytes of the label ncp-nonce-v1.
abbrev pub label : List ℕ
label = 110 ∷ 99 ∷ 112 ∷ 45 ∷ 110 ∷ 111 ∷ 110 ∷ 99 ∷ 101 ∷ 45 ∷ 118 ∷ 49 ∷ []

-- A difference of two times as an `int64`, and whether it is more than one bound or less than minus
-- another.
abbrev pub difference : ℕ → ℕ → ℕ
difference now ts = (now + 2 ^ 64 - ts) % 2 ^ 64

abbrev pub outside : ℕ → ℕ → ℕ → Bool
outside ttl skew age = if ltb age (2 ^ 63) then ltb ttl age else ltb skew (2 ^ 64 - age)

-- HMAC-SHA256.
module _ (hmac : List ℕ → List ℕ → List ℕ) where
  -- `mac`.
  unfoldable pub mac : List ℕ → List ℕ → List ℕ → List ℕ
  mac key tsb binding = take mac_len (hmac key (label ++ (tsb ++ binding)))

  abbrev pub stamp : List ℕ → ℕ → List ℕ → List ℕ
  stamp key ts binding = put_bytes ts_len ts ++ mac key (put_bytes ts_len ts) binding

  -- `Mint`: the nonce, encoded by base64url, and the nanosecond at which it expires.
  unfoldable pub mint {ℓ} : {T : Type ℓ} → (List ℕ → T) → Keyring → ℕ → List ℕ → T × ℕ
  mint encode ring now binding =
      (encode (stamp (primary ring.keys) now binding), now * second + ring.ttl)

  abbrev pub authentic : List (List ℕ) → List ℕ → List ℕ → List ℕ → Bool
  authentic keys tsb got binding =
      not (count (λ key. same_bytes got (mac key tsb binding)) keys == 0)

  abbrev pub verify_raw : Keyring → ℕ → List ℕ → List ℕ → Verdict
  verify_raw ring now raw binding =
      let age = difference now (read_bytes 0 (take ts_len raw)) in
      if not (length raw == ts_len + mac_len)
      then malformed
      else if outside (ring.ttl / second) (ring.max_skew / second) age
      then expired
      else if authentic ring.keys (take ts_len raw) (drop ts_len raw) binding
      then accepted
      else bad_mac

  abbrev pub verify_decoded : Keyring → ℕ → Option (List ℕ) → List ℕ → Verdict
  verify_decoded ring now none binding = malformed
  verify_decoded ring now (some raw) binding = verify_raw ring now raw binding

  -- `Verify`, over the decoder of base64url.
  unfoldable pub verify {ℓ} :
      {T : Type ℓ} → (T → Option (List ℕ)) → Keyring → ℕ → T → List ℕ → Verdict
  verify decode ring now nonce binding = verify_decoded ring now (decode nonce) binding
