-- ===== src/Nonce/Tests.antt =====
-- A keyring that has rotated its key, over a digest that adds up what it is given.
use nebula_control_plane.Prelude.{
  ℕ, ◌*◌, List, [], ◌∷◌, ◌++◌, Option, some, ◌≡◌, refl, arith, count,
}
use nebula_control_plane.Nonce.Keyring.{
  Keyring, accepted, expired, bad_mac, mint, verify, put_bytes, read_bytes, mac, same_bytes, second,
}
use nebula_control_plane.Nonce.Bytes.{length-put_bytes, put_bytes-AreBytes}
use nebula_control_plane.Nonce.RoundTrip.{mint-verify}

abbrev digest_of : List ℕ → List ℕ → List ℕ
digest_of key message = put_bytes 32 (read_bytes 0 (message ++ key))

abbrev encoded : List ℕ → List ℕ
encoded bs = bs

abbrev decoded : List ℕ → Option (List ℕ)
decoded bs = some bs

abbrev old_key : List ℕ
old_key = 1 ∷ 2 ∷ 3 ∷ []

abbrev new_key : List ℕ
new_key = 4 ∷ 5 ∷ 6 ∷ []

abbrev old_ring : Keyring
old_ring = record { keys = old_key ∷ []; ttl = 60 * second; max_skew = 30 * second }

abbrev new_ring : Keyring
new_ring = record { keys = new_key ∷ old_key ∷ []; ttl = 60 * second; max_skew = 30 * second }

abbrev pub_key_hash : List ℕ
pub_key_hash = 7 ∷ 8 ∷ []

mint-verify_example :
    verify digest_of decoded new_ring 1060
      (mint digest_of encoded old_ring 1000 pub_key_hash).0
      pub_key_hash
    ≡ accepted
mint-verify_example =
    mint-verify digest_of encoded decoded
      (λ key message. (length-put_bytes 32 _, put_bytes-AreBytes 32 _)) (λ bs h. refl) old_ring
      new_ring (new_key ∷ []) [] 1000 1060 pub_key_hash refl (omega arith) (omega arith)

late :
    verify digest_of decoded new_ring 1061
      (mint digest_of encoded old_ring 1000 pub_key_hash).0
      pub_key_hash
    ≡ expired
unfolding verify mint mac put_bytes read_bytes same_bytes
late = refl

other_binding :
    verify digest_of decoded new_ring 1010
      (mint digest_of encoded old_ring 1000 pub_key_hash).0
      (9 ∷ [])
    ≡ bad_mac
unfolding verify mint mac put_bytes read_bytes same_bytes count
other_binding = refl
