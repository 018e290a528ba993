-- ===== src/Nonce/RoundTrip.antt =====
-- internal/nonce/nonce.go: what `Verify` answers on a nonce that `Mint` issued.
use nebula_control_plane.Prelude.{
  ℕ, zero, suc, ◌+◌, ◌-◌, ◌/◌, ◌^◌, ◌≤◌, ◌<◌, ◌≡◌, refl, ◌∙◌, Bool, true, false, ◌&&◌, not, List,
  [], ◌∷◌, ◌++◌, Option, some, arith, if◌then◌else◌, leb, ◌==◌, Bool-cases, inl, inr, length,
  length-append, take, count, count-append, All-append,
}
use nebula_control_plane.Nonce.Keyring.{
  Keyring, accepted, expired, second, primary, put_bytes, read_bytes, drop, same_bytes, difference,
  outside, mac, mint, verify,
}
use nebula_control_plane.Nonce.Bytes.{
  length-put_bytes, read_bytes-put_bytes, same_bytes_refl, take-split, drop-split, AreBytes,
  put_bytes-AreBytes, take-AreBytes,
}

-- Not older than the lifetime of a nonce, and not further ahead than clocks may differ.
abbrev pub in_time : Keyring → ℕ → ℕ → Bool
in_time ring now ts = leb now (ts + ring.ttl / second) && leb ts (now + ring.max_skew / second)

outside-in_time :
    (ttl skew now ts : ℕ)
    → now < 2 ^ 63
    → ts < 2 ^ 63
    → outside ttl skew (difference now ts) ≡ not (leb now (ts + ttl) && leb ts (now + skew))
outside-in_time ttl skew now ts a b = elim (Bool-cases (leb ts now)) [
  | inl l ↦ let e : difference now ts ≡ now - ts = ground arith in rw e (ground arith)
  | inr l ↦ let e : difference now ts ≡ 2 ^ 64 - (ts - now) = ground arith in rw e (ground arith)
]

length-take_le : (bs : List ℕ) (n : ℕ) → n ≤ length bs → length (take n bs) ≡ n
length-take_le bs zero h = refl
length-take_le [] (suc n) h = absurd (omega (arith, h))
length-take_le (b ∷ bs) (suc n) h = omega (arith, length-take_le bs n (omega (arith, h)))

module _ {ℓ} {T : Type ℓ} (hmac : List ℕ → List ℕ → List ℕ) (encode : List ℕ → T)
    (decode : T → Option (List ℕ))
    (digest : (key message : List ℕ)
      → (length (hmac key message) ≡ 32) × AreBytes (hmac key message))
    (decodes : (bs : List ℕ) → AreBytes bs → decode (encode bs) ≡ some bs) where
  length-mac : (key tsb binding : List ℕ) → length (mac hmac key tsb binding) ≡ 16
  unfolding mac
  length-mac key tsb binding = length-take_le _ 16 (omega (arith, (digest key _).0))

  mac-AreBytes : (key tsb binding : List ℕ) → AreBytes (mac hmac key tsb binding)
  unfolding mac
  mac-AreBytes key tsb binding = take-AreBytes 16 _ (digest key _).1

  -- With an HMAC of 32 bytes and a base64 that decodes the bytes that it encodes: a nonce minted at a time is
  -- accepted for the same binding by every keyring that has the minting key among its keys, as long as
  -- it is in time there, and otherwise is expired. Times are below 2 ^ 63.
  pub mint-verify :
      (ring other : Keyring) (before after : List (List ℕ)) (ts now : ℕ) (binding : List ℕ)
      → other.keys ≡ before ++ (primary ring.keys ∷ after)
      → ts < 2 ^ 63
      → now < 2 ^ 63
      → verify hmac decode other now (mint hmac encode ring ts binding).0 binding
        ≡ (if in_time other now ts then accepted else expired)
  unfolding verify mint count
  mint-verify ring other before after ts now binding known a b =
      let key = primary ring.keys in
      let tsb = put_bytes 8 ts in
      let tag = mac hmac key tsb binding in
      let lt = length-put_bytes 8 ts in
      let first : take 8 (tsb ++ tag) ≡ tsb = take-split tsb tag 8 lt in
      let second_part : drop 8 (tsb ++ tag) ≡ tag = drop-split tsb tag 8 lt in
      let read : read_bytes 0 tsb ≡ ts = read_bytes-put_bytes ts (omega (arith, a)) in
      let bytes : AreBytes (tsb ++ tag) =
        All-append (λ (b : ℕ). b < 256) tsb tag (put_bytes-AreBytes 8 ts)
          (mac-AreBytes key tsb binding) in
      let whole : (length (tsb ++ tag) == 24) ≡ true =
        ground (arith, length-append tsb tag, length-mac key tsb binding) in
      let same = λ (k : List ℕ). same_bytes tag (mac hmac k tsb binding) in
      let own : same key ≡ true = same_bytes_refl tag in
      let some_key : count same (before ++ (key ∷ after))
          ≡ count same before + suc (count same after) =
        count-append same before (key ∷ after) ∙ rw own refl in
      let valid : (count same (before ++ (key ∷ after)) == 0) ≡ false = ground arith in
      rw
        (
          decodes (tsb ++ tag) bytes,
          first,
          second_part,
          read,
          whole,
          known,
          valid,
          outside-in_time (other.ttl / second) (other.max_skew / second) now ts b a,
        )
        (elim (Bool-cases (in_time other now ts)) [ inl t ↦ rw t refl | inr t ↦ rw t refl ])
