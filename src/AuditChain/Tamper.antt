-- ===== src/AuditChain/Tamper.antt =====
-- internal/store/audit.go: what an intact chain says of its rows.
use nebula_control_plane.Prelude.{
  ℕ, suc, ◌≡◌, ◌≢◌, refl, All, ◌∙◌, sym, String, true, false, List, [], ◌∷◌, arith, str_eq, eq_iff,
  Bool-cases, inl, inr, ◌⊎◌,
}
use nebula_control_plane.AuditChain.Framing.{same_fields, Fits, framed-same_fields}
use nebula_control_plane.AuditChain.{
  Row, framed_row, intact, audit_hash, verify_from, verify_audit, intact-IsLinked, last_link,
}

-- The hash of the last row.
abbrev pub head_hash : String → List Row → String
head_hash prev [] = prev
head_hash prev (r ∷ rs) = head_hash r.hash rs

same_texts : (s t : String) → str_eq s t ≡ true → s ≡ t
same_texts s t e = ground (arith, eq_iff s t)

same_row : (r s : Row) → same_fields r s ≡ true → r.hash ≡ s.hash → r ≡ s
same_row r s e h =
    let a : r.seq ≡ s.seq = ground arith in
    let b : r.ts ≡ s.ts = ground arith in
    let c = same_texts r.actor s.actor (ground arith) in
    let d = same_texts r.action s.action (ground arith) in
    let f = same_texts r.target s.target (ground arith) in
    let g = same_texts r.details s.details (ground arith) in
    let k = same_texts r.prev_hash s.prev_hash (ground arith) in
    λ i. record {
      seq = a i;
      ts = b i;
      actor = c i;
      action = d i;
      target = f i;
      details = g i;
      prev_hash = k i;
      hash = h i;
    }

-- Two byte strings with one hash.
abbrev pub Collision : (List ℕ → String) → Type 0
Collision sha256 = (x : List ℕ) × (y : List ℕ) × (x ≢ y) × (sha256 x ≡ sha256 y)

module _ (sha256 : List ℕ → String) (bytes_of : String → List ℕ)
    (injective : (x y : String) → bytes_of x ≡ bytes_of y → x ≡ y) (genesis_prev : String) where
  -- Rows with other fields and one hash have bytes that collide.
  collides :
      (r s : Row)
      → Fits bytes_of r
      → Fits bytes_of s
      → audit_hash sha256 bytes_of genesis_prev r ≡ audit_hash sha256 bytes_of genesis_prev s
      → same_fields r s ≡ false
      → Collision sha256
  collides r s f g h differ = (
    framed_row bytes_of r,
    framed_row bytes_of s,
    λ same. absurd (cc (framed-same_fields bytes_of r s injective f g same, differ)),
    h,
  )

  chains_agree :
      (want n : ℕ) (p q : String) (rs ss : List Row)
      → verify_from sha256 bytes_of genesis_prev (suc want) p rs ≡ intact n
      → verify_from sha256 bytes_of genesis_prev (suc want) q ss ≡ intact n
      → head_hash p rs ≡ head_hash q ss
      → All (Fits bytes_of) rs
      → All (Fits bytes_of) ss
      → ((rs ≡ ss) × (p ≡ q)) ⊎ Collision sha256
  unfolding verify_from
  chains_agree want n p q [] [] a b h f g = inl (refl, h)
  chains_agree want n p q [] (s ∷ ss) a b h fits fits' =
      let (last, f, num, more) = last_link sha256 bytes_of genesis_prev (suc want) q s ss n b in
      absurd (ground (arith, a))
  chains_agree want n p q (r ∷ rs) [] a b h fits fits' =
      let (last, f, num, more) = last_link sha256 bytes_of genesis_prev (suc want) p r rs n a in
      absurd (ground (arith, b))
  chains_agree want n p q (r ∷ rs) (s ∷ ss) a b h f g =
      let k = intact-IsLinked sha256 bytes_of genesis_prev (suc want) p r rs n a in
      let l = intact-IsLinked sha256 bytes_of genesis_prev (suc want) q s ss n b in
      elim (chains_agree (suc want) n r.hash s.hash rs ss k.rest l.rest h f.1 g.1) [
        | inr c ↦ inr c
        | inl (tails, hashes) ↦ elim (Bool-cases (same_fields r s)) [
          | inr differ ↦ inr (collides r s f.0 g.0 (sym k.hashed ∙ hashes ∙ l.hashed) differ)
          | inl same ↦
              let here = same_row r s same hashes in inl (cc, cc (here, k.linked, l.linked))
        ]
      ]

  -- Who keeps only the number of rows and the hash of the last one detects every change: two logs
  -- that both verify, and agree in these, are the same log, or exhibit two byte strings with one
  -- SHA-256, when the numbers and the lengths of the fields fit 64 bits.
  pub tamper_evident :
      (n : ℕ) (rs ss : List Row)
      → All (Fits bytes_of) rs
      → All (Fits bytes_of) ss
      → verify_audit sha256 bytes_of genesis_prev rs ≡ intact n
      → verify_audit sha256 bytes_of genesis_prev ss ≡ intact n
      → head_hash genesis_prev rs ≡ head_hash genesis_prev ss
      → (rs ≡ ss) ⊎ Collision sha256
  unfolding verify_audit
  tamper_evident n rs ss f g a b h =
      elim (chains_agree 0 n genesis_prev genesis_prev rs ss a b h f g) [
        | inl (same, p) ↦ inl same
        | inr c ↦ inr c
      ]
