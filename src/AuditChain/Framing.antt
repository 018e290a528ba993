-- ===== src/AuditChain/Framing.antt =====
-- internal/store/audit.go: the bytes that a row's hash is taken of tell its fields apart.
use nebula_control_plane.Prelude.{
  ℕ, ◌^◌, ◌<◌, ◌≡◌, refl, ◌∙◌, sym, ap, String, Bool, true, ◌&&◌, List, ◌++◌, arith, ◌==◌, str_eq,
  eq_iff, length, take, [], append_assoc,
}
use nebula_control_plane.Nonce.Keyring.{put_bytes, read_bytes, drop}
use nebula_control_plane.Nonce.Bytes.{
  length-put_bytes, read_bytes-put_bytes, take-split, drop-split,
}
use nebula_control_plane.AuditChain.{Row, field, framed, framed_row}

-- A list begins with a part of known length in one way.
parts : (xs ys us vs : List ℕ) → length xs ≡ length us → xs ++ ys ≡ us ++ vs → (xs ≡ us) × (ys ≡ vs)
parts xs ys us vs e h = (
  sym (take-split xs ys (length xs) refl)
      ∙ (ap (take (length xs)) h ∙ take-split us vs (length xs) (sym e)),
  sym (drop-split xs ys (length xs) refl)
      ∙ (ap (drop (length xs)) h ∙ drop-split us vs (length xs) (sym e)),
)

numbers :
    (m n : ℕ) (xs ys : List ℕ)
    → m < 2 ^ 64
    → n < 2 ^ 64
    → put_bytes 8 m ++ xs ≡ put_bytes 8 n ++ ys
    → (m ≡ n) × (xs ≡ ys)
numbers m n xs ys a b h =
    let (e, rest) =
      parts (put_bytes 8 m) xs (put_bytes 8 n) ys
        (length-put_bytes 8 m ∙ sym (length-put_bytes 8 n)) h in
    (sym (read_bytes-put_bytes m a) ∙ (ap (read_bytes 0) e ∙ read_bytes-put_bytes n b), rest)

fields :
    (bs cs xs ys : List ℕ)
    → length bs < 2 ^ 64
    → length cs < 2 ^ 64
    → field bs ++ xs ≡ field cs ++ ys
    → (bs ≡ cs) × (xs ≡ ys)
unfolding field
fields bs cs xs ys a b h =
    let grouped : put_bytes 8 (length bs) ++ (bs ++ xs) ≡ put_bytes 8 (length cs) ++ (cs ++ ys) =
      sym (append_assoc (put_bytes 8 (length bs)) bs xs)
      ∙ (h ∙ append_assoc (put_bytes 8 (length cs)) cs ys) in
    let (e, rest) = numbers (length bs) (length cs) (bs ++ xs) (cs ++ ys) a b grouped in
    parts bs xs cs ys e rest

-- The fields that a row's hash commits to.
abbrev pub same_fields : Row → Row → Bool
same_fields r s =
    (r.seq == s.seq)
    && (r.ts == s.ts)
    && str_eq r.actor s.actor
    && str_eq r.action s.action
    && str_eq r.target s.target
    && str_eq r.details s.details
    && str_eq r.prev_hash s.prev_hash

same_text : (s t : String) → s ≡ t → str_eq s t ≡ true
same_text s t e = ground (arith, eq_iff s t)

module _ (bytes_of : String → List ℕ) where
  -- A row whose numbers and lengths fit 64 bits.
  abbrev pub Fits : Row → Type 0
  Fits r =
      (r.seq < 2 ^ 64)
      × (r.ts < 2 ^ 64)
      × (length (bytes_of r.actor) < 2 ^ 64)
      × (length (bytes_of r.action) < 2 ^ 64)
      × (length (bytes_of r.target) < 2 ^ 64)
      × (length (bytes_of r.details) < 2 ^ 64)
      × (length (bytes_of r.prev_hash) < 2 ^ 64)

  -- Rows with the same bytes have the same fields.
  pub framed-same_fields :
      (r s : Row)
      → ((x y : String) → bytes_of x ≡ bytes_of y → x ≡ y)
      → Fits r
      → Fits s
      → framed_row bytes_of r ≡ framed_row bytes_of s
      → same_fields r s ≡ true
  unfolding framed
  framed-same_fields r s injective (r0, r1, r2, r3, r4, r5, r6) (s0, s1, s2, s3, s4, s5, s6) h =
      let (seq, h0) = numbers r.seq s.seq _ _ r0 s0 h in
      let (ts, h1) = numbers r.ts s.ts _ _ r1 s1 h0 in
      let (actor, h2) = fields (bytes_of r.actor) (bytes_of s.actor) _ _ r2 s2 h1 in
      let (action, h3) = fields (bytes_of r.action) (bytes_of s.action) _ _ r3 s3 h2 in
      let (target, h4) = fields (bytes_of r.target) (bytes_of s.target) _ _ r4 s4 h3 in
      let (details, h5) = fields (bytes_of r.details) (bytes_of s.details) _ _ r5 s5 h4 in
      let last = ap (λ t. t ++ []) h5 in
      let (prev, none_left) =
        fields (bytes_of r.prev_hash) (bytes_of s.prev_hash) [] [] r6 s6 last in
      let a = same_text r.actor s.actor (injective r.actor s.actor actor) in
      let b = same_text r.action s.action (injective r.action s.action action) in
      let c = same_text r.target s.target (injective r.target s.target target) in
      let d = same_text r.details s.details (injective r.details s.details details) in
      let e = same_text r.prev_hash s.prev_hash (injective r.prev_hash s.prev_hash prev) in
      ground arith
