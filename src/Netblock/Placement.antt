-- ===== src/Netblock/Placement.antt =====
-- internal/netblock/netblock.go: where `Suggest` places a block, and when it finds no place.
use nebula_control_plane.Prelude.{
  ℕ, zero, suc, ◌+◌, ◌-◌, ◌*◌, ◌^◌, ◌⊎◌, All-none, ◌≤◌, ◌<◌, ◌≡◌, refl, ◌∙◌, ap, Bool, true, false,
  ◌&&◌, List, [], ◌∷◌, Option, none, some, arith, ltb, find, All, All-find, Bool-cases,
  Option-cases, inl, inr, count_none,
}
use nebula_control_plane.Net.Prefix.{Prefix, is_valid, masked, contains, overlaps, slots, size}
use nebula_control_plane.Net.Overlap.{
  Inside, Inside-trans, Inside-contains, Inside-overlaps, masked_valid, cut-masked,
}
use nebula_control_plane.Net.Slots.{IsPool, IsPool-masked, masked-IsPool, slots-Inside, slots_all}
use nebula_control_plane.Netblock.Types.{pool_full, Result, ok, err}
use nebula_control_plane.Netblock.Suggest.{
  range_clear, free_slots_in, better, worst_fit, start_of, relax, envelope_bits, last_resort,
  packed, fresh_or_packed, suggest,
}

envelope_bits-between :
    (pool : Prefix) (bits : ℕ)
    → pool.bits ≤ bits
    → (pool.bits ≤ envelope_bits pool bits) × (envelope_bits pool bits ≤ bits)
envelope_bits-between pool bits lo = ground arith

module _ (reserved : List ℕ) (carves : List Prefix) where
  abbrev clear : Prefix → Bool
  clear = range_clear reserved carves

  -- A part of a clear range is clear.
  Inside-range_clear : (p q : Prefix) → Inside p q → clear q ≡ true → clear p ≡ true
  unfolding range_clear
  Inside-range_clear p q i c =
      let r =
        count_none (contains p) (contains q) (λ a h. Inside-contains p q a i h) reserved
          (ground arith) in
      let o =
        count_none (λ c. is_valid c && overlaps p c) (λ c. is_valid c && overlaps q c)
          (λ x h. ground (arith, Inside-overlaps p q x i)) carves (ground arith) in
      rw (r, o) refl

  -- A place for a block: of the length asked for, cut off at it, in the pool, without a reserved
  -- address and apart from every block.
  abbrev pub IsPlace : Prefix → ℕ → Prefix → Type 0
  IsPlace pool bits p = (p.bits ≡ bits) × (masked p ≡ p) × Inside p pool × (clear p ≡ true)

  -- A place was found, or the pool is full and there is none.
  abbrev pub Exact : Prefix → ℕ → Result Prefix → Type 0
  Exact pool bits r =
      ((p : Prefix) × (r ≡ ok p) × IsPlace pool bits p)
      ⊎ ((r ≡ err pool_full) × ((p : Prefix) → ¬ IsPlace pool bits p))

  module _ (pool : Prefix) (bits : ℕ) (h : IsPool pool) (lo : pool.bits ≤ bits)
      (hi : bits ≤ 32) where
    abbrev Envelope : ℕ → Prefix → Type 0
    Envelope e p = IsPool p × (p.bits ≡ e) × Inside p pool

    -- The start of a clear envelope is a place.
    start_of-IsPlace :
        (e : ℕ) (env : Prefix)
        → pool.bits ≤ e
        → e ≤ bits
        → find clear (slots pool e) ≡ some env
        → IsPlace pool bits (start_of bits env)
    start_of-IsPlace e env le ge f =
        let ((whole, same, inside), c) =
          All-find (Envelope e) clear (slots pool e) env (slots-Inside pool e h le (omega arith))
            f in
        let start = masked_valid (record { addr = env.addr; bits = bits }) hi in
        let within : Inside (start_of bits env) env =
          rw start (omega arith, hi, rw same (cut-masked bits env.addr e ge hi)) in
        (
          rw start refl,
          rw start (
              masked_valid _ hi
              ∙ ap (λ (t : ℕ). record { addr = t; bits = bits })
                  (ap (λ (t : ℕ). t * size bits) (cut-masked bits env.addr bits (omega arith) hi))),
          Inside-trans _ env pool within inside,
          Inside-range_clear _ env within c,
        )

    -- A clear slot of the length asked for, inside an envelope.
    slot-IsPlace :
        (env p : Prefix)
        → IsPool env
        → env.bits ≤ bits
        → Inside env pool
        → find clear (slots env bits) ≡ some p
        → IsPlace pool bits p
    slot-IsPlace env p whole short inside f =
        let ((own, same, i), c) =
          All-find (λ q. IsPool q × (q.bits ≡ bits) × Inside q env) clear (slots env bits) p
            (slots-Inside env bits whole short hi) f in
        (same, IsPool-masked p own, Inside-trans p env pool i inside, c)

    abbrev Good : Option Prefix → Type 0
    Good o = (p : Prefix) → o ≡ some p → IsPlace pool bits p

    better-Good :
        (best candidate : Option Prefix × ℕ)
        → Good best.0
        → Good candidate.0
        → Good (better reserved carves best candidate).0
    better-Good best candidate g h = elim (Bool-cases (ltb best.1 candidate.1)) [
      | inl t ↦ rw t h
      | inr t ↦ rw t g
    ]

    worst_fit-Good :
        (e : ℕ) (best : Option Prefix × ℕ) (envs : List Prefix)
        → e ≤ bits
        → All (Envelope e) envs
        → Good best.0
        → Good (worst_fit reserved carves bits best envs).0
    unfolding worst_fit free_slots_in
    worst_fit-Good e best [] le a g = g
    worst_fit-Good e best (env ∷ envs) le a g =
        let candidate = free_slots_in reserved carves env bits in
        worst_fit-Good e (better reserved carves best candidate) envs le a.1 (
          better-Good best candidate g
            (λ p f. slot-IsPlace env p a.0.0 (omega (arith, a.0.1)) a.0.2 f))

    relax-Good :
        (n e : ℕ) → pool.bits ≤ e → e + n ≤ suc bits → Good (relax reserved carves n e pool bits)
    unfolding relax
    relax-Good zero e le ge p f = cc
    relax-Good (suc n) e le ge p f = elim (Option-cases (find clear (slots pool e))) [
      | inl none_clear ↦
          relax-Good n (suc e) (omega arith) (omega arith) p (rw (none_clear, relax) at f)
      | inr (env, g) ↦
          let same : some (start_of bits env) ≡ some p = rw (g, relax) at f in
          let eq : start_of bits env ≡ p = cc in
          rw (← eq) (start_of-IsPlace e env le (omega arith) g)
    ]

    last_resort-Exact :
        (o : Option Prefix) → Good o → Exact pool bits (last_resort reserved carves pool bits o)
    last_resort-Exact (some p) g = inl (p, refl, g p refl)
    last_resort-Exact none g = elim (Option-cases (find clear (slots pool bits))) [
      | inl f ↦ inr (
        rw (f, last_resort) refl,
        λ p (e, m, i, c). cc (
          c,
          slots_all pool bits h lo hi (λ q. clear q ≡ false) p (All-none clear (slots pool bits) f)
              e m i,
        ),
      )
      | inr (p, f) ↦
          inl
            (p, rw (f, last_resort) refl, slot-IsPlace pool p h lo (omega arith, h.bits-le, refl) f)
    ]

    packed-Exact :
        (e : ℕ) (best : Option Prefix × ℕ)
        → pool.bits ≤ e
        → e ≤ bits
        → Good best.0
        → Exact pool bits (packed reserved carves pool bits e best)
    packed-Exact e (some p, suc n) le ge g = inl (p, refl, g p refl)
    packed-Exact e (some p, zero) le ge g =
        last_resort-Exact _ (relax-Good (bits - e) (suc e) (omega arith) (omega arith))
    packed-Exact e (none, n) le ge g =
        last_resort-Exact _ (relax-Good (bits - e) (suc e) (omega arith) (omega arith))

    fresh_or_packed-Exact :
        (e : ℕ) (o : Option Prefix)
        → pool.bits ≤ e
        → e ≤ bits
        → find clear (slots pool e) ≡ o
        → Exact pool bits (fresh_or_packed reserved carves pool bits e o)
    fresh_or_packed-Exact e (some env) le ge f = inl (_, refl, start_of-IsPlace e env le ge f)
    fresh_or_packed-Exact e none le ge f =
        packed-Exact e (worst_fit reserved carves bits (none, 0) (slots pool e)) le ge (
          worst_fit-Good e (none, 0) (slots pool e) ge (slots-Inside pool e h le (omega arith))
            (λ p k. cc))

    envelope-Exact : Exact pool bits (
        fresh_or_packed reserved carves pool bits
          (envelope_bits pool bits)
          (find clear (slots pool (envelope_bits pool bits))))
    envelope-Exact =
        let (le, ge) = envelope_bits-between pool bits lo in
        fresh_or_packed-Exact (envelope_bits pool bits) _ le ge refl

  -- `Suggest` is exact: for a valid pool and a length between the pool's and 32, it returns a prefix of
  -- that length that is cut off at it, lies in the pool, holds no reserved address and overlaps no
  -- block, or else answers that the pool is full, and then no such prefix exists.
  pub suggest-Exact :
      (given : Prefix) (bits : ℕ)
      → given.bits ≤ 32
      → given.addr < 2 ^ 32
      → given.bits ≤ bits
      → bits ≤ 32
      → Exact (masked given) bits (suggest reserved carves bits given)
  unfolding suggest
  suggest-Exact given bits v small lo hi =
      let valid : is_valid given ≡ true = ground arith in
      let same : (masked given).bits ≡ given.bits = rw (masked_valid given v) refl in
      let under : ltb bits (masked given).bits ≡ false = rw same (ground arith) in
      let over : ltb 32 bits ≡ false = ground arith in
      rw (valid, under, over)
        (envelope-Exact (masked given) bits (masked-IsPool given v small) (rw same lo) hi)
