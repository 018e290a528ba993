-- ===== src/Breaker/MemoryRefines.antt =====
-- internal/signer/breaker.go: the breaker of one process does what the ledger does.
use nebula_control_plane.Prelude.{
  ℕ, ◌≤◌, ◌∙◌, ◌≡◌, refl, Bool, true, List, [], ◌∷◌, ◌++◌, arith, leb, ◌==◌, keep, length, count,
  length-keep, count-keep, count-append, Bool-cases, inl, inr,
}
use nebula_control_plane.Breaker.Calls.{
  Call, acquires, resets, recent, Ledger, ledger, Simulates, time,
}
use nebula_control_plane.Breaker.Memory.{Breaker, memory, acquire, reset}

-- Pruning at one time does not change what is recent later.
recent_mono : (w m n t : ℕ) → m ≤ n → recent w n t ≡ true → recent w m t ≡ true
recent_mono w m n t h r = ground arith

module _ (max window : ℕ) where
  abbrev pub MemoryAgrees : ℕ → Breaker → Ledger → Type 0
  MemoryAgrees clock b l =
      (b.latched ≡ l.latched)
      × ((n : ℕ) → clock ≤ n → count (recent window n) b.events ≡ count (recent window n) l.grants)

  abbrev pruned : ℕ → Breaker → List ℕ
  pruned now b = keep (recent window now) b.events

  recorded :
      (now n : ℕ) (ts us : List ℕ)
      → count (recent window n) (keep (recent window now) ts) ≡ count (recent window n) us
      → count (recent window n) (keep (recent window now) ts ++ (now ∷ []))
        ≡ count (recent window n) (now ∷ us)
  unfolding count
  recorded now n ts us e =
      count-append (recent window n) (keep (recent window now) ts) (now ∷ []) ∙ ground arith

  memory_acquires :
      (clock core : ℕ) (sweeps : Bool) (now : ℕ) (b : Breaker) (l : Ledger)
      → clock ≤ now
      → MemoryAgrees clock b l
      → ((memory max window b (acquires core sweeps now)).1
          ≡ (ledger max window l (acquires core sweeps now)).1)
        × MemoryAgrees now
            (memory max window b (acquires core sweeps now)).0
            (ledger max window l (acquires core sweeps now)).0
  unfolding acquire
  memory_acquires clock core sweeps now b l o (same, counts) = elim (Bool-cases l.latched) [
    | inl t ↦ rw (same, t) (refl, (refl, λ n h. counts n (omega arith)))
    | inr t ↦ elim (Bool-cases (max == 0)) [
      | inl z ↦ rw (same, t, z) (refl, (refl, λ n h. counts n (omega arith)))
      | inr z ↦
          let many : length (pruned now b) ≡ count (recent window now) l.grants =
            length-keep (recent window now) b.events ∙ counts now o in
          elim (Bool-cases (leb max (count (recent window now) l.grants))) [
            | inl full ↦
                rw (same, t, z, many, full)
                  (
                    refl,
                    (
                      refl,
                      λ n h.
                          count-keep (recent window now) (recent window n)
                            (λ x. recent_mono window now n x h) b.events
                          ∙ counts n (omega arith),
                    ),
                  )
            | inr some_left ↦
                rw (same, t, z, many, some_left)
                  (
                    refl,
                    (
                      refl,
                      λ n h. recorded now n b.events l.grants (
                          count-keep (recent window now) (recent window n)
                            (λ x. recent_mono window now n x h) b.events
                          ∙ counts n (omega arith)),
                    ),
                  )
          ]
    ]
  ]

  memory_resets :
      (clock : ℕ) (b : Breaker) (l : Ledger)
      → MemoryAgrees clock (memory max window b resets).0 (ledger max window l resets).0
  unfolding reset
  memory_resets clock b l = (refl, λ n h. refl)

  memory_step :
      (clock : ℕ) (c : Call) (b : Breaker) (l : Ledger)
      → clock ≤ time clock c
      → MemoryAgrees clock b l
      → ((memory max window b c).1 ≡ (ledger max window l c).1)
        × MemoryAgrees (time clock c) (memory max window b c).0 (ledger max window l c).0
  memory_step clock (acquires core sweeps now) b l o r =
      memory_acquires clock core sweeps now b l o r
  memory_step clock resets b l o r = (refl, memory_resets clock b l)

  pub memory-Simulates : Simulates (memory max window) (ledger max window) MemoryAgrees
  memory-Simulates = record { step = memory_step }
