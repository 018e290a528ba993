-- ===== src/Breaker/Limit.antt =====
-- internal/signer/breaker.go and breaker_sql.go: how much a breaker grants, and how often it alarms.
use nebula_control_plane.Prelude.{
  ℕ, suc, ◌≤◌, ◌<◌, ◌≡◌, refl, ◌∙◌, sym, String, Bool, true, false, ◌&&◌, List, [], ◌∷◌, arith, leb,
  ◌==◌, count, count_mono, count_none, Bool-cases, inl, inr,
}
use nebula_control_plane.Breaker.Calls.{
  Call, acquires, resets, Ledger, new_ledger, try_ledger, calls_of, run, InOrder, recent,
  grant_times, same_answers,
}
use nebula_control_plane.Breaker.Memory.{memory, new_breaker}
use nebula_control_plane.Breaker.MemoryRefines.{memory-Simulates}
use nebula_control_plane.Breaker.Sql.{Fleet, sql, attempt, latch_state, issued_on, counted}
use nebula_control_plane.Breaker.SqlRefines.{SqlAgrees, sql-Simulates}
use nebula_control_plane.Breaker.Attempts.{attempts_agree}

-- The window that ends at `n`.
abbrev pub in_window : ℕ → ℕ → ℕ → Bool
in_window window n t = recent window n t && leb t n

abbrev pub is_reset : Call × Bool → Bool
is_reset (resets, commits) = commits
is_reset (acquires core sweeps now, commits) = false

module _ (max window : ℕ) where
  -- Each grant was the last of at most `max` in its window.
  abbrev Capped : List ℕ → Type 0
  Capped [] = Unit {0}
  Capped (t ∷ ts) = (count (recent window t) (t ∷ ts) ≤ max) × Capped ts

  Capped-in_window : (n : ℕ) (ts : List ℕ) → Capped ts → count (in_window window n) ts ≤ max
  unfolding count
  Capped-in_window n [] c = omega arith
  Capped-in_window n (t ∷ ts) c = elim (Bool-cases (in_window window n t)) [
    | inr f ↦ rw f (Capped-in_window n ts c.1)
    | inl e ↦
        let fewer : count (in_window window n) ts ≤ count (recent window t) ts =
          count_mono (in_window window n) (recent window t) (λ u h. ground arith) ts in
        ground (arith, c.0)
  ]

  one_more :
      (now : ℕ) (ts : List ℕ)
      → leb max (count (recent window now) ts) ≡ false
      → count (recent window now) (now ∷ ts) ≤ max
  unfolding count
  one_more now ts h = ground arith

  abbrev running : List ℕ → Ledger
  running ts = record { grants = ts; latched = false }

  abbrev halted : List ℕ → Ledger
  halted ts = record { grants = ts; latched = true }

  mutual
    -- A breaker that is halted, and one that is not.
    halted-Capped :
        (ts : List ℕ) (cs : List (Call × Bool))
        → 0 < max
        → Capped ts
        → Capped (grant_times ts cs (run (try_ledger max window) (halted ts) cs).1)
    halted-Capped ts [] h c = c
    halted-Capped ts ((resets, true) ∷ cs) h c = running-Capped [] cs h tt
    halted-Capped ts ((resets, false) ∷ cs) h c = halted-Capped ts cs h c
    halted-Capped ts ((acquires core sweeps now, true) ∷ cs) h c = halted-Capped ts cs h c
    halted-Capped ts ((acquires core sweeps now, false) ∷ cs) h c =
        let z : (max == 0) ≡ false = ground arith in rw z (halted-Capped ts cs h c)

    running-Capped :
        (ts : List ℕ) (cs : List (Call × Bool))
        → 0 < max
        → Capped ts
        → Capped (grant_times ts cs (run (try_ledger max window) (running ts) cs).1)
    running-Capped ts [] h c = c
    running-Capped ts ((resets, true) ∷ cs) h c = running-Capped [] cs h tt
    running-Capped ts ((resets, false) ∷ cs) h c = running-Capped ts cs h c
    running-Capped ts ((acquires core sweeps now, false) ∷ cs) h c =
        let z : (max == 0) ≡ false = ground arith in rw z (running-Capped ts cs h c)
    running-Capped ts ((acquires core sweeps now, true) ∷ cs) h c =
        let z : (max == 0) ≡ false = ground arith in
        elim (Bool-cases (leb max (count (recent window now) ts))) [
          | inl full ↦ rw (z, full) (halted-Capped ts cs h c)
          | inr left ↦ rw (z, left) (running-Capped (now ∷ ts) cs h (one_more now ts left, c))
        ]

  mutual
    unfolding count

    halted_alarms :
        (ts : List ℕ) (cs : List (Call × Bool))
        → count (λ a. a.just_tripped) (run (try_ledger max window) (halted ts) cs).1
          ≤ count is_reset cs
    halted_alarms ts [] = omega arith
    halted_alarms ts ((resets, true) ∷ cs) = omega (arith, running_alarms [] cs)
    halted_alarms ts ((resets, false) ∷ cs) = halted_alarms ts cs
    halted_alarms ts ((acquires core sweeps now, true) ∷ cs) = halted_alarms ts cs
    halted_alarms ts ((acquires core sweeps now, false) ∷ cs) = elim (Bool-cases (max == 0)) [
      | inl z ↦ rw z (halted_alarms ts cs)
      | inr z ↦ rw z (halted_alarms ts cs)
    ]

    running_alarms :
        (ts : List ℕ) (cs : List (Call × Bool))
        → count (λ a. a.just_tripped) (run (try_ledger max window) (running ts) cs).1
          ≤ suc (count is_reset cs)
    running_alarms ts [] = omega arith
    running_alarms ts ((resets, true) ∷ cs) = omega (arith, running_alarms [] cs)
    running_alarms ts ((resets, false) ∷ cs) = running_alarms ts cs
    running_alarms ts ((acquires core sweeps now, false) ∷ cs) = elim (Bool-cases (max == 0)) [
      | inl z ↦ rw z (running_alarms ts cs)
      | inr z ↦ rw z (running_alarms ts cs)
    ]
    running_alarms ts ((acquires core sweeps now, true) ∷ cs) = elim (Bool-cases (max == 0)) [
      | inl z ↦ rw z (running_alarms ts cs)
      | inr z ↦ elim (Bool-cases (leb max (count (recent window now) ts))) [
        | inl full ↦ rw (z, full) (omega (arith, halted_alarms ts cs))
        | inr left ↦ rw (z, left) (running_alarms (now ∷ ts) cs)
      ]
    ]

  module _ (lane : String) where
    -- Nothing has been issued on the lane, whatever other lanes hold.
    abbrev IsFresh : Fleet → Type 0
    IsFresh f = (latch_state f.db lane ≡ false) × (count (issued_on lane) f.db.issuances ≡ 0)

    fresh_agrees : (f : Fleet) → IsFresh f → SqlAgrees lane max window 0 f new_ledger
    unfolding count
    fresh_agrees f h = (
      ((λ k. refl), h.0),
      λ n k.
          count_none (counted lane window n) (issued_on lane) (λ i e. ground arith) f.db.issuances
            h.1,
    )

    as_ledger :
        (f : Fleet) (cs : List (Call × Bool))
        → IsFresh f
        → InOrder 0 (calls_of cs)
        → (run (attempt lane max window) f cs).1 ≡ (run (try_ledger max window) new_ledger cs).1
    as_ledger f cs h o = attempts_agree lane max window 0 cs f new_ledger o (fresh_agrees f h)

    -- The breaker that several Core processes share through the database answers every sequence of
    -- calls, resets included, as the breaker of a single process does, whichever process calls,
    -- whenever old rows are swept, and whatever other lanes hold, as long as the clock never goes
    -- back, the transactions commit and the lane begins without rows.
    pub sql_refines :
        (f : Fleet) (cs : List Call)
        → IsFresh f
        → InOrder 0 cs
        → (run (sql lane max window) f cs).1 ≡ (run (memory max window) new_breaker cs).1
    sql_refines f cs h o =
        same_answers (sql-Simulates lane max window) 0 cs f new_ledger o (fresh_agrees f h)
        ∙ sym (
            same_answers (memory-Simulates max window) 0 cs new_breaker new_ledger o
              (refl, λ n k. refl))

    -- In every window, the processes together are granted at most the ceiling since the last reset
    -- that committed, whichever transactions fail, when the ceiling is positive, the clock never
    -- goes back and the lane begins without rows.
    pub fleet_limit :
        (f : Fleet) (cs : List (Call × Bool)) (n : ℕ)
        → 0 < max
        → IsFresh f
        → InOrder 0 (calls_of cs)
        → count (in_window window n) (grant_times [] cs (run (attempt lane max window) f cs).1)
          ≤ max
    fleet_limit f cs n h k o =
        rw (as_ledger f cs k o) (Capped-in_window n _ (running-Capped [] cs h tt))

    -- Whichever transactions fail, the alarm goes off at most once, and once more for each reset that
    -- commits, when the clock never goes back and the lane begins without rows.
    pub alarm_once :
        (f : Fleet) (cs : List (Call × Bool))
        → IsFresh f
        → InOrder 0 (calls_of cs)
        → count (λ a. a.just_tripped) (run (attempt lane max window) f cs).1
          ≤ suc (count is_reset cs)
    alarm_once f cs k o = rw (as_ledger f cs k o) (running_alarms [] cs)
