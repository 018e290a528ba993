-- ===== src/Breaker/Attempts.antt =====
-- internal/signer/breaker_sql.go: the shared breaker when transactions fail. It refuses, and only a
-- sweep may have happened.
use nebula_control_plane.Prelude.{
  ℕ, ◌≤◌, ◌∙◌, ◌≡◌, refl, String, Bool, true, false, List, [], ◌∷◌, none, arith, ◌==◌, Bool-cases,
  inl, inr, some,
}
use nebula_control_plane.Breaker.Calls.{
  Call, acquires, resets, granted, Ledger, try_ledger, time, run, InOrder, calls_of,
}
use nebula_control_plane.Breaker.Sql.{Fleet, attempt, maybe_gc, acquire}
use nebula_control_plane.Breaker.SqlRefines.{
  SqlAgrees, maybe_gc-counts, latch_state-maybe_gc, sql_step,
}

module _ (lane : String) (max window : ℕ) where
  -- Where the transaction fails, only a sweep may have happened.
  sql_limited_fails :
      (core : ℕ) (sweeps : Bool) (now : ℕ) (f : Fleet)
      → (max == 0) ≡ false
      → acquire false sweeps lane max window f core now
        ≡ (maybe_gc sweeps lane window f core now, none)
  unfolding acquire
  sql_limited_fails core sweeps now f z = rw z refl

  sql_unlimited_fails :
      (core : ℕ) (sweeps : Bool) (now : ℕ) (f : Fleet)
      → (max == 0) ≡ true
      → acquire false sweeps lane max window f core now ≡ (f, some granted)
  unfolding acquire
  sql_unlimited_fails core sweeps now f z = rw z refl

  fails_acquires :
      (clock core : ℕ) (sweeps : Bool) (now : ℕ) (f : Fleet) (l : Ledger)
      → clock ≤ now
      → SqlAgrees lane max window clock f l
      → ((attempt lane max window f (acquires core sweeps now, false)).1
          ≡ (try_ledger max window l (acquires core sweeps now, false)).1)
        × SqlAgrees lane max window now
            (attempt lane max window f (acquires core sweeps now, false)).0
            (try_ledger max window l (acquires core sweeps now, false)).0
  fails_acquires clock core sweeps now f l o ((idle, same), counts) = elim (Bool-cases (max == 0)) [
    | inl z ↦
        rw (sql_unlimited_fails core sweeps now f z, z)
          (refl, ((idle, same), λ n h. counts n (omega arith)))
    | inr z ↦
        rw (sql_limited_fails core sweeps now f z, z)
          (
            refl,
            (
              (idle, latch_state-maybe_gc lane max window sweeps f core now ∙ same),
              λ n h. maybe_gc-counts lane max window sweeps f core now n h ∙ counts n (omega arith),
            ),
          )
  ]

  attempt_step :
      (clock : ℕ) (c : Call) (commits : Bool) (f : Fleet) (l : Ledger)
      → clock ≤ time clock c
      → SqlAgrees lane max window clock f l
      → ((attempt lane max window f (c, commits)).1 ≡ (try_ledger max window l (c, commits)).1)
        × SqlAgrees lane max window
            (time clock c)
            (attempt lane max window f (c, commits)).0
            (try_ledger max window l (c, commits)).0
  attempt_step clock c true f l o r = sql_step lane max window clock c f l o r
  attempt_step clock (acquires core sweeps now) false f l o r =
      fails_acquires clock core sweeps now f l o r
  attempt_step clock resets false f l o r = (refl, r)

  -- Failing transactions included, the shared breaker answers as the ledger does.
  pub attempts_agree :
      (clock : ℕ) (cs : List (Call × Bool)) (f : Fleet) (l : Ledger)
      → InOrder clock (calls_of cs)
      → SqlAgrees lane max window clock f l
      → (run (attempt lane max window) f cs).1 ≡ (run (try_ledger max window) l cs).1
  attempts_agree clock [] f l o r = refl
  attempts_agree clock ((c, commits) ∷ cs) f l o r =
      let (e, r') = attempt_step clock c commits f l o.0 r in
      rw
        (
          e,
          attempts_agree (time clock c) cs (attempt lane max window f (c, commits)).0
              (try_ledger max window l (c, commits)).0 o.1 r',
        )
        refl
