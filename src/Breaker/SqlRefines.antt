-- ===== src/Breaker/SqlRefines.antt =====
-- internal/signer/breaker_sql.go: the shared breaker does what the ledger does, whatever other lanes
-- hold and whenever rows are swept.
use nebula_control_plane.Prelude.{
  ℕ, ◌≤◌, ◌∙◌, ◌≡◌, refl, String, Bool, true, false, List, ◌∷◌, arith, leb, ◌==◌, keep, count, find,
  count-keep, count-keep_none, count-find, Bool-cases, inl, inr, str_eq, not, some, find-update,
  find_passes, Option-cases, eq_iff,
}
use nebula_control_plane.Breaker.Calls.{
  Call, acquires, resets, granted, recent, Ledger, ledger, Simulates, time,
}
use nebula_control_plane.Breaker.Sql.{
  Latch, Db, Fleet, sql, latch_state, upsert_latch, counted, issued_on, stale, latch_on, acquire_tx,
  maybe_gc, issue, acquire, reset, due,
}

same_lane : (lane : String) → str_eq lane lane ≡ true
same_lane lane = ground (arith, eq_iff lane lane)

latch_state-upsert_latch :
    (row : Latch) (db : Db) → latch_state (upsert_latch row db) row.lane ≡ row.latched
unfolding latch_state upsert_latch find
latch_state-upsert_latch row db = elim (Option-cases (find (latch_on row.lane) db.latches)) [
  | inl f ↦ rw (count-find (latch_on row.lane) db.latches f, same_lane row.lane) refl
  | inr (l, f) ↦ elim (Bool-cases (count (latch_on row.lane) db.latches == 0)) [
    | inl z ↦ rw (z, same_lane row.lane) refl
    | inr z ↦
        let g =
          find-update (latch_on row.lane) (latch_on row.lane)
            (λ l. record l { latched = row.latched; opened_at = row.opened_at }) (λ x. refl)
            db.latches l f in
        rw (z, g, find_passes (latch_on row.lane) db.latches l f) refl
  ]
]

module _ (lane : String) (max window : ℕ) where
  abbrev pub SqlAgrees : ℕ → Fleet → Ledger → Type 0
  SqlAgrees clock f l =
      ((max ≡ 0 → l.latched ≡ false) × (latch_state f.db lane ≡ l.latched))
      × ((n : ℕ)
          → clock ≤ n
          → count (counted lane window n) f.db.issuances ≡ count (recent window n) l.grants)

  abbrev TxAgrees : ℕ → Db → Ledger → Type 0
  TxAgrees clock db l =
      (latch_state db lane ≡ l.latched)
      × ((n : ℕ)
          → clock ≤ n
          → count (counted lane window n) db.issuances ≡ count (recent window n) l.grants)

  upsert_latch-counts : (row : Latch) (db : Db) → (upsert_latch row db).issuances ≡ db.issuances
  unfolding upsert_latch
  upsert_latch-counts row db = refl

  issue-counts :
      (now n : ℕ) (db : Db) (ts : List ℕ)
      → count (counted lane window n) db.issuances ≡ count (recent window n) ts
      → count (counted lane window n) (issue lane now db).issuances
        ≡ count (recent window n) (now ∷ ts)
  unfolding count
  issue-counts now n db ts e = rw (same_lane lane) (ground arith)

  latch_state-issue :
      (now : ℕ) (db : Db) → latch_state (issue lane now db) lane ≡ latch_state db lane
  unfolding latch_state
  latch_state-issue now db = refl

  -- The transaction, for a ceiling that is not zero.
  acquire_tx-agrees :
      (core : ℕ) (sweeps : Bool) (now : ℕ) (db : Db) (l : Ledger)
      → (max == 0) ≡ false
      → TxAgrees now db l
      → ((acquire_tx lane max window db now).1 ≡ (ledger max window l (acquires core sweeps now)).1)
        × TxAgrees now
            (acquire_tx lane max window db now).0
            (ledger max window l (acquires core sweeps now)).0
  unfolding acquire_tx
  acquire_tx-agrees core sweeps now db l z (same, counts) =
      let many = counts now (omega arith) in
      elim (Bool-cases l.latched) [
        | inl t ↦ rw (same, t) (refl, (same ∙ t, counts))
        | inr t ↦ elim (Bool-cases (leb max (count (recent window now) l.grants))) [
          | inl full ↦
              rw (same, t, z, many, full)
                (
                  refl,
                  (
                    latch_state-upsert_latch _ db,
                    λ n h. rw (upsert_latch-counts _ db) (counts n h),
                  ),
                )
          | inr left ↦
              rw (same, t, z, many, left)
                (
                  refl,
                  (
                    latch_state-issue now db ∙ (same ∙ t),
                    λ n h. issue-counts now n db l.grants (counts n h),
                  ),
                )
        ]
      ]

  -- A sweep drops only rows that no later count sees.
  pub maybe_gc-counts :
      (sweeps : Bool) (f : Fleet) (core now n : ℕ)
      → now ≤ n
      → count (counted lane window n) (maybe_gc sweeps lane window f core now).db.issuances
        ≡ count (counted lane window n) f.db.issuances
  unfolding maybe_gc
  maybe_gc-counts sweeps f core now n h = elim (Bool-cases (due (f.last_gc core) now)) [
    | inr d ↦ rw d refl
    | inl d ↦ elim (Bool-cases sweeps) [
      | inr s ↦ rw (d, s) refl
      | inl s ↦
          rw (d, s)
            (count-keep (λ i. not (stale lane window now i)) (counted lane window n)
              (λ i k. ground arith) f.db.issuances)
    ]
  ]

  pub latch_state-maybe_gc :
      (sweeps : Bool) (f : Fleet) (core now : ℕ)
      → latch_state (maybe_gc sweeps lane window f core now).db lane ≡ latch_state f.db lane
  unfolding maybe_gc latch_state
  latch_state-maybe_gc sweeps f core now = elim (Bool-cases (due (f.last_gc core) now)) [
    | inl d ↦ rw d refl
    | inr d ↦ rw d refl
  ]

  sql_limited :
      (core : ℕ) (sweeps : Bool) (now : ℕ) (f : Fleet)
      → (max == 0) ≡ false
      → let g = maybe_gc sweeps lane window f core now in
        acquire true sweeps lane max window f core now ≡ (
          record g { db = (acquire_tx lane max window g.db now).0 },
          some (acquire_tx lane max window g.db now).1,
        )
  unfolding acquire
  sql_limited core sweeps now f z = rw z refl

  sql_unlimited :
      (core : ℕ) (sweeps : Bool) (now : ℕ) (f : Fleet)
      → (max == 0) ≡ true
      → acquire true sweeps lane max window f core now ≡ (f, some granted)
  unfolding acquire
  sql_unlimited core sweeps now f z = rw z refl

  sql_acquires :
      (clock core : ℕ) (sweeps : Bool) (now : ℕ) (f : Fleet) (l : Ledger)
      → clock ≤ now
      → SqlAgrees clock f l
      → ((sql lane max window f (acquires core sweeps now)).1
          ≡ (ledger max window l (acquires core sweeps now)).1)
        × SqlAgrees now
            (sql lane max window f (acquires core sweeps now)).0
            (ledger max window l (acquires core sweeps now)).0
  sql_acquires clock core sweeps now f l o ((idle, same), counts) = elim (Bool-cases (max == 0)) [
    | inl z ↦
        rw (sql_unlimited core sweeps now f z, idle (ground arith), z)
          (refl, (((λ k. refl), same ∙ idle (ground arith)), λ n h. counts n (omega arith)))
    | inr z ↦
        let g = maybe_gc sweeps lane window f core now in
        let (e, r) = acquire_tx-agrees core sweeps now g.db l z (
          latch_state-maybe_gc sweeps f core now ∙ same,
          λ n h. maybe_gc-counts sweeps f core now n h ∙ counts n (omega arith),
        ) in
        rw (sql_limited core sweeps now f z) (e, (((λ k. absurd (ground arith)), r.0), r.1))
  ]

  sql_resets :
      (clock : ℕ) (f : Fleet) (l : Ledger)
      → SqlAgrees clock (sql lane max window f resets).0 (ledger max window l resets).0
  unfolding reset count
  sql_resets clock f l = (
    ((λ k. refl), latch_state-upsert_latch _ _),
    λ n h.
        rw
          (upsert_latch-counts (record { lane = lane; latched = false; opened_at = 0 })
            (record f.db { issuances = keep (λ i. not (issued_on lane i)) f.db.issuances }))
          (count-keep_none (λ i. not (issued_on lane i)) (counted lane window n)
            (λ i k. ground arith) f.db.issuances),
  )

  pub sql_step :
      (clock : ℕ) (c : Call) (f : Fleet) (l : Ledger)
      → clock ≤ time clock c
      → SqlAgrees clock f l
      → ((sql lane max window f c).1 ≡ (ledger max window l c).1)
        × SqlAgrees (time clock c) (sql lane max window f c).0 (ledger max window l c).0
  sql_step clock (acquires core sweeps now) f l o r = sql_acquires clock core sweeps now f l o r
  sql_step clock resets f l o r = (refl, sql_resets clock f l)

  pub sql-Simulates : Simulates (sql lane max window) (ledger max window) SqlAgrees
  sql-Simulates = record { step = sql_step }
