-- ===== src/Queue/ReadOnce.antt =====
-- internal/queue/durable.go: the bundle of an enrollment is read once.
use nebula_control_plane.Prelude.{
  ℕ, suc, ◌≡◌, refl, ◌∙◌, String, Bool, List, [], ◌∷◌, some, arith, ◌==◌, str_eq, eq_iff, count,
  find, count-update_none, count-update-le, find-update, Bool-cases, Option-cases, inl, inr, ◌≢◌,
  ◌⊎◌, sym,
}
use nebula_control_plane.Queue.Types.{Outcome, Result, ok, PollResult, Db, of_enrollment, unread}
use nebula_control_plane.Queue.Results.{get_result, consume, poll, read_outcome, expired}

-- One call of `GetResult`: for an enrollment, with a secret, at a time, and what the database does.
pub record Get : Type 0 where
  pub enrollment : String
  pub secret : String
  pub now : ℕ
  pub reads : Bool
  pub consumes : Bool

module _ (sha256 : String → String) where
  -- The bundle of an enrollment whose row has the given key has been handed out.
  abbrev Spent : String → ℕ → Db → Type 0
  Spent e i db =
      ((r : Outcome) × (find (of_enrollment e) db.results ≡ some r) × (r.id ≡ i))
      × (count (unread i) db.results ≡ 0)

  consume_keeps : (e : String) (i k : ℕ) (db : Db) → Spent e i db → Spent e i (consume db k).0
  unfolding consume
  consume_keeps e i k db ((r, f, same), none_left) = (
    (
      _,
      find-update (of_enrollment e) (unread k) (λ r. record r { read_count = suc r.read_count })
          (λ x. refl) db.results r f,
      elim (Bool-cases (unread k r)) [ inl u ↦ rw u same | inr u ↦ rw u same ],
    ),
    omega (
      arith,
      none_left,
      count-update-le (unread i) (unread k) (λ r. record r { read_count = suc r.read_count })
          (λ x a b. absurd (ground arith)) db.results,
    ),
  )

  -- Reading a row leaves the results alone, or consumes the row.
  read_outcome_does :
      (consumes : Bool) (db : Db) (secret : String) (now : ℕ) (r : Outcome)
      → let after = (read_outcome sha256 consumes db secret now r).0 in
        (after ≡ db) ⊎ (after ≡ (consume db r.id).0)
  read_outcome_does consumes db secret now r =
      elim (Bool-cases (str_eq (sha256 secret) r.secret_hash)) [
        | inr a ↦ inl (rw a refl)
        | inl a ↦ elim (Bool-cases (expired r now)) [
          | inl b ↦ inl (rw (a, b) refl)
          | inr b ↦ elim (Bool-cases (str_eq r.status "issued")) [
            | inr c ↦ inl (rw (a, b, c) refl)
            | inl c ↦ elim (Bool-cases consumes) [
              | inr d ↦ inl (rw (a, b, c, d) refl)
              | inl d ↦ elim (Bool-cases ((consume db r.id).1 == 0)) [
                | inl z ↦ inr (rw (a, b, c, d, z) refl)
                | inr z ↦ inr (rw (a, b, c, d, z) refl)
              ]
            ]
          ]
        ]
      ]

  -- An issued bundle is read only by consuming the row.
  issued_consumes :
      (consumes : Bool) (db : Db) (secret : String) (now : ℕ) (r : Outcome) (p : PollResult)
      → (read_outcome sha256 consumes db secret now r).1 ≡ ok p
      → p.status ≡ "issued"
      → ((consume db r.id).1 ≢ 0)
        × ((read_outcome sha256 consumes db secret now r).0 ≡ (consume db r.id).0)
  issued_consumes consumes db secret now r p e s =
      elim (Bool-cases (str_eq (sha256 secret) r.secret_hash)) [
        | inr a ↦ absurd (cc (rw a at e))
        | inl a ↦ elim (Bool-cases (expired r now)) [
          | inl b ↦ absurd (cc (rw (a, b) at e))
          | inr b ↦ elim (Bool-cases (str_eq r.status "issued")) [
            | inr c ↦
                let q : poll r ≡ p = cc (rw (a, b, c) at e) in
                absurd (ground (arith, eq_iff r.status "issued"))
            | inl c ↦ elim (Bool-cases consumes) [
              | inr d ↦ absurd (cc (rw (a, b, c, d) at e))
              | inl d ↦ elim (Bool-cases ((consume db r.id).1 == 0)) [
                | inl z ↦ absurd (cc (rw (a, b, c, d, z) at e))
                | inr z ↦ rw (a, b, c, d, z) (λ k. ground arith, refl)
              ]
            ]
          ]
        ]
      ]

  abbrev pub get : Db → Get → Db × Result PollResult
  get db g = get_result sha256 g.reads g.consumes db g.enrollment g.secret g.now

  abbrev pub gets : Db → List Get → Db
  gets db [] = db
  gets db (g ∷ gs) = gets (get db g).0 gs

  get-Spent : (e : String) (i : ℕ) (db : Db) (g : Get) → Spent e i db → Spent e i (get db g).0
  unfolding get_result
  get-Spent e i db g h = elim (Bool-cases g.reads) [
    | inr n ↦ rw n h
    | inl y ↦ elim (Option-cases (find (of_enrollment g.enrollment) db.results)) [
      | inl n ↦ rw (y, n) h
      | inr (r, f) ↦ elim (read_outcome_does g.consumes db g.secret g.now r) [
        | inl same ↦ rw (y, f, same) h
        | inr used ↦ rw (y, f, used) (consume_keeps e i r.id db h)
      ]
    ]
  ]

  gets-Spent :
      (e : String) (i : ℕ) (db : Db) (gs : List Get) → Spent e i db → Spent e i (gets db gs)
  gets-Spent e i db [] h = h
  gets-Spent e i db (g ∷ gs) h = gets-Spent e i (get db g).0 gs (get-Spent e i db g h)

  abbrev pub Issues : Db → Get → Type 0
  Issues db g = (p : PollResult) × ((get db g).1 ≡ ok p) × (p.status ≡ "issued")

  Issues-consume :
      (db : Db) (g : Get)
      → Issues db g
      → (r : Outcome) × (find (of_enrollment g.enrollment) db.results ≡ some r)
        × ((consume db r.id).1 ≢ 0)
        × ((get db g).0 ≡ (consume db r.id).0)
  unfolding get_result
  Issues-consume db g (p, e, s) = elim (Bool-cases g.reads) [
    | inr n ↦ absurd (cc (rw n at e))
    | inl y ↦ elim (Option-cases (find (of_enrollment g.enrollment) db.results)) [
      | inl n ↦ absurd (cc (rw (y, n) at e))
      | inr (r, f) ↦
          let (some_left, used) =
            issued_consumes g.consumes db g.secret g.now r p (rw (y, f) at e) s in
          (r, f, some_left, rw (y, f) used)
    ]
  ]

  spent :
      (db : Db) (g : Get) (r : Outcome)
      → find (of_enrollment g.enrollment) db.results ≡ some r
      → Spent g.enrollment r.id (consume db r.id).0
  unfolding consume
  spent db g r f = (
    (
      _,
      find-update (of_enrollment g.enrollment) (unread r.id)
          (λ r. record r { read_count = suc r.read_count }) (λ x. refl) db.results r f,
      elim (Bool-cases (unread r.id r)) [ inl u ↦ rw u refl | inr u ↦ rw u refl ],
    ),
    count-update_none (unread r.id) (λ r. record r { read_count = suc r.read_count })
        (λ x. ground arith) db.results,
  )

  Spent-Issues : (i : ℕ) (db : Db) (g : Get) → Spent g.enrollment i db → ¬ Issues db g
  unfolding consume
  Spent-Issues i db g ((r, f, same), none_left) h =
      let (r', f', some_left, used) = Issues-consume db g h in
      let equal : r ≡ r' = cc (sym f ∙ f') in some_left (rw (← equal, same) none_left)

  -- The bundle of an enrollment is handed out once: after a read that returned an issued result, and
  -- any reads of any enrollments since, no read of the same enrollment returns an issued result,
  -- whatever secret it presents and whatever the database carries out.
  pub read_once :
      (db : Db) (first : Get) (between : List Get) (again : Get)
      → Issues db first
      → again.enrollment ≡ first.enrollment
      → ¬ Issues (gets (get db first).0 between) again
  read_once db first between again h same =
      let (r, f, some_left, used) = Issues-consume db first h in
      let here : Spent first.enrollment r.id (get db first).0 = rw used (spent db first r f) in
      Spent-Issues r.id _ again
        (rw same (gets-Spent first.enrollment r.id (get db first).0 between here))
