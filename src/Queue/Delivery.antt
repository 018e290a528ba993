-- ===== src/Queue/Delivery.antt =====
-- internal/queue/durable.go: what is published and delivered.
use nebula_control_plane.Prelude.{
  ℕ, zero, suc, ◌+◌, ◌≤◌, ◌⊎◌, ◌||◌, str_eq, update, ◌≡◌, refl, String, Bool, true, false, List, [],
  ◌∷◌, arith, ◌==◌, keep, count, take, length, length-take, count-append, All, Bool-cases, inl, inr,
}
use nebula_control_plane.Queue.Types.{
  Candidate, Item, ok, Leased, Db, ready, live, ready_item, lapsed, claimable,
}
use nebula_control_plane.Queue.Messages.{
  depth, publish, authentic, claim_rows, claim, reclaim, new_item, set_status,
}

-- A row of a list.
abbrev pub Among : Item → List Item → Type 0
Among x [] = ⊥
Among x (y ∷ ys) = (x ≡ y) ⊎ Among x ys

All-take : (P : Item → Type 0) (n : ℕ) (xs : List Item) → All P xs → All P (take n xs)
All-take P zero xs h = tt
All-take P (suc n) [] h = tt
All-take P (suc n) (x ∷ xs) h = (h.0, All-take P n xs h.1)

module _ (mac : Candidate → String) where
  -- A publication never lifts the number of messages that wait or are in flight above the bound.
  pub publish_bounded :
      (counts inserts : Bool) (max_depth : ℕ) (db : Db) (c : Candidate)
      → depth db ≤ max_depth
      → depth (publish mac counts inserts max_depth db c).0 ≤ max_depth
  unfolding publish depth count
  publish_bounded counts inserts max_depth db c h =
      let one = count-append live db.items (new_item mac db c ∷ []) in ground (arith, one)

  -- The message of a row of the table that is ready, or whose lease has run out, and has the right MAC.
  abbrev pub FromAuthentic : ℕ → List Item → Leased → Type 0
  FromAuthentic now rows l =
      (it : Item) × Among it rows
      × ((ready_item it || lapsed now it) ≡ true)
      × (str_eq it.mac (mac it.candidate) ≡ true)
      × (l.id ≡ it.id)
      × (l.candidate ≡ it.candidate)
      × (l.attempts ≡ suc it.attempts)

  -- What a claim reads of a row, after the lapsed ones are ready again.
  abbrev Reads : ℕ → List Item → Item → Type 0
  Reads now rows x =
      (it : Item) × Among it rows
      × ((ready_item it || lapsed now it) ≡ true)
      × (x.mac ≡ it.mac)
      × (x.id ≡ it.id)
      × (x.candidate ≡ it.candidate)
      × (x.attempts ≡ it.attempts)

  reclaimed-Reads :
      (now : ℕ) (rows : List Item) (its : List Item)
      → ((x : Item) → Among x its → Among x rows)
      → All (Reads now rows) (keep ready_item (update (lapsed now) (set_status ready) its))
  unfolding update keep
  reclaimed-Reads now rows [] sub = tt
  reclaimed-Reads now rows (it ∷ its) sub =
      let rest = reclaimed-Reads now rows its (λ x h. sub x (inr h)) in
      elim (Bool-cases (lapsed now it)) [
        | inl l ↦ rw l ((it, sub it (inl refl), ground arith, refl, refl, refl, refl), rest)
        | inr l ↦ elim (Bool-cases (ready_item it)) [
          | inl r ↦ rw (l, r) ((it, sub it (inl refl), ground arith, refl, refl, refl, refl), rest)
          | inr r ↦ rw (l, r) rest
        ]
      ]

  claim_rows_authentic :
      (writes : ℕ → Bool) (until now : ℕ) (rows its : List Item) (db : Db)
      → All (Reads now rows) its
      → All (FromAuthentic now rows) (claim_rows mac writes until its db).1
        × (length (claim_rows mac writes until its db).1 ≤ length its)
  unfolding claim_rows
  claim_rows_authentic writes until now rows [] db a = (tt, omega arith)
  claim_rows_authentic writes until now rows (it ∷ its) db a =
      elim (Bool-cases (authentic mac it)) [
        | inr bad ↦
            let (h, k) = claim_rows_authentic writes until now rows its _ a.1 in
            rw bad (h, omega arith)
        | inl good ↦ elim (Bool-cases (writes it.id)) [
          | inr lost ↦
              let (h, k) = claim_rows_authentic writes until now rows its db a.1 in
              rw (good, lost) (h, omega arith)
          | inl done ↦ elim (Bool-cases (count (claimable it.id) db.items == 0)) [
            | inr won ↦
                let (h, k) = claim_rows_authentic writes until now rows its _ a.1 in
                let (x, here, due, m, i, c, n) = a.0 in
                let right : str_eq x.mac (mac x.candidate) ≡ true = rw (← m, ← c) good in
                rw (good, done, won)
                  (((x, here, due, right, i, c, omega (arith, n)), h), omega arith)
            | inl raced ↦
                let (h, k) = claim_rows_authentic writes until now rows its db a.1 in
                rw (good, done, raced) (h, omega arith)
          ]
        ]
      ]

  -- A claim delivers at most `limit` messages, and each is that of a row of the table before it that is
  -- ready, or whose lease has run out, and whose MAC is right, whichever statements are carried
  -- out.
  pub claim_authentic :
      (reclaims reads : Bool) (writes : ℕ → Bool) (db : Db) (limit ttl now : ℕ) (ls : List Leased)
      → (claim mac reclaims reads writes db limit ttl now).1 ≡ ok ls
      → All (FromAuthentic now db.items) ls × (length ls ≤ limit)
  unfolding claim
  claim_authentic false reads writes db limit ttl now ls e = cc
  claim_authentic true false writes db limit ttl now ls e = cc
  claim_authentic true true writes db limit ttl now ls e =
      let ready_db = reclaim now db in
      let chosen = take limit (keep ready_item ready_db.items) in
      let read =
        All-take (Reads now db.items) limit (keep ready_item ready_db.items)
          (reclaimed-Reads now db.items db.items (λ x h. h)) in
      let (h, k) = claim_rows_authentic writes (now + ttl) now db.items chosen ready_db read in
      let same : (claim_rows mac writes (now + ttl) chosen ready_db).1 ≡ ls = cc in
      rw (← same) (h, omega (arith, k, length-take limit (keep ready_item ready_db.items)))
