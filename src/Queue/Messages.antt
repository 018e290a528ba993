-- ===== src/Queue/Messages.antt =====
-- internal/queue/durable.go: `Publish`, `Claim`, `Ack`, `Nack` and `Depth`. `mac` is the HMAC of the
-- queue's key over the length-prefixed fields of a message.
use nebula_control_plane.Prelude.{
  ℕ, suc, ◌+◌, String, Bool, not, List, [], ◌∷◌, ◌++◌, none, some, if◌then◌else◌, leb, ◌==◌, str_eq,
  keep, count, find, update, take,
}
use nebula_control_plane.Queue.Types.{
  Candidate, Status, ready, inflight, dead, Item, duplicate, backpressure, item_not_found, db_error,
  Result, ok, err, Leased, Db, live, lapsed, ready_item, has_id, claimable, enrolls,
}

-- `OpenDurable`: what stands for a configured bound of zero.
abbrev pub or_default : ℕ → ℕ → ℕ
or_default d n = if n == 0 then d else n

abbrev pub max_depth_of : ℕ → ℕ
max_depth_of = or_default 10000

abbrev pub max_attempts_of : ℕ → ℕ
max_attempts_of = or_default 5

-- `Depth`.
unfoldable pub depth : Db → ℕ
depth db = count live db.items

abbrev pub set_status : Status → Item → Item
set_status s it = record it { status = s }

abbrev pub lease : Item → Leased
lease it = record { id = it.id; candidate = it.candidate; attempts = suc it.attempts }

abbrev pub reclaim : ℕ → Db → Db
reclaim now db = record db { items = update (lapsed now) (set_status ready) db.items }

module _ (mac : Candidate → String) where
  abbrev pub new_item : Db → Candidate → Item
  new_item db c = record {
    id = db.next_item;
    candidate = c;
    mac = mac c;
    status = ready;
    attempts = 0;
    lease_until = 0;
  }

  -- `Publish`; the flags say whether the count and the insertion are carried out. The unique index
  -- refuses a second message of an enrollment.
  unfoldable pub publish : Bool → Bool → ℕ → Db → Candidate → Db × Result (Unit {0})
  publish counts inserts max_depth db c =
      if not counts
      then (db, err db_error)
      else if leb max_depth (depth db)
      then (db, err backpressure)
      else if not inserts
      then (db, err db_error)
      else if count (enrolls c.enrollment_id) db.items == 0
      then (
        record db { items = db.items ++ (new_item db c ∷ []); next_item = suc db.next_item },
        ok tt,
      )
      else (db, err duplicate)

  abbrev pub authentic : Item → Bool
  authentic it = str_eq it.mac (mac it.candidate)

  -- The rows of a `Claim`, one after the other. `writes` says for which of them the `UPDATE` is
  -- carried out.
  unfoldable pub claim_rows : (ℕ → Bool) → ℕ → List Item → Db → Db × List Leased
  claim_rows writes until [] db = (db, [])
  claim_rows writes until (it ∷ its) db =
      let poison =
        if writes it.id
        then record db { items = update (has_id it.id) (set_status dead) db.items }
        else db in
      let taken = record db {
        items =
            update (claimable it.id)
              (λ i. record i { status = inflight; lease_until = until; attempts = suc i.attempts })
              db.items;
      } in
      let after_poison = claim_rows writes until its poison in
      let after_taken = claim_rows writes until its taken in
      let skipped = claim_rows writes until its db in
      if not (authentic it)
      then after_poison
      else if not (writes it.id)
      then skipped
      else if count (claimable it.id) db.items == 0
      then skipped
      else (after_taken.0, lease it ∷ after_taken.1)

  -- `Claim`; the flags say whether the reclaiming and the query are carried out.
  unfoldable pub claim : Bool → Bool → (ℕ → Bool) → Db → ℕ → ℕ → ℕ → Db × Result (List Leased)
  claim reclaims reads writes db limit lease_ttl now =
      if not reclaims
      then (db, err db_error)
      else (let ready_db = reclaim now db in
          if not reads
          then (ready_db, err db_error)
          else (let (after, leased) =
                claim_rows writes (now + lease_ttl) (take limit (keep ready_item ready_db.items))
                  ready_db in
              (after, ok leased)))

-- `Ack`.
unfoldable pub ack : ℕ → Db → Db
ack i db = record db { items = keep (λ it. not (has_id i it)) db.items }

-- `Nack`.
unfoldable pub nack : ℕ → ℕ → Db → Db × Result (Unit {0})
nack max_attempts i db = elim (find (has_id i) db.items) [
  | none ↦ (db, err item_not_found)
  | some it ↦
      if leb max_attempts it.attempts
      then (record db { items = update (has_id i) (set_status dead) db.items }, ok tt)
      else (
        record db {
          items = update (has_id i) (λ x. record x { status = ready; lease_until = 0 }) db.items;
        },
        ok tt,
      )
]
