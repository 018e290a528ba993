-- ===== src/Queue/Results.antt =====
-- internal/queue/durable.go: `PutResult`, `GetResult` and `PendingResultIDs`. `sha256` is the digest
-- under which the secret of a result is kept.
use nebula_control_plane.Prelude.{
  ℕ, suc, String, Bool, not, ◌&&◌, List, [], ◌∷◌, ◌++◌, none, some, if◌then◌else◌, leb, ◌==◌,
  str_eq, keep, count, find, update, map,
}
use nebula_control_plane.Queue.Types.{
  Outcome, result_not_found, result_gone, db_error, Result, ok, err, PollResult, Db, of_enrollment,
  unread,
}

abbrev pub new_outcome : Db → String → String → String → String → String → ℕ → Outcome
new_outcome db e status secret_hash bundle reason expires_at = record {
  id = db.next_result;
  enrollment_id = e;
  status = status;
  bundle = bundle;
  secret_hash = secret_hash;
  reason = reason;
  expires_at = expires_at;
  read_count = 0;
}

-- `PutResult`: an insertion, or an update that keeps the secret and the number of reads.
unfoldable pub put_result : Db → String → String → String → String → String → ℕ → Db
put_result db e status secret_hash bundle reason expires_at =
    if count (of_enrollment e) db.results == 0
    then record db {
      results = db.results ++ (new_outcome db e status secret_hash bundle reason expires_at ∷ []);
      next_result = suc db.next_result;
    }
    else record db {
      results =
          update (of_enrollment e)
            (λ r. record r {
              status = status;
              bundle = bundle;
              reason = reason;
              expires_at = expires_at;
            })
            db.results;
    }

abbrev pub poll : Outcome → PollResult
poll r = record { status = r.status; bundle = r.bundle; reason = r.reason }

-- The `UPDATE` of `GetResult`, with the rows it affects.
unfoldable pub consume : Db → ℕ → Db × ℕ
consume db i = (
  record db {
    results = update (unread i) (λ r. record r { read_count = suc r.read_count }) db.results;
  },
  count (unread i) db.results,
)

abbrev pub once : Outcome → Db × ℕ → Db × Result PollResult
once r (db, rows) = if rows == 0 then (db, err result_gone) else (db, ok (poll r))

abbrev pub expired : Outcome → ℕ → Bool
expired r now = not (r.expires_at == 0) && leb r.expires_at now

module _ (sha256 : String → String) where
  abbrev pub read_outcome : Bool → Db → String → ℕ → Outcome → Db × Result PollResult
  read_outcome consumes db secret now r =
      if not (str_eq (sha256 secret) r.secret_hash)
      then (db, err result_not_found)
      else if expired r now
      then (db, err result_gone)
      else if not (str_eq r.status "issued")
      then (db, ok (poll r))
      else if consumes
      then once r (consume db r.id)
      else (db, err db_error)

  -- `GetResult`; the flags say whether the query and the `UPDATE` are carried out.
  unfoldable pub get_result : Bool → Bool → Db → String → String → ℕ → Db × Result PollResult
  get_result reads consumes db e secret now =
      if not reads then (db, err db_error) else elim (find (of_enrollment e) db.results) [
        | none ↦ (db, err result_not_found)
        | some r ↦ read_outcome consumes db secret now r
      ]

-- `PendingResultIDs`.
unfoldable pub pending_result_ids : Db → List String
pending_result_ids db =
    map (λ r. r.enrollment_id) (keep (λ r. str_eq r.status "pending") db.results)
