-- ===== src/Breaker/Sql.antt =====
-- internal/signer/breaker_sql.go: the breaker that all Core processes share through the tables
-- signer_breaker and signer_issuance. A transaction commits or leaves the tables as they were.
use nebula_control_plane.Prelude.{
  ℕ, suc, ◌+◌, ◌-◌, String, Bool, true, false, ◌&&◌, not, List, ◌∷◌, Option, none, some,
  if◌then◌else◌, leb, ltb, ◌==◌, str_eq, keep, count, find, update,
}
use nebula_control_plane.Breaker.Calls.{
  Call, acquires, resets, Answer, refused, tripped, granted, recent,
}

-- `signerBreakerRow`.
pub record Latch : Type 0 where
  pub lane : String
  pub latched : Bool
  pub opened_at : ℕ

-- `signerIssuance`.
pub record Issuance : Type 0 where
  pub id : ℕ
  pub lane : String
  pub ts : ℕ

pub record Db : Type 0 where
  pub latches : List Latch
  pub issuances : List Issuance
  pub next_issuance : ℕ

-- The tables, and when each Core process last swept.
pub record Fleet : Type 0 where
  pub db : Db
  pub last_gc : ℕ → Option ℕ

abbrev pub gc_interval : ℕ
gc_interval = 60000000000

abbrev pub latch_on : String → Latch → Bool
latch_on lane l = str_eq l.lane lane

abbrev pub issued_on : String → Issuance → Bool
issued_on lane i = str_eq i.lane lane

abbrev pub counted : String → ℕ → ℕ → Issuance → Bool
counted lane window now i = issued_on lane i && recent window now i.ts

abbrev pub stale : String → ℕ → ℕ → Issuance → Bool
stale lane window now i = issued_on lane i && ltb (i.ts + window) now

abbrev pub open_latch : Option Latch → Bool
open_latch none = false
open_latch (some l) = l.latched

-- The latch of a lane; open is false when there is no row.
unfoldable pub latch_state : Db → String → Bool
latch_state db lane = open_latch (find (latch_on lane) db.latches)

-- `upsertLatch`.
unfoldable pub upsert_latch : Latch → Db → Db
upsert_latch row db = record db {
  latches =
      if count (latch_on row.lane) db.latches == 0
      then row ∷ db.latches
      else update (latch_on row.lane)
          (λ l. record l { latched = row.latched; opened_at = row.opened_at }) db.latches;
}

abbrev pub issue : String → ℕ → Db → Db
issue lane now db = record db {
  issuances = record { id = db.next_issuance; lane = lane; ts = now } ∷ db.issuances;
  next_issuance = suc db.next_issuance;
}

-- The transaction of `acquire`.
unfoldable pub acquire_tx : String → ℕ → ℕ → Db → ℕ → Db × Answer
acquire_tx lane max window db now =
    if latch_state db lane
    then (db, refused)
    else if leb max (count (counted lane window now) db.issuances)
    then (upsert_latch (record { lane = lane; latched = true; opened_at = now }) db, tripped)
    else (issue lane now db, granted)

abbrev pub due : Option ℕ → ℕ → Bool
due none now = true
due (some t) now = not (ltb (now - t) gc_interval)

-- `maybeGC`; a failing `DELETE` is ignored.
unfoldable pub maybe_gc : Bool → String → ℕ → Fleet → ℕ → ℕ → Fleet
maybe_gc sweeps lane window f core now =
    if due (f.last_gc core) now
    then record {
      db = record f.db {
        issuances =
            if sweeps
            then keep (λ i. not (stale lane window now i)) f.db.issuances
            else f.db.issuances;
      };
      last_gc = λ k. if k == core then some now else f.last_gc k;
    }
    else f

abbrev pub answered : Bool → Fleet → Db × Answer → Fleet × Option Answer
answered true f (db, a) = (record f { db = db }, some a)
answered false f (db, a) = (f, none)

-- `acquire`; none stands for the error of a transaction that fails.
unfoldable pub acquire : Bool → Bool → String → ℕ → ℕ → Fleet → ℕ → ℕ → Fleet × Option Answer
acquire commits sweeps lane max window f core now =
    if max == 0
    then (f, some granted)
    else (let g = maybe_gc sweeps lane window f core now in
        answered commits g (acquire_tx lane max window g.db now))

-- `isOpen`.
unfoldable pub is_open : String → ℕ → Db → Bool
is_open lane max db = if max == 0 then false else latch_state db lane

-- `reset`, when its transaction commits.
unfoldable pub reset : String → Db → Db
reset lane db =
    upsert_latch (record { lane = lane; latched = false; opened_at = 0 })
      (record db { issuances = keep (λ i. not (issued_on lane i)) db.issuances })

-- What the caller gets; the error refuses.
abbrev pub closed : Option Answer → Answer
closed none = refused
closed (some a) = a

-- The breaker as the Core processes call it. The flag of a call says whether its transaction commits.
abbrev pub attempt : String → ℕ → ℕ → Fleet → Call × Bool → Fleet × Answer
attempt lane max window f (acquires core sweeps now, commits) =
    let (g, a) = acquire commits sweeps lane max window f core now in (g, closed a)
attempt lane max window f (resets, true) = (record f { db = reset lane f.db }, refused)
attempt lane max window f (resets, false) = (f, refused)

-- The breaker when the transactions commit.
abbrev pub sql : String → ℕ → ℕ → Fleet → Call → Fleet × Answer
sql lane max window f c = attempt lane max window f (c, true)
