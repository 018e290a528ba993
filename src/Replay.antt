-- ===== src/Replay.antt =====
-- internal/replay: the guard against a nonce that is used twice, in one process and shared through
-- the table nonce_replays. Times are natural numbers.
use nebula_control_plane.Prelude.{
  ℕ, ◌+◌, ◌-◌, ◌≤◌, ◌<◌, ◌≡◌, refl, String, Bool, true, false, not, List, [], ◌∷◌, Option, none,
  some, arith, if◌then◌else◌, ltb, leb, ◌==◌, str_eq, eq_iff, keep, count, find, Bool-cases,
  Option-cases, inl, inr, ◌&&◌,
}
pub mod SingleUse
pub mod Memory
mod Tests

-- An entry of the map, or a row of the table: a nonce and when it expires.
pub record Seen : Type 0 where
  pub nonce : String
  pub expires_at : ℕ

abbrev pub for_nonce : String → Seen → Bool
for_nonce n s = str_eq s.nonce n

abbrev pub unexpired : ℕ → Seen → Bool
unexpired now s = ltb now s.expires_at

-- The map's entry for a nonce, while it lasts.
abbrev pub lives : Option Seen → ℕ → Bool
lives none now = false
lives (some s) now = unexpired now s

-- `Cache.Observe`.
unfoldable pub observe : ℕ → List Seen → String → ℕ → List Seen × Bool
observe ttl seen nonce now = if lives (find (for_nonce nonce) seen) now then (seen, false) else (
  record { nonce = nonce; expires_at = now + ttl }
      ∷ keep (λ s. not (for_nonce nonce s)) (keep (unexpired now) seen),
  true,
)

abbrev pub sweep : ℕ → List Seen → List Seen
sweep now rows = keep (λ s. not (ltb s.expires_at now)) rows

abbrev pub gc_interval : ℕ
gc_interval = 60000000000

abbrev pub due : Option ℕ → ℕ → Bool
due none now = true
due (some t) now = not (ltb (now - t) gc_interval)

-- The insertion of `SQLStore.Observe`, which the primary key refuses when the nonce has a row.
abbrev pub insert : ℕ → List Seen → String → ℕ → List Seen × Bool
insert ttl rows nonce now =
    if count (for_nonce nonce) rows == 0
    then (record { nonce = nonce; expires_at = now + ttl } ∷ rows, true)
    else (rows, false)

-- `SQLStore.Observe` in a process that last swept at `last_gc`: the rows, when it swept last, and the
-- answer; none is the error of a database that does not answer.
unfoldable pub observe_sql :
    Bool → Bool → ℕ → List Seen → Option ℕ → String → ℕ → List Seen × Option ℕ × Option Bool
observe_sql inserts sweeps ttl rows last_gc nonce now =
    let swept = if due last_gc now && sweeps then sweep now rows else rows in
    let gc = if due last_gc now then some now else last_gc in
    let (after, first) = insert ttl swept nonce now in
    if inserts then (after, gc, some first) else (swept, gc, none)
