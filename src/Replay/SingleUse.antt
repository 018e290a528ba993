-- ===== src/Replay/SingleUse.antt =====
-- internal/replay: a nonce is accepted once while it is fresh.
use nebula_control_plane.Prelude.{
  ℕ, ◌+◌, ◌≤◌, ◌<◌, ◌≡◌, ◌≢◌, String, Bool, true, false, not, ◌&&◌, List, [], ◌∷◌, Option, some,
  arith, if◌then◌else◌, ltb, leb, str_eq, eq_iff, count, count-keep, count_mono, Bool-cases, inl,
  inr, All,
}
use nebula_control_plane.Replay.{Seen, for_nonce, sweep, due, insert, observe_sql}

-- The table holds the nonce at least until then.
abbrev held : String → ℕ → Seen → Bool
held n until s = for_nonce n s && leb until s.expires_at

abbrev Held : String → ℕ → List Seen → Type 0
Held n until rows = 0 < count (held n until) rows

sweep-Held :
    (n : String) (until now : ℕ) (rows : List Seen)
    → now ≤ until
    → Held n until rows
    → Held n until (sweep now rows)
sweep-Held n until now rows h k = omega (
  arith,
  k,
  count-keep (λ s. not (ltb s.expires_at now)) (held n until) (λ s e. ground arith) rows,
)

insert-Held :
    (ttl : ℕ) (n m : String) (until now : ℕ) (rows : List Seen)
    → Held n until rows
    → Held n until (insert ttl rows m now).0
unfolding count
insert-Held ttl n m until now rows k = ground arith

Held-insert :
    (ttl : ℕ) (n : String) (until now : ℕ) (rows : List Seen)
    → Held n until rows
    → (insert ttl rows n now).1 ≡ false
Held-insert ttl n until now rows k =
    ground (arith, count_mono (held n until) (for_nonce n) (λ s e. ground arith) rows)

-- One call of `Observe` by some process.
pub record Call : Type 0 where
  pub nonce : String
  pub now : ℕ
  pub last_gc : Option ℕ
  pub inserts : Bool
  pub sweeps : Bool

module _ (ttl : ℕ) where
  abbrev pub observes : List Seen → Call → List Seen × Option Bool
  observes rows c =
      let (after, gc, first) = observe_sql c.inserts c.sweeps ttl rows c.last_gc c.nonce c.now in
      (after, first)

  abbrev pub table_after : List Seen → List Call → List Seen
  table_after rows [] = rows
  table_after rows (c ∷ cs) = table_after (observes rows c).0 cs

  swept-Held :
      (n : String) (until : ℕ) (rows : List Seen) (c : Call)
      → c.now ≤ until
      → Held n until rows
      → Held n until (if due c.last_gc c.now && c.sweeps then sweep c.now rows else rows)
  swept-Held n until rows c h k = elim (Bool-cases (due c.last_gc c.now && c.sweeps)) [
    | inl d ↦ rw d (sweep-Held n until c.now rows h k)
    | inr d ↦ rw d k
  ]

  observes-Held :
      (n : String) (until : ℕ) (rows : List Seen) (c : Call)
      → c.now ≤ until
      → Held n until rows
      → Held n until (observes rows c).0
  unfolding observe_sql
  observes-Held n until rows c h k =
      let s = swept-Held n until rows c h k in
      elim (Bool-cases c.inserts) [
        | inl d ↦ rw d (insert-Held ttl n c.nonce until c.now _ s)
        | inr d ↦ rw d s
      ]

  table_after-Held :
      (n : String) (until : ℕ) (rows : List Seen) (cs : List Call)
      → All (λ c. c.now ≤ until) cs
      → Held n until rows
      → Held n until (table_after rows cs)
  table_after-Held n until rows [] a k = k
  table_after-Held n until rows (c ∷ cs) a k =
      table_after-Held n until (observes rows c).0 cs a.1 (observes-Held n until rows c a.0 k)

  accepted-Held :
      (rows : List Seen) (c : Call)
      → (observes rows c).1 ≡ some true
      → Held c.nonce (c.now + ttl) (observes rows c).0
  unfolding observe_sql count
  accepted-Held rows c e =
      let self : str_eq c.nonce c.nonce ≡ true = ground (arith, eq_iff c.nonce c.nonce) in
      ground arith

  -- While a nonce that some process accepted lasts, no process that shares the table accepts it
  -- again, whatever nonces are observed meanwhile, whenever processes sweep and whichever statements
  -- are carried out.
  pub single_use :
      (rows : List Seen) (first : Call) (between : List Call) (again : Call)
      → (observes rows first).1 ≡ some true
      → All (λ c. c.now ≤ first.now + ttl) between
      → again.now ≤ first.now + ttl
      → again.nonce ≡ first.nonce
      → (observes (table_after (observes rows first).0 between) again).1 ≢ some true
  unfolding observe_sql
  single_use rows first between again e a h same f =
      let held =
        table_after-Held first.nonce (first.now + ttl) (observes rows first).0 between a
          (accepted-Held rows first e) in
      let rows' = table_after (observes rows first).0 between in
      let here : Held again.nonce (first.now + ttl) rows' = rw same held in
      let s = swept-Held again.nonce (first.now + ttl) rows' again h here in
      let no = Held-insert ttl again.nonce (first.now + ttl) again.now _ s in
      elim (Bool-cases again.inserts) [ inl d ↦ cc (no, rw d at f) | inr d ↦ cc (rw d at f) ]
