-- ===== src/AuditChain.antt =====
-- internal/store/audit.go: the hash-chained audit log. `sha256` is SHA-256, and
-- `bytes_of` gives the bytes of a text; rows stand in the order of their numbers.
use nebula_control_plane.Prelude.{
  ℕ, suc, ◌+◌, ◌-◌, ◌≤◌, ◌<◌, ◌≡◌, refl, ◌∙◌, String, Bool, true, false, not, List, [], ◌∷◌, ◌++◌,
  Option, none, some, arith, if◌then◌else◌, ltb, ◌==◌, str_eq, eq_iff, newest, length, Bool-cases,
  Option-cases, inl, inr,
}
use nebula_control_plane.Nonce.Keyring.{put_bytes}
pub mod Framing
pub mod Tamper
mod Tests

-- `Audit`.
pub record Row : Type 0 where
  pub seq : ℕ
  pub ts : ℕ
  pub actor : String
  pub action : String
  pub target : String
  pub details : String
  pub prev_hash : String
  pub hash : String

-- What a walk of the chain answers: the rows verified, and what is wrong with the next one.
pub data Verdict : Type 0 where
  intact gap broken_link hash_mismatch : ℕ → Verdict

-- `writeField`, after `writeUint` of the length.
unfoldable pub field : List ℕ → List ℕ
field bs = put_bytes 8 (length bs) ++ bs

module _ (bytes_of : String → List ℕ) where
  -- What `auditHash` writes: the two numbers, and each text after its length.
  unfoldable pub framed : ℕ → ℕ → String → String → String → String → String → List ℕ
  framed seq ts actor action target details prev =
      put_bytes 8 seq
      ++ (put_bytes 8 ts
          ++ (field (bytes_of actor)
              ++ (field (bytes_of action)
                  ++ (field (bytes_of target)
                      ++ (field (bytes_of details) ++ field (bytes_of prev))))))

  abbrev pub framed_row : Row → List ℕ
  framed_row r = framed r.seq r.ts r.actor r.action r.target r.details r.prev_hash

module _ (sha256 : List ℕ → String) (bytes_of : String → List ℕ) (genesis_prev : String) where
  -- `auditHash`.
  abbrev pub audit_hash : Row → String
  audit_hash r = sha256 (framed_row bytes_of r)

  -- The sequence number and the previous hash for the next row.
  abbrev pub next_link : Option Row → ℕ × String
  next_link none = (1, genesis_prev)
  next_link (some last) = (suc last.seq, last.hash)

  abbrev pub last_row : List Row → Option Row
  last_row rows = newest (λ r. r.seq) (λ r. true) rows

  abbrev pub new_row : ℕ × String → ℕ → String → String → String → String → Row
  new_row (seq, prev) ts actor action target details = record {
    seq = seq;
    ts = ts;
    actor = actor;
    action = action;
    target = target;
    details = details;
    prev_hash = prev;
    hash = sha256 (framed bytes_of seq ts actor action target details prev);
  }

  -- `AppendAudit`; the flag says whether its transaction commits.
  unfoldable pub append_audit :
      Bool → List Row → ℕ → String → String → String → String → List Row × Option Row
  append_audit false rows ts actor action target details = (rows, none)
  append_audit true rows ts actor action target details =
      let e = new_row (next_link (last_row rows)) ts actor action target details in
      (rows ++ (e ∷ []), some e)

  -- The loop of `VerifyAudit`.
  unfoldable pub verify_from : ℕ → String → List Row → Verdict
  verify_from want prev [] = intact (want - 1)
  verify_from want prev (r ∷ rs) =
      let rest = verify_from (suc want) r.hash rs in
      if not (r.seq == want)
      then gap (want - 1)
      else if not (str_eq r.prev_hash prev)
      then broken_link (r.seq - 1)
      else if not (str_eq r.hash (audit_hash r))
      then hash_mismatch (r.seq - 1)
      else rest

  -- `VerifyAudit`, when the rows can be read.
  unfoldable pub verify_audit : List Row → Verdict
  verify_audit rows = verify_from 1 genesis_prev rows

  -- What a walk that finds nothing wrong has seen of its first row.
  pub record IsLinked (want : ℕ) (prev : String) (r : Row) (rs : List Row) (n : ℕ) : Type 0 where
    pub numbered : r.seq ≡ want
    pub linked : r.prev_hash ≡ prev
    pub hashed : r.hash ≡ audit_hash r
    pub rest : verify_from (suc want) r.hash rs ≡ intact n

  pub intact-IsLinked :
      (want : ℕ) (prev : String) (r : Row) (rs : List Row) (n : ℕ)
      → verify_from want prev (r ∷ rs) ≡ intact n
      → IsLinked want prev r rs n
  unfolding verify_from
  intact-IsLinked want prev r rs n e = elim (Bool-cases (r.seq == want)) [
    | inr a ↦ absurd (cc (rw a at e))
    | inl a ↦ elim (Bool-cases (str_eq r.prev_hash prev)) [
      | inr b ↦ absurd (cc (rw (a, b) at e))
      | inl b ↦ elim (Bool-cases (str_eq r.hash (audit_hash r))) [
        | inr c ↦ absurd (cc (rw (a, b, c) at e))
        | inl c ↦ record {
          numbered = ground arith;
          linked = ground (arith, eq_iff r.prev_hash prev);
          hashed = ground (arith, eq_iff r.hash (audit_hash r));
          rest = rw (a, b, c) at e;
        }
      ]
    ]
  ]

  intact-linked :
      (want : ℕ) (prev : String) (r : Row) (rs : List Row) (v : Verdict)
      → r.seq ≡ want
      → r.prev_hash ≡ prev
      → r.hash ≡ audit_hash r
      → verify_from (suc want) r.hash rs ≡ v
      → verify_from want prev (r ∷ rs) ≡ v
  unfolding verify_from
  intact-linked want prev r rs v a b c d =
      let a' : (r.seq == want) ≡ true = ground arith in
      let b' : str_eq r.prev_hash prev ≡ true = ground (arith, eq_iff r.prev_hash prev) in
      let c' : str_eq r.hash (audit_hash r) ≡ true = ground (arith, eq_iff r.hash (audit_hash r)) in
      rw (a', b', c') d

  -- The number of an intact chain's last row, and where the next row links.
  pub last_link :
      (want : ℕ) (prev : String) (r : Row) (rs : List Row) (n : ℕ)
      → verify_from want prev (r ∷ rs) ≡ intact n
      → (last : Row) × (last_row (r ∷ rs) ≡ some last) × (last.seq ≡ n) × (want ≤ n)
  unfolding verify_from newest
  last_link want prev r [] n e =
      let l = intact-IsLinked want prev r [] n e in
      let same : intact (suc want - 1) ≡ intact n = l.rest in
      (r, refl, ground (arith, l.numbered), ground (arith, l.numbered))
  last_link want prev r (s ∷ rs) n e =
      let l = intact-IsLinked want prev r (s ∷ rs) n e in
      let (last, f, num, more) = last_link (suc want) r.hash s rs n l.rest in
      let below : ltb r.seq last.seq ≡ true = ground (arith, l.numbered) in
      (last, rw (f, below) refl, num, omega arith)

  extends :
      (want : ℕ) (prev : String) (r : Row) (rs : List Row) (n : ℕ) (e last : Row)
      → verify_from want prev (r ∷ rs) ≡ intact n
      → last_row (r ∷ rs) ≡ some last
      → e.seq ≡ suc n
      → e.prev_hash ≡ last.hash
      → e.hash ≡ audit_hash e
      → verify_from want prev ((r ∷ rs) ++ (e ∷ [])) ≡ intact (suc n)
  unfolding verify_from newest
  extends want prev r [] n e last h f num link hashed =
      let l = intact-IsLinked want prev r [] n h in
      let same : intact (suc want - 1) ≡ intact n = l.rest in
      let here : some r ≡ some last = f in
      intact-linked want prev r (e ∷ []) _ l.numbered l.linked l.hashed
        (intact-linked (suc want) r.hash e [] _ (ground arith) (cc) hashed (ground arith))
  extends want prev r (s ∷ rs) n e last h f num link hashed =
      let l = intact-IsLinked want prev r (s ∷ rs) n h in
      let (last', f', num', more) = last_link (suc want) r.hash s rs n l.rest in
      let below : ltb r.seq last'.seq ≡ true = ground (arith, l.numbered) in
      let here : some last' ≡ some last = rw (f', below) at f in
      let same : last' ≡ last = cc in
      intact-linked want prev r ((s ∷ rs) ++ (e ∷ [])) _ l.numbered l.linked l.hashed
        (extends (suc want) r.hash s rs n e last l.rest (f' ∙ here) num link hashed)

  -- Appending to a chain that verifies gives one that verifies, with one row more; a transaction that
  -- fails leaves it as it was.
  pub append_keeps_intact :
      (commits : Bool) (rows : List Row) (n ts : ℕ) (actor action target details : String)
      → verify_audit rows ≡ intact n
      → verify_audit (append_audit commits rows ts actor action target details).0
        ≡ intact (if commits then suc n else n)
  unfolding verify_audit verify_from append_audit newest
  append_keeps_intact false rows n ts actor action target details h = h
  append_keeps_intact true [] n ts actor action target details h =
      let none_yet : intact (1 - 1) ≡ intact n = h in
      intact-linked 1 genesis_prev (new_row (1, genesis_prev) ts actor action target details) []
        (intact (suc n)) refl refl refl (ground arith)
  append_keeps_intact true (r ∷ rs) n ts actor action target details h =
      let (last, f, num, more) = last_link 1 genesis_prev r rs n h in
      rw f (extends 1 genesis_prev r rs n _ last h f (ground arith) refl refl)

-- internal/auditverify/auditverify.go, `verifyOnce`: the counters and gauges of the periodic check.
-- none stands for a chain that could not be read.
pub record Metrics : Type 0 where
  pub runs : ℕ
  pub failures : ℕ
  pub tampered : ℕ
  pub rows : ℕ
  pub last_success : ℕ

unfoldable pub verify_once : Metrics → Option Verdict → ℕ → Metrics
verify_once m none now = record m { runs = suc m.runs; failures = suc m.failures }
verify_once m (some (intact n)) now = record m { runs = suc m.runs; rows = n; last_success = now }
verify_once m (some (gap n)) now = record m {
  runs = suc m.runs;
  failures = suc m.failures;
  tampered = suc m.tampered;
}
verify_once m (some (broken_link n)) now = record m {
  runs = suc m.runs;
  failures = suc m.failures;
  tampered = suc m.tampered;
}
verify_once m (some (hash_mismatch n)) now = record m {
  runs = suc m.runs;
  failures = suc m.failures;
  tampered = suc m.tampered;
}
