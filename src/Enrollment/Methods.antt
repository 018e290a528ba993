-- ===== src/Enrollment/Methods.antt =====
-- internal/enrollment/enrollment.go: the three methods and `Process`, under a predicate that the changes
-- of Moves keep.
use nebula_control_plane.Prelude.{
  if-P, ℕ, String, Bool, true, false, not, Option, none, some, if◌then◌else◌, ◌≡◌, Bool-cases,
  Option-cases, inl, inr, ◌==◌, str_eq, find, count,
}
use nebula_control_plane.JoinKey.Keys.{
  JoinKey, KeyResult, ok, err, key_expired, key_exhausted, Keys, presented, consumable, lookup_key,
  consume_key,
}
use nebula_control_plane.Trust.Cloud.{CloudConfig, Identity, Grant}
use nebula_control_plane.Trust.User.{UserConfig}
use nebula_control_plane.Queue.Types.{Candidate}
use nebula_control_plane.Enrollment.Types.{
  Request, Reason, sso_unset, no_user_trust, wrong_device, wrong_nonce, nonce_not_authentic,
  sso_not_configured, Processed, Tables, World, Enrollment,
}
use nebula_control_plane.Enrollment.Services.{
  Config, Carried, Services, Attested, attested, attestation_refused, Assertion,
}
use nebula_control_plane.Enrollment.Verify.{Verified, verified, rejected, verify}
use nebula_control_plane.Enrollment.Admission.{deny, refused}
use nebula_control_plane.Enrollment.Process.{
  consumed, looked_up, process_token, account_matched, vouched, presented_request, cloud_trusted,
  process_attested,
}
use nebula_control_plane.Enrollment.Sso.{
  member_matched, asserted, enveloped, user_trusted, process_sso,
}
use nebula_control_plane.Enrollment.Drain.{dispatched, checked, unless_recorded, process}
use nebula_control_plane.Enrollment.Moves.{Closed, with_keys}
use nebula_control_plane.Enrollment.Passes.{deny-P, admit-P}

-- The key that a lookup returns is the row that the query found.
abbrev Looked : Keys → String → KeyResult JoinKey → Type 0
Looked keys hash (err e) = Unit
Looked keys hash (ok k) = find (presented hash) keys.rows ≡ some k

usable-Looked :
    (late spent : Bool) (keys : Keys) (hash : String) (k : JoinKey)
    → find (presented hash) keys.rows ≡ some k
    → Looked keys hash (if late then err key_expired else if spent then err key_exhausted else ok k)
usable-Looked true spent keys hash k e = tt
usable-Looked false true keys hash k e = tt
usable-Looked false false keys hash k e = e

lookup_key-Looked :
    (reads : Bool) (keys : Keys) (hash : String) (now : ℕ)
    → Looked keys hash (lookup_key reads keys hash now)
unfolding lookup_key
lookup_key-Looked false keys hash now = tt
lookup_key-Looked true keys hash now = elim (Option-cases (find (presented hash) keys.rows)) [
  | inl e ↦ rw e tt
  | inr (k, e) ↦ rw e (usable-Looked _ _ keys hash k e)
]

module _ {κ} {S : Type 0} (svc : Services S) (cfg : Config) (P : ℕ → Tables → Type κ)
    (closed : Closed P) where
  -- After `Consume`: the use is counted, or the keys are as they were.
  abbrev AfterUse : Tables → JoinKey → Keys × KeyResult (Unit {0}) → Type κ
  AfterUse t k (keys, err e) = P 0 (with_keys t keys)
  AfterUse t k (keys, ok _) = P k.id (with_keys t keys)

  consume_key-AfterUse :
      (t : Tables) (hash : String) (k : JoinKey) (writes : Bool)
      → P 0 t
      → find (presented hash) t.keys.rows ≡ some k
      → AfterUse t k (consume_key writes t.keys k)
  unfolding consume_key
  consume_key-AfterUse t hash k false p e = p
  consume_key-AfterUse t hash k true p e =
      elim (Bool-cases (count (consumable k) t.keys.rows == 0)) [
        | inl n ↦ rw n p
        | inr n ↦ rw n (closed.count_use t hash k p e n)
      ]

  abbrev Good : World S × Processed → Type κ
  Good r = P 0 r.0.tables

  refused-P :
      (f : Carried) (w : World S) (c : Candidate) (req : Request) (bytes : String) (reason : Reason)
      (now : ℕ)
      → P 0 w.tables
      → P 0 (deny svc cfg f w c req bytes "enroll-denied" reason now).tables
  refused-P f w c req bytes reason now p =
      deny-P svc cfg P closed f w c req bytes "enroll-denied" reason now p

  consumed-P :
      (f : Carried) (w : World S) (c : Candidate) (req : Request) (bytes : String) (k : JoinKey)
      (r : Keys × KeyResult (Unit {0})) (now : ℕ)
      → AfterUse w.tables k r
      → Good (consumed svc cfg f w c req bytes k r now)
  consumed-P f w c req bytes k (keys, err e) now p =
      refused-P f (record w { tables = with_keys w.tables keys }) c req bytes _ now p
  consumed-P f w c req bytes k (keys, ok u) now p =
      admit-P svc cfg P closed f (record w { tables = with_keys w.tables keys }) c req bytes _ now p

  looked_up-P :
      (f : Carried) (w : World S) (c : Candidate) (req : Request) (bytes hash : String)
      (r : KeyResult JoinKey) (now : ℕ)
      → Looked w.tables.keys hash r
      → P 0 w.tables
      → Good (looked_up svc cfg f w c req bytes r now)
  looked_up-P f w c req bytes hash (err e) now l p = refused-P f w c req bytes _ now p
  looked_up-P f w c req bytes hash (ok k) now l p = if-P Good _ _ _ p (
      if-P Good _ _ _ (deny-P svc cfg P closed f w c req bytes _ _ now p)
        (consumed-P f w c req bytes k _ now (consume_key-AfterUse w.tables hash k f.uses_key p l)))

  process_token-P :
      (f : Carried) (w : World S) (c : Candidate) (req : Request) (bytes : String) (now : ℕ)
      → P 0 w.tables
      → Good (process_token svc cfg f w c req bytes now)
  unfolding process_token
  process_token-P f w c req bytes now p =
      looked_up-P f w c req bytes _ _ now (lookup_key-Looked f.reads_key w.tables.keys _ now) p

  account_matched-P :
      (f : Carried) (w : World S) (c : Candidate) (req : Request) (bytes : String) (id : Identity)
      (region : String) (g : Option Grant) (now : ℕ)
      → P 0 w.tables
      → Good (account_matched svc cfg f w c req bytes id region g now)
  account_matched-P f w c req bytes id region none now p = refused-P f w c req bytes _ now p
  account_matched-P f w c req bytes id region (some g) now p =
      admit-P svc cfg P closed f w c req bytes _ now p

  vouched-P :
      (f : Carried) (w : World S) (c : Candidate) (req : Request) (bytes : String)
      (trust : CloudConfig) (presigned : String) (a : Attested) (now : ℕ)
      → P 0 w.tables
      → Good (vouched svc cfg f w c req bytes trust presigned a now)
  vouched-P f w c req bytes trust presigned (attestation_refused e) now p =
      refused-P f w c req bytes _ now p
  vouched-P f w c req bytes trust presigned (attested id) now p =
      account_matched-P f w c req bytes id _ _ now p

  presented_request-P :
      (f : Carried) (w : World S) (c : Candidate) (req : Request) (bytes : String)
      (trust : CloudConfig) (presigned : Option String) (now : ℕ)
      → P 0 w.tables
      → Good (presented_request svc cfg f w c req bytes trust presigned now)
  presented_request-P f w c req bytes trust none now p = refused-P f w c req bytes _ now p
  presented_request-P f w c req bytes trust (some presigned) now p =
      vouched-P f w c req bytes trust presigned _ now p

  cloud_trusted-P :
      (f : Carried) (w : World S) (c : Candidate) (req : Request) (bytes : String)
      (trust : Option CloudConfig) (now : ℕ)
      → P 0 w.tables
      → Good (cloud_trusted svc cfg f w c req bytes trust now)
  cloud_trusted-P f w c req bytes none now p = refused-P f w c req bytes _ now p
  cloud_trusted-P f w c req bytes (some trust) now p =
      if-P Good _ _ _ (refused-P f w c req bytes _ now p)
        (presented_request-P f w c req bytes trust _ now p)

  member_matched-P :
      (f : Carried) (w : World S) (c : Candidate) (req : Request) (bytes : String) (a : Assertion)
      (g : Option Grant) (now : ℕ)
      → P 0 w.tables
      → Good (member_matched svc cfg f w c req bytes a g now)
  member_matched-P f w c req bytes a none now p = refused-P f w c req bytes _ now p
  member_matched-P f w c req bytes a (some g) now p =
      admit-P svc cfg P closed f w c req bytes _ now p

  asserted-P :
      (f : Carried) (w : World S) (c : Candidate) (req : Request) (bytes : String)
      (trust : UserConfig) (a : Option Assertion) (now : ℕ)
      → P 0 w.tables
      → Good (asserted svc cfg f w c req bytes trust a now)
  asserted-P f w c req bytes trust none now p = refused-P f w c req bytes _ now p
  asserted-P f w c req bytes trust (some a) now p =
      elim (Bool-cases (str_eq a.pubkey_hash (svc.digest bytes))) [
        | inr h ↦ rw h (refused-P f w c req bytes wrong_device now p)
        | inl h ↦ elim (Bool-cases (str_eq a.nonce req.nonce)) [
          | inr n ↦ rw (h, n) (refused-P f w c req bytes wrong_nonce now p)
          | inl n ↦ elim (Bool-cases (svc.nonce_valid w.services a.nonce (svc.digest bytes))) [
            | inr v ↦ rw (h, n, v) (refused-P f w c req bytes nonce_not_authentic now p)
            | inl v ↦ rw (h, n, v) (member_matched-P f w c req bytes a _ now p)
          ]
        ]
      ]

  enveloped-P :
      (f : Carried) (w : World S) (c : Candidate) (req : Request) (bytes : String)
      (trust : UserConfig) (token : Option String) (now : ℕ)
      → P 0 w.tables
      → Good (enveloped svc cfg f w c req bytes trust token now)
  enveloped-P f w c req bytes trust none now p = refused-P f w c req bytes _ now p
  enveloped-P f w c req bytes trust (some token) now p =
      if-P Good _ _ _ (refused-P f w c req bytes _ now p) (asserted-P f w c req bytes trust _ now p)

  user_trusted-P :
      (f : Carried) (w : World S) (c : Candidate) (req : Request) (bytes : String)
      (trust : Option (Option UserConfig)) (now : ℕ)
      → P 0 w.tables
      → Good (user_trusted svc cfg f w c req bytes trust now)
  user_trusted-P f w c req bytes none now p = refused-P f w c req bytes _ now p
  user_trusted-P f w c req bytes (some none) now p =
      if-P Good (not cfg.assertion_key)
        (refused svc cfg f w c req bytes sso_unset sso_not_configured now)
        (refused svc cfg f w c req bytes no_user_trust sso_not_configured now)
        (refused-P f w c req bytes sso_unset now p) (refused-P f w c req bytes no_user_trust now p)
  user_trusted-P f w c req bytes (some (some trust)) now p =
      if-P Good (not cfg.assertion_key)
        (refused svc cfg f w c req bytes sso_unset sso_not_configured now)
        (enveloped svc cfg f w c req bytes trust (svc.assertion_of req.credential) now)
        (refused-P f w c req bytes sso_unset now p)
        (enveloped-P f w c req bytes trust (svc.assertion_of req.credential) now p)

  dispatched-P :
      (f : Carried) (w : World S) (c : Candidate) (req : Request) (bytes : String) (now : ℕ)
      → P 0 w.tables
      → Good (dispatched svc cfg f w c req bytes now)
  unfolding process_attested process_sso
  dispatched-P f w c req bytes now p =
      if-P Good _ _ _ (cloud_trusted-P f w c req bytes cfg.cloud_trust now p) (
        if-P Good _ _ _ (user_trusted-P f w c req bytes cfg.user_trust now p)
          (if-P Good _ _ _ p (process_token-P f w c req bytes now p)))

  checked-P :
      (f : Carried) (t : Tables) (c : Candidate) (r : S × Verified) (now : ℕ)
      → P 0 t
      → Good (checked svc cfg f t c r now)
  checked-P f t c (s, rejected e) now p = p
  checked-P f t c (s, verified req bytes) now p =
      dispatched-P f (record { tables = t; services = s }) c req bytes now p

  unless_recorded-P :
      (f : Carried) (w : World S) (c : Candidate) (now : ℕ) (o : Option Enrollment)
      → P 0 w.tables
      → Good (unless_recorded svc cfg f w c now o)
  unless_recorded-P f w c now none p = checked-P f w.tables c (verify svc cfg w.services c) now p
  unless_recorded-P f w c now (some r) p = p

  pub process-P :
      (f : Carried) (w : World S) (c : Candidate) (now : ℕ)
      → P 0 w.tables
      → P 0 (process svc cfg f w c now).0.tables
  unfolding process
  process-P f w c now p = unless_recorded-P f w c now _ p
