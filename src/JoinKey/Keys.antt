-- ===== src/JoinKey/Keys.antt =====
-- internal/joinkey/joinkey.go: the table join_keys and its operations. A digest is a text, the JSON list
-- of groups is the list, and a number or duration below zero acts as zero. Rows stand newest first.
use nebula_control_plane.Prelude.{
  ℕ, suc, ◌+◌, String, Bool, true, false, ◌&&◌, ◌||◌, not, List, ◌∷◌, Option, none, some,
  if◌then◌else◌, ltb, leb, ◌==◌, str_eq, find, count, update,
}

pub data KeyState : Type 0 where
  active revoked : KeyState

pub record JoinKey : Type 0 where
  pub id : ℕ
  pub name : String
  pub secret_hash : String
  pub groups : List String
  pub sub_range : String
  pub max_uses : ℕ
  pub used_count : ℕ
  pub expires_at : ℕ
  pub auto_issue : Bool
  pub ephemeral : Bool
  pub quota_per_hour : ℕ
  pub state : KeyState
  pub created_at : ℕ

pub record Params : Type 0 where
  pub name : String
  pub groups : List String
  pub sub_range : String
  pub max_uses : ℕ
  pub ttl : ℕ
  pub auto_issue : Bool
  pub ephemeral : Bool
  pub quota_per_hour : ℕ

-- A field that is none stays as it is.
pub record UpdateParams : Type 0 where
  pub groups : Option (List String)
  pub sub_range : Option String
  pub max_uses : Option ℕ
  pub quota_per_hour : Option ℕ
  pub auto_issue : Option Bool
  pub ephemeral : Option Bool
  pub ttl : Option ℕ

pub data KeyError : Type 0 where
  key_not_found key_expired key_exhausted key_db_error : KeyError

pub data KeyResult {ℓ} (A : Type ℓ) : Type ℓ where
  ok : A → KeyResult A
  err : KeyError → KeyResult A

pub record Keys : Type 0 where
  pub rows : List JoinKey
  pub next_id : ℕ

abbrev pub is_active : KeyState → Bool
is_active active = true
is_active revoked = false

-- The `WHERE` clauses.
abbrev pub named_active : String → JoinKey → Bool
named_active name k = str_eq k.name name && is_active k.state

abbrev pub presented : String → JoinKey → Bool
presented hash k = str_eq k.secret_hash hash && is_active k.state

abbrev pub has_key_id : ℕ → JoinKey → Bool
has_key_id i k = k.id == i

abbrev pub clashing : String → String → JoinKey → Bool
clashing name hash k = if str_eq k.name name then true else str_eq k.secret_hash hash

abbrev pub expiry : ℕ → ℕ → ℕ
expiry ttl now = if ttl == 0 then 0 else now + ttl

abbrev pub new_key : Params → String → ℕ → ℕ → JoinKey
new_key p hash now i = record {
  id = i;
  name = p.name;
  secret_hash = hash;
  groups = p.groups;
  sub_range = p.sub_range;
  max_uses = p.max_uses;
  used_count = 0;
  expires_at = expiry p.ttl now;
  auto_issue = p.auto_issue;
  ephemeral = p.ephemeral;
  quota_per_hour = p.quota_per_hour;
  state = active;
  created_at = now;
}

-- `Create`, for the digest of the secret that was drawn.
unfoldable pub create_key : Bool → Keys → Params → String → ℕ → Keys × KeyResult JoinKey
create_key writes keys p hash now =
    let row = new_key p hash now keys.next_id in
    if not writes
    then (keys, err key_db_error)
    else if count (clashing p.name hash) keys.rows == 0
    then (record { rows = row ∷ keys.rows; next_id = suc keys.next_id }, ok row)
    else (keys, err key_db_error)

abbrev pub revoked_row : JoinKey → JoinKey
revoked_row k = record k { state = revoked }

-- `Revoke`.
unfoldable pub revoke_key : Bool → Keys → String → Keys × KeyResult (Unit {0})
revoke_key writes keys name = if not writes then (keys, err key_db_error) else (
  record keys { rows = update (named_active name) revoked_row keys.rows },
  (if count (named_active name) keys.rows == 0 then err key_not_found else ok tt),
)

abbrev pub or_kept {ℓ} : {A : Type ℓ} → Option A → A → A
or_kept none old = old
or_kept (some new) old = new

abbrev pub new_expiry : Option ℕ → ℕ → ℕ → ℕ
new_expiry none now old = old
new_expiry (some ttl) now old = expiry ttl now

abbrev pub edited : UpdateParams → ℕ → JoinKey → JoinKey
edited p now k = record k {
  groups = or_kept p.groups k.groups;
  sub_range = or_kept p.sub_range k.sub_range;
  max_uses = or_kept p.max_uses k.max_uses;
  quota_per_hour = or_kept p.quota_per_hour k.quota_per_hour;
  auto_issue = or_kept p.auto_issue k.auto_issue;
  ephemeral = or_kept p.ephemeral k.ephemeral;
  expires_at = new_expiry p.ttl now k.expires_at;
}

abbrev pub reread : Option JoinKey → KeyResult JoinKey
reread none = err key_not_found
reread (some k) = ok k

-- `Update`; an edit of no field writes nothing and finds the key as it is.
unfoldable pub update_key : Bool → Keys → String → UpdateParams → ℕ → Keys × KeyResult JoinKey
update_key answers keys name p now =
    let rows = update (named_active name) (edited p now) keys.rows in
    if not answers
    then (keys, err key_db_error)
    else (record keys { rows = rows }, reread (find (named_active name) rows))

abbrev pub usable_key : ℕ → JoinKey → KeyResult JoinKey
usable_key now k =
    if not (k.expires_at == 0) && leb k.expires_at now
    then err key_expired
    else if ltb 0 k.max_uses && leb k.max_uses k.used_count
    then err key_exhausted
    else ok k

-- `Lookup`, of the digest of the secret that is presented.
unfoldable pub lookup_key : Bool → Keys → String → ℕ → KeyResult JoinKey
lookup_key reads keys hash now =
    if not reads then err key_db_error else elim (find (presented hash) keys.rows) [
      | none ↦ err key_not_found
      | some k ↦ usable_key now k
    ]

-- The `WHERE` of `Consume`: the limit is the one that the key had when it was looked up.
abbrev pub consumable : JoinKey → JoinKey → Bool
consumable jk k =
    (k.id == jk.id) && (is_active k.state && (jk.max_uses == 0 || ltb k.used_count jk.max_uses))

abbrev pub used : JoinKey → JoinKey
used k = record k { used_count = suc k.used_count }

-- `Consume`.
unfoldable pub consume_key : Bool → Keys → JoinKey → Keys × KeyResult (Unit {0})
consume_key writes keys jk =
    if not writes
    then (keys, err key_db_error)
    else if count (consumable jk) keys.rows == 0
    then (keys, err key_exhausted)
    else (record keys { rows = update (consumable jk) used keys.rows }, ok tt)

abbrev pub consumed_use : JoinKey → Keys × KeyResult (Unit {0}) → Keys × KeyResult JoinKey
consumed_use k (keys, err e) = (keys, err e)
consumed_use k (keys, ok _) = (keys, ok (used k))

abbrev pub consume_found : Bool → Keys → KeyResult JoinKey → Keys × KeyResult JoinKey
consume_found writes keys (err e) = (keys, err e)
consume_found writes keys (ok k) = consumed_use k (consume_key writes keys k)

-- `ValidateAndConsume`.
unfoldable pub validate_and_consume : Bool → Bool → Keys → String → ℕ → Keys × KeyResult JoinKey
validate_and_consume reads writes keys hash now =
    consume_found writes keys (lookup_key reads keys hash now)
