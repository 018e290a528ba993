-- ===== src/Netblock/Registry.antt =====
-- internal/netblock/netblock.go: `Add`, `Seed`, `Update`, `Remove` and `Grow`, each as one step.
use nebula_control_plane.Prelude.{
  ℕ, suc, String, Bool, true, false, ◌&&◌, ◌||◌, not, ◌∷◌, Option, none, some, if◌then◌else◌, ltb,
  ◌==◌, str_eq, find, count, update, keep,
}
use nebula_control_plane.Net.Prefix.{
  Prefix, zero_prefix, is_valid, masked, contains, overlaps, prefix_inside, buddy_of, parent,
}
use nebula_control_plane.Netblock.Types.{
  Kind, named, Error, not_found, exists, no_name, bad_cidr, out_of_pool, overlap, protected_block,
  stranded, pool_full, reserved_kind, bad_kind, db_error, Result, ok, err, Netblock, prefix,
  AuditEvent, seeded, autogrown, Db, Live, unwired, unread, live_addrs, Env, central_name,
  default_name, is_named, has_name, has_cidr,
}

-- `Get`.
unfoldable pub get : Env → Db → String → Result Netblock
get env db name =
    if not env.reads
    then err db_error
    else elim (find (has_name name) db.rows) [ none ↦ err not_found | some n ↦ ok n ]

abbrev pub clashes : Prefix → String → Netblock → Bool
clashes p exclude n = not (str_eq n.name exclude) && (is_valid (prefix n) && overlaps p (prefix n))

-- `validateCIDR`; none where it finds nothing wrong.
unfoldable pub validate_cidr : Env → Db → Prefix → String → Option Error
validate_cidr env db cidr exclude =
    let p = masked cidr in
    if not (is_valid cidr)
    then some bad_cidr
    else if not (prefix_inside p env.pool)
    then some out_of_pool
    else if not (count (contains p) env.reserved == 0)
    then some overlap
    else if not env.reads
    then some db_error
    else if not (count (clashes p exclude) db.rows == 0)
    then some overlap
    else none

abbrev pub strands : Prefix → Prefix → ℕ → Bool
strands old new a = (is_valid old && contains old a) && (not (is_valid new) || not (contains new a))

-- `checkNoStranded`.
unfoldable pub check_no_stranded : Live → Prefix → Prefix → Option Error
check_no_stranded unwired old new = none
check_no_stranded unread old new = some db_error
check_no_stranded (live_addrs addrs) old new =
    if count (strands old new) addrs == 0 then none else some stranded

abbrev pub live_free : Live → Prefix → Result Bool
live_free unwired p = ok true
live_free unread p = err db_error
live_free (live_addrs addrs) p = ok (count (contains p) addrs == 0)

-- `rangeFree`.
unfoldable pub range_free : Env → Db → Prefix → String → Result Bool
range_free env db p exclude =
    if not (count (contains p) env.reserved == 0)
    then ok false
    else if not env.reads
    then err db_error
    else if not (count (clashes p exclude) db.rows == 0)
    then ok false
    else live_free env.live p

abbrev pub new_row : Db → String → Prefix → Kind → String → Bool → ℕ → String → Netblock
new_row db name cidr kind description is_protected now actor = record {
  id = db.next_id;
  name = name;
  cidr = masked cidr;
  kind = kind;
  description = description;
  is_protected = is_protected;
  created_at = now;
  created_by = actor;
}

abbrev pub insert : Netblock → Db → Db
insert n db = record db { rows = n ∷ db.rows; next_id = suc db.next_id }

-- `Add`.
unfoldable pub add : Env → Db → String → Prefix → String → String → ℕ → Db × Result Netblock
add env db name cidr description actor now =
    let row = new_row db name cidr named description false now actor in
    if str_eq name ""
    then (db, err no_name)
    else if str_eq name central_name || str_eq name default_name
    then (db, err reserved_kind)
    else elim (validate_cidr env db cidr "") [
      | some e ↦ (db, err e)
      | none ↦
          if not env.writes
          then (db, err db_error)
          else if count (has_name name) db.rows == 0
          then (insert row db, ok row)
          else (db, err exists)
    ]

abbrev pub record_audit : AuditEvent → Db → Db
record_audit e db = record db { log = e ∷ db.log }

abbrev pub seed_new :
    Env → Db → String → Prefix → Kind → String → String → ℕ → Option Error → Db × Result Netblock
seed_new env db name cidr kind description actor now (some e) = (db, err e)
seed_new env db name cidr kind description actor now none =
    let row = new_row db name cidr kind description true now actor in
    if env.writes
    then (record_audit (seeded actor name row.cidr) (insert row db), ok row)
    else (db, err db_error)

-- `Seed`.
unfoldable pub seed : Env → Db → String → Prefix → Kind → String → String → ℕ → Db × Result Netblock
seed env db name cidr kind description actor now =
    if str_eq name ""
    then (db, err no_name)
    else if is_named kind
    then (db, err bad_kind)
    else if not env.reads
    then (db, err db_error)
    else elim (find (has_name name) db.rows) [
      | some n ↦ (db, ok n)
      | none ↦ seed_new env db name cidr kind description actor now (validate_cidr env db cidr "")
    ]

-- A guarded `UPDATE` of the prefix of a block, and the rows it affects.
abbrev pub set_cidr : String → Prefix → (Netblock → Netblock) → Db → Db × ℕ
set_cidr name old f db =
    (record db { rows = update (has_cidr name old) f db.rows }, count (has_cidr name old) db.rows)

abbrev pub changed_row : Prefix → String → Netblock → Netblock
changed_row p description n = record n { cidr = p; description = description }

abbrev pub update_checked :
    Env → Db → Netblock → Prefix → String → Option Error → Db × Result Netblock
update_checked env db n p description (some e) = (db, err e)
update_checked env db n p description none =
    let (after, rows) = set_cidr n.name (prefix n) (changed_row p description) db in
    if not env.writes
    then (db, err db_error)
    else if rows == 0
    then (db, err not_found)
    else (after, ok (changed_row p description n))

abbrev pub update_valid :
    Env → Db → Netblock → Prefix → String → Option Error → Db × Result Netblock
update_valid env db n p description (some e) = (db, err e)
update_valid env db n p description none =
    update_checked env db n p description (check_no_stranded env.live (prefix n) p)

abbrev pub update_found : Env → Db → Prefix → String → Result Netblock → Db × Result Netblock
update_found env db cidr description (err e) = (db, err e)
update_found env db cidr description (ok n) =
    if n.is_protected
    then (db, err protected_block)
    else update_valid env db n (masked cidr) description (validate_cidr env db cidr n.name)

-- `Update`.
unfoldable pub update_block : Env → Db → String → Prefix → String → Db × Result Netblock
update_block env db name cidr description = update_found env db cidr description (get env db name)

abbrev pub remove_found : Env → Db → String → Result Netblock → Db × Result (Unit {0})
remove_found env db name (err e) = (db, err e)
remove_found env db name (ok n) =
    if n.is_protected
    then (db, err protected_block)
    else elim (check_no_stranded env.live (prefix n) zero_prefix) [
      | some e ↦ (db, err e)
      | none ↦
          if env.writes
          then (record db { rows = keep (λ m. not (has_name name m)) db.rows }, ok tt)
          else (db, err db_error)
    ]

-- `Remove`.
unfoldable pub remove : Env → Db → String → Db × Result (Unit {0})
remove env db name = remove_found env db name (get env db name)

abbrev pub grow_free :
    Env → Db → Netblock → Prefix → Prefix → String → Result Bool → Db × Result Prefix
grow_free env db n cur next actor (err e) = (db, err e)
grow_free env db n cur next actor (ok false) = (db, err pool_full)
grow_free env db n cur next actor (ok true) =
    let (after, rows) = set_cidr n.name cur (λ m. record m { cidr = next }) db in
    if not env.writes
    then (db, err db_error)
    else if rows == 0
    then (db, err pool_full)
    else (record_audit (autogrown actor n.name next) after, ok next)

abbrev pub grow_found : Env → Db → String → Result Netblock → Db × Result Prefix
grow_found env db actor (err e) = (db, err e)
grow_found env db actor (ok n) =
    let cur = prefix n in
    let next = parent cur in
    if not (is_named n.kind)
    then (db, err bad_kind)
    else if cur.bits == 0
    then (db, err pool_full)
    else if not (next.addr == cur.addr)
    then (db, err pool_full)
    else if ltb next.bits env.pool.bits || not (prefix_inside next env.pool)
    then (db, err pool_full)
    else grow_free env db n cur next actor (range_free env db (buddy_of cur) n.name)

-- `Grow`.
unfoldable pub grow : Env → Db → String → String → Db × Result Prefix
grow env db name actor = grow_found env db actor (get env db name)
