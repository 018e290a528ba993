-- ===== src/Queue/Tests.antt =====
-- A queue of two messages, one of them forged, and the result of one enrollment.
use nebula_control_plane.Prelude.{
  ℕ, ◌≤◌, refl, String, true, List, [], ◌∷◌, All, length, count, find, update, keep,
}
use nebula_control_plane.Queue.Types.{Candidate, Item, ready, Outcome, Db, Leased}
use nebula_control_plane.Queue.Messages.{claim, claim_rows, lease}
use nebula_control_plane.Queue.Results.{get_result, consume}
use nebula_control_plane.Queue.Delivery.{claim_authentic, FromAuthentic}
use nebula_control_plane.Queue.ReadOnce.{read_once, Get, get, gets, Issues}

abbrev mac : Candidate → String
mac c = c.enrollment_id

abbrev sha256 : String → String
sha256 s = s

abbrev candidate : String → Candidate
candidate e = record {
  enrollment_id = e;
  pubkey_hash = "k";
  request_jws = "r";
  retrieval_secret_hash = "s";
  received_at = 1;
}

abbrev item : ℕ → String → String → Item
item i e tag = record {
  id = i;
  candidate = candidate e;
  mac = tag;
  status = ready;
  attempts = 0;
  lease_until = 0;
}

abbrev outcome : Outcome
outcome = record {
  id = 1;
  enrollment_id = "e1";
  status = "issued";
  bundle = "b";
  secret_hash = "s";
  reason = "";
  expires_at = 100;
  read_count = 0;
}

abbrev db : Db
db = record {
  items = item 1 "e1" "forged" ∷ item 2 "e2" "e2" ∷ [];
  results = outcome ∷ [];
  next_item = 3;
  next_result = 2;
}

abbrev delivered : List Leased
delivered = lease (item 2 "e2" "e2") ∷ []

claim_authentic_example : All (FromAuthentic mac 50 db.items) delivered × (length delivered ≤ 5)
unfolding claim claim_rows keep update count
claim_authentic_example = claim_authentic mac true true (λ i. true) db 5 10 50 delivered refl

abbrev read : String → ℕ → Get
read secret now = record {
  enrollment = "e1";
  secret = secret;
  now = now;
  reads = true;
  consumes = true;
}

first_read : Issues sha256 db (read "s" 10)
unfolding get_result consume find update count
first_read = (_, refl, refl)

read_once_example : ¬ Issues sha256 (gets sha256 (get sha256 db (read "s" 10)).0 []) (read "s" 11)
read_once_example = read_once sha256 db (read "s" 10) [] (read "s" 11) first_read refl
