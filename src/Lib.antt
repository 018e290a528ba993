-- ===== src/Lib.antt =====
-- Verification of the nebula control plane, which assigns addresses, signs certificates, rolls
-- out configurations and keeps the firewall policy of a nebula overlay network.
--
-- The program. Harbor, the core, keeps its state in a database that several processes may share.
-- The rollout engine (internal/rollout/rollout.go) sends a new version of the policy, the
-- blocklist or a program to the fleet wave by wave and judges each wave by the hosts' heartbeats.
-- The dual-control controller (internal/dualcontrol/dualcontrol.go) lets a privileged change take
-- effect only when enough people have approved it. The signing breaker
-- (internal/signer/breaker.go, breaker_sql.go) limits how fast certificates are signed. A gateway
-- without credentials passes the requests of new hosts to the core through a queue and hands the
-- results out (internal/queue). The core refuses a nonce that it has seen (internal/replay). The
-- firewall policy (internal/policy) is compiled for each host and answers which group reaches
-- which. The pool of addresses is carved into named blocks (internal/netblock), from which the
-- allocator leases an address to each host and grows a block that is full (internal/ipam). The
-- gateway proves the freshness of a request by a nonce that it mints without keeping state
-- (internal/nonce). The consumer of the queue (internal/enrollment) decides who joins: by a join
-- key (internal/joinkey), by the identity of a cloud account (internal/cloudtrust) or by a
-- directory group (internal/usertrust), at once or after an approval. The blocklist
-- (internal/revocation) names the certificates that the fleet refuses. The audit log
-- (internal/store/audit.go) chains the hashes of its rows, and internal/auditverify checks it.
--
-- The files.
-- - Prelude: names of the libraries, Boolean tests, and the rows of a table under COUNT, UPDATE,
--   DELETE and ORDER BY (Prelude.Lists, Prelude.Counts, Prelude.Tables).
-- - Rollout: Types (the tables and the active rollout of a lane), Operations (Start, AbortLane),
--   Evaluate (Evaluate, evaluateLane, advanceTx, rollbackTx), Queries (the commands of a heartbeat,
--   VersionFor, BlocklistVersion, FloorCatchupGen); Invariant, Preserve, History (histories of
--   calls), Waves, Agreement, Sizes, Catchup, Progress.
-- - DualControl: Types, Controller (Propose, Approve, Deny, one function for each statement or
--   transaction), System (the statements of several processes, interleaved); Closing, CommitOnce,
--   Approvers, Sound, Votes, Quorum, and Outcome for single calls.
-- - Breaker: Calls (calls, answers, and a ledger that forgets nothing), Memory, Sql; MemoryRefines
--   and SqlRefines fill the interface Simulates, and Attempts adds the transactions that fail; from
--   these Limit draws its results.
-- - Queue: Types, Messages (Publish, Claim, Ack, Nack, Depth), Results (PutResult, GetResult,
--   PendingResultIDs); Delivery, ReadOnce.
-- - Replay: Observe of the map and of the table; Memory, SingleUse.
-- - Policy: Text (Cut and Atoi), Types, Check, Compile, Analysis; Laws, Reach, Keys, Baseline.
-- - AuditChain: auditHash, AppendAudit, VerifyAudit and verifyOnce; Framing (the bytes that are
--   hashed), Tamper.
-- - Net: the prefixes of net/netip that the blocks use (Net.Prefix), and what overlapping,
--   containing and splitting them mean for addresses (Overlap, Slots, Buddy).
-- - Netblock: Types, Registry (Add, Seed, Update, Remove, Grow), Resolve (Resolve, ResolveFull,
--   NetblockCIDRs, Carves), Suggest; Placement (where Suggest places a block), Carved, Writing,
--   Growing and History (sequences of calls), Acceptance (Suggest and Add together), Parsed and
--   Cache (snapshot and invalidate of one registry).
-- - Lease: Types, with the interface Resolver, Search (resolve, firstFree) and Operations
--   (Allocate, AllocateSpecific, Release, LiveAddrs); Scan, Free, Grant, whose interface BlockLaws
--   Lease.Registry fills by Lease.Blocks with the blocks of Netblock, Invariant, Holds and History
--   (calls after a release).
-- - Nonce: Keyring (NewKeyring, Mint, Verify), Bytes, RoundTrip.
-- - JoinKey: Keys (Create, Revoke, Update, Lookup, Consume, ValidateAndConsume).
-- - Trust: Cloud (Validate, ContainsPrivileged, MatchAWS), User (Validate, ContainsPrivileged,
--   Match), Groups (resolveGroups), Glob (matchGlob); Privilege.
-- - Enrollment: Types, Services (the configuration, and the interface of what the consumer calls),
--   Verify, Admission (record, writeResult, deny, issue), Admit (what the methods do with a host
--   that they admit), Process (by a join key and by a cloud), Sso, Approve (Approve in two
--   statements, Deny), Drain (Process, terminal, Drain, BuildDeliverable). Moves states the ways in
--   which a call may change the tables, and the interface Closed of a predicate that they keep;
--   Passes, Methods, Draining and History take such a predicate through the code and its histories;
--   Reserved, Uses, Limits, Backed and Decided give some, and Outcomes is about single calls.
-- - Revocation: Registry (Add, Lift, ActiveFingerprints), Requests (applyBulk), over the rows of
--   Enrollment and DualControl; Guard (sequences of calls), Bulk.
--
-- Conventions. A table is a list of rows with the numbers of its next keys. A transaction commits
-- or leaves the tables as they were, by a flag that says which; other statements and reads have
-- flags that say whether the database carries them out. Times, versions and sizes are natural
-- numbers: the source's times are unix nanoseconds, and a bound or a size that is negative in the
-- source acts as zero does. A time minus a window is compared by adding the window on the other
-- side. Byte strings are texts, and lists of bytes in Nonce and where rows are hashed. A call that
-- reads the clock several times is given one reading, but for the breaker of one process, which is
-- given the two that it uses. Notes and audit records are data in place of rendered texts. SHA-256,
-- HMAC, base64, strings.ToLower, the bytes of a text and the committers of changes are parameters.
-- The consumer of the queue calls the encodings, verifiers, nonces, allocator, signer, bundles and
-- audit log through a record of operations over one state, and a call of Process or Deny runs alone
-- between the two statements of an approval. An IPv4 address is its number. A call on the blocks
-- runs alone and reads the rows themselves. Names and carves come from a snapshot that the source
-- caches: Netblock.Cache models how, and Lease.Registry gives the allocator a snapshot that may be
-- of another table. Other allocators write between the search of an attempt of Allocate and its
-- insert. Most loops run over lists and end with them. Four have fuel: Allocate the 100 attempts of
-- the source; the search for an address the size of the block, so that it reaches the block's end;
-- the slots of a pool as many as fit into it, as the source counts them; and the lengths that
-- Suggest tries when it relaxes its margin as many as there are up to the one asked for.
--
-- What is not modelled: the gateway's HTTP interface, cryptography, certificates and credentials,
-- the agent on the hosts, the administration's interface, and the wiring of the commands. The
-- classification of configuration changes is not modelled. Of the policy, the text formats, the
-- sorted differences of two policies and the matrix are left out; of the leases, resolvers
-- without the optional interfaces and the metrics; of enrollment, the assembly of a bundle, the
-- texts of refusals and audit entries, and other writers of its table (renewal, changes of
-- groups).
pub mod Prelude
pub mod Rollout
pub mod DualControl
pub mod Breaker
pub mod Queue
pub mod AuditChain
pub mod Replay
pub mod Policy
pub mod Net
pub mod Netblock
pub mod Lease
pub mod Nonce
pub mod JoinKey
pub mod Trust
pub mod Enrollment
pub mod Revocation
