-- ===== src/Lib.antt =====
-- Astral Project: grants, ceilings, namespace plans, the state database and its audit log,
-- projected homes, and the daemon's protocol.
--
-- The program gives a sandboxed session access to directories of remote hosts. A grant
-- (src/astral_project/crypto/grants.py) names exports of a host; it is validated remotely,
-- approved by a human, signed and stored (grants/lifecycle.py). The server compares a grant with
-- its own ceiling (session/ceiling.py), and the namespace planner (namespace/planner.py) turns
-- its exports into mount targets. A root broker starts one worker per session and owns it until
-- it ends (broker/registry.py). Inside the session a projected home decides each operation on a
-- path by a profile (profile.py); what the profile does not know goes to a mediator that waits
-- for a trusted decision (homed/mediation.py), over the tables and budgets of homed/core.py. A
-- session asks for listings through the local daemon (daemon/protocol.py, session/listing.py).
-- Grants, sessions and revocations are kept in a database (state/sqlite.py), whose changes of
-- them write events of the audit log (audit/events.py) in the same transaction.
--
-- Files, with paths of the code from src/astral_project:
--   Base       shared notation: Boolean tests on numbers and lists, the equality class, results
--              with do blocks, texts as lists of code points, integers, dictionaries as lists
--              of items (Dict), orders and sorting (Order), path prefixes (Prefixes).
--   Core       core/errors.py: error codes and errors.
--   Profile    profile.py: Rule (normalize_home_path, Rule.matches, Rule.allows), Policy
--              (Profile, decision, validate_profile); Paths, Decisions and Validated prove.
--   Grant      crypto/grants.py: Types (constructors), Equal (dataclass equality), Payload
--              (to_payload, from_payload), Verify (SignedGrant.verify); grants/lifecycle.py:
--              Compare, Lifecycle (compare_grants, create, renew). Trust, RoundTrip, Widening,
--              Unchanged and Approval prove.
--   Session    session/ceiling.py: Ceiling; session/listing.py: Listing (authorize,
--              authorize_path). Overlap, Admission and Confined prove.
--   Namespace  namespace/planner.py: Planner, Payload (to_payload, canonical_bytes); Plans, Built
--              and DoubleSlash prove.
--   Audit      audit/events.py: Json (the values of json, and json.dumps with sorted keys),
--              Schema (the patterns and the sets of names), Event (AuditEvent, _validate_payload,
--              _transform_paths), Chain (AuditRetentionBoundary, validate_chain). Private and
--              Linear prove.
--   State      state/sqlite.py: Tables (_initial_schema and the tables beside it), Actions
--              (transaction), Platform (what the methods use of libraries), AuditTable (_audit,
--              _apply_audit_retention, rotate_audit, audit_chain_errors), Statements (the SQL
--              statements), Lookups (the methods that read), Grants (activate_session,
--              store_signed_grant, import_signed_grant, revoke_grant), Sessions (open_session,
--              close_session, retire_expired_sessions, active_listing_session). AuditKept,
--              Retention, Rotation, Created, ChainKept, AuditSteps, Good, GoodMethods and Chained prove for
--              the audit events; Authority, Revoked, RevokedSteps, RevokedMethods, Readers, Opened,
--              ForGood, Calls, Revocation and Opening for the rest; Ends says how methods end.
--   Homed      homed/core.py: Core (InodeTable, FileHandleTable, RequestBudget, RequestLease,
--              EmptyProjectedHome); homed/mediation.py: Pending (requests, results, the state),
--              Mediator (request, decide, cancel_session). Leases and Empty prove for the first;
--              Mediation (the relation of reachable states and what each state keeps), Admission,
--              Approvals, Approved, Bounded, Bounds, Settled and Final for the second.
--   Broker     broker/registry.py: Registry (register, cancel, expire, the supervisor thread);
--              Terminated,
--              Owned, Expiry and Stale prove. Which worker's staging directory cannot be removed
--              (broker/mapping.py) is a parameter.
--   Framing    daemon/protocol.py and server/protocol.py: Stream (_read_exact), Frame (encode,
--              receive, _write_frame, read_outer_response), Request (parse_request,
--              make_response, and both ends of daemon/client.py); session/contracts.py: Contracts
--              (the request to a remote server, its frame, the two answers). Stream, RoundTrip,
--              Requests and Remote prove.
--
-- Conventions. A Python str is a list of code points (Text) without lone
-- surrogates, which str.encode would refuse, bytes a list of numbers, an int a
-- Z where its sign matters and a native number where the code refuses or never has negatives;
-- times of a monotonic clock are ticks. An exception is an error value of the Result type; an
-- error keeps its code and the literal part of its message. A frozen dataclass is a record, and
-- its __post_init__ a function make_... that returns the normalized record or the error. A set
-- is a list of which only membership is used, or a sorted list where the constructor sorts. A
-- method that holds the lock of its object is one step, and so are `reserve` and `cancel` of a
-- budget and its leases, parts of which run outside the lock; a method that waits or a thread is cut
-- in steps where the lock is free, and the relations Reachable, Leased and HomeRun let the steps
-- of all callers follow one another in any order.
-- In State a method is an Action: from the tables and the number of identifiers drawn so far to a
-- result and the store after it. A transaction that raises leaves the tables as they were; the
-- relation Database lets whole transactions of all callers follow one another in any order, and
-- Calls whole methods. A JSON column holds what json.loads makes of it, or none where that fails;
-- rowid order is the order of the list. The n-th identifier that uuid4 draws is a parameter, and
-- so is SHA-256. A database is a new one or what transactions made of one.
--
-- Bounds and fuel. Loops are structural recursion on the list they walk. The loop of _read_exact
-- recurses on the number of bytes that are left, and every piece that is not empty takes at least
-- one, so that the number is fuel enough; the round trips show that it is. The length of a frame
-- is four bytes, with the division and remainder that pack and unpack it written out.
--
-- Parameters. Ed25519, cbor2, SHA-256, uuid4, the parsing of json, the remote validator, the human
-- approver, the database of the lifecycle and the observers are arguments of the definitions that
-- use them, and what a theorem relies on is a hypothesis of it.
--
-- Not modelled: file-system, socket, process and FUSE code, which only calls the system; the
-- TOML reader and writer of profiles; the strict CBOR decoder; the migrations and the mount table
-- of the state database; the files and the rotation of AuditLog; the command line; and the other
-- parts that broker/, sandbox/, runtime/, sftp/, rclone/ and mounts/ hold, most of which compose
-- such calls.
pub mod Base
pub mod Core
pub mod Profile
pub mod Grant
pub mod Session
pub mod Namespace
pub mod Homed
pub mod Broker
pub mod Framing
pub mod Audit
pub mod State
