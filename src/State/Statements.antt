-- ===== src/State/Statements.antt =====
-- state/sqlite.py: the SQL statements and the small steps that the methods on grants and sessions share.
use astral_project.Base.{
  String, Bool, true, false, not, ◌||◌, Option, none, some, List, [], ◌∷◌, if◌then◌else◌, ◌==◌,
  nat_eq, string_eq, list_eq, option_eq, pair_eq, Result, ok, err, Text, codes, ℤ, pos, ltb_ℤ, ◌-ℤ◌,
  int_eq,
}
use astral_project.Base.Dict.{Dict, get, put}
use astral_project.Core.{AstralError, state_corrupt}
use astral_project.Audit.Json.{Json, JsonFields, json_object, no_fields, json_field, json_text}
use astral_project.Grant.Verify.{SignedGrant, GrantVerificationContext}
use astral_project.Grant.Types.{Grant}
use astral_project.State.Tables.{
  HostRow, SessionRow, SessionState, RemoteState, StateError, Tables, integrity_error, pending,
  astral, confirmed, state_error, offline, Store, Revocation,
}
use astral_project.Audit.Event.{Occurrence}
use astral_project.State.Actions.{Action, raise_if, pure, raise, ◌>>◌, modify}

-- A step of the program's own that may raise.
abbrev pub astral_step : {A : Type 0} → Result AstralError A → Action A
astral_step (ok a) = pure a
astral_step (err e) = raise (astral e)

-- The value, or an error where there is none.
abbrev pub or_raise : {A : Type 0} → StateError → Option A → Action A
or_raise e none = raise e
or_raise e (some a) = pure a

-- A constraint of the schema on the tables
unfoldable pub require : (Tables → Bool) → Action (Unit {0})
require holds s = raise_if (not (holds s.tables)) integrity_error s

abbrev pub is_some : {V : Type 0} → Option V → Bool
is_some none = false
is_some (some v) = true

unfoldable pub has_key : {V : Type 0} → Text → Dict Text V → Bool
unfolding get
has_key key d = is_some (get key d)

-- `_audit` with texts as the fields of its payload
abbrev pub text_fields : List (String × Text) → JsonFields
text_fields [] = no_fields
text_fields ((key, value) ∷ rest) = json_field (codes key) (json_text value) (text_fields rest)

abbrev pub occurrence : String → String → Text → List (String × Text) → ℤ → Occurrence
occurrence kind subject_type subject_id payload at = record {
  kind = codes kind;
  subject_type = codes subject_type;
  subject_id = subject_id;
  payload = text_fields payload;
  occurred_at = at;
}

-- `GrantVerificationContext` with its defaults
abbrev pub context_of : Text → Text → Text → ℤ → GrantVerificationContext
context_of host_id fingerprint remote_user now = record {
  host_id = host_id;
  ssh_host_key_fingerprint = fingerprint;
  remote_user = remote_user;
  now = now;
  known_mandatory_extensions = [];
  known_optional_extensions = [];
  allow_unknown_optional_extensions = false;
}

-- `isinstance(value, dict)`
abbrev pub is_object : Json → Bool
is_object (json_object members) = true
is_object _ = false

-- What `activate_session` and `store_signed_grant` are called with: the grant, the key that it carries,
-- the host as it was seen, the metadata and the time.
pub record Binding (Key : Type 0) : Type 0 where
  pub signed_grant : SignedGrant
  pub issuer_public_key : Option Key
  pub host_key_fingerprint : Text
  pub remote_user : Text
  pub host_metadata : Json
  pub at : ℤ
  pub issuer_key : Option Key

-- `issuer_key or signed_grant.issuer_public_key`
abbrev pub effective_key : {Key : Type 0} → Binding Key → Option Key
effective_key b = elim b.issuer_key [ none ↦ b.issuer_public_key | some key ↦ some key ]

-- `max(a, b)` and `min(a, b)`
abbrev max_ℤ : ℤ → ℤ → ℤ
max_ℤ a b = if ltb_ℤ a b then b else a

abbrev min_ℤ : ℤ → ℤ → ℤ
min_ℤ a b = if ltb_ℤ b a then b else a

-- `verification_time`
unfoldable pub verification_time : Grant → ℤ → ℤ
unfolding ◌-ℤ◌
verification_time g at = min_ℤ (max_ℤ at g.not_before) (g.expires_at -ℤ pos 1)

-- The fields of the host that a grant binds differ from those seen.
abbrev pub binding_differs : {Key : Type 0} → Binding Key → Bool
binding_differs b =
    not (b.signed_grant.grant.ssh_host_key_fingerprint == b.host_key_fingerprint)
    || not (b.signed_grant.grant.remote_user == b.remote_user)
    || ltb_ℤ b.at (pos 0)
    || not (is_object b.host_metadata)

abbrev pub host_row : {Key : Type 0} → Binding Key → ℤ → HostRow
host_row b created_at = record {
  host_key_fingerprint = b.host_key_fingerprint;
  remote_user = b.remote_user;
  metadata_json = some b.host_metadata;
  created_at = created_at;
  updated_at = b.at;
}

-- `INSERT INTO hosts ... ON CONFLICT(host_id) DO UPDATE`
unfoldable pub upsert_host : {Key : Type 0} → Text → Binding Key → Tables → Tables
unfolding get put
upsert_host host_id b t = record t {
  hosts =
      put host_id
        (host_row b (elim (get host_id t.hosts) [ none ↦ b.at | some old ↦ old.created_at ]))
        t.hosts;
}

-- The event that tells how the host is known
abbrev pub host_event : Option HostRow → Text → String
host_event none fingerprint = "host.enrolled"
host_event (some old) fingerprint =
    if old.host_key_fingerprint == fingerprint then "host.observed" else "host.key.changed"

abbrev pub is_changed : Option HostRow → Text → Bool
is_changed none fingerprint = false
is_changed (some old) fingerprint = not (old.host_key_fingerprint == fingerprint)

-- `except sqlite3.IntegrityError`
unfoldable pub caught :
    {A : Type 0} → StateError → Result StateError A × Store → Result StateError A × Store
caught e (err integrity_error, s) = (err e, s)
caught e other = other

unfoldable pub on_integrity_error : {A : Type 0} → StateError → Action A → Action A
unfolding caught
on_integrity_error e body s = caught e (body s)

-- `UPDATE sessions SET state = ..., ended_at = ... WHERE ...`
unfoldable pub update_sessions :
    (Text → SessionRow → Bool) → SessionState → ℤ → Dict Text SessionRow → Dict Text SessionRow
update_sessions affects state at [] = []
update_sessions affects state at ((id, row) ∷ rest) =
    (id, if affects id row then record row { state = state; ended_at = some at } else row)
    ∷ update_sessions affects state at rest

abbrev pub remote_state_text : RemoteState → Text
remote_state_text pending = codes "pending"
remote_state_text confirmed = codes "confirmed"
remote_state_text offline = codes "offline:remote-revocation-failed"

-- The row of a dictionary's metadata column as a dictionary
abbrev pub metadata_or_raise : Option Json → Action JsonFields
metadata_or_raise (some (json_object members)) = pure members
metadata_or_raise _ = raise (state_error state_corrupt "enrolled host metadata is invalid")

-- The statement on the whole tables
unfoldable pub end_sessions : (Text → SessionRow → Bool) → SessionState → ℤ → Tables → Tables
unfolding update_sessions
end_sessions affects state at t = record t {
  sessions = update_sessions affects state at t.sessions;
}

-- `INSERT OR REPLACE INTO revocations`
abbrev pub with_revocation : Text → Revocation → Tables → Tables
with_revocation grant_id row t = record t { revocations = put grant_id row t.revocations }

unfoldable pub insert_revocation : Text → Revocation → Action (Unit {0})
unfolding require has_key put
insert_revocation grant_id row = do
  require (λ t. has_key grant_id t.grants)
  modify (with_revocation grant_id row)

-- `UPDATE revocations SET remote_state = ... WHERE grant_id = ...`
abbrev pub update_found :
    Text → RemoteState → Option Revocation → Dict Text Revocation → Dict Text Revocation
update_found grant_id remote_state none revocations = revocations
update_found grant_id remote_state (some row) revocations =
    put grant_id (record row { remote_state = remote_state }) revocations

unfoldable pub update_revocation : Text → RemoteState → Tables → Tables
unfolding get put
update_revocation grant_id remote_state t = record t {
  revocations = update_found grant_id remote_state (get grant_id t.revocations) t.revocations;
}
