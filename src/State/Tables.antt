-- ===== src/State/Tables.antt =====
-- state/sqlite.py: the tables of the state database, and what its methods raise.
use astral_project.Base.{
  ℕ, String, Bool, true, false, Option, List, [], nat_eq, string_eq, list_eq, option_eq, pair_eq,
  Text, Bytes, ℤ, int_eq,
}
use astral_project.Base.Dict.{Dict}
use astral_project.Core.{AstralError, ErrorCode, astral_error}
use astral_project.Audit.Json.{Json}
use astral_project.Audit.Event.{AuditEventError}

-- `sqlite3.IntegrityError`, `AuditEventError`, `TypeError` and `ValueError` beside the program's own error.
pub data StateError : Type 0 where
  astral : AstralError → StateError
  integrity_error : StateError
  audit_event_error : AuditEventError → StateError
  type_error value_error : StateError

-- `_state_error`
abbrev pub state_error : ErrorCode → String → StateError
state_error code message = astral (astral_error code message)

-- A column that holds JSON is what `json.loads` makes of it, none where it refuses the text.
pub record HostRow : Type 0 where
  pub host_key_fingerprint : Text
  pub remote_user : Text
  pub metadata_json : Option Json
  pub created_at : ℤ
  pub updated_at : ℤ

pub record GrantRow : Type 0 where
  pub host_id : Text
  pub grant_cbor : Bytes
  pub issued_at : ℤ
  pub expires_at : ℤ

pub data SessionState : Type 0 where
  active closed expired revoked : SessionState

abbrev pub is_active : SessionState → Bool
is_active active = true
is_active _ = false

pub record SessionRow : Type 0 where
  pub grant_id : Text
  pub state : SessionState
  pub started_at : ℤ
  pub ended_at : Option ℤ

pub data RemoteState : Type 0 where
  pending confirmed offline : RemoteState

pub record Revocation : Type 0 where
  pub revoked_at : ℤ
  pub reason : Text
  pub remote_state : RemoteState

pub record AuditRow : Type 0 where
  pub event_id : Text
  pub occurred_at : ℤ
  pub kind : Text
  pub subject_type : Text
  pub subject_id : Text
  pub payload_json : Option Json

pub record BoundaryRow : Type 0 where
  pub schema_version : ℤ
  pub pruned_through_event_id : Text
  pub first_retained_event_id : Text
  pub digest : Text

-- The tables that the methods below use, each by its primary key; the rows of the audit tables are in
-- the order of their row numbers.
pub record Tables : Type 0 where
  pub hosts : Dict Text HostRow
  pub grants : Dict Text GrantRow
  pub grant_issuer_keys : Dict Text Bytes
  pub sessions : Dict Text SessionRow
  pub revocations : Dict Text Revocation
  pub audit_events : List AuditRow
  pub audit_retention_boundary : List BoundaryRow

-- The database, and how many identifiers `uuid.uuid4` has drawn for it.
pub record Store : Type 0 where
  pub tables : Tables
  pub drawn : ℕ

-- The tables after `_initialize` on a new path
abbrev pub empty_tables : Tables
empty_tables = record {
  hosts = [];
  grants = [];
  grant_issuer_keys = [];
  sessions = [];
  revocations = [];
  audit_events = [];
  audit_retention_boundary = [];
}
