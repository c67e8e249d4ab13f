-- ===== src/Audit/Event.antt =====
-- audit/events.py: `AuditEvent` with the checks of its constructor, its dictionary form, and the
-- treatment of paths on export. SHA-256 is a parameter.
use astral_project.Base.{
  ℕ, String, Bool, true, false, not, ◌&&◌, ◌||◌, Option, none, some, List, [], ◌∷◌, ◌++◌, map,
  if◌then◌else◌, ◌==◌, nat_eq, string_eq, list_eq, option_eq, pair_eq, Result, ok, err, ◌>>=◌, ◌>>◌,
  raise_if, is_empty, Text, Bytes, codes, has_char, encode_utf8, ℤ, pos, ltb_ℤ, int_eq,
}
use astral_project.Audit.Json.{
  Json, JsonFields, json_at, json_int, json_null, json_object, json_text, json_field, json_keys,
  json_list, json_bool, no_fields, json_float, JsonItems, json_item, not_json, no_items,
}
use astral_project.Audit.Schema.{
  is_secret_key, is_argument_key, is_path_field, in_strings, is_secret_value, safe_payload_keys,
  safe_reason_values,
}
use astral_project.Grant.Payload.{same_set}

-- The message of an `AuditEventError`, an f-string with its name put in.
abbrev pub AuditEventError : Type 0
AuditEventError = String

-- `SCHEMA_VERSION` and `AUDIT_MAX_EVENT_BYTES`
abbrev pub audit_schema_version : ℤ
audit_schema_version = pos 1

abbrev pub audit_max_event_bytes : ℕ
audit_max_event_bytes = 65536

-- The head of `_validate_payload`
unfoldable pub check_key : Option Text → Result AuditEventError (Unit {0})
check_key none = ok tt
check_key (some key) = do
  raise_if (is_argument_key key) "command arguments are forbidden in audit fields"
  raise_if (is_secret_key key) "secret-bearing audit field is forbidden"
  raise_if (not (in_strings safe_payload_keys key)) "audit payload field is not in the schema"

abbrev pub is_path_key : Option Text → Bool
is_path_key none = false
is_path_key (some key) = is_path_field key

abbrev pub is_reason : Option Text → Bool
is_reason none = false
is_reason (some key) = key == codes "reason"

abbrev is_json_text : Json → Bool
is_json_text (json_text text) = true
is_json_text _ = false

-- `_validate_payload`
unfoldable mutual
  unfolding check_key

  pub validate_payload : Option Text → Json → Result AuditEventError (Unit {0})
  validate_payload key (json_object fields) = check_key key >> validate_fields fields
  validate_payload key (json_list items) = do
    check_key key
    raise_if (not (is_path_key key)) "audit payload lists are restricted to path fields"
    validate_items key items
  validate_payload key (json_text value) = do
    check_key key
    raise_if (is_secret_value value || has_char 0 value) "secret-bearing audit value is forbidden"
    raise_if (is_reason key && not (in_strings safe_reason_values value))
        "audit reason is not in the schema"
  validate_payload key json_null = check_key key
  validate_payload key (json_bool b) = check_key key
  validate_payload key (json_int n) = check_key key
  validate_payload key (json_float repr) = check_key key
  validate_payload key not_json = check_key key >> err "audit payload is not JSON-safe"

  pub validate_items : Option Text → JsonItems → Result AuditEventError (Unit {0})
  validate_items key no_items = ok tt
  validate_items key (json_item value rest) = do
    raise_if (not (is_json_text value)) "audit path collections must contain strings"
    validate_payload key value
    validate_items key rest

  pub validate_fields : JsonFields → Result AuditEventError (Unit {0})
  validate_fields no_fields = ok tt
  validate_fields (json_field key value rest) = do
    raise_if (has_char 0 key) "audit payload key is invalid"
    validate_payload (some key) value
    validate_fields rest

pub record AuditEvent : Type 0 where
  pub event_id : Text
  pub occurred_at : ℤ
  pub kind : Text
  pub subject_type : Text
  pub subject_id : Text
  pub payload : JsonFields
  pub previous_event_id : Option Text
  pub schema_version : ℤ

unfoldable pub check_version : Json → Result AuditEventError (Unit {0})
check_version (json_int n) =
    raise_if (not (n == audit_schema_version)) "unsupported audit schema version"
check_version _ = err "unsupported audit schema version"

unfoldable pub check_name : String → Json → Result AuditEventError Text
check_name message (json_text name) = do
  raise_if (is_empty name || has_char 0 name) message
  ok name
check_name message _ = err message

unfoldable pub check_timestamp : Json → Result AuditEventError ℤ
check_timestamp (json_int at) = do raise_if (ltb_ℤ at (pos 0)) "invalid audit timestamp"; ok at
check_timestamp _ = err "invalid audit timestamp"

unfoldable pub check_previous : Json → Result AuditEventError (Option Text)
check_previous json_null = ok none
check_previous (json_text id) = do
  raise_if (is_empty id) "invalid previous audit event"
  ok (some id)
check_previous _ = err "invalid previous audit event"

-- What `AuditEvent(...)` is called with, before its checks.
pub record EventFields : Type 0 where
  pub event_id : Json
  pub occurred_at : Json
  pub kind : Json
  pub subject_type : Json
  pub subject_id : Json
  pub payload : JsonFields
  pub previous_event_id : Json
  pub schema_version : Json

-- `AuditEvent.__post_init__`
unfoldable pub make_event : EventFields → Result AuditEventError AuditEvent
unfolding check_version check_name check_timestamp check_previous
make_event f = do
  check_version f.schema_version
  event_id ← check_name "invalid audit event_id" f.event_id
  kind ← check_name "invalid audit kind" f.kind
  subject_type ← check_name "invalid audit subject_type" f.subject_type
  subject_id ← check_name "invalid audit subject_id" f.subject_id
  occurred_at ← check_timestamp f.occurred_at
  previous ← check_previous f.previous_event_id
  validate_payload none (json_object f.payload)
  ok (record {
    event_id = event_id;
    occurred_at = occurred_at;
    kind = kind;
    subject_type = subject_type;
    subject_id = subject_id;
    payload = f.payload;
    previous_event_id = previous;
    schema_version = audit_schema_version;
  })

abbrev pub optional_text : Option Text → Json
optional_text none = json_null
optional_text (some text) = json_text text

-- What a caller records: the kind, the subject and the payload of an event, and its time.
pub record Occurrence : Type 0 where
  pub kind : Text
  pub subject_type : Text
  pub subject_id : Text
  pub payload : JsonFields
  pub occurred_at : ℤ

-- `AuditEvent.create`, with the identifier that `uuid.uuid4` draws
unfoldable pub create_event : Text → Option Text → Occurrence → Result AuditEventError AuditEvent
unfolding make_event
create_event event_id previous o = make_event (record {
  event_id = json_text event_id;
  occurred_at = json_int o.occurred_at;
  kind = json_text o.kind;
  subject_type = json_text o.subject_type;
  subject_id = json_text o.subject_id;
  payload = o.payload;
  previous_event_id = optional_text previous;
  schema_version = json_int audit_schema_version;
})

abbrev pub event_keys : List Text
event_keys = map codes (
    "event_id" ∷ "occurred_at" ∷ "kind" ∷ "subject_type" ∷ "subject_id" ∷ "payload"
    ∷ "previous_event_id" ∷ "schema_version" ∷ [])

-- `isinstance(previous, str)` or None
abbrev pub is_optional_text : Json → Bool
is_optional_text json_null = true
is_optional_text (json_text text) = true
is_optional_text _ = false

-- `isinstance(value, dict)`
abbrev pub object_or_raise : {E : Type 0} → E → Json → Result E JsonFields
object_or_raise e (json_object fields) = ok fields
object_or_raise e _ = err e

-- `AuditEvent.from_dict`
unfoldable pub event_from_dict : JsonFields → Result AuditEventError AuditEvent
unfolding make_event json_at
event_from_dict value = do
  raise_if (not (same_set (json_keys value) event_keys)) "audit event fields are invalid"
  payload ← object_or_raise "audit payload is not an object" (json_at (codes "payload") value)
  raise_if (not (is_optional_text (json_at (codes "previous_event_id") value)))
      "audit previous event is invalid"
  make_event (record {
    event_id = json_at (codes "event_id") value;
    occurred_at = json_at (codes "occurred_at") value;
    kind = json_at (codes "kind") value;
    subject_type = json_at (codes "subject_type") value;
    subject_id = json_at (codes "subject_id") value;
    payload = payload;
    previous_event_id = json_at (codes "previous_event_id") value;
    schema_version = json_at (codes "schema_version") value;
  })

pub data PathMode : Type 0 where
  redact hash : PathMode

abbrev pub redacted : Text
redacted = codes "<redacted>"

module _ (sha256_hex : Bytes → Text) where
  unfoldable pub hide_path : PathMode → Text → Text
  hide_path redact value = redacted
  hide_path hash value =
      codes "sha256:" ++ sha256_hex (codes "astral-project-audit-path\0" ++ encode_utf8 value)

  -- `_transform_paths`
  unfoldable mutual
    unfolding hide_path

    pub transform_paths : PathMode → Option Text → Json → Json
    transform_paths mode key (json_object fields) = json_object (transform_fields mode fields)
    transform_paths mode key (json_list items) = json_list (transform_items mode key items)
    transform_paths mode key (json_text value) =
        json_text (if is_path_key key then hide_path mode value else value)
    transform_paths mode key json_null = json_null
    transform_paths mode key (json_bool b) = json_bool b
    transform_paths mode key (json_int n) = json_int n
    transform_paths mode key (json_float repr) = json_float repr
    transform_paths mode key not_json = not_json

    pub transform_items : PathMode → Option Text → JsonItems → JsonItems
    transform_items mode key no_items = no_items
    transform_items mode key (json_item value rest) =
        json_item (transform_paths mode key value) (transform_items mode key rest)

    pub transform_fields : PathMode → JsonFields → JsonFields
    transform_fields mode no_fields = no_fields
    transform_fields mode (json_field key value rest) =
        json_field key (transform_paths mode (some key) value) (transform_fields mode rest)

  abbrev pub exported_payload : Option PathMode → JsonFields → JsonFields
  exported_payload none payload = payload
  exported_payload (some mode) payload = transform_fields mode payload

  -- `AuditEvent.to_dict`
  unfoldable pub event_to_dict : Option PathMode → AuditEvent → JsonFields
  unfolding transform_paths
  event_to_dict mode e = json_field (codes "event_id") (json_text e.event_id) (
      json_field (codes "occurred_at") (json_int e.occurred_at) (
        json_field (codes "kind") (json_text e.kind) (
          json_field (codes "subject_type") (json_text e.subject_type) (
            json_field (codes "subject_id") (json_text e.subject_id) (
              json_field (codes "payload") (json_object (exported_payload mode e.payload)) (
                json_field (codes "previous_event_id") (optional_text e.previous_event_id)
                  (json_field (codes "schema_version") (json_int e.schema_version) no_fields)))))))
