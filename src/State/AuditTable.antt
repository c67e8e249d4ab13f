-- ===== src/State/AuditTable.antt =====
-- state/sqlite.py: the audit table: `_audit`, `_apply_audit_retention`, `list_audit_events`,
-- `record_audit`, `audit_event`, `audit_chain_errors` and `rotate_audit`.
use astral_project.Base.{
  ℕ, zero, suc, ◌-◌, Bool, true, false, Option, none, some, List, [], ◌∷◌, ◌++◌, map, ltb, leb,
  if◌then◌else◌, ◌==◌, nat_eq, string_eq, list_eq, option_eq, pair_eq, Result, ok, err, length,
  drop, any, find?, Text, Bytes, codes, encode_utf8, int_eq,
}
use astral_project.State.Actions.{
  ◌>>=◌, ◌>>◌, raise_if, Action, transaction, modify, raise, select, draw, step, pure,
}
use astral_project.Audit.Json.{
  Json, JsonFields, json_at, json_object, json_field, json_keys, json_int, json_text, no_fields,
  json_dumps,
}
use astral_project.Audit.Event.{
  AuditEvent, AuditEventError, Occurrence, make_event, optional_text, audit_schema_version,
  create_event, audit_max_event_bytes,
}
use astral_project.Audit.Chain.{
  AuditRetentionBoundary, boundary_from_dict, create_boundary, retention_boundary, validate_chain,
}
use astral_project.Grant.Payload.{same_set}
use astral_project.State.Tables.{
  AuditRow, BoundaryRow, StateError, Tables, type_error, audit_event_error, integrity_error,
  value_error, state_error,
}
use astral_project.Core.{state_corrupt}

abbrev pub envelope_keys : List Text
envelope_keys = map codes ("payload" ∷ "previous_event_id" ∷ "schema_version" ∷ [])

abbrev pub option_of : {E A : Type 0} → Result E A → Option A
option_of (ok a) = some a
option_of (err e) = none

-- `AuditEvent(...)` of a row, or a `continue`
unfoldable pub build_event : AuditRow → Json → Json → Json → Option AuditEvent
build_event row (json_object payload) previous version = option_of (
    make_event (record {
      event_id = json_text row.event_id;
      occurred_at = json_int row.occurred_at;
      kind = json_text row.kind;
      subject_type = json_text row.subject_type;
      subject_id = json_text row.subject_id;
      payload = payload;
      previous_event_id = previous;
      schema_version = version;
    }))
build_event row _ previous version = none

-- The event of a row, none where it is malformed; a row without an envelope has the given
-- predecessor.
unfoldable pub read_payload : Option Text → AuditRow → Option Json → Option AuditEvent
unfolding build_event json_at
read_payload legacy row (some (json_object raw)) =
    if same_set (json_keys raw) envelope_keys
    then build_event row (json_at (codes "payload") raw) (json_at (codes "previous_event_id") raw)
        (json_at (codes "schema_version") raw)
    else build_event row (json_object raw) (optional_text legacy) (json_int audit_schema_version)
read_payload legacy row _ = none

unfoldable pub read_event : Option Text → AuditRow → Option AuditEvent
unfolding read_payload
read_event legacy row = read_payload legacy row row.payload_json

-- The loop of `list_audit_events`
unfoldable pub read_events : Option Text → List AuditRow → List AuditEvent
unfolding read_event
read_events previous [] = []
read_events previous (row ∷ rows) = elim (read_event previous row) [
  | none ↦ read_events previous rows
  | some e ↦ e ∷ read_events (some e.event_id) rows
]

abbrev pub is_valid_row : AuditRow → Bool
is_valid_row row = elim (read_event none row) [ none ↦ false | some e ↦ true ]

-- `ORDER BY rowid DESC`
unfoldable pub backwards {ℓ} : {A : Type ℓ} → List A → List A
backwards [] = []
backwards (x ∷ xs) = backwards xs ++ x ∷ []

-- The loop of `_audit` over the rows, the newest first
unfoldable pub latest_event_id : List AuditRow → Option Text
latest_event_id [] = none
latest_event_id (row ∷ older) =
    if is_valid_row row then some row.event_id else latest_event_id older

-- The identifiers of `valid` in `_apply_audit_retention`
unfoldable pub valid_ids : List AuditRow → List Text
valid_ids [] = []
valid_ids (row ∷ rows) =
    let rest = valid_ids rows in if is_valid_row row then row.event_id ∷ rest else rest

-- The rows behind the n-th valid one: those that `rowid <= cutoff` does not delete.
unfoldable pub drop_through : ℕ → List AuditRow → List AuditRow
drop_through zero rows = rows
drop_through (suc n) [] = []
drop_through (suc n) (row ∷ rows) = elim (is_valid_row row) [
  | true ↦ drop_through n rows
  | false ↦ drop_through (suc n) rows
]

unfoldable pub boundary_row : AuditRetentionBoundary → BoundaryRow
boundary_row b = record {
  schema_version = b.schema_version;
  pruned_through_event_id = b.pruned_through_event_id;
  first_retained_event_id = b.first_retained_event_id;
  digest = b.digest;
}

-- The dictionary that `audit_chain_errors` makes of a row
unfoldable pub row_dict : BoundaryRow → JsonFields
row_dict row = json_field (codes "schema_version") (json_int row.schema_version) (
    json_field (codes "pruned_through_event_id") (json_text row.pruned_through_event_id) (
      json_field (codes "first_retained_event_id") (json_text row.first_retained_event_id)
        (json_field (codes "digest") (json_text row.digest) no_fields)))

-- `INSERT INTO audit_events`
unfoldable pub insert_event : AuditRow → Action (Unit {0})
insert_event row = do
  rows ← select (λ t. t.audit_events)
  raise_if (any (λ other. other.event_id == row.event_id) rows) integrity_error
  modify (λ t. record t { audit_events = t.audit_events ++ row ∷ [] })

-- The row that `_audit` writes of an event: its envelope as JSON
unfoldable pub envelope : AuditEvent → Json
envelope e = json_object (
    json_field (codes "payload") (json_object e.payload) (
      json_field (codes "previous_event_id") (optional_text e.previous_event_id)
        (json_field (codes "schema_version") (json_int e.schema_version) no_fields)))

unfoldable pub event_row : AuditEvent → AuditRow
unfolding envelope
event_row e = record {
  event_id = e.event_id;
  occurred_at = e.occurred_at;
  kind = e.kind;
  subject_type = e.subject_type;
  subject_id = e.subject_id;
  payload_json = some (envelope e);
}

abbrev pub audit_step : {A : Type 0} → Result AuditEventError A → Result StateError A
audit_step (ok a) = ok a
audit_step (err e) = err (audit_event_error e)

abbrev pub dumped : Option Text → Result StateError Text
dumped none = err type_error
dumped (some text) = ok text

-- The result of `audit_chain_errors`, of the boundaries if all rows have one
abbrev pub errors_of : Option (List AuditRetentionBoundary) → List AuditEvent → List Text
errors_of none events = retention_boundary ∷ []
errors_of (some boundaries) events = validate_chain events none boundaries

module _ (sha256_hex : Bytes → Text) where
  -- The deletion of `_apply_audit_retention`, of the valid rows up to the first of two identifiers
  unfoldable pub prune : ℕ → List Text → Tables → Tables
  prune n (cutoff ∷ first ∷ rest) t = record t {
    audit_events = drop_through n t.audit_events;
    audit_retention_boundary =
        t.audit_retention_boundary ++ boundary_row (create_boundary sha256_hex cutoff first) ∷ [];
  }
  prune n _ t = t

  -- `_apply_audit_retention`; `valid[-limit - 1]` is the last of those that go
  unfoldable pub retained : ℕ → Tables → Tables
  unfolding prune valid_ids
  retained limit t =
      let valid = valid_ids t.audit_events in
      let excess = length valid - limit in
      if leb (length valid) limit then t else prune excess (drop (excess - 1) valid) t

  -- The loop over the boundary rows; none is the answer "retention-boundary"
  unfoldable pub read_boundaries : List BoundaryRow → Option (List AuditRetentionBoundary)
  unfolding row_dict
  read_boundaries [] = some []
  read_boundaries (row ∷ rows) = elim (boundary_from_dict sha256_hex (row_dict row)) [
    | err e ↦ none
    | ok b ↦ elim (read_boundaries rows) [ none ↦ none | some bs ↦ some (b ∷ bs) ]
  ]

  unfoldable pub chain_of : Tables → List Text
  unfolding read_boundaries read_events
  chain_of t =
      errors_of (read_boundaries t.audit_retention_boundary) (read_events none t.audit_events)

  -- `audit_chain_errors`
  unfoldable pub audit_chain_errors : Action (List Text)
  unfolding chain_of
  audit_chain_errors = select chain_of

  -- `rotate_audit`
  unfoldable pub rotate_audit : ℕ → Action (Unit {0})
  unfolding transaction retained
  rotate_audit retain = do
    raise_if (ltb retain 1) value_error
    transaction (modify (retained retain))

  module _ (uuid4 : ℕ → Text) (retention_limit : ℕ) where
    -- `_audit`
    unfoldable pub audit : Occurrence → Action (Unit {0})
    unfolding insert_event event_row retained backwards latest_event_id
    audit o = do
      rows ← select (λ t. t.audit_events)
      drawn ← draw
      e ← step (audit_step (create_event (uuid4 drawn) (latest_event_id (backwards rows)) o))
      text ← step (dumped (json_dumps (envelope e)))
      raise_if (ltb audit_max_event_bytes (length (encode_utf8 text)))
          (audit_event_error "audit event exceeds serialized size limit")
      insert_event (event_row e)
      modify (retained retention_limit)

    -- `record_audit`
    unfoldable pub record_audit : Occurrence → Action (Unit {0})
    unfolding transaction audit
    record_audit o = transaction (audit o)

-- `list_audit_events`
unfoldable pub list_audit_events : Action (List AuditEvent)
unfolding read_events
list_audit_events = select (λ t. read_events none t.audit_events)

-- `audit_event`
unfoldable pub audit_event : Text → Action AuditEvent
unfolding list_audit_events
audit_event event_id = do
  events ← list_audit_events
  elim (find? (λ e. e.event_id == event_id) events) [
    | none ↦ raise (state_error state_corrupt "audit event was not found")
    | some e ↦ pure e
  ]
