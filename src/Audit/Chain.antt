-- ===== src/Audit/Chain.antt =====
-- audit/events.py: `AuditRetentionBoundary` and `validate_chain`. SHA-256 is a parameter.
use astral_project.Base.{
  Bool, false, not, ◌||◌, Option, none, some, List, [], ◌∷◌, ◌++◌, map, if◌then◌else◌, ◌==◌, nat_eq,
  string_eq, list_eq, option_eq, pair_eq, Result, ok, err, ◌>>=◌, ◌>>◌, raise_if, is_empty,
  contains, Text, Bytes, codes, encode_utf8, ℤ, int_eq,
}
use astral_project.Audit.Json.{
  Json, JsonFields, json_at, json_int, json_field, json_keys, json_text, no_fields,
}
use astral_project.Grant.Payload.{same_set}
use astral_project.Audit.Event.{AuditEvent, AuditEventError, audit_schema_version}

pub record AuditRetentionBoundary : Type 0 where
  pub pruned_through_event_id : Text
  pub first_retained_event_id : Text
  pub digest : Text
  pub schema_version : ℤ

abbrev boundary_keys : List Text
boundary_keys =
    map codes
      ("schema_version" ∷ "pruned_through_event_id" ∷ "first_retained_event_id" ∷ "digest" ∷ [])

abbrev pub boundary_error : {A : Type 0} → Result AuditEventError A
boundary_error = err "audit retention boundary is invalid"

-- `schema_version != SCHEMA_VERSION` or of another class
abbrev is_schema_version : Json → Bool
is_schema_version (json_int n) = n == audit_schema_version
is_schema_version _ = false

-- `isinstance(item, str) and item`
abbrev named : Json → Result AuditEventError Text
named (json_text text) = if is_empty text then boundary_error else ok text
named _ = boundary_error

module _ (sha256_hex : Bytes → Text) where
  -- `AuditRetentionBoundary.create`
  unfoldable pub create_boundary : Text → Text → AuditRetentionBoundary
  create_boundary pruned first = record {
    pruned_through_event_id = pruned;
    first_retained_event_id = first;
    digest =
        sha256_hex
          (codes "astral-project-audit-boundary\0" ++ encode_utf8 pruned ++ 0 ∷ encode_utf8 first);
    schema_version = audit_schema_version;
  }

  -- `AuditRetentionBoundary.from_dict`
  unfoldable pub boundary_from_dict : JsonFields → Result AuditEventError AuditRetentionBoundary
  unfolding create_boundary json_at same_set
  boundary_from_dict value = do
    raise_if
        (not (same_set (json_keys value) boundary_keys)
          || not (is_schema_version (json_at (codes "schema_version") value)))
        "audit retention boundary is invalid"
    pruned ← named (json_at (codes "pruned_through_event_id") value)
    first ← named (json_at (codes "first_retained_event_id") value)
    digest ← named (json_at (codes "digest") value)
    raise_if (not (digest == (create_boundary pruned first).digest))
        "audit retention boundary digest is invalid"
    ok (create_boundary pruned first)

  -- `AuditRetentionBoundary.to_dict`
  unfoldable pub boundary_to_dict : AuditRetentionBoundary → JsonFields
  boundary_to_dict b = json_field (codes "schema_version") (json_int b.schema_version) (
      json_field (codes "pruned_through_event_id") (json_text b.pruned_through_event_id) (
        json_field (codes "first_retained_event_id") (json_text b.first_retained_event_id)
          (json_field (codes "digest") (json_text b.digest) no_fields)))

abbrev pub retention_boundary : Text
retention_boundary = codes "retention-boundary"

-- The loop over `itertools.pairwise(boundaries)`
unfoldable pub boundary_errors : List AuditRetentionBoundary → List Text
boundary_errors [] = []
boundary_errors (b ∷ []) = []
boundary_errors (b ∷ c ∷ rest) =
    let later = boundary_errors (c ∷ rest) in
    if c.pruned_through_event_id == b.first_retained_event_id
    then later
    else retention_boundary ∷ later

-- The loop over the events, with the identifiers seen and the one that comes next before
unfoldable pub event_errors : List Text → Option Text → List AuditEvent → List Text
event_errors known expected [] = []
event_errors known expected (e ∷ events) =
    let later = event_errors (e.event_id ∷ known) (some e.event_id) events in
    if contains known e.event_id || not (e.previous_event_id == expected)
    then e.event_id ∷ later
    else later

-- `boundaries[-1] if boundaries else None`, and for any other list
unfoldable pub last_of {ℓ} : {A : Type ℓ} → List A → Option A
last_of [] = none
last_of (x ∷ []) = some x
last_of (x ∷ y ∷ rest) = last_of (y ∷ rest)

-- The first event is held against the latest boundary.
unfoldable pub chain_errors : Option AuditRetentionBoundary → List AuditEvent → List Text
unfolding event_errors
chain_errors none events = event_errors [] none events
chain_errors (some b) [] = []
chain_errors (some b) (e ∷ events) =
    if e.event_id == b.first_retained_event_id
    then event_errors [] (some b.pruned_through_event_id) (e ∷ events)
    else retention_boundary ∷ event_errors [] none (e ∷ events)

-- `tuple(dict.fromkeys(errors))`
unfoldable pub from_keys : List Text → List Text → List Text
from_keys seen [] = []
from_keys seen (x ∷ xs) =
    let rest = from_keys seen xs in
    let others = from_keys (x ∷ seen) xs in if contains seen x then rest else x ∷ others

-- `(*boundaries, boundary)` unless it is None
abbrev pub with_boundary :
    Option AuditRetentionBoundary → List AuditRetentionBoundary → List AuditRetentionBoundary
with_boundary none boundaries = boundaries
with_boundary (some b) boundaries = boundaries ++ b ∷ []

-- `validate_chain`
unfoldable pub validate_chain :
    List AuditEvent → Option AuditRetentionBoundary → List AuditRetentionBoundary → List Text
unfolding boundary_errors last_of chain_errors from_keys
validate_chain events boundary boundaries =
    let all_boundaries = with_boundary boundary boundaries in
    from_keys [] (boundary_errors all_boundaries ++ chain_errors (last_of all_boundaries) events)
