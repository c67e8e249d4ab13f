-- ===== src/Audit/Tests.antt =====
-- audit/events.py: sample events and boundaries, and the theorems at them.
use astral_project.Base.{
  ◌≡◌, refl, ◌↔◌, none, some, [], ◌∷◌, nat_eq, string_eq, list_beq, list_eq, option_eq, pair_eq, ok,
  err, any, Text, Bytes, codes, starts_with, has_char, pos, int_eq,
}
use astral_project.Audit.Event.{
  AuditEvent, EventFields, make_event, validate_payload, check_version, event_to_dict, check_name,
  hide_path, redacted, check_timestamp, redact, check_previous,
}
use astral_project.Audit.Chain.{AuditRetentionBoundary, create_boundary, validate_chain}
use astral_project.Audit.Private.{ThroughoutFields, InSchema, Hidden, export-Hidden}
use astral_project.Audit.Json.{
  JsonFields, json_get, json_text, json_field, json_int, json_null, no_fields, json_object,
}
use astral_project.Audit.Linear.{Linear, validate_chain-Linear}
use astral_project.Audit.Schema.{
  is_argument_key, is_secret_key, is_path_field, is_secret_value, is_space,
}

abbrev sample_payload : JsonFields
sample_payload =
    json_field (codes "mount_path") (json_text (codes "/home/u/m"))
      (json_field (codes "state") (json_text (codes "done")) no_fields)

abbrev sample_fields : EventFields
sample_fields = record {
  event_id = json_text (codes "e");
  occurred_at = json_int (pos 5);
  kind = json_text (codes "mount.created");
  subject_type = json_text (codes "mount");
  subject_id = json_text (codes "m");
  payload = sample_payload;
  previous_event_id = json_null;
  schema_version = json_int (pos 1);
}

abbrev sample_event : AuditEvent
sample_event = record {
  event_id = codes "e";
  occurred_at = pos 5;
  kind = codes "mount.created";
  subject_type = codes "mount";
  subject_id = codes "m";
  payload = sample_payload;
  previous_event_id = none;
  schema_version = pos 1;
}

abbrev shown : JsonFields
shown =
    json_field (codes "mount_path") (json_text redacted)
      (json_field (codes "state") (json_text (codes "done")) no_fields)

abbrev one_digit : Bytes → Text
one_digit b = b'a' ∷ []

made : make_event sample_fields ≡ ok sample_event
unfolding make_event validate_payload check_version check_name check_timestamp check_previous
    is_argument_key is_secret_key is_secret_value starts_with any has_char list_beq
made = refl

exported :
    json_get (codes "payload") (event_to_dict one_digit (some redact) sample_event)
    ≡ some (json_object shown)
unfolding json_get event_to_dict list_beq hide_path is_path_field any
exported = refl

export-Hidden_example : ThroughoutFields InSchema (Hidden one_digit redact) shown
export-Hidden_example =
    export-Hidden one_digit redact sample_fields sample_event shown made exported

-- A secret assignment in a value, a key of arguments, and a list outside a path are refused.
refuses_secret :
    validate_payload none
      (json_object (json_field (codes "message") (json_text (codes "Password : x")) no_fields))
    ≡ err "secret-bearing audit value is forbidden"
unfolding validate_payload is_argument_key is_secret_key is_secret_value starts_with any has_char
    list_beq is_space
refuses_secret = refl

abbrev boundary : AuditRetentionBoundary
boundary = create_boundary one_digit (codes "d") (codes "e")

abbrev second : AuditEvent
second = record sample_event { event_id = codes "f"; previous_event_id = some (codes "e") }

validate_chain-Linear_example :
    (validate_chain
        (record sample_event { previous_event_id = some (codes "d") } ∷ second ∷ [])
        none
        (boundary ∷ [])
      ≡ [])
    ↔ Linear
        (boundary ∷ [])
        (record sample_event { previous_event_id = some (codes "d") } ∷ second ∷ [])
validate_chain-Linear_example =
    validate_chain-Linear (boundary ∷ [])
      (record sample_event { previous_event_id = some (codes "d") } ∷ second ∷ [])
