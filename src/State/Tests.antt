-- ===== src/State/Tests.antt =====
-- state/sqlite.py: a toy platform, databases that short runs lead to, and the theorems at them.
use astral_project.Base.{
  ℕ, ◌+◌, ◌≤◌, ◌≡◌, refl, inr, true, false, none, some, List, [], ◌∷◌, arith, nat_eq, string_eq,
  list_beq, list_eq, option_beq, option_eq, pair_eq, ok, traverse, length, any, all, filter, find?,
  All, contains, Text, codes, starts_with, has_char, split, encode_utf8, join, pos, int_eq,
}
use astral_project.Grant.Verify.{
  SignedGrant, verify, canonical_bytes, canonical_dumps, check_context, has_unknown,
  make_signed_grant,
}
use astral_project.Grant.Tests.{sample_grant, any_id, zeros}
use astral_project.Audit.Event.{
  check_name, check_version, check_timestamp, check_previous, create_event, make_event,
  validate_payload, Occurrence, AuditEvent,
}
use astral_project.Audit.Chain.{
  create_boundary, validate_chain, boundary_errors, chain_errors, event_errors, from_keys, last_of,
  boundary_from_dict, retention_boundary,
}
use astral_project.Base.Order.{text_leb, sort_by, insert_by}
use astral_project.Grant.Types.{
  unique, make_grant, sorted_set, extension_mapping, make_grant_export, absolute_path,
  make_source_identity, ExportKind-discrete,
}
use astral_project.Grant.Payload.{
  fields, list_fields, exact_fields, read_grant, as_mapping, get_field, as_bytes, read_export,
  read_identity, grant_payload, as_list, as_text, make_id, as_int, list_items, items,
  export_payload, parse_access, parse_kind, identity_payload, as_optional_bytes, same_set,
}
use astral_project.State.Tables.{Store, pending, SessionRow, is_active}
use astral_project.State.Platform.{Platform, IsLawful}
use astral_project.Framing.Contracts.{signed_value, signed_to_cbor, signed_from_cbor}
use astral_project.State.Chained.{After, Database-chained, records, created, rotates}
use astral_project.State.Calls.{Calls, new_store, none_yet}
use astral_project.State.AuditTable.{
  record_audit, audit, insert_event, retained, prune, drop_through, valid_ids, latest_event_id,
  backwards, read_event, read_payload, build_event, envelope, event_row, boundary_row,
  audit_chain_errors, list_audit_events, rotate_audit, chain_of, read_boundaries, read_events,
  row_dict,
}
use astral_project.State.Statements.{
  occurrence, Binding, end_sessions, update_sessions, insert_revocation, update_revocation, require,
  has_key,
}
use astral_project.Audit.Json.{
  json_at, json_get, json_dumps, json_chars, int_repr, json_object, no_fields,
}
use astral_project.State.Grants.{
  activate_session, revoke_grant, insert_host, insert_grant, revoke_locally, insert_issuer_key,
  record_remote_state, insert_session,
}
use astral_project.State.Lookups.{
  signed_grant, grant_is_revoked, issuer_public_key, grant_verification_context,
  validate_signed_grant,
}
use astral_project.Base.Dict.{get, put}
use astral_project.State.Sessions.{
  any_active, open_session, list_sessions, close_session, check_open, insert_opened, export_hash,
}
use astral_project.Namespace.Planner.{
  build_namespace_plan, plan_exports, plan_export, normalized_target, path_parts, posix_path,
  reserved, paths_overlap, nested, make_planned_export, place, make_plan, range_from, target_leb,
  same_export, same_identity,
}
use astral_project.Namespace.Payload.{plan_bytes, plan_payload, planned_payload}
use astral_project.State.Opening.{MayOpen, OnlyActive, opened_row, opened_alone}
use astral_project.Audit.Schema.{is_argument_key, is_secret_key, is_secret_value}
use astral_project.State.Revocation.{revoked_for_good}
use astral_project.State.Actions.{transaction, finish}

abbrev signed_sample : SignedGrant
signed_sample = record { grant = sample_grant; signature = zeros 64 }

-- Identifiers count up, digests are all alike, and every signature and encoding is taken.
abbrev toy : Platform ℕ
toy = record {
  sha256_hex = λ b. b'a' ∷ [];
  uuid4 = λ n. (48 + n) ∷ [];
  public_bytes_raw = λ key. key ∷ [];
  from_public_bytes = λ column. some 0;
  ed25519_verify = λ key signature message. true;
  cbor2_dumps = λ value. some (1 ∷ 1 ∷ []);
  canonical_loads = λ column. ok (signed_value signed_sample);
  is_canonical_uuid4 = any_id;
}

toy-IsLawful : IsLawful toy
toy-IsLawful = record {
  digest_digits = λ b. refl;
  unique_ids = λ j k h. let e : 48 + j ≡ 48 + k = cc h in omega (arith, e);
}

abbrev note : Occurrence
note = occurrence "session.closed" "session" (codes "s") [] (pos 1)

-- Three events, of which one is kept
abbrev noted : Store → Store
noted s = After (record_audit toy.sha256_hex toy.uuid4 1 note) s

abbrev three_notes : Store
three_notes = noted (noted (noted (new_store 0)))

one_is_left : length three_notes.tables.audit_events ≡ 1
unfolding record_audit audit transaction finish create_event make_event validate_payload
    insert_event retained prune drop_through valid_ids latest_event_id backwards read_event
    read_payload build_event json_at json_get envelope event_row json_dumps encode_utf8 json_chars
    int_repr check_version check_name check_timestamp check_previous has_char any all contains
    list_beq same_set boundary_row create_boundary sort_by join text_leb
one_is_left = refl

-- Two events under a limit of three, a rotation to one, and another event
abbrev noted_again : Store → Store
noted_again s = After (record_audit toy.sha256_hex toy.uuid4 3 note) s

abbrev two_notes : Store
two_notes = noted_again (noted_again (new_store 0))

no_boundary_yet : two_notes.tables.audit_retention_boundary ≡ []
unfolding record_audit audit transaction finish create_event make_event validate_payload
    insert_event retained prune drop_through valid_ids latest_event_id backwards read_event
    read_payload build_event json_at json_get envelope event_row json_dumps encode_utf8 json_chars
    int_repr check_version check_name check_timestamp check_previous has_char any all contains
    list_beq same_set boundary_row create_boundary sort_by join text_leb
no_boundary_yet = refl

abbrev rotated : Store
rotated = noted_again (After (rotate_audit toy.sha256_hex 1) two_notes)

rotated_keeps : length rotated.tables.audit_events ≡ 2
unfolding record_audit audit transaction finish create_event make_event validate_payload
    insert_event retained prune drop_through valid_ids latest_event_id backwards read_event
    read_payload build_event json_at json_get envelope event_row json_dumps encode_utf8 json_chars
    int_repr check_version check_name check_timestamp check_previous has_char any all contains
    list_beq same_set boundary_row create_boundary sort_by join text_leb rotate_audit
rotated_keeps = refl

Database-chained_example :
    ((audit_chain_errors toy.sha256_hex rotated).0 ≡ ok [])
    × ((events : List AuditEvent) → (list_audit_events rotated).0 ≡ ok events → length events ≤ 3)
Database-chained_example =
    Database-chained toy 3 toy-IsLawful (omega arith) rotated
      (records note (rotates 1 (inr no_boundary_yet) (records note (records note (created 0)))))

-- A session of the sample grant on its host
abbrev sample_binding : Binding ℕ
sample_binding = record {
  signed_grant = signed_sample;
  issuer_public_key = some 0;
  host_key_fingerprint = codes "SHA256:x";
  remote_user = codes "u";
  host_metadata = json_object no_fields;
  at = pos 150;
  issuer_key = none;
}

abbrev activated : Store
activated = After (activate_session toy 5 (codes "s") (codes "h") sample_binding) (new_store 0)

abbrev revoked_store : Store
revoked_store = After (revoke_grant toy 5 (codes "g") (codes "lost") none (pos 160)) activated

was_active : any_active activated.tables ≡ true
unfolding activate_session insert_host insert_grant insert_issuer_key insert_session verify
    canonical_bytes canonical_dumps check_context has_unknown signed_to_cbor signed_value require
    has_key get put audit transaction finish create_event make_event validate_payload insert_event
    retained prune drop_through valid_ids latest_event_id backwards read_event read_payload
    build_event json_at json_get envelope event_row json_dumps encode_utf8 json_chars int_repr
    check_version check_name check_timestamp check_previous has_char any all contains list_beq
    same_set boundary_row create_boundary sort_by join text_leb is_argument_key is_secret_key
    starts_with is_secret_value
was_active = refl

returns :
    revoke_grant toy 5 (codes "g") (codes "lost") none (pos 160) activated
    ≡ (ok pending, revoked_store)
unfolding revoke_grant signed_grant revoke_locally record_remote_state end_sessions update_sessions
    insert_revocation update_revocation activate_session insert_host insert_grant insert_issuer_key
    insert_session verify canonical_bytes canonical_dumps check_context has_unknown signed_to_cbor
    signed_from_cbor fields list_fields exact_fields read_grant make_signed_grant as_mapping
    get_field as_bytes make_grant sorted_set unique extension_mapping make_grant_export
    absolute_path make_source_identity split ExportKind-discrete read_export read_identity
    grant_payload as_list as_text make_id as_int traverse list_items items export_payload
    parse_access parse_kind identity_payload insert_by as_optional_bytes signed_value require
    has_key get put audit transaction finish create_event make_event validate_payload insert_event
    retained prune drop_through valid_ids latest_event_id backwards read_event read_payload
    build_event json_at json_get envelope event_row json_dumps encode_utf8 json_chars int_repr
    check_version check_name check_timestamp check_previous has_char any all contains list_beq
    same_set boundary_row create_boundary sort_by join text_leb is_argument_key is_secret_key
    starts_with is_secret_value
returns = refl

-- The session was active, its grant is revoked, and a session of it is asked for again.
abbrev asked_again : Store
asked_again = After (open_session toy 5 (codes "g") (pos 170)) revoked_store

revoked_for_good_example :
    ((grant_is_revoked toy (codes "g") asked_again).0 ≡ ok true)
    × ((rows : List (Text × SessionRow))
        → (list_sessions asked_again).0 ≡ ok rows
        → All (λ row. (row.1).grant_id ≡ codes "g" → is_active (row.1).state ≡ false) rows)
revoked_for_good_example =
    revoked_for_good toy 5 0 (codes "g") (codes "lost") none (pos 160) activated revoked_store
      asked_again pending (Calls.activates (codes "s") (codes "h") sample_binding none_yet) returns
      (Calls.opens (codes "g") (pos 170) none_yet)

-- A rotation to fewer events than the database keeps leaves boundaries that do not link.
abbrev thinned : Store
thinned = After (rotate_audit toy.sha256_hex 1) (
    After (record_audit toy.sha256_hex toy.uuid4 3 note) (
      After (record_audit toy.sha256_hex toy.uuid4 3 note) (
        After (record_audit toy.sha256_hex toy.uuid4 3 note)
          (After (record_audit toy.sha256_hex toy.uuid4 3 note) (new_store 0)))))

rotation_breaks : (audit_chain_errors toy.sha256_hex thinned).0 ≡ ok (retention_boundary ∷ [])
unfolding record_audit audit transaction finish create_event make_event validate_payload
    insert_event retained prune drop_through valid_ids latest_event_id backwards read_event
    read_payload build_event json_at json_get envelope event_row json_dumps encode_utf8 json_chars
    int_repr check_version check_name check_timestamp check_previous has_char any all contains
    list_beq same_set boundary_row create_boundary sort_by join text_leb rotate_audit
    audit_chain_errors chain_of read_boundaries read_events validate_chain boundary_errors
    chain_errors event_errors from_keys last_of boundary_from_dict row_dict option_beq
rotation_breaks = refl

-- The first session is closed, and another one of the grant opened.
abbrev closed_store : Store
closed_store = After (close_session toy 5 (codes "s") (pos 155)) activated

abbrev opened_store : Store
opened_store = After (open_session toy 5 (codes "g") (pos 170)) closed_store

opens_again : open_session toy 5 (codes "g") (pos 170) closed_store ≡ (ok (50 ∷ []), opened_store)
unfolding signed_grant end_sessions update_sessions activate_session insert_host insert_grant
    insert_issuer_key insert_session verify canonical_bytes canonical_dumps check_context
    has_unknown signed_to_cbor signed_from_cbor fields list_fields exact_fields read_grant
    make_signed_grant as_mapping get_field as_bytes make_grant sorted_set unique extension_mapping
    make_grant_export absolute_path make_source_identity split ExportKind-discrete read_export
    read_identity grant_payload as_list as_text make_id as_int traverse list_items items
    export_payload parse_access parse_kind identity_payload insert_by as_optional_bytes signed_value
    require has_key get put audit transaction finish create_event make_event validate_payload
    insert_event retained prune drop_through valid_ids latest_event_id backwards read_event
    read_payload build_event json_at json_get envelope event_row json_dumps encode_utf8 json_chars
    int_repr check_version check_name check_timestamp check_previous has_char any all contains
    list_beq same_set boundary_row create_boundary sort_by join text_leb is_argument_key
    is_secret_key starts_with is_secret_value close_session open_session check_open insert_opened
    issuer_public_key grant_verification_context validate_signed_grant grant_is_revoked export_hash
    build_namespace_plan plan_exports plan_export normalized_target path_parts posix_path filter
    reserved paths_overlap make_planned_export place find? make_plan range_from target_leb
    plan_bytes plan_payload planned_payload same_export same_identity nested
opens_again = refl

opened_alone_example :
    MayOpen toy (codes "g") (pos 170) closed_store
    × (any_active closed_store.tables ≡ false)
    × (get (50 ∷ []) opened_store.tables.sessions ≡ some (opened_row (codes "g") (pos 170)))
    × OnlyActive (50 ∷ []) (codes "g") opened_store.tables.sessions
opened_alone_example =
    opened_alone toy 5 (codes "g") (pos 170) closed_store opened_store (50 ∷ []) opens_again
