-- ===== src/State/Created.antt =====
-- audit/events.py and state/sqlite.py: an event that `AuditEvent.create` makes reads back from the row
-- that `_audit` writes of it.
use astral_project.Base.{
  String, ◌≡◌, refl, sym, ap, ◌∙◌, false, ◌||◌, Option, none, some, or-eq-false, nat_eq, string_eq,
  list_beq, list_eq, option_eq, pair_eq, Result, ok, is_empty, all, contains, Text, has_char, ℤ,
  pos, ltb_ℤ, int_eq, raise_if-eq-ok, >>=-eq-ok,
}
use astral_project.Audit.Json.{json_int, json_text, json_object, json_at, json_get, JsonFields}
use astral_project.Audit.Event.{
  AuditEvent, Occurrence, check_name, check_previous, check_timestamp, audit_schema_version,
  optional_text, create_event, make_event, validate_payload, AuditEventError,
}
use astral_project.Grant.Payload.{same_set}
use astral_project.State.AuditKept.{Readable}
use astral_project.State.AuditTable.{read_event, event_row, option_of}

-- The event of an identifier, a predecessor and an occurrence
abbrev pub event_of : Text → Option Text → Occurrence → AuditEvent
event_of event_id previous o = record {
  event_id = event_id;
  occurred_at = o.occurred_at;
  kind = o.kind;
  subject_type = o.subject_type;
  subject_id = o.subject_id;
  payload = o.payload;
  previous_event_id = previous;
  schema_version = audit_schema_version;
}

check_name-eq-ok :
    (message : String) (name name' : Text)
    → check_name message (json_text name) ≡ ok name'
    → (is_empty name ≡ false) × (name ≡ name')
unfolding check_name
check_name-eq-ok message name name' h =
    let (p, q) = raise_if-eq-ok (is_empty name || has_char 0 name) message (ok name) h in
    ((or-eq-false _ _ p).0, cc q)

check_timestamp-eq-ok : (at at' : ℤ) → check_timestamp (json_int at) ≡ ok at' → at ≡ at'
unfolding check_timestamp
check_timestamp-eq-ok at at' h =
    let (_, q) = raise_if-eq-ok (ltb_ℤ at (pos 0)) "invalid audit timestamp" (ok at) h in cc q

check_previous-eq-ok :
    (previous previous' : Option Text)
    → check_previous (optional_text previous) ≡ ok previous'
    → previous ≡ previous'
unfolding check_previous
check_previous-eq-ok none previous' h = cc
check_previous-eq-ok (some id) previous' h =
    let (_, q) = raise_if-eq-ok (is_empty id) "invalid previous audit event" (ok (some id)) h in
    cc q

abbrev occurrence_of : Text → Text → Text → JsonFields → ℤ → Occurrence
occurrence_of k t b payload a = record {
  kind = k;
  subject_type = t;
  subject_id = b;
  payload = payload;
  occurred_at = a;
}

event_of-eq :
    {i i' k k' t t' b b' : Text} {a a' : ℤ} {v v' : Option Text} (payload : JsonFields)
    → i ≡ i'
    → k ≡ k'
    → t ≡ t'
    → b ≡ b'
    → a ≡ a'
    → v ≡ v'
    → event_of i v (occurrence_of k t b payload a)
      ≡ event_of i' v' (occurrence_of k' t' b' payload a')
event_of-eq payload p q r s t u = rw (p, q, r, s, t, u) refl

module _ (event_id : Text) (previous : Option Text) (o : Occurrence) (e : AuditEvent)
    (h : create_event event_id previous o ≡ ok e) where
  pub create_event-eq-ok : (e ≡ event_of event_id previous o) × (is_empty event_id ≡ false)
  unfolding create_event make_event
  create_event-eq-ok =
      let (i, p1, h2) = >>=-eq-ok (check_name "invalid audit event_id" (json_text event_id)) _ h in
      let (k, p2, h3) = >>=-eq-ok (check_name "invalid audit kind" (json_text o.kind)) _ h2 in
      let (t, p3, h4) =
        >>=-eq-ok (check_name "invalid audit subject_type" (json_text o.subject_type)) _ h3 in
      let (b, p4, h5) =
        >>=-eq-ok (check_name "invalid audit subject_id" (json_text o.subject_id)) _ h4 in
      let (a, p5, h6) = >>=-eq-ok (check_timestamp (json_int o.occurred_at)) _ h5 in
      let (v, p6, h7) = >>=-eq-ok (check_previous (optional_text previous)) _ h6 in
      let (_, _, h8) = >>=-eq-ok (validate_payload none (json_object o.payload)) _ h7 in
      let (named, q1) = check_name-eq-ok _ event_id i p1 in
      let q2 = (check_name-eq-ok _ o.kind k p2).1 in
      let q3 = (check_name-eq-ok _ o.subject_type t p3).1 in
      let q4 = (check_name-eq-ok _ o.subject_id b p4).1 in
      let q5 = check_timestamp-eq-ok o.occurred_at a p5 in
      let q6 = check_previous-eq-ok previous v p6 in
      let same : event_of i v (occurrence_of k t b o.payload a) ≡ e = ok_inj h8 in
      (sym same ∙ sym (event_of-eq o.payload q1 q2 q3 q4 q5 q6), named)
    where
      ok_inj : {a b : AuditEvent} → Path (Result AuditEventError AuditEvent) (ok a) (ok b) → a ≡ b
      ok_inj q = cc q

  pub create_event-Readable : Readable e
  unfolding create_event read_event event_row json_at json_get same_set all contains list_beq
  create_event-Readable =
      let (q, named) = create_event-eq-ok in
      rw q (λ legacy. read_event-event_of legacy ∙ ap option_of h ∙ ap some q, named)
    where
      read_event-event_of :
          (legacy : Option Text)
          → read_event legacy (event_row (event_of event_id previous o))
            ≡ option_of (create_event event_id previous o)
      read_event-event_of legacy = refl
