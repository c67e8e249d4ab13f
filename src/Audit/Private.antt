-- ===== src/Audit/Private.antt =====
-- audit/events.py: what `_validate_payload` keeps out of an event, and what `_transform_paths` leaves
-- of its paths.
use astral_project.Base.{
  ◌≡◌, refl, inl, inr, true, false, Option, some, arith, if◌then◌else◌, Bool-cases, or-eq-false,
  nat_eq, string_eq, list_eq, option_eq, pair_eq, ok, ◌>>◌, >>=-eq-ok, raise_if-eq-ok, Text, Bytes,
  has_char, int_eq, err-ne-ok, codes, none, sym, ◌∙◌, list_beq,
}
use astral_project.Audit.Json.{
  Json, json_object, json_list, json_text, json_bool, json_int, json_float, JsonItems, json_null,
  json_item, JsonFields, json_field, not_json, no_items, no_fields, json_get,
}
use astral_project.Audit.Event.{
  PathMode, check_key, transform_paths, validate_payload, is_path_key, hide_path, validate_items,
  transform_items, transform_fields, validate_fields, make_event, EventFields, event_to_dict,
  AuditEvent, check_version, check_name, check_timestamp, check_previous, exported_payload,
}
use astral_project.Audit.Schema.{
  is_argument_key, is_secret_value, is_secret_key, in_strings, safe_payload_keys,
}

-- The predicates hold of each key and of each text at any depth, a text with the key of the nearest
-- object around it; and no value is of another class.
unfoldable mutual
  pub Throughout : (Text → Type 0) → (Option Text → Text → Type 0) → Option Text → Json → Type 0
  Throughout K T key (json_object members) = ThroughoutFields K T members
  Throughout K T key (json_list items) = ThroughoutItems K T key items
  Throughout K T key (json_text value) = T key value
  Throughout K T key json_null = Unit
  Throughout K T key (json_bool b) = Unit
  Throughout K T key (json_int n) = Unit
  Throughout K T key (json_float repr) = Unit
  Throughout K T key not_json = ⊥

  pub ThroughoutItems :
      (Text → Type 0) → (Option Text → Text → Type 0) → Option Text → JsonItems → Type 0
  ThroughoutItems K T key no_items = Unit
  ThroughoutItems K T key (json_item value rest) =
      Throughout K T key value × ThroughoutItems K T key rest

  pub ThroughoutFields : (Text → Type 0) → (Option Text → Text → Type 0) → JsonFields → Type 0
  ThroughoutFields K T no_fields = Unit
  ThroughoutFields K T (json_field key value rest) =
      K key × Throughout K T (some key) value × ThroughoutFields K T rest

abbrev pub InSchema : Text → Type 0
InSchema key =
    (has_char 0 key ≡ false)
    × (is_argument_key key ≡ false)
    × (is_secret_key key ≡ false)
    × (in_strings safe_payload_keys key ≡ true)

abbrev pub NoSecret : Option Text → Text → Type 0
NoSecret key value = (is_secret_value value ≡ false) × (has_char 0 value ≡ false)

check_key-InSchema :
    (key : Text) → has_char 0 key ≡ false → check_key (some key) ≡ ok tt → InSchema key
unfolding check_key
check_key-InSchema key nul h = ground arith

validate_payload-check_key :
    (key : Option Text) (value : Json) → validate_payload key value ≡ ok tt → check_key key ≡ ok tt
unfolding validate_payload
validate_payload-check_key key (json_object members) h = (>>=-eq-ok (check_key key) _ h).1
validate_payload-check_key key (json_list items) h = (>>=-eq-ok (check_key key) _ h).1
validate_payload-check_key key (json_text value) h = (>>=-eq-ok (check_key key) _ h).1
validate_payload-check_key key json_null h = h
validate_payload-check_key key (json_bool b) h = h
validate_payload-check_key key (json_int n) h = h
validate_payload-check_key key (json_float repr) h = h
validate_payload-check_key key not_json h = (>>=-eq-ok (check_key key) _ h).1

mutual
  unfolding validate_payload Throughout

  pub validate_payload-Throughout :
      (key : Option Text) (value : Json)
      → validate_payload key value ≡ ok tt
      → Throughout InSchema NoSecret key value
  validate_payload-Throughout key (json_object members) h =
      validate_fields-Throughout members ((>>=-eq-ok (check_key key) _ h).2)
  validate_payload-Throughout key (json_list items) h =
      validate_items-Throughout key items
        ((raise_if-eq-ok _ _ (validate_items key items) ((>>=-eq-ok (check_key key) _ h).2)).1)
  validate_payload-Throughout key (json_text value) h =
      or-eq-false _ _ ((raise_if-eq-ok _ _ _ ((>>=-eq-ok (check_key key) _ h).2)).0)
  validate_payload-Throughout key json_null h = tt
  validate_payload-Throughout key (json_bool b) h = tt
  validate_payload-Throughout key (json_int n) h = tt
  validate_payload-Throughout key (json_float repr) h = tt
  validate_payload-Throughout key not_json h =
      absurd (err-ne-ok ((>>=-eq-ok (check_key key) _ h).2))

  validate_items-Throughout :
      (key : Option Text) (items : JsonItems)
      → validate_items key items ≡ ok tt
      → ThroughoutItems InSchema NoSecret key items
  validate_items-Throughout key no_items h = tt
  validate_items-Throughout key (json_item value rest) h =
      let (q, k) = raise_if-eq-ok _ _ (validate_payload key value >> validate_items key rest) h in
      let (u, first, others) = >>=-eq-ok (validate_payload key value) _ k in
      (validate_payload-Throughout key value first, validate_items-Throughout key rest others)

  validate_fields-Throughout :
      (members : JsonFields)
      → validate_fields members ≡ ok tt
      → ThroughoutFields InSchema NoSecret members
  validate_fields-Throughout no_fields h = tt
  validate_fields-Throughout (json_field key value rest) h =
      let (nul, k) =
        raise_if-eq-ok _ _ (validate_payload (some key) value >> validate_fields rest) h in
      let (u, first, others) = >>=-eq-ok (validate_payload (some key) value) _ k in
      (
        check_key-InSchema key nul (validate_payload-check_key (some key) value first),
        validate_payload-Throughout (some key) value first,
        validate_fields-Throughout rest others,
      )

module _ (sha256_hex : Bytes → Text) where
  -- How a text is exported: hidden under the key of a path, and else as it was.
  abbrev pub Hidden : PathMode → Option Text → Text → Type 0
  Hidden mode key value =
      (is_path_key key ≡ true → (path : Text) × (value ≡ hide_path sha256_hex mode path))
      × (is_path_key key ≡ false → NoSecret key value)

  hide_path-Hidden :
      (mode : PathMode) (key : Option Text) (value : Text)
      → NoSecret key value
      → Hidden mode key (if is_path_key key then hide_path sha256_hex mode value else value)
  hide_path-Hidden mode key value h = elim (Bool-cases (is_path_key key)) [
    | inl e ↦ rw e (λ _. (value, refl), λ f. cc)
    | inr e ↦ rw e (λ t. cc, λ _. h)
  ]

  mutual
    unfolding transform_paths Throughout

    pub transform_paths-Hidden :
        (mode : PathMode) (key : Option Text) (value : Json)
        → Throughout InSchema NoSecret key value
        → Throughout InSchema (Hidden mode) key (transform_paths sha256_hex mode key value)
    transform_paths-Hidden mode key (json_object members) h = transform_fields-Hidden mode members h
    transform_paths-Hidden mode key (json_list items) h = transform_items-Hidden mode key items h
    transform_paths-Hidden mode key (json_text value) h = hide_path-Hidden mode key value h
    transform_paths-Hidden mode key json_null h = tt
    transform_paths-Hidden mode key (json_bool b) h = tt
    transform_paths-Hidden mode key (json_int n) h = tt
    transform_paths-Hidden mode key (json_float repr) h = tt
    transform_paths-Hidden mode key not_json h = h

    transform_items-Hidden :
        (mode : PathMode) (key : Option Text) (items : JsonItems)
        → ThroughoutItems InSchema NoSecret key items
        → ThroughoutItems InSchema (Hidden mode) key (transform_items sha256_hex mode key items)
    transform_items-Hidden mode key no_items h = tt
    transform_items-Hidden mode key (json_item value rest) h =
        (transform_paths-Hidden mode key value h.0, transform_items-Hidden mode key rest h.1)

    pub transform_fields-Hidden :
        (mode : PathMode) (members : JsonFields)
        → ThroughoutFields InSchema NoSecret members
        → ThroughoutFields InSchema (Hidden mode) (transform_fields sha256_hex mode members)
    transform_fields-Hidden mode no_fields h = tt
    transform_fields-Hidden mode (json_field key value rest) h = (
      h.0,
      transform_paths-Hidden mode (some key) value h.1,
      transform_fields-Hidden mode rest h.2,
    )

-- The payload of an event has passed `_validate_payload`.
make_event-payload :
    (f : EventFields) (e : AuditEvent)
    → make_event f ≡ ok e
    → validate_payload none (json_object e.payload) ≡ ok tt
unfolding make_event
make_event-payload f e h =
    let (_, _, h1) = >>=-eq-ok (check_version f.schema_version) _ h in
    let (_, _, h2) = >>=-eq-ok (check_name "invalid audit event_id" f.event_id) _ h1 in
    let (_, _, h3) = >>=-eq-ok (check_name "invalid audit kind" f.kind) _ h2 in
    let (_, _, h4) = >>=-eq-ok (check_name "invalid audit subject_type" f.subject_type) _ h3 in
    let (_, _, h5) = >>=-eq-ok (check_name "invalid audit subject_id" f.subject_id) _ h4 in
    let (_, _, h6) = >>=-eq-ok (check_timestamp f.occurred_at) _ h5 in
    let (_, _, h7) = >>=-eq-ok (check_previous f.previous_event_id) _ h6 in
    let (_, valid, h8) = >>=-eq-ok (validate_payload none (json_object f.payload)) _ h7 in
    let same : f.payload ≡ e.payload = cc h8 in rw (← same) valid

module _ (sha256_hex : Bytes → Text) where
  json_get-event_to_dict :
      (mode : Option PathMode) (e : AuditEvent)
      → json_get (codes "payload") (event_to_dict sha256_hex mode e)
        ≡ some (json_object (exported_payload sha256_hex mode e.payload))
  unfolding json_get event_to_dict list_beq
  json_get-event_to_dict mode e = refl

object_members :
    {a b : JsonFields} → Path (Option Json) (some (json_object a)) (some (json_object b)) → a ≡ b
object_members h = cc h

-- In the exported dictionary of an event that the constructor accepts, every key at any depth of the
-- payload is in the schema, names no secret and no command argument, and has no NUL; every text under
-- the key of a path is "<redacted>" or, in the other mode, the digest of a path; and every other text
-- matches no pattern of secrets and has no NUL.
pub export-Hidden :
    (sha256_hex : Bytes → Text) (mode : PathMode) (f : EventFields) (e : AuditEvent)
    (members : JsonFields)
    → make_event f ≡ ok e
    → json_get (codes "payload") (event_to_dict sha256_hex (some mode) e)
      ≡ some (json_object members)
    → ThroughoutFields InSchema (Hidden sha256_hex mode) members
unfolding Throughout
export-Hidden sha256_hex mode f e members h p =
    let same : transform_fields sha256_hex mode e.payload ≡ members =
      object_members (sym (json_get-event_to_dict sha256_hex (some mode) e) ∙ p) in
    rw (← same) (
      transform_fields-Hidden sha256_hex mode e.payload
        (validate_payload-Throughout none (json_object e.payload) (make_event-payload f e h)))
