-- ===== src/Framing/Request.antt =====
-- daemon/protocol.py: `parse_request` and `make_response`; daemon/client.py: the request that the client
-- builds and the response that it takes.
use astral_project.Base.{
  ◌∷◌, [], ℕ, String, Bool, true, false, not, ◌||◌, Option, none, some, List, ltb, ◌==◌, nat_eq,
  string_eq, list_eq, option_eq, pair_eq, Result, ok, err, ◌>>=◌, ◌>>◌, raise_if, length, is_empty,
  any, contains, Text, codes, ℤ, pos, int_eq, if◌then◌else◌,
}
use astral_project.Base.Dict.{Dict, get}
use astral_project.Core.{AstralError, astral_error, daemon_unavailable}
use astral_project.Grant.Payload.{same_set}
use astral_project.Framing.Frame.{daemon_error}

-- A value that `json.loads` gives, with the contents of an object left open. A float is a fraction.
pub data JsonValue (O : Type 0) : Type 0 where
  string : Text → JsonValue O
  integer : ℤ → JsonValue O
  real : ℤ → ℕ → JsonValue O
  boolean : Bool → JsonValue O
  null : JsonValue O
  array : List O → JsonValue O
  object : O → JsonValue O

-- The program's own error, or the `TypeError` of a test that hashes an unhashable value.
pub data ParseFailure : Type 0 where
  refused : AstralError → ParseFailure
  type_error : ParseFailure

abbrev pub refuse : String → ParseFailure
refuse message = refused (daemon_error message)

-- `_error` of the client, with the literal part of the message
abbrev pub invalid_response : AstralError
invalid_response = astral_error daemon_unavailable "daemon returned invalid response "

abbrev pub rejected_request : AstralError
rejected_request = astral_error daemon_unavailable "daemon rejected request"

pub record Request (O : Type 0) : Type 0 where
  pub request_id : Text
  pub cancellation_id : Text
  pub operation : Text
  pub payload : Option O

abbrev pub base_fields : List Text
base_fields =
    codes "cancellation_id"
    ∷ codes "kind"
    ∷ codes "operation"
    ∷ codes "request_id"
    ∷ codes "version"
    ∷ []

-- `allowed_operations`, and `Operation`
abbrev pub allowed_operations : List Text
allowed_operations =
    codes "ping"
    ∷ codes "status"
    ∷ codes "cancel"
    ∷ codes "ls"
    ∷ codes "grant.list"
    ∷ codes "grant.show"
    ∷ codes "grant.import"
    ∷ codes "grant.validate"
    ∷ codes "grant.revoke"
    ∷ codes "session.open"
    ∷ codes "session.list"
    ∷ codes "session.show"
    ∷ codes "session.close"
    ∷ codes "mount.open"
    ∷ codes "mount.list"
    ∷ codes "mount.show"
    ∷ codes "mount.close"
    ∷ codes "audit.list"
    ∷ codes "audit.show"
    ∷ codes "audit.export"
    ∷ codes "audit.record"
    ∷ codes "audit.remote.export"
    ∷ []

-- `operation in {"ping", "status", "cancel"}`
abbrev pub bare_operations : List Text
bare_operations = codes "ping" ∷ codes "status" ∷ codes "cancel" ∷ []

module _ {O : Type 0} where
  -- `value == 1`, where `True` and `1.0` are equal to `1` as well
  abbrev pub is_one : JsonValue O → Bool
  is_one (integer n) = n == pos 1
  is_one (real n d) = n == pos d
  is_one (boolean b) = b
  is_one _ = false

  abbrev pub is_text : Text → JsonValue O → Bool
  is_text t (string s) = s == t
  is_text t _ = false

  -- `value in {...}` for a set of strings
  unfoldable pub in_texts : JsonValue O → List Text → Result ParseFailure Bool
  in_texts (string s) ts = ok (contains ts s)
  in_texts (array vs) ts = err type_error
  in_texts (object o) ts = err type_error
  in_texts _ ts = ok false

  -- `_identifier`
  unfoldable pub identifier : JsonValue O → Result ParseFailure Text
  identifier (string s) = do
    raise_if (is_empty s || ltb 128 (length s))
        (refuse "must be a non-empty string of at most 128 bytes")
    raise_if (any (λ c. not (ltb c 128)) s) (refuse "must be ASCII")
    ok s
  identifier _ = err (refuse "must be a non-empty string of at most 128 bytes")

  abbrev pub keys : Dict Text (JsonValue O) → List Text
  keys [] = []
  keys ((k, v) ∷ rest) = k ∷ keys rest

  -- `payload[key]`, for a key that the test of the fields has found
  unfoldable pub at_key : Text → Dict Text (JsonValue O) → JsonValue O
  at_key k d = elim (get k d) [ none ↦ null | some v ↦ v ]

  -- `raw_payload is not None and (...)`, as the payload or the error
  unfoldable pub payload_of : Option (JsonValue O) → JsonValue O → Result ParseFailure (Option O)
  unfolding in_texts
  payload_of none operation = ok none
  payload_of (some null) operation = ok none
  payload_of (some (object o)) operation = do
    bare ← in_texts operation bare_operations
    raise_if bare (refuse "request payload is not permitted")
    ok (some o)
  payload_of (some _) operation = err (refuse "request payload is not permitted")

  -- `cast(Operation, operation)`
  abbrev pub text_of : JsonValue O → Text
  text_of (string s) = s
  text_of _ = []

  -- `parse_request`
  unfoldable pub parse_request : Dict Text (JsonValue O) → Result ParseFailure (Request O)
  unfolding in_texts identifier at_key payload_of same_set
  parse_request d = do
    raise_if
        (not (same_set (keys d) base_fields || same_set (keys d) (codes "payload" ∷ base_fields)))
        (refuse "request fields are invalid")
    raise_if
        (not (is_one (at_key (codes "version") d))
          || not (is_text (codes "request") (at_key (codes "kind") d)))
        (refuse "request protocol version or kind is invalid")
    permitted ← in_texts (at_key (codes "operation") d) allowed_operations
    raise_if (not permitted) (refuse "request operation is not permitted")
    payload ← payload_of (get (codes "payload") d) (at_key (codes "operation") d)
    request_id ← identifier (at_key (codes "request_id") d)
    cancellation_id ← identifier (at_key (codes "cancellation_id") d)
    ok (record {
      request_id = request_id;
      cancellation_id = cancellation_id;
      operation = text_of (at_key (codes "operation") d);
      payload = payload;
    })

  -- The request that `DaemonClient.request` sends.
  unfoldable pub client_request : Request O → Dict Text (JsonValue O)
  client_request r =
      (codes "cancellation_id", string r.cancellation_id)
      ∷ (codes "kind", string (codes "request"))
      ∷ (codes "operation", string r.operation)
      ∷ (codes "request_id", string r.request_id)
      ∷ (codes "version", integer (pos 1))
      ∷ elim r.payload [ none ↦ [] | some o ↦ (codes "payload", object o) ∷ [] ]

  -- `make_response`
  unfoldable pub make_response : Request O → Bool → O → Dict Text (JsonValue O)
  make_response r success result =
      (codes "cancellation_id", string r.cancellation_id)
      ∷ (codes "kind", string (codes "response"))
      ∷ (codes "ok", boolean success)
      ∷ (codes "request_id", string r.request_id)
      ∷ (codes "result", object result)
      ∷ (codes "version", integer (pos 1))
      ∷ []

  abbrev is_true : JsonValue O → Bool
  is_true (boolean b) = b
  is_true _ = false

  -- The tests of `DaemonClient.request` on the response, and the result that it returns.
  unfoldable pub client_result : Text → Dict Text (JsonValue O) → Result AstralError O
  client_result request_id response =
      if not (is_text (codes "response") (at_key (codes "kind") response))
        || not (is_text request_id (at_key (codes "request_id") response))
      then err invalid_response
      else result_of (is_true (at_key (codes "ok") response)) (at_key (codes "result") response)
    where
      result_of : Bool → JsonValue O → Result AstralError O
      result_of true (object o) = ok o
      result_of _ _ = err rejected_request
