-- ===== src/Framing/Contracts.antt =====
-- session/contracts.py: the request that the daemon sends to a remote server, and the two answers.
-- `SignedGrant.to_cbor` and `from_cbor` of crypto/grants.py carry the grant. The encoder of cbor2, the
-- decoder of crypto/cbor.py and `uuid.UUID` are parameters.
use astral_project.Base.{
  ◌∷◌, [], ℕ, String, Bool, false, not, ◌&&◌, ◌||◌, Option, none, some, List, ◌++◌, ltb, leb, ◌==◌,
  nat_eq, string_eq, list_eq, option_eq, pair_eq, Result, ok, err, ◌>>=◌, ◌>>◌, raise_if, length,
  is_empty, Text, Bytes, codes, ℤ, pos, int_eq,
}
use astral_project.Core.{AstralError, astral_error, protocol_frame}
use astral_project.Grant.Types.{
  CborValue, CborFields, object, text, byte_string, int, extension_names,
}
use astral_project.Grant.Verify.{SignedGrant, canonical_dumps, make_signed_grant}
use astral_project.Grant.Payload.{
  fields, list_fields, same_set, read_grant, grant_payload, get_field, as_mapping, as_bytes,
  exact_fields, make_id, optional_payload,
}
use astral_project.Grant.Compare.{lookup_field}
use astral_project.Framing.Stream.{Stream, read_exact}
use astral_project.Framing.Frame.{pack_length, unpack_length}

-- `_error`
abbrev pub session_error : String → AstralError
session_error message = astral_error protocol_frame message

-- `MAX_REMOTE_SESSION_BYTES`
abbrev pub max_remote_session_bytes : ℕ
max_remote_session_bytes = 1048576

-- `SessionOperation.SFTP_V1.value`, the only operation
abbrev pub sftp_v1 : Text
sftp_v1 = codes "sftp_v1"

pub record RemoteSessionRequest : Type 0 where
  pub session_id : Text
  pub session_nonce : Bytes
  pub signed_grant : SignedGrant
  pub version : ℤ

-- `RemoteSessionRequestV1.__post_init__`
unfoldable pub make_remote_request : RemoteSessionRequest → Result AstralError RemoteSessionRequest
make_remote_request r = do
  raise_if (not (r.version == pos 1)) (session_error "unsupported remote session version")
  raise_if (not (length r.session_nonce == 32))
      (session_error "remote session nonce must be 32 bytes")
  ok r

pub record RemoteSessionReady : Type 0 where
  pub session_id : Text
  pub session_nonce : Bytes
  pub version : ℤ

-- `RemoteSessionReadyV1.__post_init__`
unfoldable pub make_ready : RemoteSessionReady → Result AstralError RemoteSessionReady
make_ready r = do
  raise_if (not (r.version == pos 1) || not (length r.session_nonce == 32))
      (session_error "remote session ready is invalid")
  ok r

-- The fields of `RemoteSessionReadyV1.canonical_bytes`.
unfoldable pub ready_payload : RemoteSessionReady → CborFields
unfolding fields
ready_payload r = fields (
    (codes "session_id", text r.session_id)
    ∷ (codes "session_nonce", byte_string r.session_nonce)
    ∷ (codes "status", text (codes "ready"))
    ∷ (codes "version", int r.version)
    ∷ [])

pub record RemoteSessionRejected : Type 0 where
  pub session_nonce : Option Bytes
  pub error_code : Text
  pub version : ℤ

abbrev pub nonce_wrong : Option Bytes → Bool
nonce_wrong none = false
nonce_wrong (some nonce) = not (length nonce == 32)

-- `RemoteSessionRejectedV1.__post_init__`
unfoldable pub make_rejected : RemoteSessionRejected → Result AstralError RemoteSessionRejected
make_rejected r = do
  raise_if (not (r.version == pos 1) || nonce_wrong r.session_nonce || is_empty r.error_code)
      (session_error "remote session rejection is invalid")
  ok r

-- The fields of `RemoteSessionRejectedV1.canonical_bytes`.
unfoldable pub rejected_payload : RemoteSessionRejected → CborFields
unfolding fields
rejected_payload r = fields (
    (codes "error_code", text r.error_code)
    ∷ (codes "session_nonce", optional_payload r.session_nonce)
    ∷ (codes "status", text (codes "rejected"))
    ∷ (codes "version", int r.version)
    ∷ [])

-- `_string`, `_bytes` and `_integer`
unfoldable pub session_text : CborFields → Text → Result AstralError Text
session_text payload name = elim (lookup_field name payload) [
  | some (text t) ↦ ok t
  | _ ↦ err (session_error "must be string")
]

unfoldable pub session_bytes : CborFields → Text → Result AstralError Bytes
session_bytes payload name = elim (lookup_field name payload) [
  | some (byte_string b) ↦ ok b
  | _ ↦ err (session_error "must be bytes")
]

unfoldable pub session_int : CborFields → Text → Result AstralError ℤ
session_int payload name = elim (lookup_field name payload) [
  | some (int n) ↦ ok n
  | _ ↦ err (session_error "must be integer")
]

-- `SessionOperation(value)`, whose `ValueError` the readers turn into an error of their own
unfoldable pub read_operation : Text → Result AstralError (Unit {0})
read_operation value =
    raise_if (not (value == sftp_v1))
      (session_error "remote session has unsupported identifiers or operation")

-- The map that `SignedGrant.to_cbor` encodes.
unfoldable pub signed_value : SignedGrant → CborValue
unfolding fields
signed_value s = object (
    fields (
      (codes "grant", object (grant_payload s.grant))
      ∷ (codes "signature", byte_string s.signature)
      ∷ []))

-- `RemoteSessionRequestV1.to_payload`, with the encoding of the signed grant
unfoldable pub remote_value : RemoteSessionRequest → Bytes → CborValue
unfolding fields
remote_value r signed = object (
    fields (
      (codes "operation", text sftp_v1)
      ∷ (codes "session_id", text r.session_id)
      ∷ (codes "session_nonce", byte_string r.session_nonce)
      ∷ (codes "signed_grant", byte_string signed)
      ∷ (codes "version", int r.version)
      ∷ []))

module _ (cbor2_dumps : CborValue → Option Bytes)
    (canonical_loads : Bytes → Result AstralError CborValue)
    (is_canonical_uuid4 : Text → Bool) where
  -- `SignedGrant.to_cbor`
  unfoldable pub signed_to_cbor : SignedGrant → Result AstralError Bytes
  unfolding canonical_dumps signed_value
  signed_to_cbor s = canonical_dumps cbor2_dumps (signed_value s)

  -- `SignedGrant.from_cbor`
  unfoldable pub signed_from_cbor : Bytes → Result AstralError SignedGrant
  unfolding exact_fields read_grant make_signed_grant as_mapping get_field as_bytes
  signed_from_cbor encoded = do
    envelope ← canonical_loads encoded >>= as_mapping
    exact_fields envelope (codes "grant" ∷ codes "signature" ∷ [])
    grant ← get_field envelope (codes "grant") >>= as_mapping >>= read_grant is_canonical_uuid4
    signature ← get_field envelope (codes "signature") >>= as_bytes
    make_signed_grant (record { grant = grant; signature = signature })

  -- `RemoteSessionRequestV1.canonical_bytes`
  unfoldable pub remote_bytes : RemoteSessionRequest → Result AstralError Bytes
  unfolding canonical_dumps remote_value signed_to_cbor
  remote_bytes r = do
    signed ← signed_to_cbor r.signed_grant
    canonical_dumps cbor2_dumps (remote_value r signed)

  abbrev pub remote_fields : List Text
  remote_fields =
      codes "operation"
      ∷ codes "session_id"
      ∷ codes "session_nonce"
      ∷ codes "signed_grant"
      ∷ codes "version"
      ∷ []

  -- The test of `_payload` on what was decoded.
  unfoldable pub session_payload : CborValue → List Text → Result AstralError CborFields
  unfolding same_set list_fields
  session_payload (object payload) expected = do
    raise_if (not (same_set (extension_names (list_fields payload)) expected))
        (session_error "session fields are incomplete or unknown")
    ok payload
  session_payload _ expected = err (session_error "session fields are incomplete or unknown")

  -- `RemoteSessionRequestV1.from_cbor`
  unfoldable pub remote_from_cbor : Bytes → Result AstralError RemoteSessionRequest
  unfolding session_payload session_text session_bytes session_int read_operation signed_from_cbor
      make_remote_request make_id
  remote_from_cbor encoded = do
    value ← canonical_loads encoded
    payload ← session_payload value remote_fields
    session_text payload (codes "operation") >>= read_operation
    session_id ← session_text payload (codes "session_id") >>= make_id is_canonical_uuid4
    session_nonce ← session_bytes payload (codes "session_nonce")
    signed_grant ← session_bytes payload (codes "signed_grant") >>= signed_from_cbor
    version ← session_int payload (codes "version")
    make_remote_request (record {
      session_id = session_id;
      session_nonce = session_nonce;
      signed_grant = signed_grant;
      version = version;
    })

  -- `write_remote_session_request`, by the bytes that it writes
  unfoldable pub write_remote : RemoteSessionRequest → Result AstralError Bytes
  unfolding remote_bytes pack_length
  write_remote r = do
    payload ← remote_bytes r
    raise_if (ltb max_remote_session_bytes (length payload))
        (session_error "remote session frame exceeds size limit")
    ok (pack_length (length payload) ++ payload)

  -- `read_remote_session_request`
  unfoldable pub read_remote : Stream → Result AstralError (RemoteSessionRequest × Stream)
  unfolding read_exact unpack_length remote_from_cbor
  read_remote s = do
    (header, s1) ← read_exact (session_error "remote session frame is truncated") 4 s
    let size = unpack_length header
    raise_if (not (ltb 0 size && leb size max_remote_session_bytes))
        (session_error "remote session frame length is invalid")
    (body, s2) ← read_exact (session_error "remote session frame is truncated") size s1
    request ← remote_from_cbor body
    ok (request, s2)
