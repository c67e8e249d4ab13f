-- ===== src/Grant/Verify.antt =====
-- crypto/grants.py: `SignedGrant` and its verification against the connection at hand. Ed25519 and
-- the encoder of cbor2 are parameters.
use astral_project.Base.{
  Bool, not, ◌&&◌, Option, none, some, List, ◌==◌, nat_eq, string_eq, list_eq, option_eq, pair_eq,
  Result, ok, err, ◌>>=◌, ◌>>◌, raise_if, length, any, contains, Text, Bytes, ℤ, ltb_ℤ, leb_ℤ,
  int_eq,
}
use astral_project.Core.{
  AstralError, astral_error, crypto_serialization, crypto_signature, crypto_context,
  grant_extension,
}
use astral_project.Grant.Types.{Grant, CborValue, object, extension_names, Extensions, grant_error}
use astral_project.Grant.Payload.{grant_payload}

pub record SignedGrant : Type 0 where
  pub grant : Grant
  pub signature : Bytes

-- `SignedGrant.__post_init__`
unfoldable pub make_signed_grant : SignedGrant → Result AstralError SignedGrant
make_signed_grant s = do
  raise_if (not (length s.signature == 64)) (grant_error "Ed25519 signature must be 64 bytes")
  ok s

pub record GrantVerificationContext : Type 0 where
  pub host_id : Text
  pub ssh_host_key_fingerprint : Text
  pub remote_user : Text
  pub now : ℤ
  pub known_mandatory_extensions : List Text
  pub known_optional_extensions : List Text
  pub allow_unknown_optional_extensions : Bool

-- `set(names).difference(known)` is not empty
unfoldable pub has_unknown : List Text → Extensions → Bool
has_unknown known extensions = any (λ name. not (contains known name)) (extension_names extensions)

-- `canonical_dumps` of crypto/cbor.py over the encoder of cbor2; the values of the type are all valid
unfoldable pub canonical_dumps : (CborValue → Option Bytes) → CborValue → Result AstralError Bytes
canonical_dumps cbor2_dumps value = elim (cbor2_dumps value) [
  | none ↦ err (astral_error crypto_serialization "CBOR encoding failed")
  | some bytes ↦ ok bytes
]

-- `Grant.canonical_bytes`
unfoldable pub canonical_bytes : (CborValue → Option Bytes) → Grant → Result AstralError Bytes
unfolding canonical_dumps
canonical_bytes cbor2_dumps g = canonical_dumps cbor2_dumps (object (grant_payload g))

-- The checks of `SignedGrant.verify` behind the signature.
unfoldable pub check_context : Grant → GrantVerificationContext → Result AstralError Grant
check_context g context = do
  raise_if (not (g.host_id == context.host_id))
      (astral_error crypto_context "grant host does not match connection")
  raise_if (not (g.ssh_host_key_fingerprint == context.ssh_host_key_fingerprint))
      (astral_error crypto_context "grant SSH host key fingerprint does not match")
  raise_if (not (g.remote_user == context.remote_user))
      (astral_error crypto_context "grant remote user does not match")
  raise_if (ltb_ℤ context.now g.not_before) (astral_error crypto_context "grant is not valid yet")
  raise_if (leb_ℤ g.expires_at context.now) (astral_error crypto_context "grant has expired")
  raise_if (has_unknown context.known_mandatory_extensions g.mandatory_extensions)
      (astral_error grant_extension "grant has unknown mandatory extension")
  raise_if
      (has_unknown context.known_optional_extensions g.optional_extensions
        && not context.allow_unknown_optional_extensions)
      (astral_error grant_extension "grant has optional extension rejected by policy")
  ok g

module _ {Key : Type 0} (ed25519_verify : Key → Bytes → Bytes → Bool)
    (cbor2_dumps : CborValue → Option Bytes) where
  -- `SignedGrant.verify`
  unfoldable pub verify : SignedGrant → Key → GrantVerificationContext → Result AstralError Grant
  verify s key context = do
    signed_bytes ← canonical_bytes cbor2_dumps s.grant
    raise_if (not (ed25519_verify key s.signature signed_bytes))
        (astral_error crypto_signature "grant signature verification failed")
    check_context s.grant context
