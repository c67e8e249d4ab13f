-- ===== src/State/Lookups.antt =====
-- state/sqlite.py: what the methods read of hosts, grants and revocations: `signed_grant`,
-- `issuer_public_key`, `grant_verification_context`, `host_transport`, `validate_signed_grant`,
-- `grant_is_revoked` and `list_signed_grants`.
use astral_project.Base.{
  Bool, true, not, ◌&&◌, ◌||◌, List, [], ◌∷◌, if◌then◌else◌, ◌==◌, nat_eq, string_eq, list_eq,
  option_eq, pair_eq, ok, err, filter, Text, Bytes, ℤ, ltb_ℤ, int_eq, Result,
}
use astral_project.Base.Order.{sort_by, text_leb}
use astral_project.Core.{crypto_signature, grant_invalid, host_record, state_corrupt, AstralError}
use astral_project.Grant.Verify.{SignedGrant, GrantVerificationContext, verify}
use astral_project.Grant.Types.{Grant}
use astral_project.State.Tables.{GrantRow, state_error}
use astral_project.State.Platform.{Platform}
use astral_project.State.Statements.{has_key, astral_step, or_raise, context_of, metadata_or_raise}
use astral_project.Base.Dict.{get}
use astral_project.Audit.Json.{JsonFields}
use astral_project.Framing.Contracts.{signed_from_cbor}
use astral_project.State.Actions.{◌>>=◌, Action, pure, select, raise}

module _ {Key : Type 0} (p : Platform Key) where
  -- `SignedGrant.from_cbor` of a stored column
  abbrev pub grant_or_raise : Result AstralError SignedGrant → Action SignedGrant
  grant_or_raise (err e) = raise (state_error state_corrupt "stored grant is invalid")
  grant_or_raise (ok signed) = pure signed

  abbrev pub stored_grant : Bytes → Action SignedGrant
  stored_grant column =
      grant_or_raise (signed_from_cbor p.cbor2_dumps p.canonical_loads p.is_canonical_uuid4 column)

  -- `signed_grant`
  unfoldable pub signed_grant : Text → Action SignedGrant
  unfolding get
  signed_grant grant_id = do
    row ← select (λ t. get grant_id t.grants)
    found ← or_raise (state_error grant_invalid "grant was not found") row
    stored_grant found.grant_cbor

  -- `issuer_public_key`
  unfoldable pub issuer_public_key : Text → Action Key
  unfolding get
  issuer_public_key grant_id = do
    row ← select (λ t. get grant_id t.grant_issuer_keys)
    column ← or_raise (state_error crypto_signature "grant issuer key is absent") row
    or_raise (state_error state_corrupt "stored issuer key is invalid") (p.from_public_bytes column)

  -- `grant_verification_context`: the join of the grant with its host
  unfoldable pub grant_verification_context : Text → ℤ → Action GrantVerificationContext
  unfolding get
  grant_verification_context grant_id now = do
    t ← select (λ t. t)
    grant ←
        or_raise (state_error host_record "grant host binding is absent") (get grant_id t.grants)
    host ←
        or_raise (state_error host_record "grant host binding is absent")
          (get grant.host_id t.hosts)
    pure (context_of grant.host_id host.host_key_fingerprint host.remote_user now)

  -- `host_transport`
  unfoldable pub host_transport : Text → Action (Text × JsonFields)
  unfolding get
  host_transport host_id = do
    row ← select (λ t. get host_id t.hosts)
    host ← or_raise (state_error host_record "enrolled host was not found") row
    metadata ← metadata_or_raise host.metadata_json
    pure (host.remote_user, metadata)

  -- `validate_signed_grant`; a key of another class has no place in the type
  unfoldable pub validate_signed_grant : SignedGrant → Key → GrantVerificationContext → Action Grant
  unfolding verify
  validate_signed_grant signed key context =
      astral_step (verify p.ed25519_verify p.cbor2_dumps signed key context)

  -- `grant_is_revoked`
  unfoldable pub grant_is_revoked : Text → Action Bool
  unfolding has_key
  grant_is_revoked grant_id = select (λ t. has_key grant_id t.revocations)

  -- `ORDER BY issued_at, grant_id`
  abbrev grant_leb : Text × GrantRow → Text × GrantRow → Bool
  grant_leb (i, a) (j, b) =
      if ltb_ℤ a.issued_at b.issued_at then true else a.issued_at == b.issued_at && text_leb i j

  unfoldable pub all_grants : List (Text × GrantRow) → Action (List SignedGrant)
  all_grants [] = pure []
  all_grants ((id, row) ∷ rows) =
      let rest = all_grants rows in
      do signed ← stored_grant row.grant_cbor; others ← rest; pure (signed ∷ others)

  -- `list_signed_grants`
  unfoldable pub list_signed_grants : Bool → Action (List SignedGrant)
  unfolding has_key all_grants
  list_signed_grants include_revoked = do
    t ← select (λ t. t)
    all_grants (
        sort_by grant_leb
          (filter (λ row. include_revoked || not (has_key row.0 t.revocations)) t.grants))
