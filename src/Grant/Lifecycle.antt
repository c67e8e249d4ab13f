-- ===== src/Grant/Lifecycle.antt =====
-- grants/lifecycle.py: `compare_grants`, `_canonical_changes`, and the steps of `GrantLifecycle`. The
-- remote validator, the human approver, Ed25519, the encoder of cbor2 and the database are parameters.
use astral_project.Base.{
  String, Bool, not, ◌&&◌, ◌||◌, Option, List, [], ◌∷◌, if◌then◌else◌, ◌==◌, nat_eq, string_eq,
  list_eq, option_eq, pair_eq, Result, ok, err, ◌>>=◌, ◌>>◌, raise_if, is_empty, Text, Bytes,
  int_eq,
}
use astral_project.Core.{AstralError, astral_error, grant_invalid, daemon_unavailable, ErrorCode}
use astral_project.Grant.Types.{Grant, CborValue}
use astral_project.Grant.Equal.{export_eq}
use astral_project.Grant.Verify.{SignedGrant, canonical_bytes, make_signed_grant}
use astral_project.Grant.Compare.{extensions_differ, equal_sets, is_superset}

-- What an exception is: one of the program's own, or any other.
pub data Raised : Type 0 where
  astral : AstralError → Raised
  other_exception : Raised

-- What a call of the remote validator comes to.
pub data Validation : Type 0 where
  returned : Grant → Validation
  raised : Raised → Validation
  returned_no_grant : Validation

pub record RenewalDecision : Type 0 where
  pub changes : List String
  pub widened : Bool

-- `_error`
abbrev pub lifecycle_error : ErrorCode → String → Raised
lifecycle_error code message = astral (astral_error code message)

-- `if test: changes.append(name)` for each test in turn
unfoldable pub collect : List (Bool × String) → List String
collect [] = []
collect ((test, name) ∷ rest) = let names = collect rest in if test then name ∷ names else names

-- `compare_grants`
unfoldable pub compare_grants : Grant → Grant → RenewalDecision
unfolding collect
compare_grants old new = record {
  changes = collect (
      (not (old.host_id == new.host_id), "host_id")
      ∷ (
        not (old.ssh_host_key_fingerprint == new.ssh_host_key_fingerprint),
        "ssh_host_key_fingerprint",
      )
      ∷ (not (old.remote_user == new.remote_user), "remote_user")
      ∷ (not (old.exports == new.exports), "exports")
      ∷ (not (old.requested_features == new.requested_features), "requested_features")
      ∷ (not (old.server_policy_hash == new.server_policy_hash), "server_policy_hash")
      ∷ (
        extensions_differ old.mandatory_extensions new.mandatory_extensions,
        "mandatory_extensions",
      )
      ∷ (extensions_differ old.optional_extensions new.optional_extensions, "optional_extensions")
      ∷ []);
  widened =
      not (old.host_id == new.host_id)
      || not (old.ssh_host_key_fingerprint == new.ssh_host_key_fingerprint)
      || not (old.remote_user == new.remote_user)
      || not (equal_sets new.exports old.exports)
      || not (is_superset old.requested_features new.requested_features)
      || not (old.server_policy_hash == new.server_policy_hash)
      || extensions_differ old.mandatory_extensions new.mandatory_extensions
      || extensions_differ old.optional_extensions new.optional_extensions;
}

-- The fields that `_canonical_changes` compares, with the outcomes
abbrev pub content_tests : Grant → Grant → List (Bool × String)
content_tests requested canonical =
    (not (requested.host_id == canonical.host_id), "host_id")
    ∷ (
      not (requested.ssh_host_key_fingerprint == canonical.ssh_host_key_fingerprint),
      "ssh_host_key_fingerprint",
    )
    ∷ (not (requested.remote_user == canonical.remote_user), "remote_user")
    ∷ (not (requested.issued_at == canonical.issued_at), "issued_at")
    ∷ (not (requested.not_before == canonical.not_before), "not_before")
    ∷ (not (requested.expires_at == canonical.expires_at), "expires_at")
    ∷ (not (requested.exports == canonical.exports), "exports")
    ∷ (not (requested.requested_features == canonical.requested_features), "requested_features")
    ∷ (not (requested.server_policy_hash == canonical.server_policy_hash), "server_policy_hash")
    ∷ (
      extensions_differ requested.mandatory_extensions canonical.mandatory_extensions,
      "mandatory_extensions",
    )
    ∷ (
      extensions_differ requested.optional_extensions canonical.optional_extensions,
      "optional_extensions",
    )
    ∷ []

-- `_canonical_changes`
unfoldable pub canonical_changes : Grant → Grant → List String
unfolding collect
canonical_changes requested canonical = collect (content_tests requested canonical)

-- `canonical != proposed`, the comparison of all fields that `dataclass` gives
unfoldable pub grants_differ : Grant → Grant → Bool
unfolding canonical_changes
grants_differ a b =
    not (is_empty (canonical_changes a b))
    || not (a.grant_id == b.grant_id)
    || not (a.issuer_key_id == b.issuer_key_id)
    || not (a.nonce == b.nonce)
    || not (a.format_version == b.format_version)

-- An error of the program's own, raised through the steps.
abbrev pub lift_error : {A : Type 0} → Result AstralError A → Result Raised A
lift_error (ok a) = ok a
lift_error (err e) = err (astral e)

-- The validator's result in `create`, where another exception is reported as unavailability.
abbrev pub guarded : Validation → Result Raised Grant
guarded (returned g) = ok g
guarded (raised (astral e)) = err (astral e)
guarded (raised other_exception) =
    err (lifecycle_error daemon_unavailable "remote grant validation failed")
guarded returned_no_grant =
    err (lifecycle_error grant_invalid "remote validator returned invalid canonical grant")

-- The validator's result in `renew`.
abbrev pub unguarded : Validation → Result Raised Grant
unguarded (returned g) = ok g
unguarded (raised e) = err e
unguarded returned_no_grant =
    err (lifecycle_error grant_invalid "remote validator returned invalid renewed grant")

module _ {Key PublicKey Database : Type 0} (ed25519_sign : Key → Bytes → Bytes)
    (public_key : Key → PublicKey) (cbor2_dumps : CborValue → Option Bytes)
    (store_signed_grant : SignedGrant → Text → Text → PublicKey → Database → Result Raised Database)
    (validator : Grant → Validation) (approver : List String → Result Raised Bool) where
  -- `SignedGrant.create`
  unfoldable pub create_signed : Grant → Key → Result Raised SignedGrant
  unfolding canonical_bytes make_signed_grant
  create_signed g key = do
    bytes ← lift_error (canonical_bytes cbor2_dumps g)
    lift_error (make_signed_grant (record { grant = g; signature = ed25519_sign key bytes }))

  -- The last two statements of `create` and of `renew`; the metadata of the host go by as they came.
  unfoldable pub sign_and_store : Grant → Key → Database → Result Raised (SignedGrant × Database)
  unfolding create_signed
  sign_and_store canonical key database = do
    signed ← create_signed canonical key
    database' ←
        store_signed_grant signed canonical.ssh_host_key_fingerprint canonical.remote_user
          (public_key key) database
    ok (signed, database')

  -- `approver(changes)` as a condition
  unfoldable pub demand : List String → String → Result Raised (Unit {0})
  demand changes message = do
    answer ← approver changes
    raise_if (not answer) (lifecycle_error grant_invalid message)

  -- `GrantLifecycle.create`
  unfoldable pub create : Grant → Key → Database → Result Raised (SignedGrant × Database)
  unfolding sign_and_store demand
  create g key database = do
    canonical ← guarded (validator g)
    let changes = canonical_changes g canonical
    if is_empty changes
        then demand [] "human approval was not recorded"
        else demand changes "human approval rejected canonical grant changes"
    sign_and_store canonical key database

  -- `GrantLifecycle.renew`
  unfoldable pub renew :
      SignedGrant → Grant → Key → Database → Result Raised (SignedGrant × Database)
  unfolding sign_and_store demand
  renew current proposed key database = do
    raise_if (current.grant.grant_id == proposed.grant_id)
        (lifecycle_error grant_invalid "renewal requires a fresh grant identifier")
    canonical ← unguarded (validator proposed)
    let decision = compare_grants current.grant canonical
    if decision.widened
        then demand decision.changes "renewal would widen capability without approval"
        else ok tt
    let changes = canonical_changes proposed canonical
    if grants_differ canonical proposed && not (is_empty changes)
        then demand changes "human approval rejected renewed canonical changes"
        else ok tt
    sign_and_store canonical key database
