-- ===== src/State/Grants.antt =====
-- state/sqlite.py: what the methods write of hosts, grants and revocations: `activate_session`,
-- `store_signed_grant`, `import_signed_grant` and `revoke_grant`.
use astral_project.Base.{
  ℕ, Bool, not, ◌&&◌, ◌||◌, Option, none, some, [], ◌∷◌, if◌then◌else◌, ◌==◌, nat_eq, string_eq,
  list_eq, option_eq, pair_eq, is_empty, Text, Bytes, codes, has_char, ℤ, pos, ltb_ℤ, int_eq,
}
use astral_project.Core.{crypto_signature, daemon_auth, grant_invalid, host_record, state_corrupt}
use astral_project.Grant.Verify.{SignedGrant, verify}
use astral_project.State.Tables.{
  HostRow, RemoteState, confirmed, offline, pending, active, revoked, state_error, is_active,
  Tables,
}
use astral_project.State.Platform.{Platform}
use astral_project.State.Statements.{
  Binding, has_key, require, astral_step, occurrence, or_raise, upsert_host, effective_key,
  host_event, on_integrity_error, context_of, is_changed, metadata_or_raise, remote_state_text,
  verification_time, binding_differs, host_row, end_sessions, update_revocation, insert_revocation,
}
use astral_project.Base.Dict.{get, put}
use astral_project.State.AuditTable.{audit}
use astral_project.Audit.Event.{Occurrence}
use astral_project.Audit.Json.{json_object, json_dumps}
use astral_project.Framing.Contracts.{signed_to_cbor}
use astral_project.State.Lookups.{signed_grant}
use astral_project.State.Actions.{raise_if, ◌>>=◌, ◌>>◌, Action, transaction, pure, select, modify}

module _ {Key : Type 0} (p : Platform Key) where
  -- `INSERT INTO grants`
  abbrev pub with_grant : Text → SignedGrant → Bytes → Tables → Tables
  with_grant host_id signed column t = record t {
    grants =
        put signed.grant.grant_id
          (record {
            host_id = host_id;
            grant_cbor = column;
            issued_at = signed.grant.issued_at;
            expires_at = signed.grant.expires_at;
          })
          t.grants;
  }

  abbrev pub grant_fits : Text → SignedGrant → Tables → Bool
  grant_fits host_id signed t =
      not (has_key signed.grant.grant_id t.grants) && has_key host_id t.hosts

  unfoldable pub insert_grant : Text → SignedGrant → Bytes → Action (Unit {0})
  unfolding require has_key put
  insert_grant host_id signed column = do
    require (grant_fits host_id signed)
    modify (with_grant host_id signed column)

  -- `INSERT INTO grant_issuer_keys`
  unfoldable pub insert_issuer_key : Text → Key → Action (Unit {0})
  unfolding require has_key put
  insert_issuer_key grant_id key = do
    require (λ t. not (has_key grant_id t.grant_issuer_keys) && has_key grant_id t.grants)
    modify (λ t. record t {
      grant_issuer_keys = put grant_id (p.public_bytes_raw key) t.grant_issuer_keys;
    })

  -- `INSERT INTO sessions`
  abbrev pub with_session : Text → Text → ℤ → Tables → Tables
  with_session session_id grant_id started_at t = record t {
    sessions =
        put session_id
          (record { grant_id = grant_id; state = active; started_at = started_at; ended_at = none })
          t.sessions;
  }

  abbrev pub session_fits : Text → Text → Tables → Bool
  session_fits session_id grant_id t =
      not (has_key session_id t.sessions) && has_key grant_id t.grants

  unfoldable pub insert_session : Text → Text → ℤ → Action (Unit {0})
  unfolding require has_key put
  insert_session session_id grant_id started_at = do
    require (session_fits session_id grant_id)
    modify (with_session session_id grant_id started_at)

  -- `INSERT INTO hosts`
  unfoldable pub insert_host : Text → Binding Key → Action (Unit {0})
  unfolding require has_key put
  insert_host host_id b = do
    require (λ t. not (has_key host_id t.hosts))
    modify (λ t. record t { hosts = put host_id (host_row b b.at) t.hosts })

  module _ (retention_limit : ℕ) where
    abbrev pub audit_event_of : Occurrence → Action (Unit {0})
    audit_event_of o = audit p.sha256_hex p.uuid4 retention_limit o

    -- `activate_session`
    unfoldable pub activate_session : Text → Text → Binding Key → Action (Unit {0})
    unfolding verify transaction insert_host insert_grant insert_issuer_key insert_session audit
    activate_session session_id host_id b = do
      key ←
          or_raise (state_error crypto_signature "session issuer key is unavailable")
            (effective_key b)
      astral_step (
          verify p.ed25519_verify p.cbor2_dumps b.signed_grant key
            (context_of host_id b.host_key_fingerprint b.remote_user b.at))
      raise_if (not (b.signed_grant.grant.host_id == host_id) || binding_differs b)
          (state_error daemon_auth "session grant and host binding disagree")
      or_raise (state_error state_corrupt "session host metadata is not JSON")
          (json_dumps b.host_metadata)
      transaction (do
        insert_host host_id b
        column ←
            astral_step
              (signed_to_cbor p.cbor2_dumps p.canonical_loads p.is_canonical_uuid4 b.signed_grant)
        insert_grant host_id b.signed_grant column
        insert_issuer_key b.signed_grant.grant.grant_id key
        insert_session session_id b.signed_grant.grant.grant_id b.at
        audit_event_of (
            occurrence "session.activated" "session" session_id
              (("grant_id", b.signed_grant.grant.grant_id) ∷ ("host_id", host_id) ∷ []) b.at))

    -- The events of `store_signed_grant`
    unfoldable pub audit_host : Option HostRow → Binding Key → Action (Unit {0})
    unfolding audit
    audit_host existing b = do
      audit_event_of (
          occurrence (host_event existing b.host_key_fingerprint) "host"
            b.signed_grant.grant.host_id (("host_key_fingerprint", b.host_key_fingerprint) ∷ [])
            b.at)
      if is_changed existing b.host_key_fingerprint
          then audit_event_of (
              occurrence "key.rotation" "host" b.signed_grant.grant.host_id
                (("key_kind", codes "ssh-host")
                  ∷ ("host_key_fingerprint", b.host_key_fingerprint)
                  ∷ [])
                b.at)
          else pure tt
      audit_event_of (
          occurrence "grant.stored" "grant" b.signed_grant.grant.grant_id
            (("host_id", b.signed_grant.grant.host_id) ∷ []) b.at)

    -- `store_signed_grant`
    unfoldable pub store_signed_grant : Binding Key → Action (Unit {0})
    unfolding verify transaction insert_grant insert_issuer_key audit_host upsert_host has_key get
        on_integrity_error verification_time
    store_signed_grant b = do
      let grant = b.signed_grant.grant
      key ←
          or_raise (state_error crypto_signature "grant issuer key is unavailable")
            (effective_key b)
      astral_step (
          verify p.ed25519_verify p.cbor2_dumps b.signed_grant key (
            context_of grant.host_id grant.ssh_host_key_fingerprint grant.remote_user
              (verification_time grant b.at)))
      raise_if (binding_differs b)
          (state_error daemon_auth "grant host binding disagrees with state")
      or_raise (state_error state_corrupt "grant host metadata is not JSON")
          (json_dumps b.host_metadata)
      transaction (do
        existing ← select (λ t. get grant.host_id t.hosts)
        found ← select (λ t. has_key grant.grant_id t.revocations)
        raise_if found (state_error daemon_auth "revoked grant cannot be imported as active")
        modify (upsert_host grant.host_id b)
        column ←
            astral_step
              (signed_to_cbor p.cbor2_dumps p.canonical_loads p.is_canonical_uuid4 b.signed_grant)
        on_integrity_error (state_error grant_invalid "grant is already stored")
            (insert_grant grant.host_id b.signed_grant column)
        insert_issuer_key grant.grant_id key
        audit_host existing b)

    -- `import_signed_grant`
    unfoldable pub import_signed_grant :
        SignedGrant → Option Key → Option Key → ℤ → Action (Unit {0})
    unfolding get store_signed_grant
    import_signed_grant signed issuer_public_key issuer_key at = do
      row ← select (λ t. get signed.grant.host_id t.hosts)
      host ← or_raise (state_error host_record "grant host is not enrolled") row
      metadata ← metadata_or_raise host.metadata_json
      store_signed_grant (record {
        signed_grant = signed;
        issuer_public_key = issuer_public_key;
        host_key_fingerprint = host.host_key_fingerprint;
        remote_user = host.remote_user;
        host_metadata = json_object metadata;
        at = at;
        issuer_key = issuer_key;
      })

    -- The first transaction of `revoke_grant`
    unfoldable pub revoke_locally : Text → Text → ℤ → Action (Unit {0})
    unfolding transaction end_sessions insert_revocation audit
    revoke_locally grant_id reason at = transaction (do
      modify (end_sessions (λ id row. row.grant_id == grant_id && is_active row.state) revoked at)
      insert_revocation grant_id
          (record { revoked_at = at; reason = reason; remote_state = pending })
      audit_event_of (
          occurrence "grant.revoked.local" "grant" grant_id
            (("reason", codes "operator supplied") ∷ ("remote_state", codes "pending") ∷ []) at))

    -- The second transaction: `UPDATE revocations`, and its event
    unfoldable pub record_remote_state : Text → RemoteState → ℤ → Action (Unit {0})
    unfolding transaction update_revocation audit
    record_remote_state grant_id remote_state at = transaction (do
      modify (update_revocation grant_id remote_state)
      audit_event_of (
          occurrence "grant.revoked.remote" "grant" grant_id
            (("remote_state", remote_state_text remote_state) ∷ []) at))

    -- What the remote revocation comes to; the callback tells whether it returned.
    abbrev pub remote_result : Option (SignedGrant → Bool) → SignedGrant → RemoteState
    remote_result none signed = pending
    remote_result (some remote_revoke) signed = if remote_revoke signed then confirmed else offline

    -- `revoke_grant`
    unfoldable pub revoke_grant : Text → Text → Option (SignedGrant → Bool) → ℤ → Action RemoteState
    unfolding signed_grant revoke_locally record_remote_state
    revoke_grant grant_id reason remote_revoke at = do
      raise_if (ltb_ℤ at (pos 0) || is_empty reason || has_char 0 reason)
          (state_error grant_invalid "revocation reason is invalid")
      signed ← signed_grant p grant_id
      revoke_locally grant_id reason at
      let remote_state = remote_result remote_revoke signed
      record_remote_state grant_id remote_state at
      pure remote_state
