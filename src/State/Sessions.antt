-- ===== src/State/Sessions.antt =====
-- state/sqlite.py: `open_session`, `close_session`, `retire_expired_sessions`, `list_sessions`,
-- `active_listing_session` and `active_listing_scope`.
use astral_project.Base.{
  ℕ, Bool, true, false, not, ◌&&◌, Option, none, some, List, [], ◌∷◌, ◌++◌, map, if◌then◌else◌,
  ◌==◌, nat_eq, string_eq, list_eq, option_eq, pair_eq, Result, ok, err, length, any, filter, Text,
  Bytes, ℤ, ltb_ℤ, leb_ℤ, int_eq,
}
use astral_project.Base.Dict.{Dict, get}
use astral_project.Base.Order.{sort_by, text_leb}
use astral_project.Core.{AstralError, daemon_auth, state_corrupt}
use astral_project.Audit.Json.{Json, JsonFields, json_object}
use astral_project.Grant.Verify.{SignedGrant}
use astral_project.Grant.Types.{Grant}
use astral_project.Session.Listing.{SessionListingScope, make_scope}
use astral_project.State.Tables.{
  HostRow, GrantRow, SessionRow, StateError, Tables, expired, closed, is_active, state_error,
}
use astral_project.State.Platform.{Platform}
use astral_project.Namespace.Planner.{build_namespace_plan}
use astral_project.Namespace.Payload.{plan_bytes}
use astral_project.State.Lookups.{
  signed_grant, issuer_public_key, grant_verification_context, validate_signed_grant,
  grant_is_revoked,
}
use astral_project.State.AuditTable.{audit}
use astral_project.State.Grants.{insert_session, audit_event_of}
use astral_project.Framing.Contracts.{signed_from_cbor}
use astral_project.State.Statements.{update_sessions, astral_step, occurrence, end_sessions}
use astral_project.State.Actions.{
  raise_if, ◌>>=◌, ◌>>◌, Action, transaction, pure, select, draw, modify, raise,
}

-- `ActiveListingSession`
pub record ActiveListingSession : Type 0 where
  pub session_id : Text
  pub signed_grant : SignedGrant
  pub host_id : Text
  pub host_key_fingerprint : Text
  pub remote_user : Text
  pub host_metadata : JsonFields

-- A row of the join of `active_listing_session`
pub record ActiveRow : Type 0 where
  pub session_id : Text
  pub grant : GrantRow
  pub host : HostRow

-- `ORDER BY started_at, session_id`
abbrev pub session_leb : Text × SessionRow → Text × SessionRow → Bool
session_leb (i, a) (j, b) =
    if ltb_ℤ a.started_at b.started_at then true else a.started_at == b.started_at && text_leb i j

-- `list_sessions`
unfoldable pub list_sessions : Action (List (Text × SessionRow))
list_sessions = select (λ t. sort_by session_leb t.sessions)

-- `grant_id IN (SELECT grant_id FROM grants WHERE expires_at <= now)`, of an active session
unfoldable pub is_expired : ℤ → Tables → SessionRow → Bool
unfolding get
is_expired now t row = is_active row.state && ended (get row.grant_id t.grants)
  where
    ended : Option GrantRow → Bool
    ended none = false
    ended (some grant) = leb_ℤ grant.expires_at now

abbrev pub any_active : Tables → Bool
any_active t = any (λ row. is_active (row.1).state) t.sessions

-- The join of the active sessions with their grants and hosts
unfoldable pub active_rows : Tables → Dict Text SessionRow → List ActiveRow
unfolding get
active_rows t [] = []
active_rows t ((id, row) ∷ rest) =
    if is_active row.state
    then joined (get row.grant_id t.grants) ++ active_rows t rest
    else active_rows t rest
  where
    with_host : GrantRow → Option HostRow → List ActiveRow
    with_host grant none = []
    with_host grant (some host) = (record { session_id = id; grant = grant; host = host }) ∷ []

    joined : Option GrantRow → List ActiveRow
    joined none = []
    joined (some grant) = with_host grant (get grant.host_id t.hosts)

module _ {Key : Type 0} (p : Platform Key) where
  abbrev corrupt : StateError
  corrupt = state_error state_corrupt "active session host or grant is invalid"

  abbrev metadata_of : Option Json → Action JsonFields
  metadata_of (some (json_object members)) = pure members
  metadata_of _ = raise corrupt

  abbrev grant_of : Bytes → Action SignedGrant
  grant_of column =
      elim (signed_from_cbor p.cbor2_dumps p.canonical_loads p.is_canonical_uuid4 column) [
        | err e ↦ raise corrupt
        | ok signed ↦ pure signed
      ]

  unfoldable pub listing_session : List ActiveRow → Action (Option ActiveListingSession)
  listing_session [] = pure none
  listing_session (row ∷ []) = do
    metadata ← metadata_of row.host.metadata_json
    signed ← grant_of row.grant.grant_cbor
    pure (
        some (record {
          session_id = row.session_id;
          signed_grant = signed;
          host_id = row.grant.host_id;
          host_key_fingerprint = row.host.host_key_fingerprint;
          remote_user = row.host.remote_user;
          host_metadata = metadata;
        }))
  listing_session (row ∷ next ∷ rest) =
      raise (state_error daemon_auth "multiple active sessions make listing authority ambiguous")

  -- `active_listing_session`
  unfoldable pub active_listing_session : Action (Option ActiveListingSession)
  unfolding active_rows listing_session
  active_listing_session = do rows ← select (λ t. active_rows t t.sessions); listing_session rows

  -- `active_listing_scope`
  unfoldable pub active_listing_scope : Action (Option SessionListingScope)
  unfolding active_listing_session make_scope
  active_listing_scope = do
    found ← active_listing_session
    elim found [
      | none ↦ pure none
      | some session ↦ do
        scope ← astral_step (
            make_scope (record {
              grant_name = session.signed_grant.grant.grant_id;
              allowed_paths = map (λ e. e.virtual_target) session.signed_grant.grant.exports;
            }))
        pure (some scope)
    ]

  -- `hashlib.sha256(build_namespace_plan(grant).canonical_bytes()).hexdigest()`
  unfoldable pub export_hash : Grant → Result AstralError Text
  unfolding build_namespace_plan plan_bytes
  export_hash g = elim (build_namespace_plan g) [
    | err e ↦ err e
    | ok plan ↦ elim (plan_bytes p.cbor2_dumps plan) [
      | err e ↦ err e
      | ok bytes ↦ ok (p.sha256_hex bytes)
    ]
  ]

  module _ (retention_limit : ℕ) where
    -- The transaction of `open_session`
    unfoldable pub insert_opened : Text → SignedGrant → ℤ → Action Text
    unfolding transaction insert_session export_hash audit
    insert_opened grant_id signed at = transaction (do
      busy ← select any_active
      raise_if busy (state_error daemon_auth "another remote session is already active")
      drawn ← draw
      insert_session p (p.uuid4 drawn) grant_id at
      hash ← astral_step (export_hash signed.grant)
      audit_event_of p retention_limit (
          occurrence "session.opened" "session" (p.uuid4 drawn)
            (("grant_id", grant_id) ∷ ("effective_export_hash", hash) ∷ []) at)
      pure (p.uuid4 drawn))

    -- The checks of `open_session` before its transaction
    unfoldable pub check_open : Text → ℤ → Action SignedGrant
    unfolding signed_grant issuer_public_key grant_verification_context validate_signed_grant
        grant_is_revoked
    check_open grant_id at = do
      signed ← signed_grant p grant_id
      key ← issuer_public_key p grant_id
      context ← grant_verification_context p grant_id at
      validate_signed_grant p signed key context
      found ← grant_is_revoked p grant_id
      raise_if found (state_error daemon_auth "revoked grant cannot open a session")
      pure signed

    -- `open_session`
    unfoldable pub open_session : Text → ℤ → Action Text
    unfolding check_open insert_opened
    open_session grant_id at = do signed ← check_open grant_id at; insert_opened grant_id signed at

    -- `close_session`
    unfoldable pub close_session : Text → ℤ → Action (Unit {0})
    unfolding transaction end_sessions audit
    close_session session_id at = transaction (do
      found ← select (λ t. any (λ row. row.0 == session_id && is_active (row.1).state) t.sessions)
      modify (λ t. record t {
        sessions =
            update_sessions (λ id row. id == session_id && is_active row.state) closed at
              t.sessions;
      })
      raise_if (not found) (state_error daemon_auth "active session was not found")
      audit_event_of p retention_limit (occurrence "session.closed" "session" session_id [] at))

    -- One round of the loop of `retire_expired_sessions`
    unfoldable pub audit_expiry : Text → Text → ℤ → Action (Unit {0})
    unfolding audit
    audit_expiry session_id grant_id at = do
      audit_event_of p retention_limit
          (occurrence "grant.expired" "grant" grant_id (("session_id", session_id) ∷ []) at)
      audit_event_of p retention_limit
          (occurrence "session.expired" "session" session_id (("grant_id", grant_id) ∷ []) at)

    unfoldable pub audit_expired : List (Text × SessionRow) → ℤ → Action (Unit {0})
    unfolding audit_expiry
    audit_expired [] at = pure tt
    audit_expired (row ∷ rest) at =
        let others = audit_expired rest at in audit_expiry row.0 (row.1).grant_id at >> others

    -- `retire_expired_sessions`
    unfoldable pub retire_expired_sessions : ℤ → Action ℕ
    unfolding transaction end_sessions is_expired audit_expired
    retire_expired_sessions now = transaction (do
      t ← select (λ t. t)
      let gone = filter (λ row. is_expired now t row.1) t.sessions
      modify (end_sessions (λ id row. is_expired now t row) expired now)
      audit_expired gone now
      pure (length gone))
