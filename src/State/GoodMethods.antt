-- ===== src/State/GoodMethods.antt =====
-- state/sqlite.py: every method keeps the audit chain whole.
use astral_project.Base.{
  [], ◌∷◌, ℕ, ◌≤◌, ◌≡◌, Bool, nat_eq, string_eq, list_eq, option_eq, pair_eq, Text, Bytes, ℤ,
  int_eq, List, Option, refl,
}
use astral_project.Grant.Verify.{SignedGrant}
use astral_project.State.Tables.{Tables, RemoteState, HostRow, SessionRow, Revocation, SessionState}
use astral_project.State.Platform.{Platform, IsLawful}
use astral_project.State.Statements.{
  Binding, require, upsert_host, end_sessions, insert_revocation, update_revocation,
}
use astral_project.State.Grants.{
  insert_grant, insert_host, insert_issuer_key, insert_session, activate_session, audit_host,
  record_remote_state, revoke_locally, store_signed_grant,
}
use astral_project.State.Good.{
  IsGood, >>=-IsGood, or_raise-IsGood, require-IsGood, astral_step-IsGood, modify-IsGood,
  raise_if-IsGood, audit-IsGood, pure-IsGood, select-IsGood, draw-IsGood, on_integrity_error-IsGood,
  if-IsGood, IsWhole, >>=-IsWhole, or_raise-IsWhole, astral_step-IsWhole, raise_if-IsWhole,
  transaction-IsWhole,
}
use astral_project.State.Sessions.{
  audit_expired, close_session, insert_opened, retire_expired_sessions, audit_expiry,
}
use astral_project.State.Actions.{◌>>◌, modify}

ruleset steps = (
  >>=-IsGood, pure-IsGood, select-IsGood, draw-IsGood, or_raise-IsGood, astral_step-IsGood,
  raise_if-IsGood, >>=-IsWhole, or_raise-IsWhole, astral_step-IsWhole, raise_if-IsWhole,
  transaction-IsWhole,
)

module _ {Key : Type 0} (p : Platform Key) (limit : ℕ) where
  inserted :
      (holds : Tables → Bool) (f : Tables → Tables)
      → ((t : Tables) → (f t).audit_events ≡ t.audit_events)
      → ((t : Tables) → (f t).audit_retention_boundary ≡ t.audit_retention_boundary)
      → IsGood p limit (require holds >> modify f)
  inserted holds f rows boundaries =
      >>=-IsGood p limit (require holds) (λ _. modify f) (require-IsGood p limit holds)
        (λ _. modify-IsGood p limit f rows boundaries)

  upsert_host-IsGood :
      (host_id : Text) (b : Binding Key) → IsGood p limit (modify (upsert_host host_id b))
  unfolding upsert_host
  upsert_host-IsGood host_id b =
      modify-IsGood p limit (upsert_host host_id b) (λ t. refl) (λ t. refl)

  insert_revocation-IsGood :
      (grant_id : Text) (row : Revocation) → IsGood p limit (insert_revocation grant_id row)
  unfolding insert_revocation
  insert_revocation-IsGood grant_id row = search (inserted)

  update_revocation-IsGood :
      (grant_id : Text) (remote_state : RemoteState)
      → IsGood p limit (modify (update_revocation grant_id remote_state))
  unfolding update_revocation
  update_revocation-IsGood grant_id remote_state =
      modify-IsGood p limit (update_revocation grant_id remote_state) (λ t. refl) (λ t. refl)

  end_sessions-IsGood :
      (affects : Text → SessionRow → Bool) (state : SessionState) (at : ℤ)
      → IsGood p limit (modify (end_sessions affects state at))
  unfolding end_sessions
  end_sessions-IsGood affects state at =
      modify-IsGood p limit (end_sessions affects state at) (λ t. refl) (λ t. refl)

  insert_host-IsGood : (host_id : Text) (b : Binding Key) → IsGood p limit (insert_host p host_id b)
  unfolding insert_host
  insert_host-IsGood host_id b = search (inserted)

  insert_grant-IsGood :
      (host_id : Text) (signed : SignedGrant) (column : Bytes)
      → IsGood p limit (insert_grant p host_id signed column)
  unfolding insert_grant
  insert_grant-IsGood host_id signed column = search (inserted)

  insert_issuer_key-IsGood :
      (grant_id : Text) (key : Key) → IsGood p limit (insert_issuer_key p grant_id key)
  unfolding insert_issuer_key
  insert_issuer_key-IsGood grant_id key = search (inserted)

  insert_session-IsGood :
      (session_id grant_id : Text) (at : ℤ)
      → IsGood p limit (insert_session p session_id grant_id at)
  unfolding insert_session
  insert_session-IsGood session_id grant_id at = search (inserted)

  ruleset good = (
    steps, insert_host-IsGood, insert_grant-IsGood, insert_issuer_key-IsGood, insert_session-IsGood,
    insert_revocation-IsGood, update_revocation-IsGood, end_sessions-IsGood, audit-IsGood,
  )

  module _ (lawful : IsLawful p) (positive : 1 ≤ limit) where
    pub activate_session-IsWhole :
        (session_id host_id : Text) (b : Binding Key)
        → IsWhole p limit (activate_session p limit session_id host_id b)
    unfolding activate_session
    activate_session-IsWhole session_id host_id b = search (good) depth 30 fits 4000

    audit_host-IsGood :
        (existing : Option HostRow) (b : Binding Key)
        → IsGood p limit (audit_host p limit existing b)
    unfolding audit_host
    audit_host-IsGood existing b = search (good, if-IsGood) depth 30 fits 4000

    pub store_signed_grant-IsWhole :
        (b : Binding Key) → IsWhole p limit (store_signed_grant p limit b)
    unfolding store_signed_grant
    store_signed_grant-IsWhole b =
        search (good, audit_host-IsGood, upsert_host-IsGood, on_integrity_error-IsGood) depth 30
          fits 4000

    pub revoke_locally-IsWhole :
        (grant_id reason : Text) (at : ℤ)
        → IsWhole p limit (revoke_locally p limit grant_id reason at)
    unfolding revoke_locally
    revoke_locally-IsWhole grant_id reason at = search (good) depth 30 fits 4000

    pub record_remote_state-IsWhole :
        (grant_id : Text) (remote_state : RemoteState) (at : ℤ)
        → IsWhole p limit (record_remote_state p limit grant_id remote_state at)
    unfolding record_remote_state
    record_remote_state-IsWhole grant_id remote_state at = search (good) depth 30 fits 4000

    pub insert_opened-IsWhole :
        (grant_id : Text) (signed : SignedGrant) (at : ℤ)
        → IsWhole p limit (insert_opened p limit grant_id signed at)
    unfolding insert_opened
    insert_opened-IsWhole grant_id signed at = search (good) depth 30 fits 4000

    pub close_session-IsWhole :
        (session_id : Text) (at : ℤ) → IsWhole p limit (close_session p limit session_id at)
    unfolding close_session
    close_session-IsWhole session_id at = search (good) depth 30 fits 4000

    audit_expiry-IsGood :
        (session_id grant_id : Text) (at : ℤ)
        → IsGood p limit (audit_expiry p limit session_id grant_id at)
    unfolding audit_expiry
    audit_expiry-IsGood session_id grant_id at = search (good) depth 30 fits 4000

    audit_expired-IsGood :
        (rows : List (Text × SessionRow)) (at : ℤ) → IsGood p limit (audit_expired p limit rows at)
    unfolding audit_expired
    audit_expired-IsGood [] at = pure-IsGood p limit tt
    audit_expired-IsGood (row ∷ rows) at =
        >>=-IsGood p limit (audit_expiry p limit row.0 (row.1).grant_id at)
          (λ _. audit_expired p limit rows at) (audit_expiry-IsGood _ _ at)
          (λ _. audit_expired-IsGood rows at)

    pub retire_expired_sessions-IsWhole :
        (now : ℤ) → IsWhole p limit (retire_expired_sessions p limit now)
    unfolding retire_expired_sessions
    retire_expired_sessions-IsWhole now = search (good, audit_expired-IsGood) depth 30 fits 4000
