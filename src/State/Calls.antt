-- ===== src/State/Calls.antt =====
-- state/sqlite.py: whole methods called one after the other.
use astral_project.Grant.Verify.{SignedGrant}
use astral_project.Audit.Event.{Occurrence}
use astral_project.State.AuditTable.{record_audit, rotate_audit}
use astral_project.Base.{
  ℕ, Option, nat_eq, string_eq, list_eq, option_eq, pair_eq, Result, ok, err, Text, ℤ, int_eq,
}
use astral_project.State.Tables.{Store, StateError, RemoteState, empty_tables}
use astral_project.State.Platform.{Platform}
use astral_project.State.Statements.{Binding}
use astral_project.State.Chained.{After}
use astral_project.State.Revoked.{Sound}
use astral_project.State.ForGood.{
  IsRevoked, activate_session_lasts, store_signed_grant_lasts, revoke_locally_lasts,
  record_remote_state_lasts, open_session_lasts, close_session_lasts, retire_expired_sessions_lasts,
}
use astral_project.State.Authority.{Authority, Maintains, authority}
use astral_project.State.RevokedMethods.{
  activate_session-Maintains, store_signed_grant-Maintains, revoke_locally-Maintains,
  record_remote_state-Maintains, close_session-Maintains, retire_expired_sessions-Maintains,
  import_signed_grant-Maintains, record_audit-Maintains, rotate_audit-Maintains,
}
use astral_project.State.Actions.{Action}
use astral_project.State.Sessions.{open_session, close_session, retire_expired_sessions}
use astral_project.State.Grants.{
  activate_session, store_signed_grant, revoke_locally, record_remote_state, import_signed_grant,
}
use astral_project.State.Ends.{Ends}
use astral_project.State.Opened.{open_session-Maintains}

abbrev pub new_store : ℕ → Store
new_store drawn = record { tables = empty_tables; drawn = drawn }

module _ {Key : Type 0} (p : Platform Key) (limit : ℕ) where
  -- What a database is after calls that each ended, returning or raising, before the next began;
  -- `revoke_grant` may be interrupted between its transactions.
  pub data Calls (s : Store) : Store → Type 0 where
    none_yet : Calls s s
    activates :
        {s' : Store} (session_id host_id : Text) (b : Binding Key)
        → Calls s s'
        → Calls s (After (activate_session p limit session_id host_id b) s')
    stores :
        {s' : Store} (b : Binding Key)
        → Calls s s'
        → Calls s (After (store_signed_grant p limit b) s')
    revokes :
        {s' : Store} (grant_id reason : Text) (at : ℤ)
        → Calls s s'
        → Calls s (After (revoke_locally p limit grant_id reason at) s')
    records_remote_state :
        {s' : Store} (grant_id : Text) (remote_state : RemoteState) (at : ℤ)
        → Calls s s'
        → Calls s (After (record_remote_state p limit grant_id remote_state at) s')
    opens :
        {s' : Store} (grant_id : Text) (at : ℤ)
        → Calls s s'
        → Calls s (After (open_session p limit grant_id at) s')
    closes :
        {s' : Store} (session_id : Text) (at : ℤ)
        → Calls s s'
        → Calls s (After (close_session p limit session_id at) s')
    retires :
        {s' : Store} (now : ℤ)
        → Calls s s'
        → Calls s (After (retire_expired_sessions p limit now) s')
    imports :
        {s' : Store} (signed : SignedGrant) (issuer_public_key issuer_key : Option Key) (at : ℤ)
        → Calls s s'
        → Calls s (After (import_signed_grant p limit signed issuer_public_key issuer_key at) s')
    records :
        {s' : Store} (o : Occurrence)
        → Calls s s'
        → Calls s (After (record_audit p.sha256_hex p.uuid4 limit o) s')
    rotates :
        {s' : Store} (retain : ℕ)
        → Calls s s'
        → Calls s (After (rotate_audit p.sha256_hex retain) s')

  abbrev pub Everything : (Authority → Type 0) → Type 0
  Everything P =
      ((session_id host_id : Text) (b : Binding Key)
        → Maintains P (activate_session p limit session_id host_id b))
      × ((b : Binding Key) → Maintains P (store_signed_grant p limit b))
      × ((grant_id reason : Text) (at : ℤ)
          → Maintains P (revoke_locally p limit grant_id reason at))
      × ((grant_id : Text) (remote_state : RemoteState) (at : ℤ)
          → Maintains P (record_remote_state p limit grant_id remote_state at))
      × ((grant_id : Text) (at : ℤ) → Maintains P (open_session p limit grant_id at))
      × ((session_id : Text) (at : ℤ) → Maintains P (close_session p limit session_id at))
      × ((now : ℤ) → Maintains P (retire_expired_sessions p limit now))

  maintained :
      {A : Type 0} (P : Authority → Type 0) (m : Action A) (s : Store)
      → Maintains P m
      → P (authority s.tables)
      → P (authority (After m s).tables)
  maintained {A} P m s h k = from (m s) (h.maintains s k)
    where
      from :
          (x : Result StateError A × Store)
          → Ends (λ _ s'. P (authority s'.tables)) (λ s'. P (authority s'.tables)) x
          → P (authority (x.1).tables)
      from (ok a, s') q = q
      from (err e, s') q = q

  pub Calls-Maintains :
      (P : Authority → Type 0) (s s' : Store)
      → Everything P
      → Calls s s'
      → P (authority s.tables)
      → P (authority s'.tables)
  Calls-Maintains P s _ all_keep none_yet k = k
  Calls-Maintains P s _ all_keep (activates {s' = t} i h b c) k =
      maintained P _ t (all_keep.0 i h b) (Calls-Maintains P s t all_keep c k)
  Calls-Maintains P s _ all_keep (stores {s' = t} b c) k =
      maintained P _ t (all_keep.1 b) (Calls-Maintains P s t all_keep c k)
  Calls-Maintains P s _ all_keep (revokes {s' = t} g r at c) k =
      maintained P _ t (all_keep.2 g r at) (Calls-Maintains P s t all_keep c k)
  Calls-Maintains P s _ all_keep (records_remote_state {s' = t} g r at c) k =
      maintained P _ t (all_keep.3 g r at) (Calls-Maintains P s t all_keep c k)
  Calls-Maintains P s _ all_keep (opens {s' = t} g at c) k =
      maintained P _ t (all_keep.4 g at) (Calls-Maintains P s t all_keep c k)
  Calls-Maintains P s _ all_keep (closes {s' = t} i at c) k =
      maintained P _ t (all_keep.5 i at) (Calls-Maintains P s t all_keep c k)
  Calls-Maintains P s _ all_keep (retires {s' = t} now c) k =
      maintained P _ t (all_keep.6 now) (Calls-Maintains P s t all_keep c k)
  Calls-Maintains P s _ all_keep (imports {s' = t} signed public key at c) k =
      maintained P _ t (import_signed_grant-Maintains p limit P all_keep.1 signed public key at)
        (Calls-Maintains P s t all_keep c k)
  Calls-Maintains P s _ all_keep (records {s' = t} o c) k =
      maintained P _ t (record_audit-Maintains p limit P o) (Calls-Maintains P s t all_keep c k)
  Calls-Maintains P s _ all_keep (rotates {s' = t} retain c) k =
      maintained P _ t (rotate_audit-Maintains p limit P retain)
        (Calls-Maintains P s t all_keep c k)

  pub all-Sound : Everything Sound
  all-Sound = (
    activate_session-Maintains p limit,
    store_signed_grant-Maintains p limit,
    revoke_locally-Maintains p limit,
    record_remote_state-Maintains p limit,
    open_session-Maintains p limit,
    close_session-Maintains p limit,
    retire_expired_sessions-Maintains p limit,
  )

  pub all-IsRevoked : (g : Text) → Everything (IsRevoked g)
  all-IsRevoked g = (
    activate_session_lasts g p limit,
    store_signed_grant_lasts g p limit,
    revoke_locally_lasts g p limit,
    record_remote_state_lasts g p limit,
    open_session_lasts g p limit,
    close_session_lasts g p limit,
    retire_expired_sessions_lasts g p limit,
  )
