-- ===== src/State/RevokedMethods.antt =====
-- state/sqlite.py: every method, called as a whole, keeps active sessions to grants that are not
-- revoked.
use astral_project.Audit.Json.{
  Json, json_object, json_null, json_bool, json_int, json_float, json_text, json_list, not_json,
}
use astral_project.Base.{
  ℕ, ◌≡◌, refl, sym, ap, ◌∙◌, inl, inr, Bool, ◌&&◌, Option, none, some, List, [], ◌∷◌, Bool-cases,
  Option-cases, ◌==◌, ==_iff, nat_eq, string_eq, list_eq, option_eq, pair_eq, All-map, Text, Bytes,
  ℤ, int_eq,
}
use astral_project.Base.Dict.{Dict, get, get-put_same}
use astral_project.Grant.Verify.{SignedGrant}
use astral_project.State.Tables.{
  Tables, StateError, SessionRow, Revocation, RemoteState, is_active, revoked, HostRow,
}
use astral_project.State.Platform.{Platform}
use astral_project.State.Statements.{
  Binding, update_revocation, upsert_host, require, end_sessions, insert_revocation, has_key,
  on_integrity_error, update_found, is_some, metadata_or_raise,
}
use astral_project.State.Authority.{
  >>=-Leads_same, Authority, Leads, Maintains, authority, pure-Leads, select-Leads, draw-Leads,
  modify-Leads, require-Leads, >>=-Leads, or_raise-Leads, astral_step-Leads, raise_if-Leads,
  audit-Leads, >>=-Maintains, or_raise-Maintains, astral_step-Maintains, raise_if-Maintains,
  transaction-Maintains, retained-Leads, if-Leads, NoClaim, select-Maintains, raise-Maintains,
  pure-Maintains,
}
use astral_project.State.Sessions.{
  close_session, audit_expired, audit_expiry, retire_expired_sessions,
}
use astral_project.State.Grants.{
  activate_session, record_remote_state, revoke_locally, insert_host, insert_issuer_key,
  insert_grant, insert_session, audit_host, store_signed_grant, import_signed_grant,
}
use astral_project.State.Revoked.{
  Sound, SoundWithout, insert_grant-Leads, insert_session-Leads, has_key-put_other,
}
use astral_project.State.RevokedSteps.{
  Ended, end_sessions-Leads, insert_revocation-Leads, end_sessions-Ended,
}
use astral_project.State.AuditTable.{record_audit, rotate_audit}
use astral_project.State.Good.{caught-Ends}
use astral_project.Audit.Event.{Occurrence}
use astral_project.State.Ends.{Ends-map}
use astral_project.State.Actions.{◌>>=◌, ◌>>◌, Action, modify}

pub has_key-update_found :
    (j g : Text) (remote_state : RemoteState) (revocations : Dict Text Revocation)
    → has_key j (update_found g remote_state (get g revocations) revocations)
      ≡ has_key j revocations
has_key-update_found j g remote_state revocations = elim (Option-cases (get g revocations)) [
  | inl absent ↦ rw absent refl
  | inr (row, found) ↦ rw found (elim (Bool-cases (j == g)) [
    | inl same ↦ rw ((==_iff j g).0 same) (
        unfold has_key in ap is_some (get-put_same g _ revocations ∙ refl) ∙ sym (ap is_some found))
    | inr other ↦ has_key-put_other j g _ revocations other
  ])
]

pub update_revocation-Leads :
    (g : Text) (remote_state : RemoteState)
    → Leads Sound (modify (update_revocation g remote_state)) Sound
unfolding update_revocation
update_revocation-Leads g remote_state = record {
  leads = λ s k. (
    λ j r. k.0 j (sym (has_key-update_found j g remote_state s.tables.revocations) ∙ r),
    All-map _ _ s.tables.sessions
        (λ row h running.
          has_key-update_found (row.1).grant_id g remote_state s.tables.revocations ∙ h running)
        k.1,
  );
}

-- A statement that leads from one condition to another, and what follows it
module _ {B : Type 0} where
  pub end_sessions->>= :
      (g : Text) (at : ℤ) (f : Unit {0} → Action B)
      → ((u : Unit {0}) → Leads (Ended g) (f u) Sound)
      → Leads Sound
          (modify (end_sessions (λ id row. row.grant_id == g && is_active row.state) revoked at)
            >>= f)
          Sound
  end_sessions->>= g at f h = >>=-Leads Sound Sound (Ended g) _ f (end_sessions-Ended g at) h

  pub insert_revocation->>= :
      (g : Text) (row : Revocation) (f : Unit {0} → Action B)
      → ((u : Unit {0}) → Leads Sound (f u) Sound)
      → Leads (Ended g) (insert_revocation g row >>= f) Sound
  insert_revocation->>= g row f h =
      >>=-Leads (Ended g) Sound Sound (insert_revocation g row) f (insert_revocation-Leads g row) h

  insert_grant->>= :
      {Key : Type 0} (p : Platform Key) (host_id : Text) (signed : SignedGrant) (column : Bytes)
      (f : Unit {0} → Action B)
      → ((u : Unit {0}) → Leads (SoundWithout signed.grant.grant_id) (f u) Sound)
      → Leads Sound (insert_grant p host_id signed column >>= f) Sound
  insert_grant->>= p host_id signed column f h =
      >>=-Leads Sound Sound (SoundWithout signed.grant.grant_id) _ f
        (insert_grant-Leads p host_id signed column) h

  pub insert_session->>= :
      {Key : Type 0} (p : Platform Key) (session_id grant_id : Text) (at : ℤ)
      (f : Unit {0} → Action B)
      → ((u : Unit {0}) → Leads Sound (f u) Sound)
      → Leads (SoundWithout grant_id) (insert_session p session_id grant_id at >>= f) Sound
  insert_session->>= p session_id grant_id at f h =
      >>=-Leads (SoundWithout grant_id) Sound Sound _ f
        (insert_session-Leads p session_id grant_id at) h

module _ (P : Authority → Type 0) {Key : Type 0} (p : Platform Key) where
  inserted_beside :
      (holds : Tables → Bool) (f : Tables → Tables)
      → ((t : Tables) → authority (f t) ≡ authority t)
      → Leads P (require holds >> modify f) P
  inserted_beside holds f same =
      >>=-Leads_same P P (require holds) (λ _. modify f) (require-Leads P holds)
        (λ _. modify-Leads P f same)

  pub insert_host-Leads : (host_id : Text) (b : Binding Key) → Leads P (insert_host p host_id b) P
  unfolding insert_host
  insert_host-Leads host_id b = search (inserted_beside)

  pub insert_issuer_key-Leads :
      (grant_id : Text) (key : Key) → Leads P (insert_issuer_key p grant_id key) P
  unfolding insert_issuer_key
  insert_issuer_key-Leads grant_id key = search (inserted_beside)

  pub upsert_host-Leads :
      (host_id : Text) (b : Binding Key) → Leads P (modify (upsert_host host_id b)) P
  unfolding upsert_host
  upsert_host-Leads host_id b = modify-Leads P (upsert_host host_id b) (λ t. refl)

pub ruleset leading = (
  >>=-Leads_same, pure-Leads, select-Leads, draw-Leads, or_raise-Leads, astral_step-Leads,
  raise_if-Leads, audit-Leads, >>=-Maintains, or_raise-Maintains, astral_step-Maintains,
  raise_if-Maintains, transaction-Maintains, insert_host-Leads, insert_issuer_key-Leads,
  upsert_host-Leads,
)

module _ {Key : Type 0} (p : Platform Key) (limit : ℕ) where
  pub activate_session-Maintains :
      (session_id host_id : Text) (b : Binding Key)
      → Maintains Sound (activate_session p limit session_id host_id b)
  unfolding activate_session
  activate_session-Maintains session_id host_id b =
      search (leading, insert_grant->>=, insert_session->>=) depth 30 fits 4000

  audit_expiry-Leads :
      (P : Authority → Type 0) (session_id grant_id : Text) (at : ℤ)
      → Leads P (audit_expiry p limit session_id grant_id at) P
  unfolding audit_expiry
  audit_expiry-Leads P session_id grant_id at = search (leading)

  pub audit_expired-Leads :
      (P : Authority → Type 0) (rows : List (Text × SessionRow)) (at : ℤ)
      → Leads P (audit_expired p limit rows at) P
  unfolding audit_expired
  audit_expired-Leads P [] at = pure-Leads P tt
  audit_expired-Leads P (row ∷ rows) at =
      >>=-Leads_same P P (audit_expiry p limit row.0 (row.1).grant_id at)
        (λ _. audit_expired p limit rows at) (audit_expiry-Leads P _ _ at)
        (λ _. audit_expired-Leads P rows at)

  pub audit_host-Leads :
      (P : Authority → Type 0) (existing : Option HostRow) (b : Binding Key)
      → Leads P (audit_host p limit existing b) P
  unfolding audit_host
  audit_host-Leads P existing b = search (leading, if-Leads) depth 20 fits 4000

  insert_new_grant-Leads :
      (e : StateError) (host_id : Text) (signed : SignedGrant) (column : Bytes)
      → Leads Sound (on_integrity_error e (insert_grant p host_id signed column)) Sound
  unfolding on_integrity_error
  insert_new_grant-Leads e host_id signed column = record {
    leads = λ s k. caught-Ends _ _ e (insert_grant p host_id signed column s) (
        Ends-map _ _ NoClaim NoClaim (insert_grant p host_id signed column s)
          ((insert_grant-Leads p host_id signed column).leads s k) (λ _ s' q. q.0) (λ s' q. q));
  }

  pub revoke_locally-Maintains :
      (grant_id reason : Text) (at : ℤ)
      → Maintains Sound (revoke_locally p limit grant_id reason at)
  unfolding revoke_locally
  revoke_locally-Maintains grant_id reason at =
      search (leading, end_sessions->>=, insert_revocation->>=) depth 30 fits 4000

  pub record_remote_state-Maintains :
      (grant_id : Text) (remote_state : RemoteState) (at : ℤ)
      → Maintains Sound (record_remote_state p limit grant_id remote_state at)
  unfolding record_remote_state
  record_remote_state-Maintains grant_id remote_state at =
      search (leading, update_revocation-Leads) depth 30 fits 4000

  pub close_session-Maintains :
      (session_id : Text) (at : ℤ) → Maintains Sound (close_session p limit session_id at)
  unfolding close_session
  close_session-Maintains session_id at = search (leading, end_sessions-Leads) depth 30 fits 4000

  pub retire_expired_sessions-Maintains :
      (now : ℤ) → Maintains Sound (retire_expired_sessions p limit now)
  unfolding retire_expired_sessions
  retire_expired_sessions-Maintains now =
      search (leading, end_sessions-Leads, audit_expired-Leads) depth 30 fits 4000

  pub store_signed_grant-Maintains :
      (b : Binding Key) → Maintains Sound (store_signed_grant p limit b)
  unfolding store_signed_grant
  store_signed_grant-Maintains b =
      search (leading, insert_new_grant-Leads, audit_host-Leads) depth 30 fits 4000

  pub record_audit-Maintains :
      (P : Authority → Type 0) (o : Occurrence)
      → Maintains P (record_audit p.sha256_hex p.uuid4 limit o)
  unfolding record_audit
  record_audit-Maintains P o = search (leading)

  pub rotate_audit-Maintains :
      (P : Authority → Type 0) (retain : ℕ) → Maintains P (rotate_audit p.sha256_hex retain)
  unfolding rotate_audit
  rotate_audit-Maintains P retain = search (leading, retained-Leads)

  metadata_or_raise-Maintains :
      (P : Authority → Type 0) (column : Option Json) → Maintains P (metadata_or_raise column)
  metadata_or_raise-Maintains P none = raise-Maintains P _
  metadata_or_raise-Maintains P (some (json_object members)) = pure-Maintains P members
  metadata_or_raise-Maintains P (some json_null) = raise-Maintains P _
  metadata_or_raise-Maintains P (some (json_bool b)) = raise-Maintains P _
  metadata_or_raise-Maintains P (some (json_int n)) = raise-Maintains P _
  metadata_or_raise-Maintains P (some (json_float repr)) = raise-Maintains P _
  metadata_or_raise-Maintains P (some (json_text t)) = raise-Maintains P _
  metadata_or_raise-Maintains P (some (json_list items)) = raise-Maintains P _
  metadata_or_raise-Maintains P (some not_json) = raise-Maintains P _

  -- What storing a grant keeps, importing one keeps.
  pub import_signed_grant-Maintains :
      (P : Authority → Type 0)
      → ((b : Binding Key) → Maintains P (store_signed_grant p limit b))
      → (signed : SignedGrant) (issuer_public_key issuer_key : Option Key) (at : ℤ)
      → Maintains P (import_signed_grant p limit signed issuer_public_key issuer_key at)
  unfolding import_signed_grant
  import_signed_grant-Maintains P stored signed issuer_public_key issuer_key at =
      search (leading, select-Maintains, metadata_or_raise-Maintains, stored) depth 30 fits 4000
