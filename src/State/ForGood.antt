-- ===== src/State/ForGood.antt =====
-- state/sqlite.py: a revocation lasts, whatever methods are called after it.
use astral_project.Base.{
  ℕ, ◌≡◌, sym, ap, subst, ◌∙◌, Bool, true, nat_eq, string_eq, list_eq, option_eq, pair_eq, Result,
  ok, err, Text, Bytes, ℤ, int_eq,
}
use astral_project.Grant.Verify.{SignedGrant}
use astral_project.State.Tables.{
  Tables, Store, StateError, RemoteState, Revocation, SessionRow, SessionState,
}
use astral_project.State.Platform.{Platform}
use astral_project.State.Statements.{
  Binding, end_sessions, insert_revocation, on_integrity_error, update_revocation, has_key, require,
  with_revocation,
}
use astral_project.State.Sessions.{
  close_session, open_session, retire_expired_sessions, insert_opened,
}
use astral_project.State.Authority.{Authority, Leads, Maintains, authority, retained-Leads}
use astral_project.State.Grants.{
  activate_session, insert_grant, insert_session, record_remote_state, revoke_locally,
  store_signed_grant,
}
use astral_project.State.RevokedMethods.{
  leading, audit_host-Leads, audit_expired-Leads, has_key-update_found,
}
use astral_project.State.Readers.{IsReader, check_open-IsReader}
use astral_project.State.Revoked.{guarded-Ends, has_key-put}
use astral_project.State.Good.{caught-Ends}
use astral_project.State.Ends.{Ends}
use astral_project.State.Actions.{◌>>◌, Action, modify}

abbrev pub IsRevoked : Text → Authority → Type 0
IsRevoked g a = has_key g a.2 ≡ true

module _ (g : Text) where
  inserted_elsewhere :
      (holds : Tables → Bool) (f : Tables → Tables)
      → ((t : Tables) → (f t).revocations ≡ t.revocations)
      → Leads (IsRevoked g) (require holds >> modify f) (IsRevoked g)
  inserted_elsewhere holds f same = record {
    leads = λ s k. guarded-Ends (IsRevoked g) holds f s (λ _. ap (has_key g) (same s.tables) ∙ k);
  }

  insert_grant_lasts :
      {Key : Type 0} (p : Platform Key) (host_id : Text) (signed : SignedGrant) (column : Bytes)
      → Leads (IsRevoked g) (insert_grant p host_id signed column) (IsRevoked g)
  unfolding insert_grant
  insert_grant_lasts p host_id signed column = search (inserted_elsewhere)

  insert_session_lasts :
      {Key : Type 0} (p : Platform Key) (session_id grant_id : Text) (at : ℤ)
      → Leads (IsRevoked g) (insert_session p session_id grant_id at) (IsRevoked g)
  unfolding insert_session
  insert_session_lasts p session_id grant_id at = search (inserted_elsewhere)

  end_sessions_lasts :
      (affects : Text → SessionRow → Bool) (state : SessionState) (at : ℤ)
      → Leads (IsRevoked g) (modify (end_sessions affects state at)) (IsRevoked g)
  unfolding end_sessions
  end_sessions_lasts affects state at = record { leads = λ s k. k }

  insert_revocation_lasts :
      (h : Text) (row : Revocation) → Leads (IsRevoked g) (insert_revocation h row) (IsRevoked g)
  unfolding insert_revocation
  insert_revocation_lasts h row = record {
    leads = λ s k.
        guarded-Ends (IsRevoked g) (λ t. has_key h t.grants) (with_revocation h row) s
          (λ _. has_key-put g h row s.tables.revocations k);
  }

  pub update_revocation_lasts :
      (h : Text) (remote_state : RemoteState)
      → Leads (IsRevoked g) (modify (update_revocation h remote_state)) (IsRevoked g)
  unfolding update_revocation
  update_revocation_lasts h remote_state = record {
    leads = λ s k. has_key-update_found g h remote_state s.tables.revocations ∙ k;
  }

  caught_lasts :
      {A : Type 0} (e : StateError) (m : Action A)
      → Leads (IsRevoked g) m (IsRevoked g)
      → Leads (IsRevoked g) (on_integrity_error e m) (IsRevoked g)
  unfolding on_integrity_error
  caught_lasts e m h = record { leads = λ s k. caught-Ends _ _ e (m s) (h.leads s k) }

  pub reader-Maintains : {A : Type 0} (m : Action A) → IsReader m → Maintains (IsRevoked g) m
  reader-Maintains {A} m r = record {
    maintains =
        λ s k. from (m s) (subst (λ s'. IsRevoked g (authority s'.tables)) (sym (r.reads s)) k);
  }
    where
      from :
          (x : Result StateError A × Store)
          → IsRevoked g (authority (x.1).tables)
          → Ends
              (λ _ s'. IsRevoked g (authority s'.tables))
              (λ s'. IsRevoked g (authority s'.tables))
              x
      from (ok a, s') q = q
      from (err e, s') q = q

  ruleset lasting = (
    leading, insert_grant_lasts, insert_session_lasts, end_sessions_lasts, insert_revocation_lasts,
    update_revocation_lasts, caught_lasts, audit_host-Leads, audit_expired-Leads, retained-Leads,
  )

  module _ {Key : Type 0} (p : Platform Key) (limit : ℕ) where
    pub activate_session_lasts :
        (session_id host_id : Text) (b : Binding Key)
        → Maintains (IsRevoked g) (activate_session p limit session_id host_id b)
    unfolding activate_session
    activate_session_lasts session_id host_id b = search (lasting) depth 30 fits 4000

    pub store_signed_grant_lasts :
        (b : Binding Key) → Maintains (IsRevoked g) (store_signed_grant p limit b)
    unfolding store_signed_grant
    store_signed_grant_lasts b = search (lasting) depth 30 fits 4000

    pub revoke_locally_lasts :
        (grant_id reason : Text) (at : ℤ)
        → Maintains (IsRevoked g) (revoke_locally p limit grant_id reason at)
    unfolding revoke_locally
    revoke_locally_lasts grant_id reason at = search (lasting) depth 30 fits 4000

    pub record_remote_state_lasts :
        (grant_id : Text) (remote_state : RemoteState) (at : ℤ)
        → Maintains (IsRevoked g) (record_remote_state p limit grant_id remote_state at)
    unfolding record_remote_state
    record_remote_state_lasts grant_id remote_state at = search (lasting) depth 30 fits 4000

    pub open_session_lasts :
        (grant_id : Text) (at : ℤ) → Maintains (IsRevoked g) (open_session p limit grant_id at)
    unfolding open_session insert_opened
    open_session_lasts grant_id at =
        search (lasting, reader-Maintains, check_open-IsReader) depth 30 fits 4000

    pub close_session_lasts :
        (session_id : Text) (at : ℤ) → Maintains (IsRevoked g) (close_session p limit session_id at)
    unfolding close_session
    close_session_lasts session_id at = search (lasting) depth 30 fits 4000

    pub retire_expired_sessions_lasts :
        (now : ℤ) → Maintains (IsRevoked g) (retire_expired_sessions p limit now)
    unfolding retire_expired_sessions
    retire_expired_sessions_lasts now = search (lasting) depth 30 fits 4000
