-- ===== src/State/Chained.antt =====
-- state/sqlite.py: the write transactions of all processes that share the database, in any order.
use astral_project.Base.{
  ℕ, ◌≤◌, ◌≡◌, refl, sym, ap, subst, ◌∙◌, ◌⊎◌, inl, inr, true, none, List, [], arith, ltb, leb,
  leb_iff, Bool-cases, nat_eq, string_eq, list_eq, option_eq, pair_eq, Result, ok, err, length,
  Text, ℤ, int_eq,
}
use astral_project.Grant.Verify.{SignedGrant}
use astral_project.State.Tables.{Store, StateError, empty_tables, RemoteState, value_error}
use astral_project.State.Platform.{Platform, IsLawful}
use astral_project.State.Statements.{Binding}
use astral_project.State.Grants.{
  activate_session, store_signed_grant, revoke_locally, record_remote_state,
}
use astral_project.State.Good.{
  Kept, IsWhole, transaction-IsWhole, audit-IsGood, >>=-IsWhole, raise_if-IsWhole,
}
use astral_project.State.Sessions.{insert_opened, close_session, retire_expired_sessions}
use astral_project.Audit.Event.{Occurrence, AuditEvent}
use astral_project.State.AuditTable.{
  record_audit, rotate_audit, retained, audit_chain_errors, list_audit_events, read_events,
  valid_ids,
}
use astral_project.State.GoodMethods.{
  activate_session-IsWhole, store_signed_grant-IsWhole, revoke_locally-IsWhole,
  record_remote_state-IsWhole, insert_opened-IsWhole, close_session-IsWhole,
  retire_expired_sessions-IsWhole,
}
use astral_project.Audit.Linear.{Linked, GoesOn, Follows}
use astral_project.State.Ends.{Ends}
use astral_project.Audit.Chain.{last_of}
use astral_project.State.ChainKept.{AuditKept-chain_of}
use astral_project.State.AuditKept.{read_events-map, valid_ids-map}
use astral_project.State.Rotation.{first_rotation}
use astral_project.State.Retention.{length-ids}
use astral_project.State.Actions.{Action, raise_if, modify, transaction, finish}

abbrev pub After : {A : Type 0} → Action A → Store → Store
After m s = (m s).1

-- The database from its creation on. A rotation to fewer events than the limit counts only as long as no
-- boundary is recorded, since one behind a boundary breaks the chain. A transaction that raised counts as one too. `open_session` and
-- `revoke_grant` are cut where they hold no transaction, so that others come between.
module _ {Key : Type 0} (p : Platform Key) (limit : ℕ) where
  pub data Database : Store → Type 0 where
    created : (drawn : ℕ) → Database (record { tables = empty_tables; drawn = drawn })
    activates :
        {s : Store} (session_id host_id : Text) (b : Binding Key)
        → Database s
        → Database (After (activate_session p limit session_id host_id b) s)
    stores :
        {s : Store} (b : Binding Key)
        → Database s
        → Database (After (store_signed_grant p limit b) s)
    revokes :
        {s : Store} (grant_id reason : Text) (at : ℤ)
        → Database s
        → Database (After (revoke_locally p limit grant_id reason at) s)
    records_remote_state :
        {s : Store} (grant_id : Text) (remote_state : RemoteState) (at : ℤ)
        → Database s
        → Database (After (record_remote_state p limit grant_id remote_state at) s)
    opens :
        {s : Store} (grant_id : Text) (signed : SignedGrant) (at : ℤ)
        → Database s
        → Database (After (insert_opened p limit grant_id signed at) s)
    closes :
        {s : Store} (session_id : Text) (at : ℤ)
        → Database s
        → Database (After (close_session p limit session_id at) s)
    retires :
        {s : Store} (now : ℤ)
        → Database s
        → Database (After (retire_expired_sessions p limit now) s)
    records :
        {s : Store} (o : Occurrence)
        → Database s
        → Database (After (record_audit p.sha256_hex p.uuid4 limit o) s)
    rotates :
        {s : Store} (retain : ℕ)
        → (limit ≤ retain) ⊎ (s.tables.audit_retention_boundary ≡ [])
        → Database s
        → Database (After (rotate_audit p.sha256_hex retain) s)

  Kept-After :
      {A : Type 0} (m : Action A) (s : Store)
      → IsWhole p limit m
      → Kept p limit s
      → Kept p limit (After m s)
  Kept-After {A} m s g k = from (m s) (g.keeps_always s k)
    where
      from :
          (x : Result StateError A × Store)
          → Ends
              (λ _ s'. Kept p limit s' × (s.drawn ≤ s'.drawn))
              (λ s'. Kept p limit s' × (s.drawn ≤ s'.drawn))
              x
          → Kept p limit x.1
      from (ok a, s') q = q.0
      from (err e, s') q = q.0

  module _ (lawful : IsLawful p) (positive : 1 ≤ limit) where
    record_audit-IsWhole :
        (o : Occurrence) → IsWhole p limit (record_audit p.sha256_hex p.uuid4 limit o)
    unfolding record_audit
    record_audit-IsWhole o = transaction-IsWhole p limit _ (audit-IsGood p limit lawful positive o)

    rotate_audit-IsWhole :
        (retain : ℕ) → limit ≤ retain → IsWhole p limit (rotate_audit p.sha256_hex retain)
    unfolding rotate_audit retained
    rotate_audit-IsWhole retain l =
        >>=-IsWhole p limit (raise_if (ltb retain 1) value_error) _
          (raise_if-IsWhole p limit (ltb retain 1) value_error)
          (λ _.
            transaction-IsWhole p limit (modify (retained p.sha256_hex retain))
              (record { keeps = λ s k. (rw (all_retained s k) k, omega arith) }))
      where
        small :
            (s : Store)
            → Kept p limit s
            → leb (length (valid_ids s.tables.audit_events)) retain ≡ true
        small s k =
            let same =
              ap length (ap valid_ids k.event_rows ∙ valid_ids-map k.events k.readable)
              ∙ length-ids k.events in
            (leb_iff _ retain).1 (omega (arith, same, k.bounded, l))

        all_retained :
            (s : Store) → Kept p limit s → retained p.sha256_hex retain s.tables ≡ s.tables
        all_retained s k = rw (small s k) refl

    -- The rotation of a database without boundaries
    first_rotates :
        (retain : ℕ) (s : Store)
        → s.tables.audit_retention_boundary ≡ []
        → Kept p limit s
        → Kept p limit (After (rotate_audit p.sha256_hex retain) s)
    unfolding rotate_audit transaction finish
    first_rotates retain s fresh k = elim (Bool-cases (ltb retain 1)) [
      | inl t ↦ rw t k
      | inr t ↦ rw t (
          first_rotation p.sha256_hex p.uuid4 limit s.drawn s.tables k fresh retain
            (ground (arith, t)))
    ]

    pub Database-Kept : (s : Store) → Database s → Kept p limit s
    unfolding Linked GoesOn last_of Follows
    Database-Kept _ (created drawn) = record {
      events = [];
      boundaries = [];
      event_rows = refl;
      readable = tt;
      boundary_rows = refl;
      made = tt;
      linear = (tt, tt, tt);
      bounded = omega (arith, positive);
      none_lost = λ _. refl;
      drawn_before = tt;
    }
    Database-Kept _ (activates {s} session_id host_id b d) =
        Kept-After _ s (activate_session-IsWhole p limit lawful positive session_id host_id b)
          (Database-Kept s d)
    Database-Kept _ (stores {s} b d) =
        Kept-After _ s (store_signed_grant-IsWhole p limit lawful positive b) (Database-Kept s d)
    Database-Kept _ (revokes {s} grant_id reason at d) =
        Kept-After _ s (revoke_locally-IsWhole p limit lawful positive grant_id reason at)
          (Database-Kept s d)
    Database-Kept _ (records_remote_state {s} grant_id remote_state at d) =
        Kept-After _ s
          (record_remote_state-IsWhole p limit lawful positive grant_id remote_state at)
          (Database-Kept s d)
    Database-Kept _ (opens {s} grant_id signed at d) =
        Kept-After _ s (insert_opened-IsWhole p limit lawful positive grant_id signed at)
          (Database-Kept s d)
    Database-Kept _ (closes {s} session_id at d) =
        Kept-After _ s (close_session-IsWhole p limit lawful positive session_id at)
          (Database-Kept s d)
    Database-Kept _ (retires {s} now d) =
        Kept-After _ s (retire_expired_sessions-IsWhole p limit lawful positive now)
          (Database-Kept s d)
    Database-Kept _ (records {s} o d) = Kept-After _ s (record_audit-IsWhole o) (Database-Kept s d)
    Database-Kept _ (rotates {s} retain (inl l) d) =
        Kept-After _ s (rotate_audit-IsWhole retain l) (Database-Kept s d)
    Database-Kept _ (rotates {s} retain (inr fresh) d) =
        first_rotates retain s fresh (Database-Kept s d)

    -- Whatever transactions are run, in whatever order and whether they raise or not, the chain of
    -- audit events is reported whole, and no more events are kept than the limit says, if rotations to
    -- fewer events than the limit are run only as long as no boundary is recorded.
    pub Database-chained :
        (s : Store)
        → Database s
        → ((audit_chain_errors p.sha256_hex s).0 ≡ ok [])
          × ((events : List AuditEvent)
              → (list_audit_events s).0 ≡ ok events
              → length events ≤ limit)
    unfolding audit_chain_errors list_audit_events
    Database-chained s d =
        let k = Database-Kept s d in
        (
          ap ok (
              AuditKept-chain_of p.sha256_hex lawful.digest_digits p.uuid4 limit s.drawn s.tables
                k),
          λ events h.
              let listed : read_events none s.tables.audit_events ≡ events = cc h in
              let rows = ap (read_events none) k.event_rows in
              let same = rows ∙ read_events-map none k.events k.readable in
              subst (λ es. length es ≤ limit) (sym same ∙ listed) k.bounded,
        )
