-- ===== src/State/Opening.antt =====
-- state/sqlite.py: what it takes for `open_session` to return, and what it leaves.
use astral_project.Base.{
  ℕ, ◌≡◌, refl, sym, ap, subst, ◌∙◌, inl, inr, Bool, true, false, none, some, [], ◌∷◌, Bool-cases,
  ◌==◌, ==_iff, nat_eq, string_eq, list_eq, option_eq, pair_eq, Result, ok, err, All, All-map,
  any-eq-false, Text, ℤ, int_eq, err-ne-ok,
}
use astral_project.Grant.Types.{Grant}
use astral_project.Grant.Verify.{SignedGrant, GrantVerificationContext, verify}
use astral_project.State.Tables.{Store, StateError, SessionRow, is_active, active, state_error}
use astral_project.State.Platform.{Platform}
use astral_project.State.Grants.{insert_session, with_session, audit_event_of}
use astral_project.Base.Dict.{Dict, put, get, get-put_same}
use astral_project.State.Sessions.{any_active, export_hash, insert_opened, open_session, check_open}
use astral_project.Audit.Event.{Occurrence}
use astral_project.State.Statements.{require, occurrence, astral_step}
use astral_project.State.Authority.{Authority, authority, NoClaim, Leads, audit-Leads}
use astral_project.State.Readers.{
  IsReader, signed_grant-IsReader, issuer_public_key-IsReader, grant_verification_context-IsReader,
  select-IsReader, astral_step-IsReader, check_open-IsReader,
}
use astral_project.Core.{AstralError, daemon_auth}
use astral_project.State.Lookups.{
  grant_is_revoked, grant_verification_context, issuer_public_key, signed_grant,
  validate_signed_grant,
}
use astral_project.State.Ends.{Ends}
use astral_project.State.Actions.{
  Action, ◌>>=◌, ◌>>◌, raise_if, transaction, finish, pure, select, modify, draw,
}

-- A step and the rest that return: the step has returned, and so has the rest after it.
bind_returned :
    {A B : Type 0} (m : Action A) (f : A → Action B) (s : Store) {b : B} {s' : Store}
    → (m >>= f) s ≡ (ok b, s')
    → (a : A) × (s1 : Store) × (m s ≡ (ok a, s1)) × (f a s1 ≡ (ok b, s'))
bind_returned {A} {B} m f s {b} {s'} h = from (m s) refl h
  where
    from :
        (x : Result StateError A × Store)
        → m s ≡ x
        → ((λ _. x) >>= f) s ≡ (ok b, s')
        → (a : A) × (s1 : Store) × (m s ≡ (ok a, s1)) × (f a s1 ≡ (ok b, s'))
    from (ok a, s1) q k = (a, s1, q, k)
    from (err e, s1) q k = absurd (err-ne-ok (ap (λ r. r.0) k))

-- The same after a step that reads.
read_returned :
    {A B : Type 0} (m : Action A) (f : A → Action B) (s : Store) {b : B} {s' : Store}
    → IsReader m
    → (m >>= f) s ≡ (ok b, s')
    → (a : A) × (m s ≡ (ok a, s)) × (f a s ≡ (ok b, s'))
read_returned m f s r h =
    let (a, s1, q, k) = bind_returned m f s h in
    let same : s1 ≡ s = sym (ap (λ x. x.1) q) ∙ r.reads s in (a, rw same at q, rw same at k)

transaction_returned :
    {A : Type 0} (m : Action A) (s : Store) {a : A} {s' : Store}
    → transaction m s ≡ (ok a, s')
    → m s ≡ (ok a, s')
unfolding transaction finish
transaction_returned {A} m s {a} {s'} h = from (m s) h
  where
    from : (x : Result StateError A × Store) → finish s x ≡ (ok a, s') → x ≡ (ok a, s')
    from (ok b, s1) k = k
    from (err e, s1) k = absurd (err-ne-ok (ap (λ r. r.0) k))

Leads_returned :
    {A : Type 0} (P Q : Authority → Type 0) (m : Action A) (s : Store) {a : A} {s' : Store}
    → Leads P m Q
    → P (authority s.tables)
    → m s ≡ (ok a, s')
    → Q (authority s'.tables)
Leads_returned P Q m s l k h =
    subst (Ends (λ _ s1. Q (authority s1.tables)) NoClaim) h (l.leads s k)

step_returned :
    {A : Type 0} (r : Result AstralError A) (s : Store) {a : A} {s' : Store}
    → astral_step r s ≡ (ok a, s')
    → r ≡ ok a
step_returned (ok b) s h = cc
step_returned (err e) s h = absurd (err-ne-ok (ap (λ r. r.0) h))

ok_injective : {A : Type 0} {a b : A} → Path (Result StateError A) (ok a) (ok b) → a ≡ b
ok_injective h = cc h

guard_returned :
    {A : Type 0} (b : Bool) (e : StateError) (m : Action A) (s : Store) {a : A} {s' : Store}
    → (raise_if b e >> m) s ≡ (ok a, s')
    → (b ≡ false) × (m s ≡ (ok a, s'))
guard_returned true e m s h = absurd (err-ne-ok (ap (λ r. r.0) h))
guard_returned false e m s h = (refl, h)

abbrev pub opened_row : Text → ℤ → SessionRow
opened_row grant_id at = record {
  grant_id = grant_id;
  state = active;
  started_at = at;
  ended_at = none;
}

-- Every session that is active is the one of the identifier and of the grant.
abbrev pub OnlyActive : Text → Text → Dict Text SessionRow → Type 0
OnlyActive id grant_id sessions =
    All (λ row. is_active (row.1).state ≡ true → (row.0 ≡ id) × ((row.1).grant_id ≡ grant_id))
      sessions

put-OnlyActive :
    (id grant_id : Text) (at : ℤ) (sessions : Dict Text SessionRow)
    → All (λ row. is_active (row.1).state ≡ false) sessions
    → OnlyActive id grant_id (put id (opened_row grant_id at) sessions)
unfolding put
put-OnlyActive id grant_id at [] h = (λ _. (refl, refl), tt)
put-OnlyActive id grant_id at ((k, row) ∷ rest) h = elim (Bool-cases (id == k)) [
  | inl e ↦ rw e (
    λ _. (sym ((==_iff id k).0 e), refl),
    All-map _ _ rest (λ r q running. let bad : true ≡ false = sym running ∙ q in cc) h.1,
  )
  | inr e ↦ rw e (
    λ running. let bad : true ≡ false = sym running ∙ h.0 in cc,
    put-OnlyActive id grant_id at rest h.1,
  )
]

module _ {Key : Type 0} (p : Platform Key) where
  -- What the checks before the session have found
  pub record MayOpen (grant_id : Text) (at : ℤ) (s : Store) : Type 0 where
    pub signed : SignedGrant
    pub key : Key
    pub context : GrantVerificationContext
    pub grant : Grant
    pub stored : signed_grant p grant_id s ≡ (ok signed, s)
    pub issued : issuer_public_key p grant_id s ≡ (ok key, s)
    pub bound : grant_verification_context p grant_id at s ≡ (ok context, s)
    pub verified : verify p.ed25519_verify p.cbor2_dumps signed key context ≡ ok grant
    pub unrevoked : grant_is_revoked p grant_id s ≡ (ok false, s)

  module _ (limit : ℕ) where
    check_open-MayOpen :
        (grant_id : Text) (at : ℤ) (s : Store) {signed : SignedGrant} {s' : Store}
        → check_open p limit grant_id at s ≡ (ok signed, s')
        → MayOpen grant_id at s
    unfolding check_open validate_signed_grant grant_is_revoked
    check_open-MayOpen grant_id at s h =
        let (signed, stored, h1) =
          read_returned (signed_grant p grant_id) with_signed s (signed_grant-IsReader p grant_id)
            h in
        let (key, issued, h2) =
          read_returned (issuer_public_key p grant_id) (with_key signed) s
            (issuer_public_key-IsReader p grant_id) h1 in
        let (context, bound, h3) =
          read_returned (grant_verification_context p grant_id at) (with_context signed key) s
            (grant_verification_context-IsReader p grant_id at) h2 in
        let (grant, valid, h4) =
          read_returned (validate_signed_grant p signed key context) (λ _. checked signed) s
            (astral_step-IsReader _) h3 in
        let (found, looked, h5) =
          read_returned (grant_is_revoked p grant_id) (guarded signed) s (select-IsReader _) h4 in
        let free = (guard_returned found revoked_error (pure signed) s h5).0 in
        record {
          signed = signed;
          key = key;
          context = context;
          grant = grant;
          stored = stored;
          issued = issued;
          bound = bound;
          verified = step_returned _ s valid;
          unrevoked = rw free at looked;
        }
      where
        revoked_error : StateError
        revoked_error = state_error daemon_auth "revoked grant cannot open a session"

        guarded : SignedGrant → Bool → Action SignedGrant
        guarded signed found = raise_if found revoked_error >> pure signed

        checked : SignedGrant → Action SignedGrant
        checked signed = grant_is_revoked p grant_id >>= guarded signed

        with_context : SignedGrant → Key → GrantVerificationContext → Action SignedGrant
        with_context signed key context =
            validate_signed_grant p signed key context >> checked signed

        with_key : SignedGrant → Key → Action SignedGrant
        with_key signed key = grant_verification_context p grant_id at >>= with_context signed key

        with_signed : SignedGrant → Action SignedGrant
        with_signed signed = issuer_public_key p grant_id >>= with_key signed

    insert_session_returned :
        (session_id grant_id : Text) (at : ℤ) (s : Store) {u : Unit {0}} {s' : Store}
        → insert_session p session_id grant_id at s ≡ (ok u, s')
        → s'.tables.sessions ≡ put session_id (opened_row grant_id at) s.tables.sessions
    unfolding insert_session require
    insert_session_returned session_id grant_id at s h =
        let (fits, done) =
          guard_returned _ _ (modify (with_session p session_id grant_id at)) s h in
        sym (ap (λ x. (x.1).tables.sessions) done)

    -- The rest of the transaction, once the identifier is drawn.
    abbrev filed : Text → Grant → ℤ → Text → Action Text
    filed grant_id grant at id = do
      insert_session p id grant_id at
      hash ← astral_step (export_hash p grant)
      audit_event_of p limit (
          occurrence "session.opened" "session" id
            (("grant_id", grant_id) ∷ ("effective_export_hash", hash) ∷ []) at)
      pure id

    filed_returned :
        (grant_id : Text) (grant : Grant) (at : ℤ) (session_id : Text) (s : Store) {id : Text}
        {s' : Store}
        → filed grant_id grant at session_id s ≡ (ok id, s')
        → s'.tables.sessions ≡ put id (opened_row grant_id at) s.tables.sessions
    filed_returned grant_id grant at session_id s {id} {s'} h =
        let (u, s1, inserted, h1) =
          bind_returned (insert_session p session_id grant_id at) (λ _. hashed) s h in
        let (hash, _, h2) =
          read_returned (astral_step (export_hash p grant)) noted s1 (astral_step-IsReader _) h1 in
        let (v, s2, audited, h3) =
          bind_returned (audit_event_of p limit (event hash)) (λ _. pure session_id) s1 h2 in
        let same_id : session_id ≡ id = ok_injective (ap (λ x. x.0) h3) in
        let same_store : s2 ≡ s' = ap (λ x. x.1) h3 in
        let kept : s2.tables.sessions ≡ s1.tables.sessions =
          Leads_returned (λ a. a.1 ≡ s1.tables.sessions) (λ a. a.1 ≡ s1.tables.sessions)
            (audit_event_of p limit (event hash)) s1
            (audit-Leads _ p.sha256_hex p.uuid4 limit (event hash)) refl audited in
        ap (λ t. t.tables.sessions) (sym same_store)
        ∙ kept
        ∙ insert_session_returned session_id grant_id at s inserted
        ∙ ap (λ j. put j (opened_row grant_id at) s.tables.sessions) same_id
      where
        event : Text → Occurrence
        event hash =
            occurrence "session.opened" "session" session_id
              (("grant_id", grant_id) ∷ ("effective_export_hash", hash) ∷ []) at

        noted : Text → Action Text
        noted hash = audit_event_of p limit (event hash) >> pure session_id

        hashed : Action Text
        hashed = astral_step (export_hash p grant) >>= noted

    insert_opened_returned :
        (grant_id : Text) (signed : SignedGrant) (at : ℤ) (s : Store) {id : Text} {s' : Store}
        → insert_opened p limit grant_id signed at s ≡ (ok id, s')
        → (any_active s.tables ≡ false)
          × (s'.tables.sessions ≡ put id (opened_row grant_id at) s.tables.sessions)
    unfolding insert_opened
    insert_opened_returned grant_id signed at s h =
        let body = transaction_returned (select any_active >>= claimed) s h in
        let (idle, h1) = guard_returned (any_active s.tables) busy_error drawn s body in
        (idle, filed_returned grant_id signed.grant at (p.uuid4 s.drawn) _ h1)
      where
        drawn : Action Text
        drawn = draw >>= λ n. filed grant_id signed.grant at (p.uuid4 n)

        busy_error : StateError
        busy_error = state_error daemon_auth "another remote session is already active"

        claimed : Bool → Action Text
        claimed busy = raise_if busy busy_error >> drawn

    -- If `open_session` returns an identifier, the stored grant verified under its stored key and
    -- against its stored host at that time, it was not revoked, and no session was active; then the
    -- identifier is an active session of the grant, and no other session is active.
    pub opened_alone :
        (grant_id : Text) (at : ℤ) (s s' : Store) (id : Text)
        → open_session p limit grant_id at s ≡ (ok id, s')
        → MayOpen grant_id at s
          × (any_active s.tables ≡ false)
          × (get id s'.tables.sessions ≡ some (opened_row grant_id at))
          × OnlyActive id grant_id s'.tables.sessions
    unfolding open_session
    opened_alone grant_id at s s' id h =
        let (signed, checks, h1) =
          read_returned (check_open p limit grant_id at)
            (λ signed. insert_opened p limit grant_id signed at) s
            (check_open-IsReader p limit grant_id at) h in
        let (idle, same) = insert_opened_returned grant_id signed at s h1 in
        (
          check_open-MayOpen grant_id at s checks,
          idle,
          ap (get id) same ∙ get-put_same id (opened_row grant_id at) s.tables.sessions,
          subst (OnlyActive id grant_id) (sym same) (
              put-OnlyActive id grant_id at s.tables.sessions
                (any-eq-false _ s.tables.sessions idle)),
        )
