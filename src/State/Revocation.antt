-- ===== src/State/Revocation.antt =====
-- state/sqlite.py: what a call of `revoke_grant` comes to.
use astral_project.Base.{
  ℕ, ◌≡◌, sym, ap, subst, ◌∙◌, inl, inr, Bool, true, false, Option, List, Bool-cases, nat_eq,
  string_eq, list_eq, option_eq, pair_eq, Result, ok, err, In, All, All-In, All-of_In, Text, ℤ,
  int_eq,
}
use astral_project.Base.Order.{sort_by-In, sort_by}
use astral_project.Grant.Verify.{SignedGrant}
use astral_project.State.Tables.{
  Tables, Store, StateError, RemoteState, SessionRow, Revocation, is_active,
}
use astral_project.State.Platform.{Platform}
use astral_project.State.Authority.{NoClaim, Authority, Leads, >>=-Leads, authority}
use astral_project.State.Ends.{Ends}
use astral_project.State.Grants.{revoke_grant, revoke_locally, record_remote_state}
use astral_project.State.Lookups.{grant_is_revoked}
use astral_project.State.ForGood.{IsRevoked, update_revocation_lasts}
use astral_project.State.Statements.{
  end_sessions, has_key, insert_revocation, with_revocation, is_some,
}
use astral_project.State.Sessions.{list_sessions, session_leb}
use astral_project.State.RevokedMethods.{
  leading, end_sessions->>=, insert_revocation->>=, update_revocation-Leads,
}
use astral_project.State.Revoked.{Sound, guarded-Ends, Allowed}
use astral_project.Base.Dict.{get, get-put_same}
use astral_project.State.Calls.{Calls, Calls-Maintains, all-Sound, all-IsRevoked, new_store}
use astral_project.State.Opened.{reader-Leads}
use astral_project.State.Readers.{signed_grant-IsReader}
use astral_project.State.Actions.{◌>>=◌, Action, transaction, finish, modify}

abbrev Anything : Authority → Type 0
Anything a = Unit

transaction-Leads :
    {A : Type 0} (P Q : Authority → Type 0) (m : Action A) → Leads P m Q → Leads P (transaction m) Q
unfolding transaction finish
transaction-Leads {A} P Q m g = record { leads = λ s k. from s (m s) (g.leads s k) }
  where
    from :
        (s : Store) (x : Result StateError A × Store)
        → Ends (λ _ s'. Q (authority s'.tables)) NoClaim x
        → Ends (λ _ s'. Q (authority s'.tables)) NoClaim (finish s x)
    from s (ok a, s') q = q
    from s (err e, s') q = tt

modify-Anything : (f : Tables → Tables) → Leads Anything (modify f) Anything
modify-Anything f = record { leads = λ s k. tt }

inserts->>= :
    {B : Type 0} (g : Text) (row : Revocation) (f : Unit {0} → Action B)
    → ((u : Unit {0}) → Leads (IsRevoked g) (f u) (IsRevoked g))
    → Leads Anything (insert_revocation g row >>= f) (IsRevoked g)
unfolding has_key get insert_revocation
inserts->>= g row f h =
    >>=-Leads Anything (IsRevoked g) (IsRevoked g) (insert_revocation g row) f inserted h
  where
    inserted : Leads Anything (insert_revocation g row) (IsRevoked g)
    inserted = record {
      leads = λ s k.
          guarded-Ends (IsRevoked g) (λ t. has_key g t.grants) (with_revocation g row) s
            (λ _. ap is_some (get-put_same g row s.tables.revocations));
    }

locally->>= :
    {B : Type 0} {Key : Type 0} (p : Platform Key) (limit : ℕ) (g reason : Text) (at : ℤ)
    (f : Unit {0} → Action B)
    → Leads Anything (revoke_locally p limit g reason at) (IsRevoked g)
    → ((u : Unit {0}) → Leads (IsRevoked g) (f u) (IsRevoked g))
    → Leads Anything (revoke_locally p limit g reason at >>= f) (IsRevoked g)
locally->>= p limit g reason at f l h = >>=-Leads Anything (IsRevoked g) (IsRevoked g) _ f l h

module _ {Key : Type 0} (p : Platform Key) (limit : ℕ) where
  revoke_grant-Leads :
      (g reason : Text) (remote_revoke : Option (SignedGrant → Bool)) (at : ℤ)
      → Leads Sound (revoke_grant p limit g reason remote_revoke at) Sound
  unfolding revoke_grant revoke_locally record_remote_state
  revoke_grant-Leads g reason remote_revoke at =
      search
        (
          leading, transaction-Leads, end_sessions->>=, insert_revocation->>=,
          update_revocation-Leads, reader-Leads, signed_grant-IsReader,
        )
        depth 40 fits 6000

  revoke_locally-IsRevoked :
      (g reason : Text) (at : ℤ) → Leads Anything (revoke_locally p limit g reason at) (IsRevoked g)
  unfolding revoke_locally end_sessions
  revoke_locally-IsRevoked g reason at =
      search (leading, transaction-Leads, modify-Anything, inserts->>=) depth 40 fits 6000

  revoke_grant-IsRevoked :
      (g reason : Text) (remote_revoke : Option (SignedGrant → Bool)) (at : ℤ)
      → Leads Anything (revoke_grant p limit g reason remote_revoke at) (IsRevoked g)
  unfolding revoke_grant record_remote_state
  revoke_grant-IsRevoked g reason remote_revoke at =
      search
        (
          leading, transaction-Leads, locally->>=, revoke_locally-IsRevoked,
          update_revocation_lasts, reader-Leads, signed_grant-IsReader,
        )
        depth 40 fits 6000

  -- Once `revoke_grant` has returned in a database that calls of the methods modelled here have led to,
  -- its grant stays revoked, whatever calls of them follow, each ended before the next begins, and no
  -- session of it is listed as active, however the remote revocation ends.
  pub revoked_for_good :
      (drawn : ℕ) (g reason : Text) (remote_revoke : Option (SignedGrant → Bool)) (at : ℤ)
      (s s' s'' : Store) (r : RemoteState)
      → Calls p limit (new_store drawn) s
      → revoke_grant p limit g reason remote_revoke at s ≡ (ok r, s')
      → Calls p limit s' s''
      → ((grant_is_revoked p g s'').0 ≡ ok true)
        × ((rows : List (Text × SessionRow))
            → (list_sessions s'').0 ≡ ok rows
            → All (λ row. (row.1).grant_id ≡ g → is_active (row.1).state ≡ false) rows)
  unfolding grant_is_revoked list_sessions has_key get
  revoked_for_good drawn g reason remote_revoke at s s' s'' r before revoke later = (
    ap ok revoked_then,
    λ rows h. All-of_In _ rows (λ row m same. ended row (listed rows h row m) same),
  )
    where
      none_revoked :
          (j : Text)
          → has_key j (new_store drawn).tables.revocations ≡ true
          → has_key j (new_store drawn).tables.grants ≡ true
      none_revoked j q = cc

      returned :
          (Q : Authority → Type 0)
          → Ends
              (λ _ s1. Q (authority s1.tables))
              NoClaim
              (revoke_grant p limit g reason remote_revoke at s)
          → Q (authority s'.tables)
      returned Q e = subst (Ends (λ _ s1. Q (authority s1.tables)) NoClaim) revoke e

      sound : Sound (authority s.tables)
      sound =
          Calls-Maintains p limit Sound (new_store drawn) s (all-Sound p limit) before
            (λ j q. none_revoked j q, tt)

      both : Sound (authority s'.tables) × IsRevoked g (authority s'.tables)
      both = (
        returned Sound ((revoke_grant-Leads g reason remote_revoke at).leads s sound),
        returned (IsRevoked g) ((revoke_grant-IsRevoked g reason remote_revoke at).leads s tt),
      )

      revoked_then : IsRevoked g (authority s''.tables)
      revoked_then =
          Calls-Maintains p limit (IsRevoked g) s' s'' (all-IsRevoked p limit g) later both.1

      sound_then : Sound (authority s''.tables)
      sound_then = Calls-Maintains p limit Sound s' s'' (all-Sound p limit) later both.0

      listed :
          (rows : List (Text × SessionRow))
          → (list_sessions s'').0 ≡ ok rows
          → (row : Text × SessionRow) → In row rows
          → In row s''.tables.sessions
      listed rows h row m =
          let same : sort_by session_leb s''.tables.sessions ≡ rows = cc h in
          sort_by-In session_leb s''.tables.sessions (subst (In row) (sym same) m)

      ended :
          (row : Text × SessionRow)
          → In row s''.tables.sessions
          → (row.1).grant_id ≡ g
          → is_active (row.1).state ≡ false
      ended row m same = elim (Bool-cases (is_active (row.1).state)) [
        | inr f ↦ f
        | inl running ↦
            let free =
              All-In (λ r. Allowed s''.tables.revocations r.1) s''.tables.sessions sound_then.1 m
                running in
            let bad : true ≡ false =
              sym revoked_then ∙ ap (λ j. has_key j s''.tables.revocations) (sym same) ∙ free in
            cc
      ]
