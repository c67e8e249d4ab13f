-- ===== src/State/Revoked.antt =====
-- state/sqlite.py: no method leaves an active session of a revoked grant.
use astral_project.Base.{
  ◌≡◌, refl, inl, inr, Bool, true, false, not, some, [], ◌∷◌, Bool-cases, ◌==◌, ==_iff, nat_eq,
  string_eq, list_eq, option_eq, pair_eq, All, Text, ℤ, int_eq, ap, ◌∙◌, Bytes, and-eq-true,
}
use astral_project.Base.Dict.{Dict, put, get-put_other, get-put_same}
use astral_project.State.Tables.{
  Tables, Store, SessionRow, Revocation, is_active, SessionState, integrity_error,
}
use astral_project.State.Statements.{has_key, require, update_sessions, is_some}
use astral_project.State.Authority.{Authority, authority, NoClaim, Leads}
use astral_project.State.Ends.{Ends}
use astral_project.State.Platform.{Platform}
use astral_project.State.Grants.{
  insert_grant, insert_session, grant_fits, session_fits, with_grant, with_session,
}
use astral_project.Grant.Verify.{SignedGrant}
use astral_project.State.Actions.{◌>>◌, raise_if, modify}

-- The session is not active, or its grant is not revoked.
abbrev pub Allowed : Dict Text Revocation → SessionRow → Type 0
Allowed revocations row = is_active row.state ≡ true → has_key row.grant_id revocations ≡ false

-- Only stored grants are revoked, and no active session has a revoked grant.
abbrev pub Sound : Authority → Type 0
Sound (grants, sessions, revocations) =
    ((g : Text) → has_key g revocations ≡ true → has_key g grants ≡ true)
    × All (λ row. Allowed revocations row.1) sessions

abbrev pub SoundWithout : Text → Authority → Type 0
SoundWithout g a = Sound a × (has_key g a.2 ≡ false)

abbrev pub NoneActive : Text → Authority → Type 0
NoneActive g a = All (λ row. (row.1).grant_id == g ≡ true → is_active (row.1).state ≡ false) a.1

pub has_key-put :
    {V : Type 0} (j k : Text) (v : V) (d : Dict Text V)
    → has_key j d ≡ true
    → has_key j (put k v d) ≡ true
unfolding has_key
has_key-put j k v d h = elim (Bool-cases (j == k)) [
  | inl e ↦ rw ((==_iff j k).0 e) (ap is_some (get-put_same k v d))
  | inr e ↦ ap is_some (get-put_other j k v d e) ∙ h
]

pub has_key-put_other :
    {V : Type 0} (j k : Text) (v : V) (d : Dict Text V)
    → (j == k) ≡ false
    → has_key j (put k v d) ≡ has_key j d
unfolding has_key
has_key-put_other j k v d e = ap is_some (get-put_other j k v d e)

pub All-put :
    {V : Type 0} (P : V → Type 0) (k : Text) (v : V) (d : Dict Text V)
    → All (λ row. P row.1) d
    → P v
    → All (λ row. P row.1) (put k v d)
unfolding put
All-put P k v [] h p = (p, tt)
All-put P k v ((k', w) ∷ rest) h p = elim (Bool-cases (k == k')) [
  | inl e ↦ rw e (p, h.1)
  | inr e ↦ rw e (h.0, All-put P k v rest h.1 p)
]

pub All-update_sessions :
    (P Q : SessionRow → Type 0) (affects : Text → SessionRow → Bool) (state : SessionState) (at : ℤ)
    (sessions : Dict Text SessionRow)
    → ((id : Text) (row : SessionRow)
        → affects id row ≡ true
        → P row
        → Q (record row { state = state; ended_at = some at }))
    → ((id : Text) (row : SessionRow) → affects id row ≡ false → P row → Q row)
    → All (λ row. P row.1) sessions
    → All (λ row. Q row.1) (update_sessions affects state at sessions)
unfolding update_sessions
All-update_sessions P Q affects state at [] f g h = tt
All-update_sessions P Q affects state at ((id, row) ∷ rest) f g h = (
  elim (Bool-cases (affects id row)) [
    | inl e ↦ rw e (f id row e h.0)
    | inr e ↦ rw e (g id row e h.0)
  ],
  All-update_sessions P Q affects state at rest f g h.1,
)

-- A constraint that holds, and the statement behind it
pub guarded-Ends :
    (Q : Authority → Type 0) (holds : Tables → Bool) (f : Tables → Tables) (s : Store)
    → (holds s.tables ≡ true → Q (authority (f s.tables)))
    → Ends (λ _ s'. Q (authority s'.tables)) NoClaim ((require holds >> modify f) s)
unfolding require
guarded-Ends Q holds f s h = from (holds s.tables) h
  where
    from :
        (b : Bool)
        → (b ≡ true → Q (authority (f s.tables)))
        → Ends
            (λ _ s'. Q (authority s'.tables))
            NoClaim
            ((raise_if (not b) integrity_error >> modify f) s)
    from true h = h refl
    from false h = tt

module _ {Key : Type 0} (p : Platform Key) where
  pub insert_grant-Leads :
      (host_id : Text) (signed : SignedGrant) (column : Bytes)
      → Leads Sound (insert_grant p host_id signed column) (SoundWithout signed.grant.grant_id)
  unfolding insert_grant
  insert_grant-Leads host_id signed column = record {
    leads = λ s k.
        guarded-Ends (SoundWithout g) (grant_fits p host_id signed)
          (with_grant p host_id signed column) s
          (λ test. (
            (λ j r. has_key-put j g _ s.tables.grants (k.0 j r), k.1),
            unrevoked s k (and-eq-true _ _ test).0,
          ));
  }
    where
      g : Text
      g = signed.grant.grant_id

      unrevoked :
          (s : Store)
          → Sound (authority s.tables)
          → not (has_key g s.tables.grants) ≡ true
          → has_key g s.tables.revocations ≡ false
      unrevoked s k absent = elim (Bool-cases (has_key g s.tables.revocations)) [
        | inl r ↦ let bad : not true ≡ true = rw (k.0 g r) at absent in cc
        | inr r ↦ r
      ]

  pub insert_session-Leads :
      (session_id grant_id : Text) (at : ℤ)
      → Leads (SoundWithout grant_id) (insert_session p session_id grant_id at) Sound
  unfolding insert_session
  insert_session-Leads session_id grant_id at = record {
    leads = λ s k.
        guarded-Ends Sound (session_fits p session_id grant_id)
          (with_session p session_id grant_id at) s
          (λ _. (
            k.0.0,
            All-put (Allowed s.tables.revocations) session_id _ s.tables.sessions k.0.1 (λ _. k.1),
          ));
  }
