-- ===== src/State/RevokedSteps.antt =====
-- state/sqlite.py: the statements on sessions and revocations, and whether active sessions keep to
-- grants that are not revoked.
use astral_project.Base.{
  ◌≡◌, refl, sym, ◌∙◌, inl, inr, Bool, true, false, ◌&&◌, [], ◌∷◌, Bool-cases, ◌==◌, ==_iff, nat_eq,
  string_eq, list_eq, option_eq, pair_eq, All, All-of_In, Text, ℤ, int_eq,
}
use astral_project.Base.Dict.{Dict, put}
use astral_project.State.Tables.{Store, SessionRow, Revocation, SessionState, is_active, revoked}
use astral_project.State.Statements.{end_sessions, insert_revocation, has_key, with_revocation}
use astral_project.State.Authority.{Authority, Leads, authority}
use astral_project.State.Revoked.{
  Sound, NoneActive, All-update_sessions, Allowed, has_key-put_other, guarded-Ends,
}
use astral_project.State.Actions.{modify}

-- Ending sessions opens none.
pub end_sessions-Leads :
    (affects : Text → SessionRow → Bool) (state : SessionState) (at : ℤ)
    → is_active state ≡ false
    → Leads Sound (modify (end_sessions affects state at)) Sound
unfolding end_sessions
end_sessions-Leads affects state at ended = record {
  leads = λ s k. (
    k.0,
    All-update_sessions (Allowed s.tables.revocations) (Allowed s.tables.revocations) affects state
        at s.tables.sessions
        (λ id row _ _ running. let bad : true ≡ false = sym running ∙ ended in cc) (λ id row _ h. h)
        k.1,
  );
}

-- After the sessions of a grant have ended, none of it is active.
abbrev pub Ended : Text → Authority → Type 0
Ended g a = Sound a × NoneActive g a

pub end_sessions-Ended :
    (g : Text) (at : ℤ)
    → Leads Sound
        (modify (end_sessions (λ id row. row.grant_id == g && is_active row.state) revoked at))
        (Ended g)
unfolding end_sessions
end_sessions-Ended g at = record {
  leads = λ s k. (
    (end_sessions-Leads affects revoked at refl).leads s k,
    All-update_sessions (λ row. Unit)
        (λ row. row.grant_id == g ≡ true → is_active row.state ≡ false) affects revoked at
        s.tables.sessions (λ id row _ _ _. refl)
        (λ id row spared _ same. spared_ended row spared same) (All-of_In _ _ (λ _ _. tt)),
  );
}
  where
    affects : Text → SessionRow → Bool
    affects id row = row.grant_id == g && is_active row.state

    spared_ended :
        (row : SessionRow)
        → (row.grant_id == g && is_active row.state) ≡ false
        → (row.grant_id == g) ≡ true
        → is_active row.state ≡ false
    spared_ended row spared same = rw same at spared

pub insert_revocation-Leads :
    (g : Text) (row : Revocation) → Leads (Ended g) (insert_revocation g row) Sound
unfolding insert_revocation
insert_revocation-Leads g row = record {
  leads = λ s k.
      guarded-Ends Sound (λ t. has_key g t.grants) (with_revocation g row) s
        (λ stored. (
          λ j r. grounded s k stored j r,
          allowed s.tables.revocations s.tables.sessions k.0.1 k.1,
        ));
}
  where
    grounded :
        (s : Store)
        → Ended g (authority s.tables)
        → has_key g s.tables.grants ≡ true
        → (j : Text) → has_key j (put g row s.tables.revocations) ≡ true
        → has_key j s.tables.grants ≡ true
    grounded s k stored j r = elim (Bool-cases (j == g)) [
      | inl e ↦ rw ((==_iff j g).0 e) stored
      | inr e ↦ k.0.0 j (sym (has_key-put_other j g row s.tables.revocations e) ∙ r)
    ]

    allowed :
        (revocations : Dict Text Revocation) (sessions : Dict Text SessionRow)
        → All (λ r. Allowed revocations r.1) sessions
        → All (λ r. (r.1).grant_id == g ≡ true → is_active (r.1).state ≡ false) sessions
        → All (λ r. Allowed (put g row revocations) r.1) sessions
    allowed revocations [] h e = tt
    allowed revocations ((id, r) ∷ rest) h e = (
      λ running. elim (Bool-cases (r.grant_id == g)) [
        | inl same ↦ let bad : true ≡ false = sym running ∙ e.0 same in cc
        | inr other ↦ has_key-put_other r.grant_id g row revocations other ∙ h.0 running
      ],
      allowed revocations rest h.1 e.1,
    )
