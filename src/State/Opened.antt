-- ===== src/State/Opened.antt =====
-- state/sqlite.py: `open_session`, and the database that whole methods lead to.
use astral_project.Base.{
  ℕ, ◌≡◌, refl, sym, subst, Bool, true, false, nat_eq, string_eq, list_eq, option_eq, pair_eq,
  Result, ok, err, Text, ℤ, int_eq,
}
use astral_project.Grant.Verify.{SignedGrant}
use astral_project.State.Tables.{Store, StateError}
use astral_project.State.Platform.{Platform}
use astral_project.State.Sessions.{check_open, insert_opened, open_session}
use astral_project.State.Revoked.{SoundWithout, Sound}
use astral_project.State.Authority.{authority, Leads, Authority, Maintains, NoClaim}
use astral_project.State.Ends.{Ends}
use astral_project.State.Lookups.{grant_is_revoked}
use astral_project.State.RevokedMethods.{leading, insert_session->>=}
use astral_project.State.Readers.{
  signed_grant-IsReader, IsReader, issuer_public_key-IsReader, check_open-IsReader,
  grant_verification_context-IsReader,
}
use astral_project.State.Statements.{has_key}
use astral_project.State.Actions.{◌>>=◌, ◌>>◌, raise_if, transaction, Action, finish}

-- A method that leads from the one condition to the other, whether it returns or raises.
record Moves {A : Type 0} (P : Authority → Type 0) (m : Action A) (Q : Authority → Type 0)
    : Type 0 where
  moves :
      (s : Store)
      → P (authority s.tables)
      → Ends (λ _ s'. Q (authority s'.tables)) (λ s'. Q (authority s'.tables)) (m s)

transaction-Moves :
    {A : Type 0} (P Q : Authority → Type 0) (m : Action A)
    → Leads P m Q
    → ((a : Authority) → P a → Q a)
    → Moves P (transaction m) Q
unfolding transaction finish
transaction-Moves {A} P Q m g weaker = record { moves = λ s k. from s k (m s) (g.leads s k) }
  where
    from :
        (s : Store)
        → P (authority s.tables)
        → (x : Result StateError A × Store) → Ends (λ _ s'. Q (authority s'.tables)) NoClaim x
        → Ends (λ _ s'. Q (authority s'.tables)) (λ s'. Q (authority s'.tables)) (finish s x)
    from s k (ok a, s') q = q
    from s k (err e, s') q = weaker (authority s.tables) k

pub reader-Leads : {A : Type 0} (P : Authority → Type 0) (m : Action A) → IsReader m → Leads P m P
reader-Leads {A} P m r = record {
  leads = λ s k. from (m s) (subst (λ s'. P (authority s'.tables)) (sym (r.reads s)) k);
}
  where
    from :
        (x : Result StateError A × Store)
        → P (authority (x.1).tables)
        → Ends (λ _ s'. P (authority s'.tables)) NoClaim x
    from (ok a, s') q = q
    from (err e, s') q = tt

unrevoked->>= :
    {A Key : Type 0} (p : Platform Key) (Q : Authority → Type 0) (g : Text) (e : StateError)
    (m : Action A)
    → Leads (SoundWithout g) m Q
    → Leads Sound (grant_is_revoked p g >>= λ found. raise_if found e >> m) Q
unfolding grant_is_revoked
unrevoked->>= p Q g e m h = record {
  leads = λ s k. from s (has_key g s.tables.revocations) (λ q. h.leads s (k, q));
}
  where
    from :
        (s : Store) (b : Bool)
        → (b ≡ false → Ends (λ _ s'. Q (authority s'.tables)) NoClaim (m s))
        → Ends (λ _ s'. Q (authority s'.tables)) NoClaim ((raise_if b e >> m) s)
    from s true k = tt
    from s false k = k refl

SoundWithout-Sound : (g : Text) (a : Authority) → SoundWithout g a → Sound a
SoundWithout-Sound g a h = h.0

module _ {Key : Type 0} (p : Platform Key) (limit : ℕ) where
  -- The transaction keeps to what the checks have seen, if nothing comes between.
  insert_opened-Moves :
      (grant_id : Text) (signed : SignedGrant) (at : ℤ)
      → Moves (SoundWithout grant_id) (insert_opened p limit grant_id signed at) Sound
  unfolding insert_opened
  insert_opened-Moves grant_id signed at =
      search (leading, transaction-Moves, SoundWithout-Sound, insert_session->>=) depth 30 fits 4000

  check_open-Leads :
      (grant_id : Text) (at : ℤ)
      → Leads Sound (check_open p limit grant_id at) (SoundWithout grant_id)
  unfolding check_open
  check_open-Leads grant_id at =
      search
        (
          leading, unrevoked->>=, reader-Leads, signed_grant-IsReader, issuer_public_key-IsReader,
          grant_verification_context-IsReader,
        )
        depth 30 fits 4000

  pub open_session-Maintains :
      (grant_id : Text) (at : ℤ) → Maintains Sound (open_session p limit grant_id at)
  unfolding open_session
  open_session-Maintains grant_id at = record {
    maintains = λ s k.
        from s k (check_open p limit grant_id at s)
          ((check_open-IsReader p limit grant_id at).reads s)
          ((check_open-Leads grant_id at).leads s k);
  }
    where
      rest : SignedGrant → Action Text
      rest signed = insert_opened p limit grant_id signed at

      from :
          (s : Store)
          → Sound (authority s.tables)
          → (x : Result StateError SignedGrant × Store) → x.1 ≡ s
          → Ends (λ _ s'. SoundWithout grant_id (authority s'.tables)) NoClaim x
          → Ends
              (λ _ s'. Sound (authority s'.tables))
              (λ s'. Sound (authority s'.tables))
              (((λ _. x) >>= rest) s)
      from s k (ok signed, s') same q = (insert_opened-Moves grant_id signed at).moves s' q
      from s k (err e, s') same q = subst (λ t. Sound (authority t.tables)) (sym same) k
