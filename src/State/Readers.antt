-- ===== src/State/Readers.antt =====
-- state/sqlite.py: the look-ups leave the database alone, and so do the checks of `open_session`.
use astral_project.Base.{
  ℕ, ◌≡◌, refl, ◌∙◌, Bool, true, false, Option, none, some, nat_eq, string_eq, list_eq, option_eq,
  pair_eq, Result, ok, err, Text, ℤ, int_eq,
}
use astral_project.Core.{AstralError}
use astral_project.Grant.Verify.{SignedGrant}
use astral_project.State.Tables.{Tables, Store, StateError, astral}
use astral_project.State.Platform.{Platform}
use astral_project.State.Statements.{astral_step, or_raise}
use astral_project.State.Lookups.{
  grant_or_raise, grant_verification_context, issuer_public_key, signed_grant,
}
use astral_project.State.Sessions.{check_open}
use astral_project.State.Actions.{◌>>=◌, raise_if, Action, pure, raise, select}

pub record IsReader {A : Type 0} (m : Action A) : Type 0 where
  pub reads : (s : Store) → (m s).1 ≡ s

module _ {A B : Type 0} where
  >>=-IsReader :
      (m : Action A) (f : A → Action B)
      → IsReader m
      → ((a : A) → IsReader (f a))
      → IsReader (m >>= f)
  >>=-IsReader m f g h = record { reads = λ s. from s (m s) (g.reads s) }
    where
      from : (s : Store) (x : Result StateError A × Store) → x.1 ≡ s → (((λ _. x) >>= f) s).1 ≡ s
      from s (ok a, s') q = (h a).reads s' ∙ q
      from s (err e, s') q = q

module _ {A : Type 0} where
  pure-IsReader : (a : A) → IsReader (pure a)
  pure-IsReader a = record { reads = λ s. refl }

  raise-IsReader : (e : StateError) → IsReader (raise {A = A} e)
  raise-IsReader e = record { reads = λ s. refl }

  pub select-IsReader : (f : Tables → A) → IsReader (select f)
  select-IsReader f = record { reads = λ s. refl }

  or_raise-IsReader : (e : StateError) (o : Option A) → IsReader (or_raise e o)
  or_raise-IsReader e none = raise-IsReader e
  or_raise-IsReader e (some a) = pure-IsReader a

  pub astral_step-IsReader : (r : Result AstralError A) → IsReader (astral_step r)
  astral_step-IsReader (ok a) = pure-IsReader a
  astral_step-IsReader (err e) = raise-IsReader (astral e)

raise_if-IsReader : (b : Bool) (e : StateError) → IsReader (raise_if b e)
raise_if-IsReader true e = raise-IsReader e
raise_if-IsReader false e = pure-IsReader tt

ruleset reading = (
  >>=-IsReader, pure-IsReader, select-IsReader, or_raise-IsReader, astral_step-IsReader,
  raise_if-IsReader,
)

module _ {Key : Type 0} (p : Platform Key) where
  grant_or_raise-IsReader : (r : Result AstralError SignedGrant) → IsReader (grant_or_raise p r)
  grant_or_raise-IsReader (ok signed) = pure-IsReader signed
  grant_or_raise-IsReader (err e) = raise-IsReader _

  pub signed_grant-IsReader : (grant_id : Text) → IsReader (signed_grant p grant_id)
  unfolding signed_grant
  signed_grant-IsReader grant_id = search (reading, grant_or_raise-IsReader) depth 20

  pub issuer_public_key-IsReader : (grant_id : Text) → IsReader (issuer_public_key p grant_id)
  unfolding issuer_public_key
  issuer_public_key-IsReader grant_id = search (reading) depth 20

  pub grant_verification_context-IsReader :
      (grant_id : Text) (now : ℤ) → IsReader (grant_verification_context p grant_id now)
  unfolding grant_verification_context
  grant_verification_context-IsReader grant_id now = search (reading) depth 20

  pub check_open-IsReader :
      (limit : ℕ) (grant_id : Text) (at : ℤ) → IsReader (check_open p limit grant_id at)
  unfolding check_open
  check_open-IsReader limit grant_id at =
      search
        (
          reading, signed_grant-IsReader, issuer_public_key-IsReader,
          grant_verification_context-IsReader,
        )
        depth 30 fits 4000
