-- ===== src/State/Authority.antt =====
-- state/sqlite.py: which grants are stored and revoked and which sessions are active, as methods and
-- their steps change it.
use astral_project.Base.{
  ℕ, ◌≡◌, sym, ap, subst, Bool, true, false, not, Option, none, some, nat_eq, string_eq, list_eq,
  option_eq, pair_eq, Result, ok, err, Text, Bytes, int_eq, if◌then◌else◌,
}
use astral_project.Base.Dict.{Dict}
use astral_project.State.Tables.{
  Tables, Store, StateError, GrantRow, SessionRow, Revocation, integrity_error, astral, AuditRow,
}
use astral_project.Core.{AstralError}
use astral_project.State.Statements.{or_raise, require, astral_step}
use astral_project.State.AuditTable.{audit, insert_event, retained}
use astral_project.State.Ends.{>>=-Ends, Ends}
use astral_project.Audit.Event.{Occurrence}
use astral_project.State.AuditSteps.{rest_of-retained}
use astral_project.State.Actions.{
  raise_if, ◌>>=◌, Action, draw, modify, pure, raise, select, transaction, finish, step,
}

-- The tables that say who may do what
abbrev pub Authority : Type 0
Authority = Dict Text GrantRow × Dict Text SessionRow × Dict Text Revocation

abbrev pub authority : Tables → Authority
authority t = (t.grants, t.sessions, t.revocations)

abbrev pub NoClaim : Store → Type 0
NoClaim s = Unit

-- A step that returns leads from the one condition to the other.
pub record Leads {A : Type 0} (P : Authority → Type 0) (m : Action A) (Q : Authority → Type 0)
    : Type 0 where
  pub leads :
      (s : Store) → P (authority s.tables) → Ends (λ _ s'. Q (authority s'.tables)) NoClaim (m s)

-- A method keeps the condition, whether it returns or raises.
pub record Maintains {A : Type 0} (P : Authority → Type 0) (m : Action A) : Type 0 where
  pub maintains :
      (s : Store)
      → P (authority s.tables)
      → Ends (λ _ s'. P (authority s'.tables)) (λ s'. P (authority s'.tables)) (m s)

module _ {A B : Type 0} where
  pub >>=-Leads :
      (P Q R : Authority → Type 0) (m : Action A) (f : A → Action B)
      → Leads P m R
      → ((a : A) → Leads R (f a) Q)
      → Leads P (m >>= f) Q
  >>=-Leads P Q R m f g h = record {
    leads = λ s k.
        >>=-Ends (λ _ s'. R (authority s'.tables)) (λ _ s'. Q (authority s'.tables)) NoClaim m f s
          (g.leads s k) (λ a s' q. (h a).leads s' q);
  }

  -- A first step that changes nothing of it.
  pub >>=-Leads_same :
      (P Q : Authority → Type 0) (m : Action A) (f : A → Action B)
      → Leads P m P
      → ((a : A) → Leads P (f a) Q)
      → Leads P (m >>= f) Q
  >>=-Leads_same P Q m f g h = >>=-Leads P Q P m f g h

  pub >>=-Maintains :
      (P : Authority → Type 0) (m : Action A) (f : A → Action B)
      → Maintains P m
      → ((a : A) → Maintains P (f a))
      → Maintains P (m >>= f)
  >>=-Maintains P m f g h = record {
    maintains = λ s k.
        >>=-Ends (λ _ s'. P (authority s'.tables)) (λ _ s'. P (authority s'.tables))
          (λ s'. P (authority s'.tables)) m f s (g.maintains s k) (λ a s' q. (h a).maintains s' q);
  }

module _ {A : Type 0} (P : Authority → Type 0) where
  pub pure-Leads : (a : A) → Leads P (pure a) P
  pure-Leads a = record { leads = λ s k. k }

  pub raise-Leads : (e : StateError) → Leads P (raise {A = A} e) P
  raise-Leads e = record { leads = λ s k. tt }

  pub select-Leads : (f : Tables → A) → Leads P (select f) P
  select-Leads f = record { leads = λ s k. k }

  pub or_raise-Leads : (e : StateError) (o : Option A) → Leads P (or_raise e o) P
  or_raise-Leads e none = raise-Leads e
  or_raise-Leads e (some a) = pure-Leads a

  pub astral_step-Leads : (r : Result AstralError A) → Leads P (astral_step r) P
  astral_step-Leads (ok a) = pure-Leads a
  astral_step-Leads (err e) = raise-Leads (astral e)

  pub if-Leads :
      (b : Bool) (m n : Action A) → Leads P m P → Leads P n P → Leads P (if b then m else n) P
  if-Leads true m n g h = g
  if-Leads false m n g h = h

  pub pure-Maintains : (a : A) → Maintains P (pure a)
  pure-Maintains a = record { maintains = λ s k. k }

  pub raise-Maintains : (e : StateError) → Maintains P (raise {A = A} e)
  raise-Maintains e = record { maintains = λ s k. k }

  pub select-Maintains : (f : Tables → A) → Maintains P (select f)
  select-Maintains f = record { maintains = λ s k. k }

  pub or_raise-Maintains : (e : StateError) (o : Option A) → Maintains P (or_raise e o)
  or_raise-Maintains e none = raise-Maintains e
  or_raise-Maintains e (some a) = pure-Maintains a

  pub astral_step-Maintains : (r : Result AstralError A) → Maintains P (astral_step r)
  astral_step-Maintains (ok a) = pure-Maintains a
  astral_step-Maintains (err e) = raise-Maintains (astral e)

  pub transaction-Maintains : (m : Action A) → Leads P m P → Maintains P (transaction m)
  unfolding transaction finish
  transaction-Maintains m g = record { maintains = λ s k. from s k (m s) (g.leads s k) }
    where
      from :
          (s : Store)
          → P (authority s.tables)
          → (x : Result StateError A × Store) → Ends (λ _ s'. P (authority s'.tables)) NoClaim x
          → Ends (λ _ s'. P (authority s'.tables)) (λ s'. P (authority s'.tables)) (finish s x)
      from s k (ok a, s') q = q
      from s k (err e, s') q = k

module _ (P : Authority → Type 0) where
  pub raise_if-Leads : (b : Bool) (e : StateError) → Leads P (raise_if b e) P
  raise_if-Leads true e = raise-Leads P e
  raise_if-Leads false e = pure-Leads P tt

  pub raise_if-Maintains : (b : Bool) (e : StateError) → Maintains P (raise_if b e)
  raise_if-Maintains true e = raise-Maintains P e
  raise_if-Maintains false e = pure-Maintains P tt

  pub draw-Leads : Leads P draw P
  draw-Leads = record { leads = λ s k. k }

  -- A statement on the other tables
  pub modify-Leads :
      (f : Tables → Tables) → ((t : Tables) → authority (f t) ≡ authority t) → Leads P (modify f) P
  modify-Leads f same = record { leads = λ s k. subst P (sym (same s.tables)) k }

  pub require-Leads : (f : Tables → Bool) → Leads P (require f) P
  unfolding require
  require-Leads f = record {
    leads = λ s. (raise_if-Leads (not (f s.tables)) integrity_error).leads s;
  }

  step-Leads : {A : Type 0} (r : Result StateError A) → Leads P (step r) P
  step-Leads (ok a) = pure-Leads P a
  step-Leads (err e) = raise-Leads P e

  pub retained-Leads :
      (sha256_hex : Bytes → Text) (limit : ℕ) → Leads P (modify (retained sha256_hex limit)) P
  retained-Leads sha256_hex limit =
      modify-Leads (retained sha256_hex limit)
        (λ t. ap (λ r. (r.1, r.3, r.4)) (rest_of-retained sha256_hex limit t))

  insert_event-Leads : (row : AuditRow) → Leads P (insert_event row) P
  unfolding insert_event
  insert_event-Leads row =
      search (>>=-Leads_same, select-Leads, raise_if-Leads, modify-Leads) depth 20

  pub audit-Leads :
      (sha256_hex : Bytes → Text) (uuid4 : ℕ → Text) (limit : ℕ) (o : Occurrence)
      → Leads P (audit sha256_hex uuid4 limit o) P
  unfolding audit
  audit-Leads sha256_hex uuid4 limit o =
      search
        (
          >>=-Leads_same, select-Leads, draw-Leads, step-Leads, raise_if-Leads, insert_event-Leads,
          retained-Leads,
        )
        depth 30 fits 4000
