-- ===== src/State/Good.antt =====
-- state/sqlite.py: methods that keep the audit chain whole, put together from steps that do.
use astral_project.Base.{
  ℕ, suc, ◌≤◌, ◌≡◌, ◌∙◌, Bool, true, false, not, Option, none, some, arith, if◌then◌else◌, nat_eq,
  string_eq, list_eq, option_eq, pair_eq, Result, ok, err, int_eq, subst, sym,
}
use astral_project.State.Tables.{
  Tables, Store, StateError, integrity_error, astral, audit_event_error, type_error, value_error,
}
use astral_project.State.Platform.{Platform, IsLawful}
use astral_project.State.Statements.{on_integrity_error, or_raise, require, astral_step, caught}
use astral_project.State.ChainKept.{AuditKept}
use astral_project.Core.{AstralError}
use astral_project.State.Ends.{>>=-Ends, Ends, Ends-map, RolledBack, transaction-Ends}
use astral_project.State.Retention.{DrawnBefore-mono}
use astral_project.Audit.Event.{Occurrence}
use astral_project.State.AuditTable.{audit}
use astral_project.State.AuditSteps.{audit-Audited}
use astral_project.State.Actions.{
  ◌>>=◌, raise_if, Action, draw, modify, pure, select, transaction, raise,
}

pub caught-Ends :
    {A : Type 0} (Q : A → Store → Type 0) (E : Store → Type 0) (e : StateError)
    (x : Result StateError A × Store)
    → Ends Q E x
    → Ends Q E (caught e x)
unfolding caught
caught-Ends Q E e (ok a, s) h = h
caught-Ends Q E e (err integrity_error, s) h = h
caught-Ends Q E e (err (astral d), s) h = h
caught-Ends Q E e (err (audit_event_error d), s) h = h
caught-Ends Q E e (err type_error, s) h = h
caught-Ends Q E e (err value_error, s) h = h

module _ {Key : Type 0} (p : Platform Key) (limit : ℕ) where
  abbrev pub Kept : Store → Type 0
  Kept s = AuditKept p.sha256_hex p.uuid4 limit s.drawn s.tables

  -- The step keeps the chain, or raises; either way no identifier is put back.
  pub record IsGood {A : Type 0} (m : Action A) : Type 0 where
    pub keeps :
        (s : Store)
        → Kept s
        → Ends (λ _ s'. Kept s' × (s.drawn ≤ s'.drawn)) (λ s'. s.drawn ≤ s'.drawn) (m s)

  -- The same, and a raise keeps the chain too.
  pub record IsWhole {A : Type 0} (m : Action A) : Type 0 where
    pub keeps_always :
        (s : Store)
        → Kept s
        → Ends (λ _ s'. Kept s' × (s.drawn ≤ s'.drawn)) (λ s'. Kept s' × (s.drawn ≤ s'.drawn)) (m s)

  AuditKept-drawn :
      (m n : ℕ) (t : Tables)
      → m ≤ n
      → AuditKept p.sha256_hex p.uuid4 limit m t
      → AuditKept p.sha256_hex p.uuid4 limit n t
  AuditKept-drawn m n t l k = record {
    events = k.events;
    boundaries = k.boundaries;
    event_rows = k.event_rows;
    readable = k.readable;
    boundary_rows = k.boundary_rows;
    made = k.made;
    linear = k.linear;
    bounded = k.bounded;
    none_lost = k.none_lost;
    drawn_before = DrawnBefore-mono p.uuid4 m n k.events l k.drawn_before;
  }

  module _ {A B : Type 0} where
    pub >>=-IsGood :
        (m : Action A) (f : A → Action B) → IsGood m → ((a : A) → IsGood (f a)) → IsGood (m >>= f)
    >>=-IsGood m f g h = record {
      keeps = λ s k.
          >>=-Ends (λ _ s'. Kept s' × (s.drawn ≤ s'.drawn)) (λ _ s'. Kept s' × (s.drawn ≤ s'.drawn))
            (λ s'. s.drawn ≤ s'.drawn) m f s (g.keeps s k)
            (λ a s' q.
              Ends-map _ _ _ _ (f a s') ((h a).keeps s' q.0)
                (λ _ s'' r. (r.0, omega (arith, q.1, r.1))) (λ s'' r. omega (arith, q.1, r)));
    }

  module _ {A : Type 0} where
    pub pure-IsGood : (a : A) → IsGood (pure a)
    pure-IsGood a = record { keeps = λ s k. (k, omega arith) }

    pub raise-IsGood : (e : StateError) → IsGood {A = A} (raise e)
    raise-IsGood e = record { keeps = λ s k. omega arith }

    pub select-IsGood : (f : Tables → A) → IsGood (select f)
    select-IsGood f = record { keeps = λ s k. (k, omega arith) }

    pub or_raise-IsGood : (e : StateError) (o : Option A) → IsGood (or_raise e o)
    or_raise-IsGood e none = raise-IsGood e
    or_raise-IsGood e (some a) = pure-IsGood a

    pub astral_step-IsGood : (r : Result AstralError A) → IsGood (astral_step r)
    astral_step-IsGood (ok a) = pure-IsGood a
    astral_step-IsGood (err e) = raise-IsGood (astral e)

    pub if-IsGood : (b : Bool) (m n : Action A) → IsGood m → IsGood n → IsGood (if b then m else n)
    if-IsGood true m n g h = g
    if-IsGood false m n g h = h

  module _ {A B : Type 0} where
    pub >>=-IsWhole :
        (m : Action A) (f : A → Action B)
        → IsWhole m
        → ((a : A) → IsWhole (f a))
        → IsWhole (m >>= f)
    >>=-IsWhole m f g h = record {
      keeps_always = λ s k.
          >>=-Ends (λ _ s'. Kept s' × (s.drawn ≤ s'.drawn)) (λ _ s'. Kept s' × (s.drawn ≤ s'.drawn))
            (λ s'. Kept s' × (s.drawn ≤ s'.drawn)) m f s (g.keeps_always s k)
            (λ a s' q.
              Ends-map _ _ _ _ (f a s') ((h a).keeps_always s' q.0)
                (λ _ s'' r. (r.0, omega (arith, q.1, r.1)))
                (λ s'' r. (r.0, omega (arith, q.1, r.1))));
    }

  module _ {A : Type 0} where
    pub pure-IsWhole : (a : A) → IsWhole (pure a)
    pure-IsWhole a = record { keeps_always = λ s k. (k, omega arith) }

    pub raise-IsWhole : (e : StateError) → IsWhole {A = A} (raise e)
    raise-IsWhole e = record { keeps_always = λ s k. (k, omega arith) }

    pub or_raise-IsWhole : (e : StateError) (o : Option A) → IsWhole (or_raise e o)
    or_raise-IsWhole e none = raise-IsWhole e
    or_raise-IsWhole e (some a) = pure-IsWhole a

    pub astral_step-IsWhole : (r : Result AstralError A) → IsWhole (astral_step r)
    astral_step-IsWhole (ok a) = pure-IsWhole a
    astral_step-IsWhole (err e) = raise-IsWhole (astral e)

    pub transaction-IsWhole : (m : Action A) → IsGood m → IsWhole (transaction m)
    transaction-IsWhole m g = record {
      keeps_always = λ s k.
          Ends-map (λ _ s'. Kept s' × (s.drawn ≤ s'.drawn)) (λ _ s'. Kept s' × (s.drawn ≤ s'.drawn))
            (RolledBack s) (λ s'. Kept s' × (s.drawn ≤ s'.drawn)) (transaction m s)
            (transaction-Ends _ m s (g.keeps s k)) (λ _ s' q. q)
            (λ s' q. (
              subst (AuditKept p.sha256_hex p.uuid4 limit s'.drawn) (sym q.0)
                  (AuditKept-drawn s.drawn s'.drawn s.tables q.1 k),
              q.1,
            ));
    }

  pub raise_if-IsWhole : (b : Bool) (e : StateError) → IsWhole (raise_if b e)
  raise_if-IsWhole true e = raise-IsWhole e
  raise_if-IsWhole false e = pure-IsWhole tt

  pub raise_if-IsGood : (b : Bool) (e : StateError) → IsGood (raise_if b e)
  raise_if-IsGood true e = raise-IsGood e
  raise_if-IsGood false e = pure-IsGood tt

  pub require-IsGood : (f : Tables → Bool) → IsGood (require f)
  unfolding require
  require-IsGood f = record {
    keeps = λ s. (raise_if-IsGood (not (f s.tables)) integrity_error).keeps s;
  }

  pub draw-IsGood : IsGood draw
  draw-IsGood = record {
    keeps = λ s k. (AuditKept-drawn s.drawn (suc s.drawn) s.tables (omega arith) k, omega arith);
  }

  -- A statement on the other tables.
  pub modify-IsGood :
      (f : Tables → Tables)
      → ((t : Tables) → (f t).audit_events ≡ t.audit_events)
      → ((t : Tables) → (f t).audit_retention_boundary ≡ t.audit_retention_boundary)
      → IsGood (modify f)
  modify-IsGood f rows boundaries = record {
    keeps = λ s k. (
      record {
        events = k.events;
        boundaries = k.boundaries;
        event_rows = rows s.tables ∙ k.event_rows;
        readable = k.readable;
        boundary_rows = boundaries s.tables ∙ k.boundary_rows;
        made = k.made;
        linear = k.linear;
        bounded = k.bounded;
        none_lost = k.none_lost;
        drawn_before = k.drawn_before;
      },
      omega arith,
    );
  }

  pub on_integrity_error-IsGood :
      {A : Type 0} (e : StateError) (m : Action A) → IsGood m → IsGood (on_integrity_error e m)
  unfolding on_integrity_error
  on_integrity_error-IsGood e m g = record { keeps = λ s k. caught-Ends _ _ e (m s) (g.keeps s k) }

  -- `_audit` and `rotate_audit`
  module _ (lawful : IsLawful p) (positive : 1 ≤ limit) where
    pub audit-IsGood : (o : Occurrence) → IsGood (audit p.sha256_hex p.uuid4 limit o)
    audit-IsGood o = record {
      keeps = λ s k.
          Ends-map _ _ _ _ (audit p.sha256_hex p.uuid4 limit o s)
            (audit-Audited p.sha256_hex p.uuid4 lawful.unique_ids limit positive o s k)
            (λ _ s' q. (q.0, q.2)) (λ s' q. q);
    }
