-- ===== src/State/Ends.antt =====
-- How a method over the database ends: a condition on what it returns and leaves, and one on what it
-- leaves when it raises.
use astral_project.Base.{
  ◌≤◌, ◌≡◌, refl, nat_eq, string_eq, list_eq, option_eq, pair_eq, Result, ok, err, int_eq, Bool,
  false, true,
}
use astral_project.State.Actions.{raise_if, ◌>>◌, ◌>>=◌, Action, transaction, finish, raise, step}
use astral_project.State.Tables.{Store, StateError}

abbrev pub Ends :
    {A : Type 0} → (A → Store → Type 0) → (Store → Type 0) → Result StateError A × Store → Type 0
Ends Q E (ok a, s) = Q a s
Ends Q E (err e, s) = E s

module _ {A B : Type 0} (P : A → Store → Type 0) (Q : B → Store → Type 0) (E : Store → Type 0) where
  pub >>=-Ends :
      (m : Action A) (f : A → Action B) (s : Store)
      → Ends P E (m s)
      → ((a : A) (s' : Store) → P a s' → Ends Q E (f a s'))
      → Ends Q E ((m >>= f) s)
  >>=-Ends m f s h k = from (m s) h
    where
      from :
          (x : Result StateError A × Store)
          → Ends P E x
          → Ends Q E (elim (x.0) [ ok a ↦ f a x.1 | err e ↦ raise e x.1 ])
      from (ok a, s') p = k a s' p
      from (err e, s') p = p

module _ {A B : Type 0} (Q : B → Store → Type 0) (E : Store → Type 0) where
  -- A step outside the database, and the rest after its result.
  pub step-Ends :
      (r : Result StateError A) (f : A → Action B) (s : Store)
      → ((a : A) → r ≡ ok a → Ends Q E (f a s))
      → E s
      → Ends Q E ((step r >>= f) s)
  step-Ends (ok a) f s h e = h a refl
  step-Ends (err x) f s h e = e

module _ {B : Type 0} (Q : B → Store → Type 0) (E : Store → Type 0) where
  pub raise_if-Ends :
      (test : Bool) (x : StateError) (rest : Action B) (s : Store)
      → (test ≡ false → Ends Q E (rest s))
      → E s
      → Ends Q E ((raise_if test x >> rest) s)
  raise_if-Ends true x rest s h e = e
  raise_if-Ends false x rest s h e = h refl

module _ {A : Type 0} (P Q : A → Store → Type 0) (E F : Store → Type 0) where
  -- A weaker condition.
  pub Ends-map :
      (x : Result StateError A × Store)
      → Ends P E x
      → ((a : A) (s : Store) → P a s → Q a s)
      → ((s : Store) → E s → F s)
      → Ends Q F x
  Ends-map (ok a, s) h f g = f a s h
  Ends-map (err e, s) h f g = g s h

-- After a raise the tables are what they were, and the drawn identifiers stay drawn.
abbrev pub RolledBack : Store → Store → Type 0
RolledBack s s' = (s'.tables ≡ s.tables) × (s.drawn ≤ s'.drawn)

pub transaction-Ends :
    {A : Type 0} (Q : A → Store → Type 0) (body : Action A) (s : Store)
    → Ends Q (λ s'. s.drawn ≤ s'.drawn) (body s)
    → Ends Q (RolledBack s) (transaction body s)
unfolding transaction finish
transaction-Ends {A} Q body s h = from (body s) h
  where
    from :
        (x : Result StateError A × Store)
        → Ends Q (λ s'. s.drawn ≤ s'.drawn) x
        → Ends Q (RolledBack s) (finish s x)
    from (ok a, s') q = q
    from (err e, s') q = (refl, q)
