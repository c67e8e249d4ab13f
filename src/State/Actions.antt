-- ===== src/State/Actions.antt =====
-- state/sqlite.py: methods over the database: state and exceptions, and the transaction that rolls the
-- tables back after a raise.
use astral_project.Base.{
  ℕ, suc, Bool, true, false, nat_eq, string_eq, list_eq, option_eq, pair_eq, Result, ok, err,
  int_eq,
}
use astral_project.State.Tables.{Tables, Store, StateError}

abbrev pub Action : Type 0 → Type 0
Action A = Store → Result StateError A × Store

module _ {A : Type 0} where
  abbrev pub pure : A → Action A
  pure a s = (ok a, s)

  abbrev pub raise : StateError → Action A
  raise e s = (err e, s)

  -- `SELECT`
  abbrev pub select : (Tables → A) → Action A
  select f s = (ok (f s.tables), s)

  -- A step outside the database.
  abbrev pub step : Result StateError A → Action A
  step r s = (r, s)

infixl 5 ◌>>=◌ ◌>>◌
abbrev pub ◌>>=◌ : {A B : Type 0} → Action A → (A → Action B) → Action B
◌>>=◌ m f s = let (r, s') = m s in elim r [ ok a ↦ f a s' | err e ↦ raise e s' ]

abbrev pub ◌>>◌ : {A B : Type 0} → Action A → Action B → Action B
m >> k = m >>= λ _. k

abbrev pub raise_if : Bool → StateError → Action (Unit {0})
raise_if true e = raise e
raise_if false e = pure tt

-- `INSERT`, `UPDATE`, `DELETE`
abbrev pub modify : (Tables → Tables) → Action (Unit {0})
modify f s = (ok tt, record s { tables = f s.tables })

-- `uuid.uuid4()` as the number of the draw
abbrev pub draw : Action ℕ
draw s = (ok s.drawn, record s { drawn = suc s.drawn })

-- What the end of a transaction leaves: it commits, or rolls back and raises on.
unfoldable pub finish :
    {A : Type 0} → Store → Result StateError A × Store → Result StateError A × Store
finish before (ok a, after) = (ok a, after)
finish before (err e, after) = (err e, record after { tables = before.tables })

-- `with self.transaction(write=True)`
unfoldable pub transaction : {A : Type 0} → Action A → Action A
unfolding finish
transaction body s = finish s (body s)
