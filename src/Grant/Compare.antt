-- ===== src/Grant/Compare.antt =====
-- grants/lifecycle.py: `compare_grants` and `_canonical_changes`, with Python's equality on the
-- values of the extensions.
use astral_project.Base.{
  all, contains, ℕ, suc, Bool, true, false, not, ◌&&◌, Option, none, some, nat_beq, if◌then◌else◌,
  ◌==◌, nat_eq, string_eq, list_eq, option_eq, pair_eq, Text, ℤ, pos, int_eq, Eq, List,
}
use astral_project.Grant.Types.{
  CborFields, CborValue, Extensions, object, field, text, byte_string, int, bool, null, array,
  CborItems, end, item, last,
}
use astral_project.Grant.Payload.{fields}

-- `dict.get`
unfoldable pub lookup_field : Text → CborFields → Option CborValue
lookup_field k last = none
lookup_field k (field k' v rest) = if k == k' then some v else lookup_field k rest

abbrev pub count_fields : CborFields → ℕ
count_fields last = 0
count_fields (field k v rest) = suc (count_fields rest)

-- `True == 1` and `False == 0`
abbrev pub bool_value : Bool → ℤ
bool_value true = pos 1
bool_value false = pos 0

-- `==` on the values of an extension; dictionaries forget the order of their fields
unfoldable mutual
  pub value_beq : CborValue → CborValue → Bool
  value_beq (text a) (text b) = a == b
  value_beq (byte_string a) (byte_string b) = a == b
  value_beq (int a) (int b) = a == b
  value_beq (int a) (bool b) = a == bool_value b
  value_beq (bool a) (int b) = bool_value a == b
  value_beq (bool a) (bool b) = bool_value a == bool_value b
  value_beq null null = true
  value_beq (array a) (array b) = items_beq a b
  value_beq (object a) (object b) = nat_beq (count_fields a) (count_fields b) && fields_within a b
  value_beq _ _ = false

  pub items_beq : CborItems → CborItems → Bool
  items_beq end end = true
  items_beq (item v vs) (item w ws) = value_beq v w && items_beq vs ws
  items_beq _ _ = false

  pub fields_within : CborFields → CborFields → Bool
  fields_within last other = true
  fields_within (field k v rest) other =
      elim (lookup_field k other) [ none ↦ false | some w ↦ value_beq v w ]
      && fields_within rest other

-- `!=` on two extension mappings
unfoldable pub extensions_differ : Extensions → Extensions → Bool
extensions_differ a b = not (value_beq (object (fields a)) (object (fields b)))

-- The order of the exports in a set does not count: equality of a set is inclusion both ways.
unfoldable pub is_superset {ℓ} : {A : Type ℓ} ⦃e : Eq A⦄ → List A → List A → Bool
is_superset old new = all (contains old) new

abbrev pub equal_sets {ℓ} : {A : Type ℓ} ⦃e : Eq A⦄ → List A → List A → Bool
equal_sets xs ys = is_superset xs ys && is_superset ys xs
