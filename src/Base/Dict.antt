-- ===== src/Base/Dict.antt =====
-- A dictionary as the list of its items in the order of insertion.
use mathlib.Core.Path.{◌≡◌, refl, ap}
use mathlib.Core.Logic.{◌⊎◌, inl, inr}
use mathlib.Core.Bool.{true, false}
use mathlib.Core.Option.{Option, none, some}
use mathlib.Core.List.{List, [], ◌∷◌}
use astral_project.Base.Tests.{if◌then◌else◌, Bool-cases}
use astral_project.Base.Equality.{Eq, ◌==◌, ==_iff, ==_refl}
use astral_project.Base.Lists.{In, here, there, length}
use Prim.Native.Nat.{suc, ◌≤◌}
use native.Mathlib.Omega.{arith}

abbrev pub Dict {ℓ} : Type ℓ → Type ℓ → Type ℓ
Dict K V = List (K × V)

pub ==_false_sym {ℓ} : {K : Type ℓ} ⦃e : Eq K⦄ (a b : K) → (a == b) ≡ false → (b == a) ≡ false
==_false_sym a b h = elim (Bool-cases (b == a)) [
  | inl q ↦ let bad : true ≡ false = rw ((==_iff b a).0 q, ==_refl a) at h in cc
  | inr q ↦ q
]

module _ {ℓ} {K V : Type ℓ} ⦃e : Eq K⦄ where
  -- `d.get(k)`
  unfoldable pub get : K → Dict K V → Option V
  get k [] = none
  get k ((k', v) ∷ rest) = if k == k' then some v else get k rest

  -- `d[k] = v`
  unfoldable pub put : K → V → Dict K V → Dict K V
  put k v [] = (k, v) ∷ []
  put k v ((k', w) ∷ rest) = if k == k' then (k', v) ∷ rest else (k', w) ∷ put k v rest

  -- `d.pop(k, None)`
  unfoldable pub pop : K → Dict K V → Dict K V
  pop k [] = []
  pop k ((k', v) ∷ rest) = let others = pop k rest in if k == k' then others else (k', v) ∷ others

  pub get-put_same : (k : K) (v : V) (d : Dict K V) → get k (put k v d) ≡ some v
  unfolding get put
  get-put_same k v [] = rw (==_refl k) refl
  get-put_same k v ((k', w) ∷ rest) = elim (Bool-cases (k == k')) [
    | inl p ↦ rw (p, p) refl
    | inr p ↦ rw (p, p) (get-put_same k v rest)
  ]

  pub get-put_other :
      (j k : K) (v : V) (d : Dict K V) → (j == k) ≡ false → get j (put k v d) ≡ get j d
  unfolding get put
  get-put_other j k v [] h = rw h refl
  get-put_other j k v ((k', w) ∷ rest) h = elim (Bool-cases (k == k')) [
    | inl p ↦ rw (p, ← (==_iff k k').0 p, h) refl
    | inr p ↦ rw (p, get-put_other j k v rest h) refl
  ]

  pub get-pop_same : (k : K) (d : Dict K V) → get k (pop k d) ≡ none
  unfolding get pop
  get-pop_same k [] = refl
  get-pop_same k ((k', w) ∷ rest) = elim (Bool-cases (k == k')) [
    | inl p ↦ rw p (get-pop_same k rest)
    | inr p ↦ rw (p, p) (get-pop_same k rest)
  ]

  pub get-pop_other : (j k : K) (d : Dict K V) → (j == k) ≡ false → get j (pop k d) ≡ get j d
  unfolding get pop
  get-pop_other j k [] h = refl
  get-pop_other j k ((k', w) ∷ rest) h = elim (Bool-cases (k == k')) [
    | inl p ↦ rw (p, ← (==_iff k k').0 p, h, get-pop_other j k rest h) refl
    | inr p ↦ rw (p, get-pop_other j k rest h) refl
  ]

  pub get-put-cases :
      (j k : K) (v : V) (d : Dict K V) {u : V}
      → get j (put k v d) ≡ some u
      → ((j ≡ k) × (u ≡ v)) ⊎ (((j == k) ≡ false) × (get j d ≡ some u))
  get-put-cases j k v d {u} h = elim (Bool-cases (j == k)) [
    | inl p ↦
        let q : get k (put k v d) ≡ some u = rw ((==_iff j k).0 p) at h in
        let r : some v ≡ some u = rw (get-put_same k v d) at q in inl ((==_iff j k).0 p, cc)
    | inr p ↦ let q : get j d ≡ some u = rw (get-put_other j k v d p) at h in inr (p, q)
  ]

  pub get-pop-cases :
      (j k : K) (d : Dict K V) {u : V}
      → get j (pop k d) ≡ some u
      → ((j == k) ≡ false) × (get j d ≡ some u)
  get-pop-cases j k d {u} h = elim (Bool-cases (j == k)) [
    | inl p ↦
        let q : get k (pop k d) ≡ some u = rw ((==_iff j k).0 p) at h in
        let r : none ≡ some u = rw (get-pop_same k d) at q in cc
    | inr p ↦ let q : get j d ≡ some u = rw (get-pop_other j k d p) at h in (p, q)
  ]

  -- No key stands twice.
  unfoldable pub Unique : Dict K V → Type ℓ
  Unique [] = Unit
  Unique ((k, v) ∷ rest) = (get k rest ≡ none) × Unique rest

  pub put-Unique : (k : K) (v : V) (d : Dict K V) → Unique d → Unique (put k v d)
  unfolding Unique put get
  put-Unique k v [] u = (refl, tt)
  put-Unique k v ((k', w) ∷ rest) u = elim (Bool-cases (k == k')) [
    | inl p ↦ rw p u
    | inr p ↦
        rw p (rw (get-put_other k' k v rest (==_false_sym k k' p)) (u.0), put-Unique k v rest u.1)
  ]

  pub pop-Unique : (k : K) (d : Dict K V) → Unique d → Unique (pop k d)
  unfolding Unique pop
  pop-Unique k [] u = u
  pop-Unique k ((k', w) ∷ rest) u = elim (Bool-cases (k == k')) [
    | inl p ↦ rw p (pop-Unique k rest u.1)
    | inr p ↦ rw p (rw (get-pop_other k' k rest (==_false_sym k k' p)) (u.0), pop-Unique k rest u.1)
  ]

  pub In-get : (k : K) (v : V) (d : Dict K V) → Unique d → In (k, v) d → get k d ≡ some v
  unfolding Unique get
  In-get k v [] u m = elim m [ ]
  In-get k v ((k', w) ∷ rest) u (here q) =
      rw ((==_iff k k').1 (ap (λ x. x.0) q), ap (λ x. x.1) q) refl
  In-get k v ((k', w) ∷ rest) u (there m) = elim (Bool-cases (k == k')) [
    | inl p ↦
        let a : get k' rest ≡ some v = rw ((==_iff k k').0 p) at (In-get k v rest u.1 m) in
        let b : none ≡ some v = rw u.0 at a in cc
    | inr p ↦ rw p (In-get k v rest u.1 m)
  ]

  -- Replacing the value of a key that is there keeps the size, and a new key adds one.
  pub length-put : (k : K) (v : V) (d : Dict K V) → length (put k v d) ≤ suc (length d)
  unfolding put
  length-put k v [] = omega arith
  length-put k v ((k', w) ∷ rest) = elim (Bool-cases (k == k')) [
    | inl p ↦ rw p (omega arith)
    | inr p ↦ rw p (omega (arith, length-put k v rest))
  ]

  pub length-put_known :
      (k : K) (v : V) (d : Dict K V) {w : V} → get k d ≡ some w → length (put k v d) ≡ length d
  unfolding get put
  length-put_known k v [] h = cc
  length-put_known k v ((k', w) ∷ rest) h = elim (Bool-cases (k == k')) [
    | inl p ↦ rw p refl
    | inr p ↦ rw p (omega (arith, length-put_known k v rest (rw p at h)))
  ]

  pub length-pop : (k : K) (d : Dict K V) → length (pop k d) ≤ length d
  unfolding pop
  length-pop k [] = omega arith
  length-pop k ((k', w) ∷ rest) = elim (Bool-cases (k == k')) [
    | inl p ↦ rw p (omega (arith, length-pop k rest))
    | inr p ↦ rw p (omega (arith, length-pop k rest))
  ]
