-- ===== src/Base/Order.antt =====
-- Python's `sorted` with a key: a stable sort by a Boolean comparison of keys, and the order that
-- Python gives to strings and bytes.
use astral_project.Base.Tests.{ltb, if◌then◌else◌, Bool-cases}
use astral_project.Base.Lists.{In, here, there, Pairs, All-In, All-of_In}
use Prim.Native.Nat.{ℕ}
use mathlib.Core.Path.{◌≡◌, refl}
use mathlib.Core.Logic.{◌⊎◌, inl, inr}
use mathlib.Core.Bool.{Bool, true, false}
use mathlib.Core.List.{List, [], ◌∷◌}
use native.Mathlib.Omega.{arith}

module _ {ℓ} {A : Type ℓ} where
  -- `le x y`: the key of `x` is not above that of `y`.
  unfoldable pub insert_by : (A → A → Bool) → A → List A → List A
  insert_by le x [] = x ∷ []
  insert_by le x (y ∷ ys) = if le x y then x ∷ y ∷ ys else y ∷ insert_by le x ys

  -- `sorted(xs, key=...)`: equal keys keep their order.
  unfoldable pub sort_by : (A → A → Bool) → List A → List A
  unfolding insert_by
  sort_by le [] = []
  sort_by le (x ∷ xs) = insert_by le x (sort_by le xs)

-- What a comparison of keys gives.
pub record IsOrder {ℓ} {A : Type ℓ} (le : A → A → Bool) : Type ℓ where
  pub total : (a b : A) → le a b ≡ false → le b a ≡ true
  pub trans : (a b c : A) → le a b ≡ true → le b c ≡ true → le a c ≡ true

module _ {ℓ} {A : Type ℓ} (le : A → A → Bool) where
  pub insert_by-In : {a : A} (x : A) (ys : List A) → In a (insert_by le x ys) → In a (x ∷ ys)
  unfolding insert_by
  insert_by-In x [] m = m
  insert_by-In {a} x (y ∷ ys) m = elim (Bool-cases (le x y)) [
    | inl e ↦ rw e at m
    | inr e ↦ swapped (rw e at m) (insert_by-In x ys)
  ]
    where
      swapped :
          In a (y ∷ insert_by le x ys)
          → (In a (insert_by le x ys) → In a (x ∷ ys))
          → In a (x ∷ y ∷ ys)
      swapped (here q) ih = there (here q)
      swapped (there m') ih = elim (ih m') [ here q ↦ here q | there m'' ↦ there (there m'') ]

  pub In-insert_by : {a : A} (x : A) (ys : List A) → In a (x ∷ ys) → In a (insert_by le x ys)
  unfolding insert_by
  In-insert_by x [] m = m
  In-insert_by {a} x (y ∷ ys) m = elim (Bool-cases (le x y)) [
    | inl e ↦ rw e m
    | inr e ↦ rw e (moved m (In-insert_by x ys))
  ]
    where
      moved :
          In a (x ∷ y ∷ ys)
          → (In a (x ∷ ys) → In a (insert_by le x ys))
          → In a (y ∷ insert_by le x ys)
      moved (here q) ih = there (ih (here q))
      moved (there (here q)) ih = here q
      moved (there (there m')) ih = there (ih (there m'))

  pub sort_by-In : {a : A} (xs : List A) → In a (sort_by le xs) → In a xs
  unfolding sort_by
  sort_by-In [] m = m
  sort_by-In {a} (x ∷ xs) m = back (insert_by-In x (sort_by le xs) m) (sort_by-In xs)
    where
      back : In a (x ∷ sort_by le xs) → (In a (sort_by le xs) → In a xs) → In a (x ∷ xs)
      back (here q) ih = here q
      back (there m') ih = there (ih m')

  pub In-sort_by : {a : A} (xs : List A) → In a xs → In a (sort_by le xs)
  unfolding sort_by
  In-sort_by [] m = m
  In-sort_by (x ∷ xs) (here q) = In-insert_by x (sort_by le xs) (here q)
  In-sort_by (x ∷ xs) (there m) = In-insert_by x (sort_by le xs) (there (In-sort_by xs m))

module _ {ℓ} {A : Type ℓ} (le : A → A → Bool) (o : IsOrder le) where
  abbrev pub IsSorted : List A → Type 0
  IsSorted xs = Pairs (λ a b. le a b ≡ true) xs

  insert_by-IsSorted : (x : A) (ys : List A) → IsSorted ys → IsSorted (insert_by le x ys)
  unfolding insert_by
  insert_by-IsSorted x [] h = (tt, tt)
  insert_by-IsSorted x (y ∷ ys) h = elim (Bool-cases (le x y)) [
    | inl e ↦ rw e (
      (
        e,
        All-of_In (λ b. le x b ≡ true) ys
            (λ b m. o.trans x y b e (All-In (λ b. le y b ≡ true) ys h.0 m)),
      ),
      h,
    )
    | inr e ↦ rw e (
      All-of_In (λ b. le y b ≡ true) (insert_by le x ys)
          (λ b m. above e b (insert_by-In le x ys m)),
      insert_by-IsSorted x ys h.1,
    )
  ]
    where
      above : le x y ≡ false → (b : A) → In b (x ∷ ys) → le y b ≡ true
      above e b (here q) = rw q (o.total x y e)
      above e b (there m) = All-In (λ b. le y b ≡ true) ys h.0 m

  pub sort_by-IsSorted : (xs : List A) → IsSorted (sort_by le xs)
  unfolding sort_by
  sort_by-IsSorted [] = tt
  sort_by-IsSorted (x ∷ xs) = insert_by-IsSorted x (sort_by le xs) (sort_by-IsSorted xs)

  -- The first element of the sorted list has a least key.
  pub sort_by-first :
      (xs : List A) {a : A} {rest : List A} {b : A}
      → sort_by le xs ≡ a ∷ rest
      → In b xs
      → (le a b ≡ true) ⊎ (b ≡ a)
  sort_by-first xs {a} {rest} {b} e m =
      first (rw e at (In-sort_by le xs m)) (rw e at (sort_by-IsSorted xs))
    where
      first : In b (a ∷ rest) → IsSorted (a ∷ rest) → (le a b ≡ true) ⊎ (b ≡ a)
      first (here q) s = inr q
      first (there m') s = inl (All-In (λ b. le a b ≡ true) rest s.0 m')

-- `a <= b` on `str` and on `bytes`
unfoldable pub text_leb : List ℕ → List ℕ → Bool
text_leb [] ys = true
text_leb (x ∷ xs) [] = false
text_leb (x ∷ xs) (y ∷ ys) = if ltb x y then true else if ltb y x then false else text_leb xs ys

pub text_leb_total : (a b : List ℕ) → text_leb a b ≡ false → text_leb b a ≡ true
unfolding text_leb
text_leb_total [] b h = cc
text_leb_total (x ∷ xs) [] h = refl
text_leb_total (x ∷ xs) (y ∷ ys) h = ground (arith, text_leb_total xs ys)

pub text_leb_trans :
    (a b c : List ℕ) → text_leb a b ≡ true → text_leb b c ≡ true → text_leb a c ≡ true
unfolding text_leb
text_leb_trans [] b c h k = refl
text_leb_trans (x ∷ xs) [] c h k = cc
text_leb_trans (x ∷ xs) (y ∷ ys) [] h k = cc
text_leb_trans (x ∷ xs) (y ∷ ys) (z ∷ zs) h k = ground (arith, text_leb_trans xs ys zs)

pub text_leb_antisym : (a b : List ℕ) → text_leb a b ≡ true → text_leb b a ≡ true → a ≡ b
unfolding text_leb
text_leb_antisym [] [] h k = refl
text_leb_antisym [] (y ∷ ys) h k = cc
text_leb_antisym (x ∷ xs) [] h k = cc
text_leb_antisym (x ∷ xs) (y ∷ ys) h k = ground (arith, text_leb_antisym xs ys)

-- A list in order is its own sorted list.
pub sort_by-sorted {ℓ} :
    {A : Type ℓ} (le : A → A → Bool) (xs : List A)
    → Pairs (λ a b. le a b ≡ true) xs
    → sort_by le xs ≡ xs
unfolding sort_by insert_by
sort_by-sorted le [] h = refl
sort_by-sorted le (x ∷ []) h = refl
sort_by-sorted le (x ∷ y ∷ ys) h = rw (sort_by-sorted le (y ∷ ys) h.1, h.0.0)
