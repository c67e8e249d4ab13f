-- ===== src/Base/Results.antt =====
-- Code that may raise: `err` holds the exception, and `do` chains the steps.
use mathlib.Core.Path.{◌≡◌, refl}
use mathlib.Core.Logic.{◌≢◌, ◌⊎◌, inl, inr}
use mathlib.Core.Bool.{Bool, true, false}
use mathlib.Core.List.{List, [], ◌∷◌}
use astral_project.Base.Lists.{All}

pub data Result {ℓ} (E A : Type ℓ) : Type ℓ where
  ok : A → Result E A
  err : E → Result E A

infixl 5 ◌>>=◌ ◌>>◌
abbrev pub ◌>>=◌ {ℓ} : {E A B : Type ℓ} → Result E A → (A → Result E B) → Result E B
err e >>= next = err e
ok x >>= next = next x

abbrev pub ◌>>◌ {ℓ} : {E A B : Type ℓ} → Result E A → Result E B → Result E B
step >> rest = step >>= λ _. rest

-- `if test: raise e`
abbrev pub raise_if : {E : Type 0} → Bool → E → Result E (Unit {0})
raise_if true e = err e
raise_if false e = ok tt

pub err-ne-ok {ℓ} : {E A : Type ℓ} {e : E} {a : A} → err e ≢ ok a
err-ne-ok h = cc

pub >>=-eq-ok {ℓ} :
    {E A B : Type ℓ} (step : Result E A) (next : A → Result E B) {y : B}
    → (step >>= next) ≡ ok y
    → (x : A) × (step ≡ ok x) × (next x ≡ ok y)
>>=-eq-ok (err e) next q = cc
>>=-eq-ok (ok x) next q = (x, refl, q)

-- A guard that did not raise: its test failed, and the rest ran.
pub raise_if-eq-ok :
    {E B : Type 0} (b : Bool) (e : E) (rest : Result E B) {v : B}
    → (raise_if b e >> rest) ≡ ok v
    → (b ≡ false) × (rest ≡ ok v)
raise_if-eq-ok true e rest h = cc
raise_if-eq-ok false e rest h = (refl, h)

pub Result-cases {ℓ} :
    {E A : Type ℓ} (r : Result E A) → ((a : A) × (r ≡ ok a)) ⊎ ((e : E) × (r ≡ err e))
Result-cases (ok a) = inl (a, refl)
Result-cases (err e) = inr (e, refl)

-- `tuple(f(x) for x in xs)`
unfoldable pub traverse {ℓ} : {E A B : Type ℓ} → (A → Result E B) → List A → Result E (List B)
traverse f [] = ok []
traverse f (x ∷ xs) = let rest = traverse f xs in do y ← f x; ys ← rest; ok (y ∷ ys)

-- `for x in xs: f(x)`
unfoldable pub each : {E A : Type 0} → (A → Result E (Unit {0})) → List A → Result E (Unit {0})
each f [] = ok tt
each f (x ∷ xs) = let rest = each f xs in f x >> rest

-- A loop that ends has run its body for each element, and it ends if each run does.
pub each-All :
    {E A : Type 0} (f : A → Result E (Unit {0})) (xs : List A)
    → each f xs ≡ ok tt
    → All (λ x. f x ≡ ok tt) xs
unfolding each
each-All f [] h = tt
each-All {E} f (x ∷ xs) h = first (f x) refl h (each-All f xs)
  where
    first :
        (r : Result E (Unit {0}))
        → f x ≡ r
        → (r >> each f xs) ≡ ok tt
        → (each f xs ≡ ok tt → All (λ x. f x ≡ ok tt) xs)
        → (f x ≡ ok tt) × All (λ x. f x ≡ ok tt) xs
    first (ok tt) e k ih = (e, ih k)
    first (err m) e k ih = cc

pub All-each :
    {E A : Type 0} (f : A → Result E (Unit {0})) (xs : List A)
    → All (λ x. f x ≡ ok tt) xs
    → each f xs ≡ ok tt
unfolding each
All-each f [] h = refl
All-each f (x ∷ xs) h = rw (h.0, All-each f xs h.1)
