-- ===== src/Base/Prefixes.antt =====
-- Paths as texts: one path below another, component by component.
use astral_project.Base.Tests.{and-eq-true}
use astral_project.Base.Equality.{◌==◌, ==_iff, ==_refl, nat_eq}
use astral_project.Base.Lists.{length, length-append}
use astral_project.Base.Texts.{Text, codes, starts_with, starts_with-split}
use Prim.Native.Nat.{◌<◌}
use mathlib.Core.Path.{◌≡◌, refl, ap}
use mathlib.Core.Logic.{◌⊎◌, inl, inr}
use mathlib.Core.Bool.{Bool, true}
use mathlib.Core.List.{[], ◌∷◌, ◌++◌}
use native.Mathlib.Omega.{arith}

-- `path.startswith(root + "/")`
abbrev pub is_below : Text → Text → Bool
is_below path root = starts_with path (root ++ codes "/")

-- Two texts that start the same text: the shorter is a prefix of the longer.
pub prefix_compare :
    (text p q : Text)
    → starts_with text p ≡ true
    → starts_with text q ≡ true
    → (starts_with p q ≡ true) ⊎ (starts_with q p ≡ true)
unfolding starts_with
prefix_compare text [] q h k = inr refl
prefix_compare text (c ∷ p) [] h k = inl refl
prefix_compare [] (c ∷ p) (d ∷ q) h k = cc
prefix_compare (x ∷ text) (c ∷ p) (d ∷ q) h k =
    let (xc, h') = and-eq-true (x == c) (starts_with text p) h in
    let (xd, k') = and-eq-true (x == d) (starts_with text q) k in
    let cd : c ≡ d = cc ((==_iff x c).0 xc, (==_iff x d).0 xd) in
    elim (prefix_compare text p q h' k') [
      | inl s ↦ inl (rw (← cd, ==_refl c) s)
      | inr s ↦ inr (rw (cd, ==_refl d) s)
    ]

-- A directory that starts another with its slash is that one, or an ancestor of it.
pub below_split :
    (p q : Text)
    → starts_with (p ++ codes "/") (q ++ codes "/") ≡ true
    → (p ≡ q) ⊎ (is_below p q ≡ true)
unfolding starts_with
below_split [] [] h = inl refl
below_split [] (d ∷ []) h = ground arith
below_split [] (d ∷ e ∷ q) h = ground arith
below_split (c ∷ []) [] h = inr (ground arith)
below_split (c ∷ d ∷ p) [] h = inr (ground arith)
below_split (c ∷ p) (d ∷ q) h =
    let (cd, h') = and-eq-true (c == d) (starts_with (p ++ codes "/") (q ++ codes "/")) h in
    let e : c ≡ d = (==_iff c d).0 cd in
    elim (below_split p q h') [ inl s ↦ inl (cc) | inr s ↦ inr (rw cd s) ]

-- Two roots of one length above one path are the same root.
pub below_same :
    (text p q : Text)
    → is_below text p ≡ true
    → is_below text q ≡ true
    → length p ≡ length q
    → p ≡ q
unfolding starts_with
below_same text [] [] h k l = refl
below_same text [] (d ∷ q) h k l = absurd (omega arith)
below_same text (c ∷ p) [] h k l = absurd (omega arith)
below_same [] (c ∷ p) (d ∷ q) h k l = cc
below_same (x ∷ text) (c ∷ p) (d ∷ q) h k l =
    let (xc, h') = and-eq-true (x == c) (is_below text p) h in
    let (xd, k') = and-eq-true (x == d) (is_below text q) k in
    cc ((==_iff x c).0 xc, (==_iff x d).0 xd, below_same text p q h' k' (omega arith))

pub length-below : (text p : Text) → is_below text p ≡ true → length p < length text
length-below text p h =
    let (rest, e) = starts_with-split text (p ++ codes "/") h in
    omega
      (arith, ap length e, length-append {0} (p ++ codes "/") rest, length-append {0} p (codes "/"))
