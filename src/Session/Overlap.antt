-- ===== src/Session/Overlap.antt =====
-- session/ceiling.py: what `paths_overlap` decides about two roots.
use astral_project.Base.{
  ◌≡◌, refl, sym, ap, ◌∙◌, ◌↔◌, ◌⊎◌, inl, inr, true, ◌||◌, ◌++◌, arith, Bool-cases, or-eq-true,
  ◌==◌, ==_iff, nat_eq, string_eq, list_eq, option_eq, pair_eq, length, Text, codes, int_eq,
}
use astral_project.Base.Prefixes.{is_below, prefix_compare, below_split, length-below}
use astral_project.Session.Ceiling.{under, paths_overlap, SourceRootCeiling, holds_source}

-- The path is the root itself, or lies below it; everything lies below the root directory.
abbrev pub Inside : Text → Text → Type 0
Inside path root = (path ≡ root) ⊎ ((root ≡ codes "/") ⊎ (is_below path root ≡ true))

Inside-of_under : (path root : Text) → under path root ≡ true → Inside path root
unfolding under
Inside-of_under path root h = elim (Bool-cases (root == codes "/")) [
  | inl e ↦ inr (inl ((==_iff root (codes "/")).0 e))
  | inr e ↦ inr (inr (ground arith))
]

under_of_below : (path root : Text) → is_below path root ≡ true → under path root ≡ true
unfolding under
under_of_below path root h = elim (Bool-cases (path == root)) [
  | inl e ↦ absurd (omega (arith, length-below path root h, ap length ((==_iff path root).0 e)))
  | inr e ↦ rw (e, h) (ground arith)
]

same_or_under_top : (path root : Text) → root ≡ codes "/" → (path == root || under path root) ≡ true
unfolding under
same_or_under_top path root e = ground (arith, (==_iff root (codes "/")).1 e)

overlap_of_eq : (a b : Text) → a ≡ b → paths_overlap a b ≡ true
unfolding paths_overlap
overlap_of_eq a b e = rw ((==_iff a b).1 e)

overlap_of_under : (a b : Text) → under a b ≡ true → paths_overlap a b ≡ true
unfolding paths_overlap
overlap_of_under a b h = ground arith

overlap_of_above : (a b : Text) → under b a ≡ true → paths_overlap a b ≡ true
unfolding paths_overlap
overlap_of_above a b h = ground arith

overlap_of_top : (a b : Text) → b ≡ codes "/" → paths_overlap a b ≡ true
unfolding paths_overlap
overlap_of_top a b e = ground (arith, same_or_under_top a b e)

pub paths_overlap_sym : (a b : Text) → paths_overlap a b ≡ true → paths_overlap b a ≡ true
unfolding paths_overlap
paths_overlap_sym a b h = ground (arith, (==_iff a b).0, (==_iff b a).1)

overlap_of_bottom : (a b : Text) → a ≡ codes "/" → paths_overlap a b ≡ true
overlap_of_bottom a b e = paths_overlap_sym b a (overlap_of_top b a e)

below_both :
    (path a b : Text) → is_below path a ≡ true → is_below path b ≡ true → paths_overlap a b ≡ true
below_both path a b ha hb = elim (prefix_compare path (a ++ codes "/") (b ++ codes "/") ha hb) [
  | inl p ↦ elim (below_split a b p) [
    | inl e ↦ overlap_of_eq a b e
    | inr q ↦ overlap_of_under a b (under_of_below a b q)
  ]
  | inr p ↦ elim (below_split b a p) [
    | inl e ↦ overlap_of_eq a b (sym e)
    | inr q ↦ overlap_of_above a b (under_of_below b a q)
  ]
]

pub overlap_of_Inside : (path a b : Text) → Inside path a → Inside path b → paths_overlap a b ≡ true
overlap_of_Inside path a b (inr (inl e)) hb = overlap_of_bottom a b e
overlap_of_Inside path a b ha (inr (inl e)) = overlap_of_top a b e
overlap_of_Inside path a b (inl e) (inl f) = overlap_of_eq a b (sym e ∙ f)
overlap_of_Inside path a b (inl e) (inr (inr q)) =
    overlap_of_under a b (under_of_below a b (rw (← e) q))
overlap_of_Inside path a b (inr (inr q)) (inl f) =
    overlap_of_above a b (under_of_below b a (rw (← f) q))
overlap_of_Inside path a b (inr (inr q)) (inr (inr r)) = below_both path a b q r

Inside-of_overlap :
    (a b : Text) → paths_overlap a b ≡ true → (path : Text) × Inside path a × Inside path b
unfolding paths_overlap
Inside-of_overlap a b h = elim (or-eq-true (a == b || under a b) (under b a) h) [
  | inr u ↦ (b, Inside-of_under b a u, inl refl)
  | inl k ↦ elim (or-eq-true (a == b) (under a b) k) [
    | inl e ↦ (a, inl refl, inl ((==_iff a b).0 e))
    | inr u ↦ (a, inl refl, Inside-of_under a b u)
  ]
]

-- Two roots overlap exactly if some path lies inside both of them, component by component.
pub paths_overlap_iff :
    (a b : Text) → (paths_overlap a b ≡ true) ↔ ((path : Text) × Inside path a × Inside path b)
paths_overlap_iff a b = (Inside-of_overlap a b, λ w. overlap_of_Inside w.0 a b w.1 w.2)

pub holds_source-Inside :
    (source : Text) (root : SourceRootCeiling)
    → holds_source source root ≡ true
    → Inside source root.canonical_root
unfolding holds_source
holds_source-Inside source root h = elim (or-eq-true (source == root.canonical_root) _ h) [
  | inl e ↦ inl ((==_iff source root.canonical_root).0 e)
  | inr u ↦ Inside-of_under source root.canonical_root u
]

pub Inside-holds_source :
    (source : Text) (root : SourceRootCeiling)
    → Inside source root.canonical_root
    → holds_source source root ≡ true
unfolding holds_source
Inside-holds_source source root (inl e) = rw ((==_iff source root.canonical_root).1 e)
Inside-holds_source source root (inr (inl e)) = same_or_under_top source root.canonical_root e
Inside-holds_source source root (inr (inr q)) =
    ground (arith, under_of_below source root.canonical_root q)
