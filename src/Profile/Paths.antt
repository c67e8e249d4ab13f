-- ===== src/Profile/Paths.antt =====
-- profile.py: normalization leaves an accepted path as it is, and the paths that a rule covers.
use astral_project.Base.{
  ◌≡◌, sym, ap, ◌∙◌, ◌⊎◌, inl, inr, true, ◌||◌, ◌++◌, arith, or-eq-true, ◌==◌, ==_iff, nat_eq,
  string_eq, list_eq, option_eq, pair_eq, ok, raise_if-eq-ok, length, is_empty, any, Text, codes,
  starts_with, has_char, split, join, join-split, int_eq,
}
use astral_project.Base.Prefixes.{is_below, prefix_compare, below_split, below_same, length-below}
use astral_project.Profile.Rule.{
  Rule, subtree, normalize_home_path, is_special_part, covers, matches,
}

-- A path that normalization accepts is the path that it returns.
pub normalize_same : (path : Text) {q : Text} → normalize_home_path path ≡ ok q → q ≡ path
unfolding normalize_home_path
normalize_same path {q} h =
    let (_, h1) = raise_if-eq-ok (is_empty path) _ _ h in
    let (_, h2) = raise_if-eq-ok (has_char b'\\' path || has_char 0 path) _ _ h1 in
    let (_, h3) = raise_if-eq-ok (starts_with path (codes "/")) _ _ h2 in
    let (_, h4) = raise_if-eq-ok (any is_special_part (split b'/' path)) _ _ h3 in
    let e : join b'/' (split b'/' path) ≡ q = cc in sym e ∙ join-split b'/' path

pub matches-normal :
    (r : Rule) (path : Text)
    → normalize_home_path path ≡ ok path
    → matches r path ≡ ok (covers r path)
unfolding matches
matches-normal r path h = rw h

pub covers_of_eq : (r : Rule) (path : Text) → path ≡ r.path → covers r path ≡ true
unfolding covers
covers_of_eq r path e = rw ((==_iff path r.path).1 e)

covers_of_below :
    (r : Rule) (path : Text)
    → r.scope ≡ subtree
    → is_below path r.path ≡ true
    → covers r path ≡ true
unfolding covers
covers_of_below r path s b = ground arith

-- What it takes to be covered.
pub covers-cases :
    (r : Rule) (path : Text)
    → covers r path ≡ true
    → (path ≡ r.path) ⊎ ((r.scope ≡ subtree) × (is_below path r.path ≡ true))
unfolding covers
covers-cases r path h = elim (or-eq-true (path == r.path) _ h) [
  | inl e ↦ inl ((==_iff path r.path).0 e)
  | inr e ↦ inr (ground arith)
]

-- Two rules that cover one path: one of the two covers the path of the other.
pub covers_meet :
    (left right : Rule) (path : Text)
    → covers left path ≡ true
    → covers right path ≡ true
    → (covers left right.path ≡ true) ⊎ (covers right left.path ≡ true)
covers_meet left right path h k = elim (covers-cases left path h) [
  | inl e ↦ inr (rw (← e) k)
  | inr (s, b) ↦ elim (covers-cases right path k) [
    | inl e ↦ inl (rw (← e) h)
    | inr (t, c) ↦
        elim (prefix_compare path (left.path ++ codes "/") (right.path ++ codes "/") b c) [
          | inl p ↦ elim (below_split left.path right.path p) [
            | inl e ↦ inr (covers_of_eq right left.path e)
            | inr d ↦ inr (covers_of_below right left.path t d)
          ]
          | inr p ↦ elim (below_split right.path left.path p) [
            | inl e ↦ inl (covers_of_eq left right.path e)
            | inr d ↦ inl (covers_of_below left right.path s d)
          ]
        ]
  ]
]

-- Two rules that cover one path and have paths of one length have the same path.
pub covers_same :
    (r s : Rule) (path : Text)
    → covers r path ≡ true
    → covers s path ≡ true
    → length r.path ≡ length s.path
    → r.path ≡ s.path
covers_same r s path h k l = elim (covers-cases r path h) [
  | inl e ↦ elim (covers-cases s path k) [
    | inl f ↦ sym e ∙ f
    | inr (_, b) ↦ absurd (omega (arith, length-below path s.path b, ap length e))
  ]
  | inr (_, a) ↦ elim (covers-cases s path k) [
    | inl f ↦ absurd (omega (arith, length-below path r.path a, ap length f))
    | inr (_, b) ↦ below_same path r.path s.path a b l
  ]
]
