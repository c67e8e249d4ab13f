-- ===== src/Session/Confined.antt =====
-- session/listing.py: an authorized path lies in an allowed root and nowhere else.
use astral_project.Base.{
  ◌≡◌, refl, sym, ap, ◌∙◌, ◌⊎◌, inl, inr, true, false, not, ◌||◌, [], ◌∷◌, ◌++◌, arith, Bool-cases,
  or-eq-true, or-eq-false, ◌==◌, ==_iff, nat_eq, string_eq, list_eq, option_eq, pair_eq, ok, any,
  In, any-eq-true, Text, codes, starts_with, has_char, starts_with-split, int_eq, raise_if-eq-ok,
}
use astral_project.Session.Listing.{
  SessionListingScope, authorize, authorize_path, lies_in, partition, strip_slashes, has_dots,
}

-- The path is the root or lies below it, after the slashes at the end of the root.
abbrev pub LiesIn : Text → Text → Type 0
LiesIn path root =
    (path ≡ root) ⊎ ((rest : Text) × (path ≡ (strip_slashes root ++ codes "/") ++ rest))

-- An absolute path without a NUL and without the parts . and .. that lies in an allowed root.
abbrev pub IsConfined : SessionListingScope → Text → Type 0
IsConfined scope path =
    (starts_with path (codes "/") ≡ true)
    × (has_char 0 path ≡ false)
    × (has_dots path ≡ false)
    × ((root : Text) × In root scope.allowed_paths × LiesIn path root)

lies_in_sound : (path root : Text) → lies_in path root ≡ true → LiesIn path root
lies_in_sound path root h =
    elim (or-eq-true (path == root) (starts_with path (strip_slashes root ++ codes "/")) h) [
      | inl e ↦ inl ((==_iff path root).0 e)
      | inr s ↦ inr (starts_with-split path (strip_slashes root ++ codes "/") s)
    ]

authorize_path_sound :
    (scope : SessionListingScope) (path out : Text)
    → authorize_path scope path ≡ ok out
    → (out ≡ codes "aspr-session:" ++ path) × IsConfined scope path
unfolding authorize_path
authorize_path_sound scope path out h =
    let (absolute, h1) = raise_if-eq-ok (not (starts_with path (codes "/"))) _ _ h in
    let (clean, h2) = raise_if-eq-ok (has_char 0 path || has_dots path) _ _ h1 in
    let (inside, h3) = raise_if-eq-ok (not (any (lies_in path) scope.allowed_paths)) _ _ h2 in
    let (nul, dots) = or-eq-false (has_char 0 path) (has_dots path) clean in
    let some_root : any (lies_in path) scope.allowed_paths ≡ true = ground (arith, inside) in
    let (root, m, q) = any-eq-true (lies_in path) scope.allowed_paths some_root in
    let e : codes "aspr-session:" ++ path ≡ out = cc in
    (sym e, (ground (arith, absolute), nul, dots, (root, m, lies_in_sound path root q)))

partition_join :
    (t : Text) → (partition t).1.0 ≡ true → t ≡ (partition t).0 ++ 58 ∷ (partition t).1.1
unfolding partition
partition_join [] h = cc
partition_join (c ∷ cs) h = elim (Bool-cases (c == 58)) [
  | inl e ↦ rw (partition, e) (ap (λ x. x ∷ cs) ((==_iff c 58).0 e))
  | inr e ↦ rw (partition, e) (ap (λ x. c ∷ x) (partition_join cs (rw (partition, e) at h)))
]

partition-front : (t : Text) → has_char 58 (partition t).0 ≡ false
unfolding partition has_char
partition-front [] = refl
partition-front (c ∷ cs) = elim (Bool-cases (c == 58)) [
  | inl e ↦ rw (partition, e) refl
  | inr e ↦ rw (partition, e, e) (partition-front cs)
]

-- A listing target that is authorized names the grant of the session, up to the first colon, and behind
-- it an absolute path without traversal in one of the roots of the scope; the answer is that path behind
-- "aspr-session:", and the listing of a path in a session is confined and answered in the same way.
pub authorize-IsConfined :
    (scope : SessionListingScope) (target out : Text)
    → (authorize scope target ≡ ok out
        → (path : Text) × (target ≡ scope.grant_name ++ 58 ∷ path)
          × (has_char 58 scope.grant_name ≡ false)
          × (out ≡ codes "aspr-session:" ++ path)
          × IsConfined scope path)
      × (authorize_path scope target ≡ ok out
          → (out ≡ codes "aspr-session:" ++ target) × IsConfined scope target)
unfolding authorize
authorize-IsConfined scope target out = (of_target, authorize_path_sound scope target out)
  where
    prefix : Text
    prefix = (partition target).0

    path : Text
    path = (partition target).1.1

    of_target :
        authorize scope target ≡ ok out
        → (path : Text) × (target ≡ scope.grant_name ++ 58 ∷ path)
          × (has_char 58 scope.grant_name ≡ false)
          × (out ≡ codes "aspr-session:" ++ path)
          × IsConfined scope path
    of_target h =
        let (ours, h1) =
          raise_if-eq-ok
            (not ((partition target).1.0)
              || not (prefix == scope.grant_name)
              || not (starts_with path (codes "/")))
            _ _ h in
        let (first, absolute) =
          or-eq-false (not ((partition target).1.0) || not (prefix == scope.grant_name))
            (not (starts_with path (codes "/"))) ours in
        let (found, named) =
          or-eq-false (not ((partition target).1.0)) (not (prefix == scope.grant_name)) first in
        let grant : prefix ≡ scope.grant_name =
          (==_iff prefix scope.grant_name).0 (ground (arith, named)) in
        let (answer, confined) = authorize_path_sound scope path out h1 in
        (
          path,
          partition_join target (ground (arith, found)) ∙ ap (λ x. x ++ 58 ∷ path) grant,
          ap (has_char 58) (sym grant) ∙ partition-front target,
          answer,
          confined,
        )
