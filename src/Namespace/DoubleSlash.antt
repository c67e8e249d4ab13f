-- ===== src/Namespace/DoubleSlash.antt =====
-- namespace/planner.py: targets with two leading slashes, which `PurePosixPath` leaves as they are.
use astral_project.Base.{
  ◌≡◌, refl, ap, ◌∙◌, true, false, [], ◌∷◌, arith, ltb, ◌==◌, ==_iff, nat_eq, string_eq, list_beq,
  list_eq, option_eq, pair_eq, ok, length, any, filter, contains, Text, codes, starts_with,
  has_char, split, encode_utf8, int_eq,
}
use astral_project.Namespace.Planner.{
  normalized_target, path_parts, posix_path, reserved, paths_overlap,
}

-- The tests of `_normalized_target` on a target that passes.
normalized_target-tests :
    (t : Text)
    → normalized_target t ≡ ok t
    → (has_char 0 t ≡ false)
      × (contains (path_parts t) (codes "..") ≡ false)
      × ((posix_path t == t) ≡ true)
      × (any (λ part. ltb 255 (length (encode_utf8 part))) (path_parts t) ≡ false)
unfolding normalized_target
normalized_target-tests t h = ground arith

path_parts-double : (u : Text) → path_parts (b'/' ∷ b'/' ∷ u) ≡ path_parts (b'/' ∷ u)
unfolding path_parts split filter list_beq
path_parts-double u = refl

posix_path-double :
    (u : Text)
    → starts_with u (codes "/") ≡ false
    → posix_path (b'/' ∷ b'/' ∷ u) ≡ b'/' ∷ posix_path (b'/' ∷ u)
unfolding posix_path starts_with
posix_path-double u h = rw (h, path_parts-double u)

posix_path-double_same :
    (u : Text)
    → starts_with u (codes "/") ≡ false
    → (posix_path (b'/' ∷ u) == b'/' ∷ u) ≡ true
    → (posix_path (b'/' ∷ b'/' ∷ u) == b'/' ∷ b'/' ∷ u) ≡ true
posix_path-double_same u h e = (==_iff (posix_path (b'/' ∷ b'/' ∷ u)) (b'/' ∷ b'/' ∷ u)).1 (
    posix_path-double u h
    ∙ ap (λ (t : Text). b'/' ∷ t) ((==_iff (posix_path (b'/' ∷ u)) (b'/' ∷ u)).0 e))

not_root : (u : Text) → (b'/' ∷ b'/' ∷ u == codes "/") ≡ false
unfolding list_beq
not_root u = refl

absolute : (u : Text) → starts_with (b'/' ∷ u) (codes "/") ≡ true
unfolding starts_with
absolute [] = refl
absolute (c ∷ u) = refl

no_nul : (u : Text) → has_char 0 (b'/' ∷ u) ≡ false → has_char 0 (b'/' ∷ b'/' ∷ u) ≡ false
unfolding has_char
no_nul u h = h

-- A reserved target hides behind a second leading slash: for every normalized target with one slash
-- in front that leaves room for another, the same target with two is accepted as normalized too,
-- and the reserved paths do not overlap it.
pub double_slash :
    (u : Text)
    → normalized_target (b'/' ∷ u) ≡ ok (b'/' ∷ u)
    → starts_with u (codes "/") ≡ false
    → ltb 4096 (length (encode_utf8 (b'/' ∷ b'/' ∷ u))) ≡ false
    → (normalized_target (b'/' ∷ b'/' ∷ u) ≡ ok (b'/' ∷ b'/' ∷ u))
      × (reserved (b'/' ∷ b'/' ∷ u) ≡ false)
unfolding normalized_target
double_slash u n s l =
    let (nul, dots, same, long) = normalized_target-tests (b'/' ∷ u) n in
    let p = path_parts-double u in
    (
      rw (
        absolute (b'/' ∷ u),
        not_root u,
        no_nul u nul,
        p,
        dots,
        posix_path-double_same u s same,
        l,
        long,
      ),
      unfold reserved paths_overlap any list_beq starts_with in refl,
    )
