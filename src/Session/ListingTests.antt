-- ===== src/Session/ListingTests.antt =====
-- session/listing.py: a scope of one root, and the theorem at it.
use astral_project.Base.{
  ◌≡◌, refl, false, [], ◌∷◌, ◌++◌, nat_eq, string_eq, list_beq, list_eq, option_eq, pair_eq, ok,
  any, contains, Text, codes, starts_with, has_char, split, int_eq,
}
use astral_project.Session.Listing.{
  SessionListingScope, authorize, partition, authorize_path, strip_slashes,
}
use astral_project.Session.Confined.{IsConfined, authorize-IsConfined}

abbrev listing_scope : SessionListingScope
listing_scope = record { grant_name = codes "g"; allowed_paths = codes "/d" ∷ [] }

lists : authorize listing_scope (codes "g:/d/x") ≡ ok (codes "aspr-session:/d/x")
unfolding authorize partition authorize_path strip_slashes starts_with has_char any split contains
    list_beq
lists = refl

authorize-IsConfined_example :
    (authorize listing_scope (codes "g:/d/x") ≡ ok (codes "aspr-session:/d/x")
      → (path : Text) × (codes "g:/d/x" ≡ codes "g" ++ 58 ∷ path)
        × (has_char 58 (codes "g") ≡ false)
        × (codes "aspr-session:/d/x" ≡ codes "aspr-session:" ++ path)
        × IsConfined listing_scope path)
    × (authorize_path listing_scope (codes "g:/d/x") ≡ ok (codes "aspr-session:/d/x")
        → (codes "aspr-session:/d/x" ≡ codes "aspr-session:" ++ codes "g:/d/x")
          × IsConfined listing_scope (codes "g:/d/x"))
authorize-IsConfined_example =
    authorize-IsConfined listing_scope (codes "g:/d/x") (codes "aspr-session:/d/x")
