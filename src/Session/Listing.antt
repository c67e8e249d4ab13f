-- ===== src/Session/Listing.antt =====
-- session/listing.py: the paths that a session may list.
use astral_project.Base.{
  ◌∷◌, [], String, Bool, true, false, not, ◌&&◌, ◌||◌, List, [], ◌∷◌, ◌++◌, if◌then◌else◌, ◌==◌,
  nat_eq, string_eq, list_eq, option_eq, pair_eq, Result, ok, ◌>>=◌, ◌>>◌, raise_if, is_empty, any,
  Text, codes, starts_with, has_char, split, int_eq,
}
use astral_project.Core.{AstralError, astral_error, daemon_auth}
use astral_project.Grant.Types.{is_dot_part}

pub record SessionListingScope : Type 0 where
  pub grant_name : Text
  pub allowed_paths : List Text

-- `_error`
abbrev pub listing_error : String → AstralError
listing_error message = astral_error daemon_auth message

-- `any(part in {".", ".."} for part in path.split("/"))`
abbrev pub has_dots : Text → Bool
has_dots path = any is_dot_part (split b'/' path)

-- `SessionListingScope.__post_init__`
unfoldable pub make_scope : SessionListingScope → Result AstralError SessionListingScope
make_scope s = do
  raise_if
      (is_empty s.grant_name
        || any (λ path. not (starts_with path (codes "/")) || has_char 0 path || has_dots path)
            s.allowed_paths)
      (listing_error "session listing scope is invalid")
  ok s

-- `root.rstrip("/")`
unfoldable pub strip_slashes : Text → Text
strip_slashes [] = []
strip_slashes (c ∷ cs) =
    let rest = strip_slashes cs in if is_empty rest && c == 47 then [] else c ∷ rest

-- `target.partition(":")`, with whether the separator is there
unfoldable pub partition : Text → Text × (Bool × Text)
partition [] = ([], (false, []))
partition (c ∷ cs) =
    let (front, rest) = partition cs in if c == 58 then ([], (true, cs)) else (c ∷ front, rest)

-- `path == root or path.startswith(root.rstrip("/") + "/")`
abbrev pub lies_in : Text → Text → Bool
lies_in path root = path == root || starts_with path (strip_slashes root ++ codes "/")

-- `authorize_path`
unfoldable pub authorize_path : SessionListingScope → Text → Result AstralError Text
unfolding strip_slashes
authorize_path scope path = do
  raise_if (not (starts_with path (codes "/"))) (listing_error "listing path must be absolute")
  raise_if (has_char 0 path || has_dots path) (listing_error "listing target contains traversal")
  raise_if (not (any (lies_in path) scope.allowed_paths))
      (listing_error "listing target is outside bound export")
  ok (codes "aspr-session:" ++ path)

-- `authorize`
unfoldable pub authorize : SessionListingScope → Text → Result AstralError Text
unfolding authorize_path partition
authorize scope target =
    let (prefix, (separator, path)) = partition target in
    do
      raise_if
          (not separator || not (prefix == scope.grant_name) || not (starts_with path (codes "/")))
          (listing_error "listing target selects another grant or host")
      authorize_path scope path

module _ {Payload ListingOptions : Type 0}
    (listing_options_from_payload : Payload → Result AstralError (Text × ListingOptions)) where
  -- `constrain_session_listing_payload`
  unfoldable pub constrain_session_listing_payload :
      Payload → SessionListingScope → Result AstralError (Text × ListingOptions)
  unfolding authorize_path
  constrain_session_listing_payload payload scope = do
    (target, options) ← listing_options_from_payload payload
    path ← authorize_path scope target
    ok (path, options)

  -- `constrain_listing_payload`
  unfoldable pub constrain_listing_payload :
      Payload → SessionListingScope → Result AstralError (Text × ListingOptions)
  unfolding authorize
  constrain_listing_payload payload scope = do
    (target, options) ← listing_options_from_payload payload
    path ← authorize scope target
    ok (path, options)
