-- ===== src/Session/Ceiling.antt =====
-- session/ceiling.py: the administrator's ceiling per source root, and the check of a grant against it.
use astral_project.Base.{
  String, Bool, false, not, ◌&&◌, ◌||◌, Option, none, some, List, [], ◌∷◌, ◌++◌, if◌then◌else◌,
  ◌==◌, nat_eq, string_eq, list_eq, option_eq, pair_eq, Result, ok, err, ◌>>◌, raise_if, each,
  length, is_empty, any, find?, contains, Text, Bytes, codes, starts_with, has_char, split,
  encode_utf8, ℤ, pos, ltb_ℤ, ◌-ℤ◌, int_eq,
}
use astral_project.Base.Order.{sort_by, text_leb}
use astral_project.Core.{AstralError, astral_error, grant_invalid}
use astral_project.Grant.Types.{
  AccessMode, ExportKind, export_kind_eq, kind_value, is_read_write, is_dot_part, sorted_set, Grant,
  GrantExport,
}

-- `_error`
abbrev pub ceiling_error : String → AstralError
ceiling_error message = astral_error grant_invalid message

-- `_under`
unfoldable pub under : Text → Text → Bool
under path root = not (path == root) && (root == codes "/" || starts_with path (root ++ codes "/"))

unfoldable pub paths_overlap : Text → Text → Bool
paths_overlap left right = left == right || under left right || under right left

-- `_path`
unfoldable pub check_path : Text → Result AstralError (Unit {0})
check_path value =
    raise_if
      (not (starts_with value (codes "/"))
        || has_char 0 value
        || any is_dot_part (split b'/' value))
      (ceiling_error "contains invalid path")

-- `_roots`
unfoldable pub check_roots : List Text → Bool → Result AstralError (Unit {0})
check_roots values require_nonempty = do
  raise_if (require_nonempty && is_empty values || not (sorted_set values == values))
      (ceiling_error "must be unique sorted paths")
  each check_path values

pub record SourceRootCeiling : Type 0 where
  pub canonical_root : Text
  pub maximum_access : AccessMode
  pub allowed_kinds : List ExportKind
  pub nested_mount_policy : Text

unfoldable pub unique_kinds : List ExportKind → List ExportKind
unique_kinds [] = []
unique_kinds (k ∷ ks) = let rest = unique_kinds ks in if contains ks k then rest else k ∷ rest

-- `sorted(set(kinds), key=lambda item: item.value)`
unfoldable pub sorted_kinds : List ExportKind → List ExportKind
unfolding unique_kinds
sorted_kinds kinds = sort_by (λ a b. text_leb (kind_value a) (kind_value b)) (unique_kinds kinds)

-- `SourceRootCeilingV1.__post_init__`
unfoldable pub make_source_root : SourceRootCeiling → Result AstralError SourceRootCeiling
make_source_root r = do
  check_path r.canonical_root
  raise_if (is_empty r.allowed_kinds || not (sorted_kinds r.allowed_kinds == r.allowed_kinds))
      (ceiling_error "source root kinds must be unique sorted")
  raise_if (not (contains (codes "forbid" ∷ codes "advisory" ∷ []) r.nested_mount_policy))
      (ceiling_error "source root nested mount policy is invalid")
  ok r

pub record ServerCeiling : Type 0 where
  pub source_roots : List SourceRootCeiling
  pub allowed_issuers : List Text
  pub forbidden_source_roots : List Text
  pub max_exports : ℤ
  pub max_ttl_seconds : ℤ
  pub policy_hash : Bytes
  pub version : ℤ

-- `any(test(left, right) for index, left in enumerate(xs) for right in xs[index + 1:])`
unfoldable pub any_pair : (Text → Text → Bool) → List Text → Bool
any_pair test [] = false
any_pair test (x ∷ xs) = any (test x) xs || any_pair test xs

abbrev pub root_paths : List SourceRootCeiling → List Text
root_paths [] = []
root_paths (r ∷ rs) = r.canonical_root ∷ root_paths rs

-- `tuple(sorted(values, key=str.encode))`
unfoldable pub sort_encoded : List Text → List Text
sort_encoded values = sort_by (λ a b. text_leb (encode_utf8 a) (encode_utf8 b)) values

-- `len(set(values)) != len(values)`: two of them are equal
unfoldable pub has_duplicate : List Text → Bool
has_duplicate [] = false
has_duplicate (x ∷ xs) = contains xs x || has_duplicate xs

-- `ServerCeilingV1.__post_init__`
unfoldable pub make_ceiling : ServerCeiling → Result AstralError ServerCeiling
make_ceiling c = do
  raise_if (not (c.version == pos 1)) (ceiling_error "unsupported server ceiling version")
  raise_if (not (length c.policy_hash == 32))
      (ceiling_error "server ceiling policy hash must be 32 bytes")
  raise_if (ltb_ℤ c.max_exports (pos 1) || ltb_ℤ c.max_ttl_seconds (pos 1))
      (ceiling_error "server ceiling limits are invalid")
  raise_if (is_empty c.source_roots) (ceiling_error "server ceiling requires source roots")
  let roots = root_paths c.source_roots
  raise_if (not (roots == sort_encoded roots) || has_duplicate roots)
      (ceiling_error "source roots must be unique sorted")
  raise_if (any_pair paths_overlap roots)
      (ceiling_error "overlapping source roots require explicit precedence ADR")
  check_roots c.forbidden_source_roots false
  raise_if (is_empty c.allowed_issuers || not (sorted_set c.allowed_issuers == c.allowed_issuers))
      (ceiling_error "server ceiling issuer list must be unique sorted")
  ok c

-- The test of the search for the root of an export.
unfoldable pub holds_source : Text → SourceRootCeiling → Bool
holds_source source root = source == root.canonical_root || under source root.canonical_root

-- What follows the search for the root.
unfoldable pub check_under_root :
    ServerCeiling → GrantExport → Option SourceRootCeiling → Result AstralError (Unit {0})
check_under_root c e none = err (ceiling_error "grant source is outside allowed server roots")
check_under_root c e (some root) = do
  raise_if (not (contains root.allowed_kinds e.kind))
      (ceiling_error "grant export type is outside source root ceiling")
  raise_if (is_read_write e.access_mode && not (is_read_write root.maximum_access))
      (ceiling_error "read-write export is outside source root ceiling")
  raise_if (any (paths_overlap e.canonical_source) c.forbidden_source_roots)
      (ceiling_error "grant source overlaps forbidden server root")

-- The body of the loop over the exports.
unfoldable pub check_export : ServerCeiling → GrantExport → Result AstralError (Unit {0})
unfolding check_under_root
check_export c e = check_under_root c e (find? (holds_source e.canonical_source) c.source_roots)

abbrev pub hash_differs : Option Bytes → Bytes → Bool
hash_differs none expected = false
hash_differs (some h) expected = not (h == expected)

unfoldable pub validate_grant_against_ceiling :
    Grant → ServerCeiling → Result AstralError (Unit {0})
validate_grant_against_ceiling g c = do
  raise_if (not (contains c.allowed_issuers g.issuer_key_id))
      (ceiling_error "grant issuer is outside server ceiling")
  raise_if (ltb_ℤ c.max_exports (pos (length g.exports)))
      (ceiling_error "grant export count exceeds server ceiling")
  raise_if (ltb_ℤ c.max_ttl_seconds (g.expires_at -ℤ g.issued_at))
      (ceiling_error "grant lifetime exceeds server ceiling")
  raise_if (hash_differs g.server_policy_hash c.policy_hash)
      (ceiling_error "grant server policy hash does not match server ceiling")
  each (check_export c) g.exports
