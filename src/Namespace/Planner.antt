-- ===== src/Namespace/Planner.antt =====
-- namespace/planner.py: planned exports, the plan's own checks, and the loop that builds a plan.
use astral_project.Base.{
  ℕ, ◌+◌, String, Bool, not, ◌&&◌, ◌||◌, Option, none, some, List, [], ◌∷◌, ◌++◌, ltb, leb,
  if◌then◌else◌, ◌==◌, nat_eq, string_eq, list_eq, option_eq, pair_eq, Result, ok, err, ◌>>=◌, ◌>>◌,
  raise_if, length, is_empty, any, filter, find?, contains, Text, codes, starts_with, has_char,
  split, encode_utf8, join, ℤ, pos, int_eq,
}
use astral_project.Base.Order.{sort_by, text_leb}
use astral_project.Core.{AstralError, astral_error, path_resolution}
use astral_project.Grant.Types.{
  AccessMode, access_mode_eq, export_kind_eq, kind_value, SourceIdentity, GrantExport, Grant,
}

-- `_error`
abbrev pub plan_error : String → AstralError
plan_error message = astral_error path_resolution message

abbrev pub internal_staging_root : Text
internal_staging_root = codes "/.astral-project/staging"

abbrev pub runtime_root : Text
runtime_root = codes "/.astral-project-runtime"

-- The parts of an absolute path behind its root: `PurePosixPath` drops empty parts and `.`.
abbrev pub is_dropped : Text → Bool
is_dropped part = is_empty part || part == codes "."

unfoldable pub path_parts : Text → List Text
path_parts target = filter (λ part. not (is_dropped part)) (split b'/' target)

-- `str(PurePosixPath(target))` for a target that starts with a slash. POSIX lets exactly two leading
-- slashes stand for a root of their own, and `PurePosixPath` keeps them.
unfoldable pub posix_path : Text → Text
posix_path target =
    (if starts_with target (codes "//") && not (starts_with target (codes "///"))
      then codes "//"
      else codes "/")
    ++ join b'/' (path_parts target)

-- `_normalized_target`
unfoldable pub normalized_target : Text → Result AstralError Text
normalized_target target = do
  raise_if
      (not (starts_with target (codes "/"))
        || target == codes "/"
        || has_char 0 target
        || contains (path_parts target) (codes "..")
        || not (posix_path target == target)
        || ltb 4096 (length (encode_utf8 target))
        || any (λ part. ltb 255 (length (encode_utf8 part))) (path_parts target))
      (plan_error "virtual target must be bounded absolute normalized non-root path")
  ok target

pub record PlannedExport : Type 0 where
  pub access_mode : AccessMode
  pub descriptor_slot : ℕ
  pub identity : SourceIdentity
  pub kind : Text
  pub virtual_target : Text

-- `PlannedExport.__post_init__`; slots that the planner gives are not negative
unfoldable pub make_planned_export : PlannedExport → Result AstralError PlannedExport
make_planned_export e = do
  raise_if (not (kind_value e.identity.object_type == e.kind))
      (plan_error "planned export kind does not match descriptor identity")
  normalized_target e.virtual_target
  ok e

-- `_paths_overlap`
unfoldable pub paths_overlap : Text → Text → Bool
paths_overlap left right =
    left == right || starts_with left (right ++ codes "/") || starts_with right (left ++ codes "/")

-- `_nested`
unfoldable pub nested : Text → Text → Bool
nested left right = starts_with left (right ++ codes "/") || starts_with right (left ++ codes "/")

abbrev pub reserved_roots : List Text
reserved_roots = internal_staging_root ∷ runtime_root ∷ codes "/dev" ∷ codes "/etc" ∷ []

-- `_reserved`
unfoldable pub reserved : Text → Bool
reserved target = any (paths_overlap target) reserved_roots

unfoldable pub same_identity : SourceIdentity → SourceIdentity → Bool
same_identity a b =
    a.device == b.device
    && a.inode == b.inode
    && a.filesystem_type == b.filesystem_type
    && a.object_type == b.object_type

-- `_same_export`
unfoldable pub same_export : PlannedExport → PlannedExport → Bool
same_export left right =
    left.access_mode == right.access_mode
    && same_identity left.identity right.identity
    && left.kind == right.kind
    && left.virtual_target == right.virtual_target

-- The rest of the loop's body once the duplicate has been looked up.
unfoldable pub place :
    List PlannedExport
    → PlannedExport
    → Option PlannedExport
    → Result AstralError (List PlannedExport)
place planned candidate (some duplicate) =
    if same_export duplicate candidate
    then ok planned
    else err (plan_error "virtual target collision")
place planned candidate none = do
  raise_if (any (λ item. nested item.virtual_target candidate.virtual_target) planned)
      (plan_error "nested virtual targets require later explicit topology policy")
  ok (planned ++ candidate ∷ [])

-- One round of the loop.
unfoldable pub plan_export :
    List PlannedExport → GrantExport → Result AstralError (List PlannedExport)
plan_export planned e = do
  target ← normalized_target e.virtual_target
  raise_if (reserved target) (plan_error "virtual target overlaps reserved runtime path")
  candidate ← make_planned_export (record {
    access_mode = e.access_mode;
    descriptor_slot = length planned;
    identity = e.source_identity;
    kind = kind_value e.kind;
    virtual_target = target;
  })
  place planned candidate (find? (λ item. item.virtual_target == target) planned)

unfoldable pub plan_exports :
    List PlannedExport → List GrantExport → Result AstralError (List PlannedExport)
plan_exports planned [] = ok planned
plan_exports planned (e ∷ es) = plan_export planned e >>= λ next. plan_exports next es

-- `key=lambda export: export.virtual_target.encode("utf-8")`
unfoldable pub target_leb : Text → Text → Bool
target_leb a b = text_leb (encode_utf8 a) (encode_utf8 b)

pub record NamespacePlan : Type 0 where
  pub exports : List PlannedExport
  pub staging_root : Text
  pub workload : Text
  pub format_version : ℤ

-- `tuple(range(len(xs)))` from a first value on
unfoldable pub range_from : ℕ → List PlannedExport → List ℕ
range_from n [] = []
range_from n (e ∷ es) = n ∷ range_from (n + 1) es

abbrev pub slots : List PlannedExport → List ℕ
slots [] = []
slots (e ∷ es) = e.descriptor_slot ∷ slots es

abbrev pub targets : List PlannedExport → List Text
targets [] = []
targets (e ∷ es) = e.virtual_target ∷ targets es

-- `NamespacePlan.__post_init__`
unfoldable pub make_plan : NamespacePlan → Result AstralError NamespacePlan
make_plan p = do
  raise_if (not (p.format_version == pos 1))
      (plan_error "unsupported namespace plan format version")
  raise_if (is_empty p.exports) (plan_error "namespace plan requires exports")
  raise_if (not (p.staging_root == internal_staging_root) || not (p.workload == codes "sftp_v1"))
      (plan_error "internal staging root or workload is not fixed")
  raise_if (not (sort_by leb (slots p.exports) == range_from 0 p.exports))
      (plan_error "descriptor slots must be contiguous")
  raise_if (not (targets p.exports == sort_by target_leb (targets p.exports)))
      (plan_error "planned exports are not deterministically ordered")
  ok p

unfoldable pub build_namespace_plan : Grant → Result AstralError NamespacePlan
build_namespace_plan g = do
  planned ←
      plan_exports [] (sort_by (λ a b. target_leb a.virtual_target b.virtual_target) g.exports)
  raise_if (is_empty planned) (plan_error "namespace plan requires exports")
  make_plan (record {
    exports = planned;
    staging_root = internal_staging_root;
    workload = codes "sftp_v1";
    format_version = pos 1;
  })
