-- ===== src/Session/Tests.antt =====
-- session/ceiling.py: a sample ceiling, and the theorems at it.
use astral_project.Base.{
  ◌≡◌, refl, ◌↔◌, true, [], ◌∷◌, nat_eq, string_eq, list_beq, list_eq, option_eq, pair_eq, ok, each,
  any, find?, contains, Text, codes, starts_with, has_char, split, encode_utf8, pos, ◌-ℤ◌, int_eq,
}
use astral_project.Grant.Types.{directory, read_write, ExportKind-discrete, sorted_set}
use astral_project.Grant.Tests.{zeros, sample_grant}
use astral_project.Session.Ceiling.{
  ServerCeiling, SourceRootCeiling, make_ceiling, paths_overlap, validate_grant_against_ceiling,
  check_export, sort_encoded, holds_source, under, has_duplicate, any_pair, check_roots, check_path,
}
use astral_project.Session.Overlap.{Inside, paths_overlap_iff}
use astral_project.Session.Admission.{WithinCeiling, validate_grant_iff}
use astral_project.Base.Order.{sort_by, text_leb}

abbrev data_root : SourceRootCeiling
data_root = record {
  canonical_root = codes "/srv";
  maximum_access = read_write;
  allowed_kinds = directory ∷ [];
  nested_mount_policy = codes "forbid";
}

abbrev sample_ceiling : ServerCeiling
sample_ceiling = record {
  source_roots = data_root ∷ [];
  allowed_issuers = codes "k" ∷ [];
  forbidden_source_roots = codes "/srv/secret" ∷ [];
  max_exports = pos 4;
  max_ttl_seconds = pos 3600;
  policy_hash = zeros 32;
  version = pos 1;
}

sample_ceiling-built : make_ceiling sample_ceiling ≡ ok sample_ceiling
unfolding make_ceiling sort_encoded sort_by text_leb encode_utf8 has_duplicate contains list_beq
    any_pair any check_roots sorted_set each check_path starts_with has_char split
sample_ceiling-built = refl

paths_overlap_iff_example :
    (paths_overlap (codes "/srv") (codes "/srv/secret") ≡ true)
    ↔ ((path : Text) × Inside path (codes "/srv") × Inside path (codes "/srv/secret"))
paths_overlap_iff_example = paths_overlap_iff (codes "/srv") (codes "/srv/secret")

validate_grant_iff_example :
    (validate_grant_against_ceiling sample_grant sample_ceiling ≡ ok tt)
    ↔ WithinCeiling sample_ceiling sample_grant
validate_grant_iff_example = validate_grant_iff sample_grant sample_ceiling sample_ceiling-built

-- The sample grant is within the ceiling.
validate_sample : validate_grant_against_ceiling sample_grant sample_ceiling ≡ ok tt
unfolding validate_grant_against_ceiling contains list_beq each check_export find? holds_source
    under starts_with any paths_overlap ◌-ℤ◌ ExportKind-discrete
validate_sample = refl
