-- ===== src/Namespace/Tests.antt =====
-- namespace/planner.py: the plan of a sample grant, and the theorems at it.
use astral_project.Base.{
  ◌≡◌, refl, false, [], ◌∷◌, nat_eq, string_eq, list_beq, list_eq, option_eq, pair_eq, ok, ◌>>=◌,
  any, filter, find?, contains, codes, starts_with, has_char, split, encode_utf8, join, int_eq,
}
use astral_project.Grant.Tests.{sample_grant, sample_export}
use astral_project.Namespace.Planner.{
  NamespacePlan, build_namespace_plan, normalized_target, path_parts, plan_exports, plan_export,
  posix_path, reserved, paths_overlap, make_planned_export, place, make_plan, range_from,
  target_leb,
}
use astral_project.Namespace.Plans.{IsPlan, candidate_of}
use astral_project.Namespace.Built.{plan_of, Covers, build_sound, in_order, build_is_loop}
use astral_project.Namespace.DoubleSlash.{double_slash}
use astral_project.Base.Order.{sort_by, text_leb}
use astral_project.Grant.Types.{ExportKind-discrete}

abbrev sample_plan : NamespacePlan
sample_plan = plan_of (candidate_of 0 sample_export ∷ [])

sample_plan-built : build_namespace_plan sample_grant ≡ ok sample_plan
unfolding build_namespace_plan plan_exports plan_export normalized_target path_parts posix_path
    split filter join starts_with has_char contains list_beq any encode_utf8 reserved paths_overlap
    make_planned_export place find? make_plan sort_by range_from target_leb text_leb
    ExportKind-discrete
sample_plan-built = refl

build_is_loop_example :
    build_namespace_plan sample_grant
    ≡ (plan_exports [] (in_order sample_grant) >>= λ planned. ok (plan_of planned))
build_is_loop_example = build_is_loop sample_grant refl

build_sound_example : IsPlan sample_plan.exports × Covers sample_plan.exports sample_grant.exports
build_sound_example = build_sound sample_grant sample_plan-built

double_slash_example :
    (normalized_target (codes "//dev") ≡ ok (codes "//dev")) × (reserved (codes "//dev") ≡ false)
unfolding normalized_target path_parts posix_path split filter join starts_with has_char contains
    list_beq any encode_utf8
double_slash_example = double_slash (codes "dev") refl refl refl
