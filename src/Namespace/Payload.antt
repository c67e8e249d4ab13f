-- ===== src/Namespace/Payload.antt =====
-- namespace/planner.py: the payload of a plan and its encoding. The encoder of cbor2 is a parameter.
use astral_project.Base.{
  Option, [], ◌∷◌, map, nat_eq, string_eq, list_eq, option_eq, pair_eq, Result, Bytes, codes, pos,
  int_eq,
}
use astral_project.Core.{AstralError}
use astral_project.Grant.Types.{CborValue, CborFields, array, object, text, access_value, int}
use astral_project.Grant.Payload.{fields, identity_payload, items}
use astral_project.Namespace.Planner.{PlannedExport, NamespacePlan}
use astral_project.Grant.Verify.{canonical_dumps}

-- `PlannedExport.to_payload`
unfoldable pub planned_payload : PlannedExport → CborFields
unfolding fields identity_payload
planned_payload e = fields (
    (codes "access_mode", text (access_value e.access_mode))
    ∷ (codes "descriptor_slot", int (pos e.descriptor_slot))
    ∷ (codes "identity", object (identity_payload e.identity))
    ∷ (codes "kind", text e.kind)
    ∷ (codes "virtual_target", text e.virtual_target)
    ∷ [])

-- `NamespacePlan.to_payload`
unfoldable pub plan_payload : NamespacePlan → CborFields
unfolding fields items planned_payload
plan_payload p = fields (
    (codes "exports", array (items (map (λ e. object (planned_payload e)) p.exports)))
    ∷ (codes "format_version", int p.format_version)
    ∷ (codes "staging_root", text p.staging_root)
    ∷ (codes "workload", text p.workload)
    ∷ [])

-- `NamespacePlan.canonical_bytes`
unfoldable pub plan_bytes : (CborValue → Option Bytes) → NamespacePlan → Result AstralError Bytes
unfolding canonical_dumps plan_payload
plan_bytes cbor2_dumps p = canonical_dumps cbor2_dumps (object (plan_payload p))
