-- ===== src/Grant/Equal.antt =====
-- crypto/grants.py: the equality that `dataclass` gives to source identities and exports.
use astral_project.Base.{
  ◌≡◌, ap, ◌↔◌, Bool, true, ◌&&◌, and-eq-true, Eq, ◌==◌, ==_iff, nat_eq, string_eq, list_eq,
  option_eq, pair_eq, int_eq,
}
use astral_project.Grant.Types.{SourceIdentity, GrantExport, access_mode_eq, export_kind_eq}

-- The members of a frozen dataclass compare as tuples.
unfoldable pub identity_beq : SourceIdentity → SourceIdentity → Bool
identity_beq a b =
    a.device == b.device
    && (a.inode == b.inode
        && (a.filesystem_type == b.filesystem_type && (a.object_type == b.object_type)))

-- Two tests that decide equations decide them together.
both :
    {A : Type 0} ⦃d : Eq A⦄ (x y : A) {rest : Bool} {Q : Type 0}
    → (rest ≡ true) ↔ Q
    → ((x == y && rest) ≡ true) ↔ ((x ≡ y) × Q)
both ⦃d⦄ x y {rest} h = (
  λ k. let (p, q) = and-eq-true (x == y) rest k in ((==_iff x y).0 p, h.0 q),
  λ k. rw ((==_iff x y).1 k.0) (h.1 k.1),
)

pub identity_beq_iff : (a b : SourceIdentity) → (identity_beq a b ≡ true) ↔ (a ≡ b)
unfolding identity_beq
identity_beq_iff a b = (λ h. whole (fields_iff.0 h), λ h. fields_iff.1 (parts h))
  where
    Fields : Type 0
    Fields =
        (a.device ≡ b.device)
        × ((a.inode ≡ b.inode)
            × ((a.filesystem_type ≡ b.filesystem_type) × (a.object_type ≡ b.object_type)))

    fields_iff : (identity_beq a b ≡ true) ↔ Fields
    fields_iff = both a.device b.device (
        both a.inode b.inode
          (both a.filesystem_type b.filesystem_type (==_iff a.object_type b.object_type)))

    whole : Fields → a ≡ b
    whole (p, (q, (r, s))) =
        λ i. record { device = p i; inode = q i; filesystem_type = r i; object_type = s i }

    parts : a ≡ b → Fields
    parts h = (
      ap (λ x. x.device) h,
      (ap (λ x. x.inode) h, (ap (λ x. x.filesystem_type) h, ap (λ x. x.object_type) h)),
    )

instance abbrev pub identity_eq : Eq SourceIdentity
identity_eq = record { equals = identity_beq; equals_iff = identity_beq_iff }

unfoldable pub export_beq : GrantExport → GrantExport → Bool
export_beq a b =
    a.requested_source == b.requested_source
    && (a.canonical_source == b.canonical_source
        && (a.virtual_target == b.virtual_target
            && (a.access_mode == b.access_mode
                && (a.kind == b.kind && (a.source_identity == b.source_identity)))))

pub export_beq_iff : (a b : GrantExport) → (export_beq a b ≡ true) ↔ (a ≡ b)
unfolding export_beq
export_beq_iff a b = (λ h. whole (fields_iff.0 h), λ h. fields_iff.1 (parts h))
  where
    Fields : Type 0
    Fields =
        (a.requested_source ≡ b.requested_source)
        × ((a.canonical_source ≡ b.canonical_source)
            × ((a.virtual_target ≡ b.virtual_target)
                × ((a.access_mode ≡ b.access_mode)
                    × ((a.kind ≡ b.kind) × (a.source_identity ≡ b.source_identity)))))

    fields_iff : (export_beq a b ≡ true) ↔ Fields
    fields_iff = both a.requested_source b.requested_source (
        both a.canonical_source b.canonical_source (
          both a.virtual_target b.virtual_target (
            both a.access_mode b.access_mode
              (both a.kind b.kind (==_iff a.source_identity b.source_identity)))))

    whole : Fields → a ≡ b
    whole (p, (q, (r, (s, (t, u))))) = λ i. record {
      requested_source = p i;
      canonical_source = q i;
      virtual_target = r i;
      access_mode = s i;
      kind = t i;
      source_identity = u i;
    }

    parts : a ≡ b → Fields
    parts h = (
      ap (λ x. x.requested_source) h,
      (
        ap (λ x. x.canonical_source) h,
        (
          ap (λ x. x.virtual_target) h,
          (ap (λ x. x.access_mode) h, (ap (λ x. x.kind) h, ap (λ x. x.source_identity) h)),
        ),
      ),
    )

instance abbrev pub export_eq : Eq GrantExport
export_eq = record { equals = export_beq; equals_iff = export_beq_iff }
