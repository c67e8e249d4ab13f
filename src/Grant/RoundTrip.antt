-- ===== src/Grant/RoundTrip.antt =====
-- crypto/grants.py: reading the payload of a grant gives the grant back.
use astral_project.Base.{
  ◌≡◌, refl, ap, Bool, true, Option, none, some, List, [], ◌∷◌, map, nat_eq, string_eq, list_beq,
  list_eq, option_eq, pair_eq, ok, ◌>>=◌, traverse, all, All, contains, Text, Bytes, codes, int_eq,
}
use astral_project.Grant.Types.{
  AccessMode, read_only, read_write, ExportKind, file, directory, access_value, kind_value,
  SourceIdentity, make_source_identity, GrantExport, make_grant_export, CborValue, text, object,
  Extensions, Grant, make_grant,
}
use astral_project.Grant.Payload.{
  items, list_items, fields, list_fields, identity_payload, export_payload, grant_payload,
  get_field, as_text, as_int, as_bytes, as_optional_bytes, optional_payload, as_list, as_mapping,
  parse_kind, parse_access, read_identity, read_export, exact_fields, grant_fields, make_id,
  read_grant,
}

list_items-items : (vs : List CborValue) → list_items (items vs) ≡ vs
unfolding items list_items
list_items-items [] = refl
list_items-items (v ∷ vs) = ap (λ r. v ∷ r) (list_items-items vs)

list_fields-fields : (e : Extensions) → list_fields (fields e) ≡ e
unfolding fields list_fields
list_fields-fields [] = refl
list_fields-fields ((k, v) ∷ e) = ap (λ r. (k, v) ∷ r) (list_fields-fields e)

parse_kind-kind_value : (k : ExportKind) → parse_kind (kind_value k) ≡ some k
unfolding parse_kind list_beq
parse_kind-kind_value file = refl
parse_kind-kind_value directory = refl

parse_access-access_value : (a : AccessMode) → parse_access (access_value a) ≡ some a
unfolding parse_access list_beq
parse_access-access_value read_only = refl
parse_access-access_value read_write = refl

identity_round_trip :
    (s : SourceIdentity) → make_source_identity s ≡ ok s → read_identity (identity_payload s) ≡ ok s
unfolding identity_payload read_identity get_field as_int as_text list_beq
identity_round_trip s h = rw (parse_kind-kind_value s.object_type) h

-- An export that its constructors have accepted.
pub record IsExport (e : GrantExport) : Type 0 where
  pub built : make_grant_export e ≡ ok e
  pub identity : make_source_identity e.source_identity ≡ ok e.source_identity

export_round_trip : (e : GrantExport) → IsExport e → read_export (export_payload e) ≡ ok e
unfolding export_payload read_export get_field as_mapping as_text list_beq
export_round_trip e h =
    rw
      (
        parse_access-access_value e.access_mode,
        parse_kind-kind_value e.kind,
        identity_round_trip e.source_identity h.identity,
      )
      h.built

exports_round_trip :
    (es : List GrantExport)
    → All IsExport es
    → traverse (λ v. as_mapping v >>= read_export) (map (λ e. object (export_payload e)) es) ≡ ok es
unfolding traverse as_mapping
exports_round_trip [] h = refl
exports_round_trip (e ∷ es) h = rw (export_round_trip e h.0, exports_round_trip es h.1)

features_round_trip : (ts : List Text) → traverse as_text (map text ts) ≡ ok ts
unfolding traverse as_text
features_round_trip [] = refl
features_round_trip (t ∷ ts) = rw (features_round_trip ts)

hash_round_trip : (h : Option Bytes) → as_optional_bytes (optional_payload h) ≡ ok h
unfolding as_optional_bytes
hash_round_trip none = refl
hash_round_trip (some b) = refl

exact_grant_fields : (g : Grant) → exact_fields (grant_payload g) grant_fields ≡ ok tt
unfolding exact_fields grant_payload all contains list_beq
exact_grant_fields g = refl

id_round_trip :
    (is_canonical_uuid4 : Text → Bool) (t : Text)
    → is_canonical_uuid4 t ≡ true
    → make_id is_canonical_uuid4 t ≡ ok t
unfolding make_id
id_round_trip u t h = rw h

-- A grant that the constructors of its parts have accepted.
pub record IsGrant (is_canonical_uuid4 : Text → Bool) (g : Grant) : Type 0 where
  pub built : make_grant g ≡ ok g
  pub parts : All IsExport g.exports
  pub grant_id : is_canonical_uuid4 g.grant_id ≡ true
  pub issuer_key_id : is_canonical_uuid4 g.issuer_key_id ≡ true
  pub host_id : is_canonical_uuid4 g.host_id ≡ true

-- What each reader finds in the payload of a grant.
grant_payload-fields :
    (g : Grant)
    → ((get_field (grant_payload g) (codes "exports") >>= as_list)
        ≡ ok (map (λ e. object (export_payload e)) g.exports))
      × ((get_field (grant_payload g) (codes "requested_features") >>= as_list)
          ≡ ok (map text g.requested_features))
      × ((get_field (grant_payload g) (codes "grant_id") >>= as_text) ≡ ok (g.grant_id))
      × ((get_field (grant_payload g) (codes "issuer_key_id") >>= as_text) ≡ ok (g.issuer_key_id))
      × ((get_field (grant_payload g) (codes "host_id") >>= as_text) ≡ ok (g.host_id))
      × ((get_field (grant_payload g) (codes "ssh_host_key_fingerprint") >>= as_text)
          ≡ ok (g.ssh_host_key_fingerprint))
      × ((get_field (grant_payload g) (codes "remote_user") >>= as_text) ≡ ok (g.remote_user))
      × ((get_field (grant_payload g) (codes "issued_at") >>= as_int) ≡ ok (g.issued_at))
      × ((get_field (grant_payload g) (codes "not_before") >>= as_int) ≡ ok (g.not_before))
      × ((get_field (grant_payload g) (codes "expires_at") >>= as_int) ≡ ok (g.expires_at))
      × ((get_field (grant_payload g) (codes "nonce") >>= as_bytes) ≡ ok (g.nonce))
      × ((get_field (grant_payload g) (codes "server_policy_hash") >>= as_optional_bytes)
          ≡ ok (g.server_policy_hash))
      × ((get_field (grant_payload g) (codes "mandatory_extensions") >>= as_mapping)
          ≡ ok (fields g.mandatory_extensions))
      × ((get_field (grant_payload g) (codes "optional_extensions") >>= as_mapping)
          ≡ ok (fields g.optional_extensions))
      × ((get_field (grant_payload g) (codes "format_version") >>= as_int) ≡ ok (g.format_version))
unfolding grant_payload get_field as_list as_text as_int as_bytes as_mapping list_beq
grant_payload-fields g = (
  ap ok (list_items-items _),
  ap ok (list_items-items _),
  refl,
  refl,
  refl,
  refl,
  refl,
  refl,
  refl,
  refl,
  refl,
  hash_round_trip g.server_policy_hash,
  refl,
  refl,
  refl,
)

-- Reading the payload of a grant that its constructors accept returns the same grant: every field,
-- each export with its source identity, and both extension maps.
pub read_grant-grant_payload :
    (is_canonical_uuid4 : Text → Bool) (g : Grant)
    → IsGrant is_canonical_uuid4 g
    → read_grant is_canonical_uuid4 (grant_payload g) ≡ ok g
unfolding read_grant
read_grant-grant_payload u g h =
    let f = grant_payload-fields g in
    rw
      (
        exact_grant_fields g,
        f.0,
        f.1,
        f.2,
        f.3,
        f.4,
        f.5,
        f.6,
        f.7,
        f.8,
        f.9,
        f.10,
        f.11,
        f.12,
        f.13,
        f.14,
        id_round_trip u g.grant_id h.grant_id,
        id_round_trip u g.issuer_key_id h.issuer_key_id,
        id_round_trip u g.host_id h.host_id,
        exports_round_trip g.exports h.parts,
        features_round_trip g.requested_features,
        list_fields-fields g.mandatory_extensions,
        list_fields-fields g.optional_extensions,
      )
      h.built
