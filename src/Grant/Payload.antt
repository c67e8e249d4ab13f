-- ===== src/Grant/Payload.antt =====
-- crypto/grants.py: grants as CBOR values, `to_payload` and `from_payload`. The dictionary of a payload
-- is its list of fields; `uuid.UUID` (core/ids.py) is the test that the module takes.
use astral_project.Base.{
  String, Bool, not, ◌&&◌, Option, none, some, List, [], ◌∷◌, map, if◌then◌else◌, ◌==◌, nat_eq,
  string_eq, list_eq, option_eq, pair_eq, Result, ok, err, ◌>>=◌, ◌>>◌, raise_if, traverse, all,
  contains, Text, Bytes, codes, ℤ, int_eq,
}
use astral_project.Core.{AstralError, astral_error, config_invalid_id}
use astral_project.Grant.Types.{
  AccessMode, read_only, read_write, ExportKind, file, directory, access_value, kind_value,
  grant_error, SourceIdentity, make_source_identity, GrantExport, make_grant_export, CborValue,
  text, byte_string, int, null, array, object, CborItems, end, item, CborFields, last, field,
  Extensions, extension_names, Grant, make_grant,
}

unfoldable pub items : List CborValue → CborItems
items [] = end
items (v ∷ vs) = item v (items vs)

unfoldable pub list_items : CborItems → List CborValue
list_items end = []
list_items (item v vs) = v ∷ list_items vs

unfoldable pub fields : Extensions → CborFields
fields [] = last
fields ((k, v) ∷ rest) = field k v (fields rest)

unfoldable pub list_fields : CborFields → Extensions
list_fields last = []
list_fields (field k v rest) = (k, v) ∷ list_fields rest

-- `SourceIdentity.to_payload`
unfoldable pub identity_payload : SourceIdentity → CborFields
unfolding fields
identity_payload s = fields (
    (codes "device", int s.device)
    ∷ (codes "filesystem_type", text s.filesystem_type)
    ∷ (codes "inode", int s.inode)
    ∷ (codes "object_type", text (kind_value s.object_type))
    ∷ [])

-- `GrantExport.to_payload`
unfoldable pub export_payload : GrantExport → CborFields
unfolding fields
export_payload e = fields (
    (codes "access_mode", text (access_value e.access_mode))
    ∷ (codes "canonical_source", text e.canonical_source)
    ∷ (codes "kind", text (kind_value e.kind))
    ∷ (codes "requested_source", text e.requested_source)
    ∷ (codes "source_identity", object (identity_payload e.source_identity))
    ∷ (codes "virtual_target", text e.virtual_target)
    ∷ [])

abbrev pub optional_payload : Option Bytes → CborValue
optional_payload none = null
optional_payload (some b) = byte_string b

-- `Grant.to_payload`
unfoldable pub grant_payload : Grant → CborFields
unfolding fields
grant_payload g = fields (
    (codes "expires_at", int g.expires_at)
    ∷ (codes "exports", array (items (map (λ e. object (export_payload e)) g.exports)))
    ∷ (codes "format_version", int g.format_version)
    ∷ (codes "grant_id", text g.grant_id)
    ∷ (codes "issued_at", int g.issued_at)
    ∷ (codes "issuer_key_id", text g.issuer_key_id)
    ∷ (codes "mandatory_extensions", object (fields g.mandatory_extensions))
    ∷ (codes "nonce", byte_string g.nonce)
    ∷ (codes "not_before", int g.not_before)
    ∷ (codes "optional_extensions", object (fields g.optional_extensions))
    ∷ (codes "remote_user", text g.remote_user)
    ∷ (codes "requested_features", array (items (map text g.requested_features)))
    ∷ (codes "server_policy_hash", optional_payload g.server_policy_hash)
    ∷ (codes "ssh_host_key_fingerprint", text g.ssh_host_key_fingerprint)
    ∷ (codes "host_id", text g.host_id)
    ∷ [])

-- `payload[name]`, with the `KeyError` that every reader turns into "grant missing ..."
unfoldable pub get_field : CborFields → Text → Result AstralError CborValue
get_field last name = err (grant_error "grant missing field")
get_field (field k v rest) name = if k == name then ok v else get_field rest name

unfoldable pub as_text : CborValue → Result AstralError Text
as_text (text t) = ok t
as_text _ = err (grant_error "field must be text")

unfoldable pub as_int : CborValue → Result AstralError ℤ
as_int (int n) = ok n
as_int _ = err (grant_error "field must be integer")

unfoldable pub as_bytes : CborValue → Result AstralError Bytes
as_bytes (byte_string b) = ok b
as_bytes _ = err (grant_error "field must be bytes")

unfoldable pub as_optional_bytes : CborValue → Result AstralError (Option Bytes)
as_optional_bytes null = ok none
as_optional_bytes (byte_string b) = ok (some b)
as_optional_bytes _ = err (grant_error "field must be bytes or null")

unfoldable pub as_list : CborValue → Result AstralError (List CborValue)
as_list (array vs) = ok (list_items vs)
as_list _ = err (grant_error "field must be array")

-- `_object_mapping`; keys of `CborFields` are texts
unfoldable pub as_mapping : CborValue → Result AstralError CborFields
as_mapping (object fs) = ok fs
as_mapping _ = err (grant_error "field must be a text-keyed map")

-- `ExportKind(value)` and `AccessMode(value)`, with the `ValueError` as `none`
unfoldable pub parse_kind : Text → Option ExportKind
parse_kind t =
    if t == codes "file" then some file else if t == codes "directory" then some directory else none

unfoldable pub parse_access : Text → Option AccessMode
parse_access t =
    if t == codes "ro" then some read_only else if t == codes "rw" then some read_write else none

abbrev pub or_error : {A : Type 0} → String → Option A → Result AstralError A
or_error message none = err (grant_error message)
or_error message (some a) = ok a

-- `SourceIdentity.from_payload`
unfoldable pub read_identity : CborFields → Result AstralError SourceIdentity
read_identity payload = do
  device ← get_field payload (codes "device") >>= as_int
  inode ← get_field payload (codes "inode") >>= as_int
  filesystem_type ← get_field payload (codes "filesystem_type") >>= as_text
  kind ← get_field payload (codes "object_type") >>= as_text
  object_type ← or_error "source identity has unsupported object type" (parse_kind kind)
  make_source_identity (record {
    device = device;
    inode = inode;
    filesystem_type = filesystem_type;
    object_type = object_type;
  })

-- `GrantExport.from_payload`
unfoldable pub read_export : CborFields → Result AstralError GrantExport
read_export payload = do
  source_identity ← get_field payload (codes "source_identity") >>= as_mapping
  requested_source ← get_field payload (codes "requested_source") >>= as_text
  canonical_source ← get_field payload (codes "canonical_source") >>= as_text
  virtual_target ← get_field payload (codes "virtual_target") >>= as_text
  access ← get_field payload (codes "access_mode") >>= as_text
  access_mode ← or_error "export has unsupported access mode or kind" (parse_access access)
  kind_text ← get_field payload (codes "kind") >>= as_text
  kind ← or_error "export has unsupported access mode or kind" (parse_kind kind_text)
  identity ← read_identity source_identity
  make_grant_export (record {
    requested_source = requested_source;
    canonical_source = canonical_source;
    virtual_target = virtual_target;
    access_mode = access_mode;
    kind = kind;
    source_identity = identity;
  })

-- `set(payload) != expected`
unfoldable pub same_set : List Text → List Text → Bool
same_set xs ys = all (contains ys) xs && all (contains xs) ys

unfoldable pub exact_fields : CborFields → List Text → Result AstralError (Unit {0})
unfolding same_set list_fields
exact_fields payload expected =
    raise_if (not (same_set (extension_names (list_fields payload)) expected))
      (grant_error "grant field set is invalid")

abbrev pub grant_fields : List Text
grant_fields =
    codes "expires_at"
    ∷ codes "exports"
    ∷ codes "format_version"
    ∷ codes "grant_id"
    ∷ codes "host_id"
    ∷ codes "issued_at"
    ∷ codes "issuer_key_id"
    ∷ codes "mandatory_extensions"
    ∷ codes "nonce"
    ∷ codes "not_before"
    ∷ codes "optional_extensions"
    ∷ codes "remote_user"
    ∷ codes "requested_features"
    ∷ codes "server_policy_hash"
    ∷ codes "ssh_host_key_fingerprint"
    ∷ []

-- `Uuid4Id.__post_init__`: the text is the canonical form of a version-4 UUID
unfoldable pub make_id : (Text → Bool) → Text → Result AstralError Text
make_id is_canonical_uuid4 value = do
  raise_if (not (is_canonical_uuid4 value)) (astral_error config_invalid_id "invalid identifier")
  ok value

module _ (is_canonical_uuid4 : Text → Bool) where
  -- `Grant.from_payload`
  unfoldable pub read_grant : CborFields → Result AstralError Grant
  read_grant payload = do
    exact_fields payload grant_fields
    exports_value ← get_field payload (codes "exports") >>= as_list
    features ← get_field payload (codes "requested_features") >>= as_list
    grant_id ← get_field payload (codes "grant_id") >>= as_text >>= make_id is_canonical_uuid4
    issuer_key_id ←
        get_field payload (codes "issuer_key_id") >>= as_text >>= make_id is_canonical_uuid4
    host_id ← get_field payload (codes "host_id") >>= as_text >>= make_id is_canonical_uuid4
    fingerprint ← get_field payload (codes "ssh_host_key_fingerprint") >>= as_text
    remote_user ← get_field payload (codes "remote_user") >>= as_text
    issued_at ← get_field payload (codes "issued_at") >>= as_int
    not_before ← get_field payload (codes "not_before") >>= as_int
    expires_at ← get_field payload (codes "expires_at") >>= as_int
    nonce ← get_field payload (codes "nonce") >>= as_bytes
    exports ← traverse (λ v. as_mapping v >>= read_export) exports_value
    requested_features ← traverse as_text features
    server_policy_hash ← get_field payload (codes "server_policy_hash") >>= as_optional_bytes
    mandatory ← get_field payload (codes "mandatory_extensions") >>= as_mapping
    optional ← get_field payload (codes "optional_extensions") >>= as_mapping
    format_version ← get_field payload (codes "format_version") >>= as_int
    make_grant (record {
      grant_id = grant_id;
      issuer_key_id = issuer_key_id;
      host_id = host_id;
      ssh_host_key_fingerprint = fingerprint;
      remote_user = remote_user;
      issued_at = issued_at;
      not_before = not_before;
      expires_at = expires_at;
      nonce = nonce;
      exports = exports;
      requested_features = requested_features;
      server_policy_hash = server_policy_hash;
      mandatory_extensions = list_fields mandatory;
      optional_extensions = list_fields optional;
      format_version = format_version;
    })
