-- ===== src/Grant/Types.antt =====
-- crypto/grants.py: access modes, export kinds, source identities, exports and grants, each with the
-- checks of its constructor. Identifiers (core/ids.py) are their texts.
use astral_project.Base.{
  String, Bool, true, false, not, ◌&&◌, ◌||◌, Option, none, some, List, [], ◌∷◌, if◌then◌else◌, Eq,
  ◌==◌, nat_eq, string_eq, enum_eq, list_eq, option_eq, pair_eq, Result, ok, ◌>>=◌, ◌>>◌, raise_if,
  length, is_empty, any, contains, Text, Bytes, codes, starts_with, has_char, split, ℤ, pos, ltb_ℤ,
  leb_ℤ, int_eq,
}
use astral_project.Base.Order.{sort_by, text_leb}
use astral_project.Core.{AstralError, astral_error, grant_invalid, grant_extension}

pub data AccessMode : Type 0 where
  read_only read_write : AccessMode

pub data ExportKind : Type 0 where
  file directory : ExportKind

unfoldable pub AccessMode-discrete : Discrete AccessMode
AccessMode-discrete = hlevel

unfoldable pub ExportKind-discrete : Discrete ExportKind
ExportKind-discrete = hlevel

instance abbrev pub access_mode_eq : Eq AccessMode
access_mode_eq = enum_eq AccessMode-discrete

instance abbrev pub export_kind_eq : Eq ExportKind
export_kind_eq = enum_eq ExportKind-discrete

abbrev pub is_read_write : AccessMode → Bool
is_read_write read_write = true
is_read_write read_only = false

-- `AccessMode.value` and `ExportKind.value`
abbrev pub access_value : AccessMode → Text
access_value read_only = codes "ro"
access_value read_write = codes "rw"

abbrev pub kind_value : ExportKind → Text
kind_value file = codes "file"
kind_value directory = codes "directory"

-- `_grant_error`
abbrev pub grant_error : String → AstralError
grant_error message = astral_error grant_invalid message

-- `part in {".", ".."}`
abbrev pub is_dot_part : Text → Bool
is_dot_part part = contains (codes "." ∷ codes ".." ∷ []) part

-- `_absolute_path`
unfoldable pub absolute_path : Text → Result AstralError Text
absolute_path value = do
  raise_if
      (not (starts_with value (codes "/"))
        || has_char 0 value
        || any is_dot_part (split b'/' value))
      (grant_error "field must be an absolute normalized path")
  ok value

pub record SourceIdentity : Type 0 where
  pub device : ℤ
  pub inode : ℤ
  pub filesystem_type : Text
  pub object_type : ExportKind

-- `SourceIdentity.__post_init__`; `min(a, b) < 0` is `a < 0 or b < 0`
unfoldable pub make_source_identity : SourceIdentity → Result AstralError SourceIdentity
make_source_identity s = do
  raise_if (ltb_ℤ s.device (pos 0) || ltb_ℤ s.inode (pos 0) || is_empty s.filesystem_type)
      (grant_error "source identity is invalid")
  ok s

pub record GrantExport : Type 0 where
  pub requested_source : Text
  pub canonical_source : Text
  pub virtual_target : Text
  pub access_mode : AccessMode
  pub kind : ExportKind
  pub source_identity : SourceIdentity

-- `GrantExport.__post_init__`
unfoldable pub make_grant_export : GrantExport → Result AstralError GrantExport
make_grant_export e = do
  absolute_path e.requested_source
  absolute_path e.canonical_source
  absolute_path e.virtual_target
  raise_if (not (e.source_identity.object_type == e.kind))
      (grant_error "export kind does not match source identity")
  ok e

-- The values that CBOR maps and lists of the program hold (crypto/cbor.py).
mutual
  pub data CborValue : Type 0 where
    text : Text → CborValue
    byte_string : Bytes → CborValue
    int : ℤ → CborValue
    bool : Bool → CborValue
    null : CborValue
    array : CborItems → CborValue
    object : CborFields → CborValue

  pub data CborItems : Type 0 where
    end : CborItems
    item : CborValue → CborItems → CborItems

  pub data CborFields : Type 0 where
    last : CborFields
    field : Text → CborValue → CborFields → CborFields

abbrev pub Extensions : Type 0
Extensions = List (Text × CborValue)

abbrev pub extension_names : Extensions → List Text
extension_names [] = []
extension_names ((name, value) ∷ rest) = name ∷ extension_names rest

pub record Grant : Type 0 where
  pub grant_id : Text
  pub issuer_key_id : Text
  pub host_id : Text
  pub ssh_host_key_fingerprint : Text
  pub remote_user : Text
  pub issued_at : ℤ
  pub not_before : ℤ
  pub expires_at : ℤ
  pub nonce : Bytes
  pub exports : List GrantExport
  pub requested_features : List Text
  pub server_policy_hash : Option Bytes
  pub mandatory_extensions : Extensions
  pub optional_extensions : Extensions
  pub format_version : ℤ

-- `sorted(set(values))`
unfoldable pub unique : List Text → List Text
unique [] = []
unique (x ∷ xs) = let rest = unique xs in if contains xs x then rest else x ∷ rest

unfoldable pub sorted_set : List Text → List Text
unfolding unique
sorted_set values = sort_by text_leb (unique values)

abbrev pub hash_wrong_length : Option Bytes → Bool
hash_wrong_length none = false
hash_wrong_length (some h) = not (length h == 32)

-- `_extension_mapping`
unfoldable pub extension_mapping : Extensions → Result AstralError Extensions
extension_mapping value = do
  raise_if (any (λ key. is_empty key || has_char 0 key) (extension_names value))
      (astral_error grant_extension "field has invalid extension name")
  ok value

-- `Grant.__post_init__`; that the times are integers is their type
unfoldable pub make_grant : Grant → Result AstralError Grant
make_grant g = do
  raise_if (not (g.format_version == pos 1)) (grant_error "unsupported grant format version")
  raise_if (is_empty g.ssh_host_key_fingerprint || has_char 0 g.ssh_host_key_fingerprint)
      (grant_error "SSH host key fingerprint is invalid")
  raise_if (is_empty g.remote_user || has_char 0 g.remote_user)
      (grant_error "remote user is invalid")
  raise_if (not (leb_ℤ g.issued_at g.not_before && ltb_ℤ g.not_before g.expires_at))
      (grant_error "grant time window is invalid")
  raise_if (not (length g.nonce == 32)) (grant_error "grant nonce must be 32 bytes")
  raise_if (is_empty g.exports) (grant_error "grant requires at least one export")
  raise_if (not (sorted_set g.requested_features == g.requested_features))
      (grant_error "requested features must be unique sorted strings")
  raise_if (hash_wrong_length g.server_policy_hash)
      (grant_error "server policy hash must be 32 bytes")
  mandatory ← extension_mapping g.mandatory_extensions
  optional ← extension_mapping g.optional_extensions
  ok (record g { mandatory_extensions = mandatory; optional_extensions = optional })
