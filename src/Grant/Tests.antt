-- ===== src/Grant/Tests.antt =====
-- crypto/grants.py and grants/lifecycle.py: a sample grant, and the theorems at it.
use astral_project.Base.{
  ℕ, zero, suc, ◌≡◌, refl, ◌↔◌, inr, Bool, true, false, Option, none, some, [], ◌∷◌, arith, ◌==◌,
  nat_eq, string_eq, list_beq, list_eq, option_eq, pair_eq, ok, length, any, contains, Text, Bytes,
  codes, starts_with, has_char, split, pos, int_eq,
}
use astral_project.Grant.Types.{
  Grant, GrantExport, SourceIdentity, read_write, directory, CborValue, make_grant, sorted_set,
  make_grant_export, absolute_path, make_source_identity, extension_mapping, ExportKind-discrete,
}
use astral_project.Grant.Verify.{SignedGrant, GrantVerificationContext, canonical_bytes, verify}
use astral_project.Grant.Trust.{FitsContext, verify_iff}
use astral_project.Grant.Payload.{read_grant, grant_payload}
use astral_project.Grant.RoundTrip.{read_grant-grant_payload, IsGrant}
use astral_project.Base.Order.{sort_by, text_leb}

abbrev pub sample_identity : SourceIdentity
sample_identity = record {
  device = pos 7;
  inode = pos 42;
  filesystem_type = codes "ext4";
  object_type = directory;
}

abbrev pub sample_export : GrantExport
sample_export = record {
  requested_source = codes "/srv/data";
  canonical_source = codes "/srv/data";
  virtual_target = codes "/data";
  access_mode = read_write;
  kind = directory;
  source_identity = sample_identity;
}

abbrev pub zeros : ℕ → Bytes
zeros zero = []
zeros (suc n) = 0 ∷ zeros n

abbrev pub sample_grant : Grant
sample_grant = record {
  grant_id = codes "g";
  issuer_key_id = codes "k";
  host_id = codes "h";
  ssh_host_key_fingerprint = codes "SHA256:x";
  remote_user = codes "u";
  issued_at = pos 100;
  not_before = pos 100;
  expires_at = pos 200;
  nonce = zeros 32;
  exports = sample_export ∷ [];
  requested_features = codes "sftp" ∷ [];
  server_policy_hash = none;
  mandatory_extensions = [];
  optional_extensions = [];
  format_version = pos 1;
}

abbrev pub any_id : Text → Bool
any_id t = true

pub sample-IsGrant : IsGrant any_id sample_grant
unfolding make_grant sorted_set sort_by text_leb contains has_char list_beq make_grant_export
    absolute_path make_source_identity starts_with split any extension_mapping ExportKind-discrete
sample-IsGrant = record {
  built = refl;
  parts = (record { built = refl; identity = refl }, tt);
  grant_id = refl;
  issuer_key_id = refl;
  host_id = refl;
}

read_grant-grant_payload_example : read_grant any_id (grant_payload sample_grant) ≡ ok sample_grant
read_grant-grant_payload_example = read_grant-grant_payload any_id sample_grant sample-IsGrant

abbrev signed_sample : SignedGrant
signed_sample = record { grant = sample_grant; signature = zeros 64 }

abbrev pub sample_context : GrantVerificationContext
sample_context = record {
  host_id = codes "h";
  ssh_host_key_fingerprint = codes "SHA256:x";
  remote_user = codes "u";
  now = pos 150;
  known_mandatory_extensions = [];
  known_optional_extensions = [];
  allow_unknown_optional_extensions = false;
}

abbrev pub toy_dumps : CborValue → Option Bytes
toy_dumps v = some (1 ∷ [])

abbrev toy_verify : ℕ → Bytes → Bytes → Bool
toy_verify key signature message = length message == key

verify_iff_example :
    (verify toy_verify toy_dumps signed_sample 1 sample_context ≡ ok sample_grant) ↔ (
      (sample_grant ≡ signed_sample.grant)
      × ((b : Bytes) × (canonical_bytes toy_dumps sample_grant ≡ ok b)
          × (toy_verify 1 (zeros 64) b ≡ true))
      × FitsContext sample_grant sample_context)
verify_iff_example = verify_iff toy_verify toy_dumps signed_sample 1 sample_context sample_grant

sample_fits : FitsContext sample_grant sample_context
sample_fits = record {
  host = refl;
  fingerprint = refl;
  user = refl;
  started = omega arith;
  running = omega arith;
  mandatory = tt;
  optional = inr tt;
}

-- The sample is accepted.
verify_sample : verify toy_verify toy_dumps signed_sample 1 sample_context ≡ ok sample_grant
unfolding canonical_bytes
verify_sample = verify_iff_example.1 (refl, (1 ∷ [], refl, refl), sample_fits)
