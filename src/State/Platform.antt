-- ===== src/State/Platform.antt =====
-- state/sqlite.py: what the methods use from outside: SHA-256, random identifiers, Ed25519 keys and
-- signatures, and CBOR.
use astral_project.Base.{
  ℕ, ◌≡◌, Bool, false, Option, nat_eq, string_eq, list_eq, option_eq, pair_eq, Result, is_empty,
  Text, Bytes, int_eq,
}
use astral_project.Core.{AstralError}
use astral_project.Grant.Types.{CborValue}

pub record Platform (Key : Type 0) : Type 0 where
  -- `hashlib.sha256(data).hexdigest()`
  pub sha256_hex : Bytes → Text
  -- `str(uuid.uuid4())`, by the number of the draw
  pub uuid4 : ℕ → Text
  pub public_bytes_raw : Key → Bytes
  -- `Ed25519PublicKey.from_public_bytes`, none where it raises ValueError
  pub from_public_bytes : Bytes → Option Key
  pub ed25519_verify : Key → Bytes → Bytes → Bool
  pub cbor2_dumps : CborValue → Option Bytes
  pub canonical_loads : Bytes → Result AstralError CborValue
  pub is_canonical_uuid4 : Text → Bool

-- What the theorems rely on: a digest has digits, and no identifier is drawn twice.
pub record IsLawful {Key : Type 0} (p : Platform Key) : Type 0 where
  pub digest_digits : (b : Bytes) → is_empty (p.sha256_hex b) ≡ false
  pub unique_ids : (j k : ℕ) → p.uuid4 j ≡ p.uuid4 k → j ≡ k
