-- ===== src/Grant/Trust.antt =====
-- crypto/grants.py: `SignedGrant.verify` accepts exactly the grants that fit the connection.
use astral_project.Base.{
  ◌≡◌, refl, ◌↔◌, ◌⊎◌, inl, inr, Bool, true, false, not, ◌&&◌, Option, List, arith, Bool-cases,
  ◌==◌, ==_iff, nat_eq, string_eq, list_eq, option_eq, pair_eq, Result, ok, err, ◌>>=◌, ◌>>◌,
  raise_if, raise_if-eq-ok, any, In, All, All-In, All-map, any-eq-true, any-eq-false, contains,
  contains-In, In-contains, Text, Bytes, ◌≤ℤ◌, ◌<ℤ◌, int_eq,
}
use astral_project.Core.{AstralError, astral_error, crypto_signature}
use astral_project.Grant.Types.{Grant, CborValue, Extensions, extension_names}
use astral_project.Grant.Verify.{
  SignedGrant, GrantVerificationContext, has_unknown, canonical_bytes, check_context, verify,
}

-- Every name is known.
abbrev pub AllKnown : List Text → Extensions → Type 0
AllKnown known extensions = All (λ name. In name known) (extension_names extensions)

has_unknown-false :
    (known : List Text) (e : Extensions) → has_unknown known e ≡ false → AllKnown known e
unfolding has_unknown
has_unknown-false known e h =
    All-map _ _ (extension_names e) (λ name q. contains-In known name (ground arith))
      (any-eq-false (λ name. not (contains known name)) (extension_names e) h)

AllKnown-has_unknown :
    (known : List Text) (e : Extensions) → AllKnown known e → has_unknown known e ≡ false
unfolding has_unknown
AllKnown-has_unknown known e h =
    elim (Bool-cases (any (λ name. not (contains known name)) (extension_names e))) [
      | inr f ↦ f
      | inl t ↦
          let (name, m, q) =
            any-eq-true (λ name. not (contains known name)) (extension_names e) t in
          let k = In-contains known name (All-In (λ name. In name known) (extension_names e) h m) in
          absurd (ground arith)
    ]

-- What the context asks of a grant.
pub record FitsContext (g : Grant) (context : GrantVerificationContext) : Type 0 where
  pub host : g.host_id ≡ context.host_id
  pub fingerprint : g.ssh_host_key_fingerprint ≡ context.ssh_host_key_fingerprint
  pub user : g.remote_user ≡ context.remote_user
  pub started : g.not_before ≤ℤ context.now
  pub running : context.now <ℤ g.expires_at
  pub mandatory : AllKnown context.known_mandatory_extensions g.mandatory_extensions
  pub optional :
      (context.allow_unknown_optional_extensions ≡ true)
      ⊎ AllKnown context.known_optional_extensions g.optional_extensions

check_context-tests :
    (g : Grant) (c : GrantVerificationContext) {a : Grant}
    → check_context g c ≡ ok a
    → (a ≡ g)
      × ((g.host_id == c.host_id) ≡ true)
      × ((g.ssh_host_key_fingerprint == c.ssh_host_key_fingerprint) ≡ true)
      × ((g.remote_user == c.remote_user) ≡ true)
      × (g.not_before ≤ℤ c.now)
      × (c.now <ℤ g.expires_at)
      × (has_unknown c.known_mandatory_extensions g.mandatory_extensions ≡ false)
      × ((c.allow_unknown_optional_extensions ≡ true)
          ⊎ (has_unknown c.known_optional_extensions g.optional_extensions ≡ false))
unfolding check_context
check_context-tests g c h = ground arith

check_context_sound :
    (g : Grant) (c : GrantVerificationContext) {a : Grant}
    → check_context g c ≡ ok a
    → (a ≡ g) × FitsContext g c
check_context_sound g c h =
    let (same, host, fingerprint, user, started, running, mandatory, optional) =
      check_context-tests g c h in
    (
      same,
      record {
        host = (==_iff g.host_id c.host_id).0 host;
        fingerprint = (==_iff g.ssh_host_key_fingerprint c.ssh_host_key_fingerprint).0 fingerprint;
        user = (==_iff g.remote_user c.remote_user).0 user;
        started = started;
        running = running;
        mandatory = has_unknown-false c.known_mandatory_extensions g.mandatory_extensions mandatory;
        optional = elim optional [
          | inl a ↦ inl a
          | inr k ↦ inr (has_unknown-false c.known_optional_extensions g.optional_extensions k)
        ];
      },
    )

optional_passes :
    (known : List Text) (e : Extensions) (allow : Bool)
    → (allow ≡ true) ⊎ AllKnown known e
    → (has_unknown known e && not allow) ≡ false
optional_passes known e allow (inl a) = ground arith
optional_passes known e allow (inr k) = rw (AllKnown-has_unknown known e k)

check_context_complete :
    (g : Grant) (c : GrantVerificationContext) → FitsContext g c → check_context g c ≡ ok g
unfolding check_context
check_context_complete g c f = ground (
  arith,
  (==_iff g.host_id c.host_id).1 f.host,
  (==_iff g.ssh_host_key_fingerprint c.ssh_host_key_fingerprint).1 f.fingerprint,
  (==_iff g.remote_user c.remote_user).1 f.user,
  AllKnown-has_unknown c.known_mandatory_extensions g.mandatory_extensions f.mandatory,
  optional_passes c.known_optional_extensions g.optional_extensions
      c.allow_unknown_optional_extensions f.optional,
)

module _ {Key : Type 0} (ed25519_verify : Key → Bytes → Bytes → Bool)
    (cbor2_dumps : CborValue → Option Bytes) where
  -- `verify` returns a grant exactly if it is the signed one, its encoding carries a signature of the
  -- key, it names the host, the host key and the user of the connection, the time lies in its
  -- window, each mandatory extension is known, and each optional one is known or allowed.
  pub verify_iff :
      (s : SignedGrant) (key : Key) (c : GrantVerificationContext) (g : Grant)
      → (verify ed25519_verify cbor2_dumps s key c ≡ ok g) ↔ (
          (g ≡ s.grant)
          × ((b : Bytes) × (canonical_bytes cbor2_dumps s.grant ≡ ok b)
              × (ed25519_verify key s.signature b ≡ true))
          × FitsContext s.grant c)
  unfolding verify
  verify_iff s key c g = (into (canonical_bytes cbor2_dumps s.grant) refl, back)
    where
      into :
          (r : Result AstralError Bytes)
          → canonical_bytes cbor2_dumps s.grant ≡ r
          → (do
            signed_bytes ← r
            raise_if
                (not (ed25519_verify key s.signature signed_bytes))
                (astral_error crypto_signature "grant signature verification failed")
            check_context s.grant c)
            ≡ ok g
          → (g ≡ s.grant)
            × ((b : Bytes) × (canonical_bytes cbor2_dumps s.grant ≡ ok b)
                × (ed25519_verify key s.signature b ≡ true))
            × FitsContext s.grant c
      into (err e) q h = cc
      into (ok b) q h =
          let (v, k) = raise_if-eq-ok (not (ed25519_verify key s.signature b)) _ _ h in
          let (same, fits) = check_context_sound s.grant c k in (same, (b, q, ground arith), fits)

      back :
          (g ≡ s.grant)
            × ((b : Bytes) × (canonical_bytes cbor2_dumps s.grant ≡ ok b)
                × (ed25519_verify key s.signature b ≡ true))
            × FitsContext s.grant c
          → (do
            signed_bytes ← canonical_bytes cbor2_dumps s.grant
            raise_if
                (not (ed25519_verify key s.signature signed_bytes))
                (astral_error crypto_signature "grant signature verification failed")
            check_context s.grant c)
            ≡ ok g
      back (same, (b, q, v), fits) = rw (q, v, check_context_complete s.grant c fits, same)
