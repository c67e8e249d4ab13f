-- ===== src/Grant/Approval.antt =====
-- grants/lifecycle.py: what is stored was approved, what was signed verifies, and a renewal that nobody
-- approves gives nothing new.
use astral_project.Base.{
  ◌∙◌, sym, ap, String, ◌≡◌, refl, ◌↔◌, Bool, true, false, not, Option, List, [], ◌∷◌,
  if◌then◌else◌, nat_eq, string_eq, list_eq, option_eq, pair_eq, Result, ok, err, ◌>>=◌, ◌>>◌,
  raise_if, >>=-eq-ok, is_empty, Text, Bytes, int_eq,
}
use astral_project.Core.{grant_invalid}
use astral_project.Grant.Types.{Grant, CborValue}
use astral_project.Grant.Equal.{export_eq}
use astral_project.Grant.Verify.{
  SignedGrant, verify, GrantVerificationContext, make_signed_grant, canonical_bytes, check_context,
}
use astral_project.Grant.Lifecycle.{
  Raised, Validation, sign_and_store, create, demand, lifecycle_error, returned, canonical_changes,
  guarded, create_signed, lift_error, renew,
}
use astral_project.Grant.Widening.{guarded_ok, paired, made_signed, lift_ok}

module _ {Key PublicKey Database : Type 0} (ed25519_sign : Key → Bytes → Bytes)
    (public_key : Key → PublicKey) (cbor2_dumps : CborValue → Option Bytes)
    (store_signed_grant : SignedGrant → Text → Text → PublicKey → Database → Result Raised Database)
    (validator : Grant → Validation) (approver : List String → Result Raised Bool) where
  abbrev ask : List String → String → Result Raised (Unit {0})
  ask = demand ed25519_sign public_key cbor2_dumps store_signed_grant validator approver

  abbrev finish : Grant → Key → Database → Result Raised (SignedGrant × Database)
  finish = sign_and_store ed25519_sign public_key cbor2_dumps store_signed_grant validator approver

  abbrev created : Grant → Key → Database → Result Raised (SignedGrant × Database)
  created = create ed25519_sign public_key cbor2_dumps store_signed_grant validator approver

  ask_ok :
      (changes : List String) (message : String)
      → (ask changes message ≡ ok tt) ↔ (approver changes ≡ ok true)
  unfolding demand
  ask_ok changes message = by_answer (approver changes)
    where
      by_answer :
          (r : Result Raised Bool)
          → ((r >>= λ answer. raise_if (not answer) (lifecycle_error grant_invalid message))
              ≡ ok tt)
            ↔ (r ≡ ok true)
      by_answer (ok true) = (λ _. refl, λ _. refl)
      by_answer (ok false) = (λ h. cc, λ h. cc)
      by_answer (err e) = (λ h. cc, λ h. cc)

  -- Both branches of `create` ask for the same thing, with another message.
  asked :
      (changes : List String) (m n : String)
      → ((if is_empty changes then ask [] m else ask changes n) ≡ ok tt)
        ↔ (approver changes ≡ ok true)
  asked [] m n = ask_ok [] m
  asked (c ∷ changes) m n = ask_ok (c ∷ changes) n

  -- `create` returns a signed grant exactly if the validator returned its content, the human approved
  -- the changes that the validator made, none as well, and signing and storing succeed.
  pub create_iff :
      (g : Grant) (key : Key) (db : Database) (signed : SignedGrant) (db' : Database)
      → (created g key db ≡ ok (signed, db')) ↔ (
          (c : Grant) × (validator g ≡ returned c)
          × (approver (canonical_changes g c) ≡ ok true)
          × (finish c key db ≡ ok (signed, db')))
  unfolding create
  create_iff g key db signed db' = (onto, λ (c, v, a, f). back c v a f)
    where
      question : Grant → Result Raised (Unit {0})
      question c =
          let changes = canonical_changes g c in
          if is_empty changes
          then ask [] "human approval was not recorded"
          else ask changes "human approval rejected canonical grant changes"

      body : Grant → Result Raised (SignedGrant × Database)
      body c = question c >> finish c key db

      onto :
          created g key db ≡ ok (signed, db')
          → (c : Grant) × (validator g ≡ returned c)
            × (approver (canonical_changes g c) ≡ ok true)
            × (finish c key db ≡ ok (signed, db'))
      onto h =
          let (c, v, rest) = >>=-eq-ok (guarded (validator g)) body h in
          let (u, a, f) = >>=-eq-ok (question c) (λ _. finish c key db) rest in
          (c, (guarded_ok (validator g)).0 v, (asked (canonical_changes g c) _ _).0 a, f)

      back :
          (c : Grant)
          → validator g ≡ returned c
          → approver (canonical_changes g c) ≡ ok true
          → finish c key db ≡ ok (signed, db')
          → created g key db ≡ ok (signed, db')
      back c v a f = rw ((guarded_ok (validator g)).1 v, (asked (canonical_changes g c) _ _).1 a) f

  finish_parts :
      (c : Grant) (key : Key) (db : Database) {signed : SignedGrant} {db' : Database}
      → finish c key db ≡ ok (signed, db')
      → (signed.grant ≡ c)
        × ((bytes : Bytes) × (canonical_bytes cbor2_dumps c ≡ ok bytes)
            × (signed.signature ≡ ed25519_sign key bytes))
  unfolding sign_and_store create_signed make_signed_grant
  finish_parts c key db h =
      let (s, e, rest) =
        >>=-eq-ok
          (create_signed ed25519_sign public_key cbor2_dumps store_signed_grant validator approver c
            key)
          _ h in
      let (bytes, b, made) = >>=-eq-ok (lift_error (canonical_bytes cbor2_dumps c)) _ e in
      let signed_is =
        paired (store_signed_grant s c.ssh_host_key_fingerprint c.remote_user (public_key key) db)
          rest in
      let is_made =
        made_signed (record { grant = c; signature = ed25519_sign key bytes }) (lift_ok _ made) in
      let whole = sym signed_is ∙ is_made in
      (
        ap (λ x. x.grant) whole,
        (bytes, lift_ok (canonical_bytes cbor2_dumps c) b, ap (λ x. x.signature) whole),
      )

  -- A grant that `create` returns passes its verification under the public key as far as its context
  -- goes, if signatures of the key verify under its public key.
  pub create-verify :
      (ed25519_verify : PublicKey → Bytes → Bytes → Bool) (key : Key)
      → ((m : Bytes) → ed25519_verify (public_key key) (ed25519_sign key m) m ≡ true)
      → (g : Grant) (db : Database) (signed : SignedGrant) (db' : Database)
      → created g key db ≡ ok (signed, db')
      → (context : GrantVerificationContext)
      → verify ed25519_verify cbor2_dumps signed (public_key key) context
        ≡ check_context signed.grant context
  unfolding verify
  create-verify ed25519_verify key correct g db signed db' h context =
      let (c, v, a, f) = (create_iff g key db signed db').0 h in
      let (e, (bytes, b, s)) = finish_parts c key db f in rw (e, b, s, correct bytes)

  abbrev renewed : SignedGrant → Grant → Key → Database → Result Raised (SignedGrant × Database)
  renewed = renew ed25519_sign public_key cbor2_dumps store_signed_grant validator approver
