-- ===== src/Grant/Widening.antt =====
-- grants/lifecycle.py: what a comparison without widening means, and the results of single steps.
use astral_project.Base.{
  ◌≡◌, ◌↔◌, Bool, true, false, not, ◌||◌, List, [], ◌∷◌, arith, and-eq-true, Eq, ◌==◌, ==_iff,
  nat_eq, string_eq, list_eq, option_eq, pair_eq, Result, ok, err, length, all, In, here, there,
  contains, contains-In, Text, int_eq, raise_if-eq-ok, ◌>>=◌,
}
use astral_project.Core.{AstralError}
use astral_project.Grant.Types.{Grant, GrantExport, grant_error}
use astral_project.Grant.Equal.{export_eq}
use astral_project.Grant.Verify.{SignedGrant, make_signed_grant}
use astral_project.Grant.Compare.{is_superset, equal_sets, extensions_differ}
use astral_project.Grant.Lifecycle.{
  compare_grants, Validation, returned, guarded, unguarded, raised, astral, returned_no_grant,
  other_exception, lift_error,
}

-- The capabilities of the second grant are among those of the first, for the same connection and with
-- extensions that compare equal.
unfoldable pub Contained : Grant → Grant → Type 0
Contained old new =
    (old.host_id ≡ new.host_id)
    × (old.ssh_host_key_fingerprint ≡ new.ssh_host_key_fingerprint)
    × (old.remote_user ≡ new.remote_user)
    × ((e : GrantExport) → In e old.exports ↔ In e new.exports)
    × ((f : Text) → In f new.requested_features → In f old.requested_features)
    × (old.server_policy_hash ≡ new.server_policy_hash)
    × (extensions_differ old.mandatory_extensions new.mandatory_extensions ≡ false)
    × (extensions_differ old.optional_extensions new.optional_extensions ≡ false)

pub superset-In {ℓ} :
    {A : Type ℓ} ⦃e : Eq A⦄ (old new : List A)
    → is_superset old new ≡ true
    → (a : A) → In a new
    → In a old
unfolding is_superset all
superset-In old [] h a m = elim m [ ]
superset-In old (x ∷ new) h a (here q) =
    rw q (contains-In old x (and-eq-true (contains old x) (is_superset old new) h).0)
superset-In old (x ∷ new) h a (there m) =
    superset-In old new (and-eq-true (contains old x) (is_superset old new) h).1 a m

pub tests_passed :
    (a b c d e f g h : Bool)
    → (not a || not b || not c || not d || not e || not f || g || h) ≡ false
    → (a ≡ true)
      × (b ≡ true)
      × (c ≡ true)
      × (d ≡ true)
      × (e ≡ true)
      × (f ≡ true)
      × (g ≡ false)
      × (h ≡ false)
tests_passed a b c d e f g h q = ground arith

pub not_widened : (old new : Grant) → (compare_grants old new).widened ≡ false → Contained old new
unfolding compare_grants Contained
not_widened old new h =
    let (a, b, c, d, e, f, m, o) =
      tests_passed (old.host_id == new.host_id)
        (old.ssh_host_key_fingerprint == new.ssh_host_key_fingerprint)
        (old.remote_user == new.remote_user) (equal_sets new.exports old.exports)
        (is_superset old.requested_features new.requested_features)
        (old.server_policy_hash == new.server_policy_hash)
        (extensions_differ old.mandatory_extensions new.mandatory_extensions)
        (extensions_differ old.optional_extensions new.optional_extensions) h in
    let (d0, d1) =
      and-eq-true (is_superset new.exports old.exports) (is_superset old.exports new.exports) d in
    (
      (==_iff old.host_id new.host_id).0 a,
      (==_iff old.ssh_host_key_fingerprint new.ssh_host_key_fingerprint).0 b,
      (==_iff old.remote_user new.remote_user).0 c,
      λ x. (superset-In new.exports old.exports d0 x, superset-In old.exports new.exports d1 x),
      superset-In old.requested_features new.requested_features e,
      (==_iff old.server_policy_hash new.server_policy_hash).0 f,
      m,
      o,
    )

pub guarded_ok : (v : Validation) {c : Grant} → (guarded v ≡ ok c) ↔ (v ≡ returned c)
guarded_ok (returned g) = (λ h. cc, λ h. cc)
guarded_ok (raised (astral e)) = (λ h. cc, λ h. cc)
guarded_ok (raised other_exception) = (λ h. cc, λ h. cc)
guarded_ok returned_no_grant = (λ h. cc, λ h. cc)

pub unguarded_ok : (v : Validation) {c : Grant} → (unguarded v ≡ ok c) ↔ (v ≡ returned c)
unguarded_ok (returned g) = (λ h. cc, λ h. cc)
unguarded_ok (raised e) = (λ h. cc, λ h. cc)
unguarded_ok returned_no_grant = (λ h. cc, λ h. cc)

pub lift_ok : {A : Type 0} (r : Result AstralError A) {a : A} → lift_error r ≡ ok a → r ≡ ok a
lift_ok (ok a) h = cc
lift_ok (err e) h = cc

pub made_signed : (s : SignedGrant) {t : SignedGrant} → make_signed_grant s ≡ ok t → t ≡ s
unfolding make_signed_grant
made_signed s h =
    let (p, q) =
      raise_if-eq-ok (not (length s.signature == 64))
        (grant_error "Ed25519 signature must be 64 bytes") (ok s) h in
    cc

pub paired :
    {A B E : Type 0} (r : Result E B) {a a' : A} {b : B}
    → ◌>>=◌ {B = A × B} r (λ x. ok (a, x)) ≡ ok (a', b)
    → a ≡ a'
paired (ok x) h = cc
paired (err e) h = cc
