-- ===== src/Grant/Unchanged.antt =====
-- grants/lifecycle.py: what it means that `_canonical_changes` finds nothing and that grants do not differ.
use astral_project.Base.{
  String, ◌≡◌, refl, sym, ◌⊎◌, inl, inr, Bool, true, false, not, ◌&&◌, List, [], ◌∷◌, arith,
  Bool-cases, Eq, ◌==◌, ==_iff, nat_eq, string_eq, list_eq, option_eq, pair_eq, is_empty, All,
  int_eq,
}
use astral_project.Grant.Types.{Grant, Extensions}
use astral_project.Grant.Equal.{export_eq}
use astral_project.Grant.Compare.{extensions_differ}
use astral_project.Grant.Lifecycle.{canonical_changes, collect, content_tests, grants_differ}

-- The extensions compare equal, with the one or the other on the left.
abbrev pub SameExtensions : Extensions → Extensions → Type 0
SameExtensions a b = (extensions_differ a b ≡ false) ⊎ (extensions_differ b a ≡ false)

-- The content that is validated is the same.
abbrev pub SameContent : Grant → Grant → Type 0
SameContent a b =
    (a.host_id ≡ b.host_id)
    × (a.ssh_host_key_fingerprint ≡ b.ssh_host_key_fingerprint)
    × (a.remote_user ≡ b.remote_user)
    × (a.issued_at ≡ b.issued_at)
    × (a.not_before ≡ b.not_before)
    × (a.expires_at ≡ b.expires_at)
    × (a.exports ≡ b.exports)
    × (a.requested_features ≡ b.requested_features)
    × (a.server_policy_hash ≡ b.server_policy_hash)
    × SameExtensions a.mandatory_extensions b.mandatory_extensions
    × SameExtensions a.optional_extensions b.optional_extensions

SameContent-sym : (a b : Grant) → SameContent a b → SameContent b a
SameContent-sym a b (h, k, u, i, n, e, x, f, p, m, o) =
    (sym h, sym k, sym u, sym i, sym n, sym e, sym x, sym f, sym p, turned m, turned o)
  where
    turned : {P Q : Type 0} → P ⊎ Q → Q ⊎ P
    turned (inl p) = inr p
    turned (inr q) = inl q

-- Nothing was found: no test held.
collect-eq-nil : (tests : List (Bool × String)) → collect tests ≡ [] → All (λ t. t.0 ≡ false) tests
unfolding collect
collect-eq-nil [] h = tt
collect-eq-nil ((true, name) ∷ rest) h = let bad : name ∷ collect rest ≡ [] = h in cc
collect-eq-nil ((false, name) ∷ rest) h = (refl, collect-eq-nil rest h)

equal : {A : Type 0} ⦃e : Eq A⦄ (x y : A) → not (x == y) ≡ false → x ≡ y
equal x y h = (==_iff x y).0 (ground (arith, h))

canonical_changes-eq-nil : (a b : Grant) → canonical_changes a b ≡ [] → SameContent a b
unfolding canonical_changes
canonical_changes-eq-nil a b h =
    let (t0, r0) = collect-eq-nil (content_tests a b) h in
    let (t1, r1) = r0 in
    let (t2, r2) = r1 in
    let (t3, r3) = r2 in
    let (t4, r4) = r3 in
    let (t5, r5) = r4 in
    let (t6, r6) = r5 in
    let (t7, r7) = r6 in
    let (t8, r8) = r7 in
    let (t9, r9) = r8 in
    let (t10, _) = r9 in
    (
      equal a.host_id b.host_id t0,
      equal a.ssh_host_key_fingerprint b.ssh_host_key_fingerprint t1,
      equal a.remote_user b.remote_user t2,
      equal a.issued_at b.issued_at t3,
      equal a.not_before b.not_before t4,
      equal a.expires_at b.expires_at t5,
      equal a.exports b.exports t6,
      equal a.requested_features b.requested_features t7,
      equal a.server_policy_hash b.server_policy_hash t8,
      inl t9,
      inl t10,
    )

nothing_found : {A : Type 0} (xs : List A) → not (is_empty xs) ≡ false → xs ≡ []
nothing_found [] h = refl
nothing_found (x ∷ xs) h = let bad : true ≡ false = h in cc

-- A correction that `renew` does not ask about has changed none of the content.
pub uncorrected :
    (proposed canonical : Grant)
    → (grants_differ canonical proposed && not (is_empty (canonical_changes proposed canonical)))
      ≡ false
    → SameContent proposed canonical
unfolding grants_differ
uncorrected proposed canonical h = elim (Bool-cases (grants_differ canonical proposed)) [
  | inl t ↦
      canonical_changes-eq-nil proposed canonical
        (nothing_found (canonical_changes proposed canonical) (rw (grants_differ, t) at h))
  | inr f ↦ SameContent-sym canonical proposed (
      canonical_changes-eq-nil canonical proposed
        (nothing_found (canonical_changes canonical proposed) (first_false f)))
]
  where
    first_false :
        grants_differ canonical proposed ≡ false
        → not (is_empty (canonical_changes canonical proposed)) ≡ false
    first_false f = ground (arith, f)
