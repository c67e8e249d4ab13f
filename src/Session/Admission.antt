-- ===== src/Session/Admission.antt =====
-- session/ceiling.py: `validate_grant_against_ceiling` accepts exactly the grants within the ceiling.
use astral_project.Base.{
  ◌≡◌, refl, sym, ap, ◌∙◌, ◌↔◌, inl, inr, Bool, true, false, Option, none, some, List, [], ◌∷◌,
  arith, Bool-cases, or-eq-false, ==_iff, nat_eq, string_eq, list_eq, option_eq, pair_eq, ok, each,
  length, any, find?, In, here, there, All, All-In, All-map, any-eq-false, find?-eq-some, contains,
  contains-In, In-contains, Text, Bytes, pos, ◌≤ℤ◌, ◌-ℤ◌, int_eq, each-All, All-each,
}
use astral_project.Grant.Types.{GrantExport, is_read_write, export_kind_eq, Grant}
use astral_project.Session.Ceiling.{
  SourceRootCeiling, ServerCeiling, make_ceiling, paths_overlap, any_pair, root_paths, holds_source,
  check_export, check_under_root, hash_differs, validate_grant_against_ceiling,
}
use astral_project.Session.Overlap.{
  Inside, overlap_of_Inside, holds_source-Inside, Inside-holds_source,
}

-- What the ceiling asks of one export, for the root that its source lies in.
pub record WithinRoot (c : ServerCeiling) (e : GrantExport) (root : SourceRootCeiling)
    : Type 0 where
  pub listed : In root c.source_roots
  pub inside : Inside e.canonical_source root.canonical_root
  pub kind : In e.kind root.allowed_kinds
  pub access : is_read_write e.access_mode ≡ true → is_read_write root.maximum_access ≡ true
  pub not_forbidden :
      All (λ forbidden. paths_overlap e.canonical_source forbidden ≡ false) c.forbidden_source_roots

-- No two roots of an accepted ceiling overlap.
make_ceiling-disjoint :
    (c : ServerCeiling)
    → make_ceiling c ≡ ok c
    → any_pair paths_overlap (root_paths c.source_roots) ≡ false
unfolding make_ceiling
make_ceiling-disjoint c h = ground arith

In-root_paths :
    (rs : List SourceRootCeiling) {r : SourceRootCeiling}
    → In r rs
    → In r.canonical_root (root_paths rs)
In-root_paths [] m = elim m [ ]
In-root_paths (x ∷ rs) (here e) = here (ap (λ (s : SourceRootCeiling). s.canonical_root) e)
In-root_paths (x ∷ rs) (there m) = there (In-root_paths rs m)

-- The first root found is the only root that holds the source.
find-only :
    (source : Text) (rs : List SourceRootCeiling) {r : SourceRootCeiling}
    → any_pair paths_overlap (root_paths rs) ≡ false
    → In r rs
    → holds_source source r ≡ true
    → find? (holds_source source) rs ≡ some r
unfolding find? any_pair
find-only source [] d m h = elim m [ ]
find-only source (x ∷ rs) {r} d (here e) h = rw (← e, h)
find-only source (x ∷ rs) {r} d (there m) h =
    let (first, rest) = or-eq-false (any (paths_overlap x.canonical_root) (root_paths rs)) _ d in
    elim (Bool-cases (holds_source source x)) [
      | inr n ↦ rw n (find-only source rs rest m h)
      | inl y ↦
          let apart =
            All-In (λ p. paths_overlap x.canonical_root p ≡ false) (root_paths rs)
              (any-eq-false (paths_overlap x.canonical_root) (root_paths rs) first)
              (In-root_paths rs m) in
          let meet =
            overlap_of_Inside source x.canonical_root r.canonical_root
              (holds_source-Inside source x y) (holds_source-Inside source r h) in
          absurd (let bad : true ≡ false = sym meet ∙ apart in cc)
    ]

check_under_root-tests :
    (c : ServerCeiling) (e : GrantExport) (root : SourceRootCeiling)
    → check_under_root c e (some root) ≡ ok tt
    → (contains root.allowed_kinds e.kind ≡ true)
      × (is_read_write e.access_mode ≡ true → is_read_write root.maximum_access ≡ true)
      × (any (paths_overlap e.canonical_source) c.forbidden_source_roots ≡ false)
unfolding check_under_root
check_under_root-tests c e root h = (ground arith, ground arith, ground arith)

check_export_sound :
    (c : ServerCeiling) (e : GrantExport)
    → check_export c e ≡ ok tt
    → (root : SourceRootCeiling) × WithinRoot c e root
unfolding check_export
check_export_sound c e h = found (find? (holds_source e.canonical_source) c.source_roots) refl h
  where
    found :
        (o : Option SourceRootCeiling)
        → find? (holds_source e.canonical_source) c.source_roots ≡ o
        → check_under_root c e o ≡ ok tt
        → (root : SourceRootCeiling) × WithinRoot c e root
    found none q k = unfold check_under_root in cc
    found (some root) q k =
        let (m, held) = find?-eq-some (holds_source e.canonical_source) c.source_roots q in
        let (kinds, modes, apart) = check_under_root-tests c e root k in
        (
          root,
          record {
            listed = m;
            inside = holds_source-Inside e.canonical_source root held;
            kind = contains-In root.allowed_kinds e.kind kinds;
            access = modes;
            not_forbidden =
                any-eq-false (paths_overlap e.canonical_source) c.forbidden_source_roots apart;
          },
        )

none_of_All :
    (test : Text → Bool) (xs : List Text) → All (λ x. test x ≡ false) xs → any test xs ≡ false
unfolding any
none_of_All test [] h = refl
none_of_All test (x ∷ xs) h = rw (h.0, none_of_All test xs h.1)

check_under_root-passes :
    (c : ServerCeiling) (e : GrantExport) (root : SourceRootCeiling)
    → contains root.allowed_kinds e.kind ≡ true
    → (is_read_write e.access_mode ≡ true → is_read_write root.maximum_access ≡ true)
    → any (paths_overlap e.canonical_source) c.forbidden_source_roots ≡ false
    → check_under_root c e (some root) ≡ ok tt
unfolding check_under_root
check_under_root-passes c e root k a f = ground arith

check_export_complete :
    (c : ServerCeiling) (e : GrantExport) (root : SourceRootCeiling)
    → make_ceiling c ≡ ok c
    → WithinRoot c e root
    → check_export c e ≡ ok tt
unfolding check_export
check_export_complete c e root h w =
    let held = Inside-holds_source e.canonical_source root w.inside in
    rw (find-only e.canonical_source c.source_roots (make_ceiling-disjoint c h) w.listed held) (
      check_under_root-passes c e root (In-contains root.allowed_kinds e.kind w.kind) w.access
        (none_of_All (paths_overlap e.canonical_source) c.forbidden_source_roots w.not_forbidden))

-- What the ceiling asks of a grant.
pub record WithinCeiling (c : ServerCeiling) (g : Grant) : Type 0 where
  pub issuer : In g.issuer_key_id c.allowed_issuers
  pub count : pos (length g.exports) ≤ℤ c.max_exports
  pub lifetime : (g.expires_at -ℤ g.issued_at) ≤ℤ c.max_ttl_seconds
  pub policy : (h : Bytes) → g.server_policy_hash ≡ some h → h ≡ c.policy_hash
  pub exports : All (λ e. (root : SourceRootCeiling) × WithinRoot c e root) g.exports

hash_differs-false :
    (o : Option Bytes) (expected : Bytes)
    → hash_differs o expected ≡ false
    → (h : Bytes) → o ≡ some h
    → h ≡ expected
hash_differs-false none expected d h e = cc
hash_differs-false (some k) expected d h e =
    let same : k ≡ expected = (==_iff k expected).0 (ground arith) in cc

hash_differs-agrees :
    (o : Option Bytes) (expected : Bytes)
    → ((h : Bytes) → o ≡ some h → h ≡ expected)
    → hash_differs o expected ≡ false
hash_differs-agrees none expected f = refl
hash_differs-agrees (some k) expected f = ground (arith, (==_iff k expected).1 (f k refl))

validate-tests :
    (g : Grant) (c : ServerCeiling)
    → validate_grant_against_ceiling g c ≡ ok tt
    → (contains c.allowed_issuers g.issuer_key_id ≡ true)
      × (pos (length g.exports) ≤ℤ c.max_exports)
      × ((g.expires_at -ℤ g.issued_at) ≤ℤ c.max_ttl_seconds)
      × (hash_differs g.server_policy_hash c.policy_hash ≡ false)
      × (each (check_export c) g.exports ≡ ok tt)
unfolding validate_grant_against_ceiling
validate-tests g c h = ground arith

validate-passes :
    (g : Grant) (c : ServerCeiling)
    → contains c.allowed_issuers g.issuer_key_id ≡ true
    → pos (length g.exports) ≤ℤ c.max_exports
    → (g.expires_at -ℤ g.issued_at) ≤ℤ c.max_ttl_seconds
    → hash_differs g.server_policy_hash c.policy_hash ≡ false
    → each (check_export c) g.exports ≡ ok tt
    → validate_grant_against_ceiling g c ≡ ok tt
unfolding validate_grant_against_ceiling
validate-passes g c i n t p e = ground arith

-- Under a ceiling that its constructor accepts, a grant passes exactly if its issuer is allowed, it
-- has no more exports and no longer lifetime than the limits, it names the ceiling's policy hash if
-- any, and each export lies in a root that allows its kind and its access and overlaps no forbidden
-- root.
pub validate_grant_iff :
    (g : Grant) (c : ServerCeiling)
    → make_ceiling c ≡ ok c
    → (validate_grant_against_ceiling g c ≡ ok tt) ↔ WithinCeiling c g
validate_grant_iff g c built = (into, back)
  where
    into : validate_grant_against_ceiling g c ≡ ok tt → WithinCeiling c g
    into h =
        let (i, n, t, p, e) = validate-tests g c h in
        record {
          issuer = contains-In c.allowed_issuers g.issuer_key_id i;
          count = n;
          lifetime = t;
          policy = hash_differs-false g.server_policy_hash c.policy_hash p;
          exports =
              All-map _ _ g.exports (check_export_sound c) (each-All (check_export c) g.exports e);
        }

    back : WithinCeiling c g → validate_grant_against_ceiling g c ≡ ok tt
    back w =
        validate-passes g c (In-contains c.allowed_issuers g.issuer_key_id w.issuer) w.count
          w.lifetime (hash_differs-agrees g.server_policy_hash c.policy_hash w.policy)
          (All-each (check_export c) g.exports
            (All-map _ _ g.exports (λ e r. check_export_complete c e r.0 built r.1) w.exports))
