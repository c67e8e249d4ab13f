-- ===== src/Profile/Validated.antt =====
-- profile.py: what `validate_profile` establishes about the rules.
use astral_project.Base.{
  ◌≡◌, refl, sym, ap, ◌∙◌, ◌≢◌, ◌⊎◌, inl, inr, Bool, true, false, List, [], ◌∷◌, arith, Bool-cases,
  ◌==◌, ==_iff, nat_eq, string_eq, list_eq, option_eq, pair_eq, Result, ok, err, ◌>>◌, each, length,
  filter, In, here, there, All, Pairs, All-In, All-of_In, In-filter, Text, int_eq, each-All,
}
use astral_project.Profile.Rule.{
  ProfileError, Rule, RuleMode, Operation, rule_mode_eq, rule_scope_eq, deny, is_deny, is_writable,
  normalize_home_path, covers, allows, is_list,
}
use astral_project.Profile.Paths.{matches-normal, covers_meet, covers_same}
use astral_project.Profile.Decisions.{decision-cases, decision_allowed, allowed_decide_rule}
use astral_project.Profile.Policy.{
  Profile, Decision, before, decision, each_pair, check_overlap, check_conflict, validate_profile,
}

each_pair-Pairs :
    (test : Rule → Rule → Result ProfileError (Unit {0})) (rs : List Rule)
    → each_pair test rs ≡ ok tt
    → Pairs (λ r s. test r s ≡ ok tt) rs
unfolding each_pair
each_pair-Pairs test [] h = tt
each_pair-Pairs test (r ∷ rs) h = first (each (test r) rs) refl h (each_pair-Pairs test rs)
  where
    first :
        (q : Result ProfileError (Unit {0}))
        → each (test r) rs ≡ q
        → (q >> each_pair test rs) ≡ ok tt
        → (each_pair test rs ≡ ok tt → Pairs (λ r s. test r s ≡ ok tt) rs)
        → All (λ s. test r s ≡ ok tt) rs × Pairs (λ r s. test r s ≡ ok tt) rs
    first (ok tt) e k ih = (each-All (test r) rs e, ih k)
    first (err m) e k ih = cc

-- The two loops of an accepted profile ran to their ends.
pub validate_profile-loops :
    (p : Profile)
    → validate_profile p ≡ ok tt
    → (each_pair check_overlap (filter (λ r. is_writable r.mode) p.rules) ≡ ok tt)
      × (each_pair check_conflict p.rules ≡ ok tt)
unfolding validate_profile
validate_profile-loops p h = ground arith

-- Two rules that passed the overlap test cover no path in common.
check_overlap-disjoint :
    (left right : Rule)
    → normalize_home_path left.path ≡ ok left.path
    → normalize_home_path right.path ≡ ok right.path
    → check_overlap left right ≡ ok tt
    → (path : Text) → covers left path ≡ true
    → ¬ (covers right path ≡ true)
unfolding check_overlap
check_overlap-disjoint left right nl nr h path cl cr = elim (covers_meet left right path cl cr) [
  | inl e ↦ ground (arith, matches-normal left right.path nr)
  | inr e ↦ ground (arith, matches-normal left right.path nr, matches-normal right left.path nl)
]

-- A rule that its constructor has accepted holds a normalized path.
abbrev pub IsNormal : Rule → Type 0
IsNormal r = normalize_home_path r.path ≡ ok r.path

Pairs-filter :
    (test : Rule → Bool) (R : Rule → Rule → Type 0) (rs : List Rule)
    → Pairs R (filter test rs)
    → Pairs (λ r s. test r ≡ true → test s ≡ true → R r s) rs
unfolding filter
Pairs-filter test R [] h = tt
Pairs-filter test R (r ∷ rs) h = elim (Bool-cases (test r)) [
  | inr e ↦ (
    All-of_In (λ s. test r ≡ true → test s ≡ true → R r s) rs (λ s _ yes_r. absurd (cc)),
    Pairs-filter test R rs (rw e at h),
  )
  | inl e ↦
      let h' : All (R r) (filter test rs) × Pairs R (filter test rs) = rw e at h in
      (
        All-of_In (λ s. test r ≡ true → test s ≡ true → R r s) rs
            (λ s m _ yes_s. All-In (R r) (filter test rs) h'.0 (In-filter test rs m yes_s)),
        Pairs-filter test R rs h'.1,
      )
]

Pairs-map :
    (R S : Rule → Rule → Type 0) (rs : List Rule)
    → ((r s : Rule) → In r rs → In s rs → R r s → S r s)
    → Pairs R rs
    → Pairs S rs
Pairs-map R S [] f h = tt
Pairs-map R S (r ∷ rs) f h = (
  All-of_In (S r) rs (λ s m. f r s (here refl) (there m) (All-In (R r) rs h.0 m)),
  Pairs-map R S rs (λ a b ma mb. f a b (there ma) (there mb)) h.1,
)

-- In an accepted profile no path is covered by two of the writable rules.
pub writable_roots_disjoint :
    (p : Profile)
    → All IsNormal p.rules
    → validate_profile p ≡ ok tt
    → Pairs
        (λ r s.
          is_writable r.mode ≡ true
          → is_writable s.mode ≡ true
          → (path : Text) → covers r path ≡ true
          → ¬ (covers s path ≡ true))
        p.rules
writable_roots_disjoint p n h =
    Pairs-map _ _ p.rules
      (λ r s mr ms ok_pair wr ws.
        check_overlap-disjoint r s (All-In IsNormal p.rules n mr) (All-In IsNormal p.rules n ms)
          (ok_pair wr ws))
      (Pairs-filter (λ r. is_writable r.mode) (λ r s. check_overlap r s ≡ ok tt) p.rules
        (each_pair-Pairs check_overlap (filter (λ r. is_writable r.mode) p.rules)
          (validate_profile-loops p h).0))

-- Of two members of a list, one stands before the other, unless they are one.
Pairs-In :
    (R : Rule → Rule → Type 0) (rs : List Rule) {r s : Rule}
    → Pairs R rs
    → In r rs
    → In s rs
    → (R r s ⊎ R s r) ⊎ (r ≡ s)
Pairs-In R [] h m n = elim m [ ]
Pairs-In R (x ∷ rs) h (here e) (here f) = inr (e ∙ sym f)
Pairs-In R (x ∷ rs) h (here e) (there n) = inl (inl (rw e (All-In (R x) rs h.0 n)))
Pairs-In R (x ∷ rs) h (there m) (here f) = inl (inr (rw f (All-In (R x) rs h.0 m)))
Pairs-In R (x ∷ rs) h (there m) (there n) = Pairs-In R rs h.1 m n

no_conflict :
    (r s : Rule)
    → (check_conflict r s ≡ ok tt) ⊎ (check_conflict s r ≡ ok tt)
    → r.path ≡ s.path
    → r.scope ≡ s.scope
    → r.mode ≢ deny
    → s.mode ≢ deny
    → r.mode ≡ s.mode
unfolding check_conflict
no_conflict r s c p q nr ns = elim (Bool-cases (r.mode == s.mode)) [
  | inl e ↦ (==_iff r.mode s.mode).0 e
  | inr e ↦ ground (
    arith,
    e,
    (==_iff r.path s.path).1 p,
    (==_iff s.path r.path).1 (sym p),
    (==_iff r.scope s.scope).1 q,
    (==_iff s.scope r.scope).1 (sym q),
    (==_iff s.mode r.mode).0,
  )
]

-- Two rules with keys that are not above one another.
equal_keys :
    (r s : Rule)
    → (before r s ≡ true) ⊎ (s ≡ r)
    → (before s r ≡ true) ⊎ (r ≡ s)
    → (r.scope ≡ s.scope) × (length r.path ≡ length s.path) × (is_deny r.mode ≡ is_deny s.mode)
unfolding before
equal_keys r s (inr e) b = (cc, cc, cc)
equal_keys r s (inl a) (inr e) = (cc, cc, cc)
equal_keys r s (inl a) (inl b) = (ground arith, ground arith, ground arith)

allows_by_mode :
    (r s : Rule) (op : Operation) → r.mode ≡ s.mode → is_list op ≡ false → allows r op ≡ allows s op
unfolding allows
allows_by_mode r s op e n = ground arith

denies : (r : Rule) (op : Operation) → is_deny r.mode ≡ true → allows r op ≡ false
unfolding allows
denies r op e = rw e

not_deny : (m : RuleMode) → is_deny m ≡ false → m ≢ deny
not_deny m e h = ground arith

-- In an accepted profile, two rules of equal key that cover a path agree on all but listing.
equal_keys_agree :
    (p : Profile) (r s : Rule) (path : Text) (op : Operation)
    → validate_profile p ≡ ok tt
    → In r p.rules
    → In s p.rules
    → covers r path ≡ true
    → covers s path ≡ true
    → (before r s ≡ true) ⊎ (s ≡ r)
    → (before s r ≡ true) ⊎ (r ≡ s)
    → is_list op ≡ false
    → allows r op ≡ allows s op
equal_keys_agree p r s path op h mr ms cr cs a b n =
    let (scopes, lengths, denial) = equal_keys r s a b in
    elim (Bool-cases (is_deny r.mode)) [
      | inl d ↦ denies r op d ∙ sym (denies s op (sym denial ∙ d))
      | inr d ↦
          elim (Pairs-In (λ r s. check_conflict r s ≡ ok tt) p.rules
            (each_pair-Pairs check_conflict p.rules (validate_profile-loops p h).1) mr ms) [
              | inr e ↦ ap (λ x. allows x op) e
              | inl c ↦
                  allows_by_mode r s op
                    (no_conflict r s c (covers_same r s path cr cs lengths) scopes (not_deny _ d)
                      (not_deny _ (sym denial ∙ d)))
                    n
            ]
    ]

allowed_carries :
    (p : Profile) (v w : Profile) (path : Text) (op : Operation) {d e : Decision}
    → validate_profile p ≡ ok tt
    → ((r : Rule) → In r v.rules → In r p.rules × In r w.rules)
    → ((r : Rule) → In r w.rules → In r p.rules × In r v.rules)
    → is_list op ≡ false
    → decision v path op ≡ ok d
    → decision w path op ≡ ok e
    → d.allowed ≡ true
    → e.allowed ≡ true
allowed_carries p v w path op {d} {e} ok_p from_v from_w n hd he a =
    let (r, _, g) = decision_allowed v path op hd a in
    let mr = from_v r g.chosen.member in
    elim (decision-cases w path op he) [
      | inl (_, none_covers) ↦ absurd (none_covers r mr.1 g.chosen.covering)
      | inr (s, q, c) ↦
          let ms = from_w s c.member in
          let agree =
            equal_keys_agree p r s path op ok_p mr.0 ms.0 g.chosen.covering c.covering
              (g.chosen.first s ms.1 c.covering) (c.first r mr.1 g.chosen.covering) n in
          ap (λ (x : Decision). x.allowed) q ∙ allowed_decide_rule op path s ∙ sym agree ∙ g.permits
    ]

-- The order in which an accepted profile lists its rules does not matter, but for listing: a profile
-- with the same rules in another order allows and refuses the same operations on the same paths.
pub decision_order_free :
    (p q : Profile) (path : Text) (op : Operation) {d e : Decision}
    → validate_profile p ≡ ok tt
    → ((r : Rule) → In r p.rules → In r q.rules)
    → ((r : Rule) → In r q.rules → In r p.rules)
    → is_list op ≡ false
    → decision p path op ≡ ok d
    → decision q path op ≡ ok e
    → d.allowed ≡ e.allowed
decision_order_free p q path op {d} {e} ok_p to from n hd he =
    let there' =
      allowed_carries p p q path op ok_p (λ r m. (m, to r m)) (λ r m. (from r m, from r m)) n hd
        he in
    let back =
      allowed_carries p q p path op ok_p (λ r m. (from r m, from r m)) (λ r m. (m, to r m)) n he
        hd in
    elim (Bool-cases d.allowed) [
      | inl a ↦ a ∙ sym (there' a)
      | inr a ↦ elim (Bool-cases e.allowed) [
        | inl b ↦ absurd (let bad : true ≡ false = sym (back b) ∙ a in cc)
        | inr b ↦ a ∙ sym b
      ]
    ]
