-- ===== src/Profile/Decisions.antt =====
-- profile.py: what `Profile.decision` promises, for any list of rules.
use astral_project.Base.{
  ◌≡◌, refl, sym, ap, ◌∙◌, ◌≢◌, ◌⊎◌, inl, inr, Bool, true, false, some, List, [], ◌∷◌, arith,
  Bool-cases, nat_eq, string_eq, list_eq, option_eq, pair_eq, Result, ok, err, Result-cases, length,
  filter, In, here, In-filter, filter-In, Text,
}
use astral_project.Base.Order.{sort_by, IsOrder, sort_by-first, sort_by-In, In-sort_by}
use astral_project.Profile.Rule.{
  ProfileError, Rule, Operation, host_rx, exact, deny, list, is_writable, is_write_op, is_exec_op,
  normalize_home_path, covers, matches, allows,
}
use astral_project.Profile.Paths.{normalize_same, matches-normal, covers-cases, covers_of_eq}
use astral_project.Profile.Policy.{
  Profile, Decision, filter_result, before, decide_candidates, decide_unmatched, decide_rule,
  decision,
}

pub before-IsOrder : IsOrder before
unfolding before
before-IsOrder = record { total = λ a b h. ground arith; trans = λ a b c h k. ground arith }

filter_result-ok :
    (test : Rule → Result ProfileError Bool) (f : Rule → Bool) (rs : List Rule)
    → ((r : Rule) → test r ≡ ok (f r))
    → filter_result test rs ≡ ok (filter f rs)
unfolding filter_result filter
filter_result-ok test f [] h = refl
filter_result-ok test f (r ∷ rs) h = rw (h r, filter_result-ok test f rs h)

-- The rules that cover the path, the first in the order of the keys in front.
pub candidates_of : Profile → Text → List Rule
candidates_of p path = sort_by before (filter (λ r. covers r path) p.rules)

abbrev raised : ProfileError → Result ProfileError Decision
raised e = err e

-- `decision` answers exactly for the paths that normalization accepts, by the sorted candidates.
pub decision_lem :
    (p : Profile) (path : Text) (op : Operation) {d : Decision}
    → decision p path op ≡ ok d
    → (normalize_home_path path ≡ ok path)
      × (d ≡ decide_candidates p op path (candidates_of p path))
unfolding decision candidates_of
decision_lem p path op {d} h = elim (Result-cases (normalize_home_path path)) [
  | inr (e, q) ↦ let bad : raised e ≡ ok d = rw q at h in cc
  | inl (n, q) ↦
      let same : n ≡ path = normalize_same path q in
      let q' : normalize_home_path path ≡ ok path = q ∙ ap ok same in
      let f =
        filter_result-ok (λ r. matches r path) (λ r. covers r path) p.rules
          (λ r. matches-normal r path q') in
      (q', cc (rw (q', f) at h))
]

-- The decision rests on a rule that covers the path and comes first among those that do.
pub record Chosen (p : Profile) (path : Text) (r : Rule) : Type 0 where
  pub member : In r p.rules
  pub covering : covers r path ≡ true
  pub first : (s : Rule) → In s p.rules → covers s path ≡ true → (before r s ≡ true) ⊎ (s ≡ r)

pub Chosen-of_candidates :
    (p : Profile) (path : Text) {r : Rule} {rest : List Rule}
    → candidates_of p path ≡ r ∷ rest
    → Chosen p path r
unfolding candidates_of
Chosen-of_candidates p path {r} {rest} e =
    let matching = filter (λ r. covers r path) p.rules in
    let m : In r (sort_by before matching) = rw e (here refl) in
    let (inside, c) = filter-In (λ r. covers r path) p.rules (sort_by-In before matching m) in
    record {
      member = inside;
      covering = c;
      first = λ s ms cs.
          sort_by-first before before-IsOrder matching e
            (In-filter (λ r. covers r path) p.rules ms cs);
    }

not_allowed_unmatched :
    (op : Operation) (path : Text) (rs : List Rule) → (decide_unmatched op path rs).allowed ≡ false
unfolding decide_unmatched
not_allowed_unmatched op path [] = refl
not_allowed_unmatched op path (r ∷ rs) = refl

List-cases {ℓ} : {A : Type ℓ} (xs : List A) → (xs ≡ []) ⊎ ((x : A) × (r : List A) × (xs ≡ x ∷ r))
List-cases [] = inl refl
List-cases (x ∷ xs) = inr (x, xs, refl)

no_candidate :
    (p : Profile) (path : Text)
    → candidates_of p path ≡ []
    → (s : Rule) → In s p.rules
    → ¬ (covers s path ≡ true)
unfolding candidates_of
no_candidate p path e s m c =
    let bad : In s [] = rw e at (
      In-sort_by before (filter (λ r. covers r path) p.rules)
        (In-filter (λ r. covers r path) p.rules m c)) in
    elim bad [ ]

-- A decision denies with no covering rule, or is the verdict of the chosen rule.
pub decision-cases :
    (p : Profile) (path : Text) (op : Operation) {d : Decision}
    → decision p path op ≡ ok d
    → ((d.allowed ≡ false) × ((s : Rule) → In s p.rules → ¬ (covers s path ≡ true)))
      ⊎ ((r : Rule) × (d ≡ decide_rule op path r) × Chosen p path r)
unfolding decide_candidates
decision-cases p path op {d} h =
    let (_, e) = decision_lem p path op h in
    elim (List-cases (candidates_of p path)) [
      | inl none_left ↦ inl (
        ap (λ (x : Decision). x.allowed) (rw none_left at e) ∙ not_allowed_unmatched op path _,
        λ s m c. no_candidate p path none_left s m c,
      )
      | inr (r, rest, some_left) ↦ inr (r, rw some_left at e, Chosen-of_candidates p path some_left)
    ]

-- What an allowed decision shows of the profile.
pub record Permitted (p : Profile) (path : Text) (op : Operation) (r : Rule) : Type 0 where
  pub normal : normalize_home_path path ≡ ok path
  pub chosen : Chosen p path r
  pub permits : allows r op ≡ true
  pub no_deny : r.mode ≢ deny
  pub write_mode : is_write_op op ≡ true → is_writable r.mode ≡ true
  pub exec_mode : is_exec_op op ≡ true → r.mode ≡ host_rx
  pub list_rule : op ≡ list → (r.list_allowed ≡ true)

allows-cases :
    (r : Rule) (op : Operation)
    → allows r op ≡ true
    → (r.mode ≢ deny)
      × (is_write_op op ≡ true → is_writable r.mode ≡ true)
      × (is_exec_op op ≡ true → r.mode ≡ host_rx)
      × (op ≡ list → r.list_allowed ≡ true)
unfolding allows
allows-cases r op h = (ground arith, ground arith, ground arith, ground arith)

pub allowed_decide_rule :
    (op : Operation) (path : Text) (r : Rule) → (decide_rule op path r).allowed ≡ allows r op
unfolding decide_rule
allowed_decide_rule op path r = refl

-- A decision that allows an operation names a rule of the profile that covers the path and precedes
-- every other rule that covers it: the rule is no deny rule, a writing operation is allowed only by
-- a private or overlay rule, execution only by a `host-rx` rule, and listing only by a rule that
-- grants listing.
pub decision_allowed :
    (p : Profile) (path : Text) (op : Operation) {d : Decision}
    → decision p path op ≡ ok d
    → d.allowed ≡ true
    → (r : Rule) × (d.rule ≡ some r) × Permitted p path op r
unfolding decide_rule
decision_allowed p path op {d} h a = elim (decision-cases p path op h) [
  | inl (denied, _) ↦ cc
  | inr (r, e, c) ↦
      let permits : allows r op ≡ true = sym (allowed_decide_rule op path r) ∙ cc in
      let (nd, w, x, l) = allows-cases r op permits in
      (
        r,
        ap (λ (x : Decision). x.rule) e,
        record {
          normal = (decision_lem p path op h).0;
          chosen = c;
          permits = permits;
          no_deny = nd;
          write_mode = w;
          exec_mode = x;
          list_rule = l;
        },
      )
]

exact_before : (r s : Rule) → (before r s ≡ true) ⊎ (s ≡ r) → s.scope ≡ exact → r.scope ≡ exact
unfolding before
exact_before r s (inl b) e = ground arith
exact_before r s (inr q) e = cc

exact-covers : (r : Rule) (path : Text) → covers r path ≡ true → r.scope ≡ exact → r.path ≡ path
exact-covers r path c e = elim (covers-cases r path c) [ inl q ↦ sym q | inr (s, _) ↦ cc ]

deny_before :
    (r s : Rule)
    → (before r s ≡ true) ⊎ (s ≡ r)
    → s.scope ≡ r.scope
    → length s.path ≡ length r.path
    → s.mode ≡ deny
    → r.mode ≡ deny
unfolding before
deny_before r s (inl b) e l d = ground arith
deny_before r s (inr q) e l d = cc

-- An exact deny rule for a path refuses every operation on it, whatever subtree rules and other
-- exact rules the profile has, and wherever the rule stands in the list.
pub exact_deny :
    (p : Profile) (path : Text) (op : Operation) (s : Rule) {d : Decision}
    → In s p.rules
    → s.scope ≡ exact
    → s.path ≡ path
    → s.mode ≡ deny
    → decision p path op ≡ ok d
    → d.allowed ≡ false
exact_deny p path op s {d} m e q n h = elim (Bool-cases d.allowed) [
  | inr no_way ↦ no_way
  | inl a ↦
      let (r, _, g) = decision_allowed p path op h a in
      let first = g.chosen.first s m (covers_of_eq s path (sym q)) in
      let re = exact_before r s first e in
      let rp = exact-covers r path g.chosen.covering re in
      absurd (g.no_deny (deny_before r s first (e ∙ sym re) (ap length (q ∙ sym rp)) n))
]
