-- ===== src/Namespace/Built.antt =====
-- namespace/planner.py: what `build_namespace_plan` returns, and that its plan passes its own checks.
use astral_project.Base.{
  ℕ, ◌+◌, ◌≤◌, ◌≡◌, refl, sym, ap, subst, ◌∙◌, ◌⊎◌, inl, inr, true, false, List, [], ◌∷◌, arith,
  leb, ◌==◌, ==_iff, ==_refl, nat_eq, string_eq, list_eq, option_eq, pair_eq, ok, ◌>>=◌, >>=-eq-ok,
  raise_if-eq-ok, Result-cases, is_empty, In, here, there, All, Pairs, All-of_In, Text, codes,
  encode_utf8, pos, int_eq,
}
use astral_project.Base.Order.{
  sort_by, sort_by-sorted, IsOrder, text_leb_total, text_leb_trans, sort_by-IsSorted, sort_by-In,
  In-sort_by,
}
use astral_project.Namespace.Planner.{
  plan_exports, make_plan, PlannedExport, target_leb, NamespacePlan, build_namespace_plan,
  plan_export, range_from, slots, targets, internal_staging_root,
}
use astral_project.Grant.Types.{GrantExport, Grant}
use astral_project.Namespace.Plans.{IsPlan, Represents, Advances, plan_export-Advances}

export-IsOrder :
    IsOrder (λ (a : GrantExport) (b : GrantExport). target_leb a.virtual_target b.virtual_target)
unfolding target_leb
export-IsOrder = record {
  total = λ a b h. text_leb_total (encode_utf8 a.virtual_target) (encode_utf8 b.virtual_target) h;
  trans = λ a b c h k.
      text_leb_trans (encode_utf8 a.virtual_target) (encode_utf8 b.virtual_target)
        (encode_utf8 c.virtual_target) h k;
}

-- The plan stands for the exports: each is planned, and nothing else is.
pub record Covers (planned : List PlannedExport) (es : List GrantExport) : Type 0 where
  pub every : (e : GrantExport) → In e es → (p : PlannedExport) × In p planned × Represents p e
  pub only : (p : PlannedExport) → In p planned → (e : GrantExport) × In e es × Represents p e

-- What the loop ends with, from what it has planned and the exports that are left, in order.
record Finishes (planned done : List PlannedExport) (es : List GrantExport) : Type 0 where
  plan : IsPlan done
  kept : (p : PlannedExport) → In p planned → In p done
  every : (e : GrantExport) → In e es → (p : PlannedExport) × In p done × Represents p e
  only :
      (p : PlannedExport)
      → In p done
      → In p planned ⊎ ((e : GrantExport) × In e es × Represents p e)

-- No planned target is above that of an export that is left.
abbrev BelowAll : List PlannedExport → List GrantExport → Type 0
BelowAll planned es =
    (p : PlannedExport)
    → In p planned
    → All (λ e. target_leb p.virtual_target e.virtual_target ≡ true) es

BelowAll-next :
    (planned next : List PlannedExport) (e : GrantExport) (es : List GrantExport)
    → BelowAll planned (e ∷ es)
    → All (λ f. target_leb e.virtual_target f.virtual_target ≡ true) es
    → Advances planned next e
    → BelowAll next es
BelowAll-next planned next e es b s a p m = elim (a.only p m) [
  | inl old ↦ (b p old).1
  | inr r ↦ subst (λ t. All (λ f. target_leb t f.virtual_target ≡ true) es) (sym r.target) s
]

Finishes-step :
    (planned next done : List PlannedExport) (e : GrantExport) (es : List GrantExport)
    → Advances planned next e
    → Finishes next done es
    → Finishes planned done (e ∷ es)
Finishes-step planned next done e es a f = record {
  plan = f.plan;
  kept = λ p m. f.kept p (a.kept p m);
  every = every;
  only = λ p m. elim (f.only p m) [
    | inl n ↦ elim (a.only p n) [ inl o ↦ inl o | inr r ↦ inr (e, here refl, r) ]
    | inr (g, n, r) ↦ inr (g, there n, r)
  ];
}
  where
    every : (g : GrantExport) → In g (e ∷ es) → (p : PlannedExport) × In p done × Represents p g
    every g (here q) =
        let (p, m, r) = a.planned_one in (p, f.kept p m, subst (λ x. Represents p x) (sym q) r)
    every g (there m) = f.every g m

plan_exports-Finishes :
    (planned : List PlannedExport) (es : List GrantExport) {done : List PlannedExport}
    → IsPlan planned
    → BelowAll planned es
    → Pairs (λ a b. target_leb a.virtual_target b.virtual_target ≡ true) es
    → plan_exports planned es ≡ ok done
    → Finishes planned done es
unfolding plan_exports
plan_exports-Finishes planned [] {done} h b s k =
    let same : planned ≡ done = cc in
    record {
      plan = rw (← same) h;
      kept = λ p m. rw (← same) m;
      every = λ e m. elim m [ ];
      only = λ p m. inl (rw (← same) at m);
    }
plan_exports-Finishes planned (e ∷ es) {done} h b s k =
    let (next, q, k') = >>=-eq-ok (plan_export planned e) (λ next. plan_exports next es) k in
    let a =
      plan_export-Advances planned e h
        (All-of_In (λ p. target_leb p.virtual_target e.virtual_target ≡ true) planned
          (λ p m. (b p m).0))
        q in
    Finishes-step planned next done e es a
      (plan_exports-Finishes next es a.plan (BelowAll-next planned next e es b s.0 a) s.1 k')

IsPlan-nil : IsPlan []
unfolding range_from
IsPlan-nil = record { numbered = refl; ordered = tt; apart = tt; clear = tt }

-- The slots of a plan are in order, and so are its targets.
range_from-above :
    (n m : ℕ) (es : List PlannedExport) → n ≤ m → All (λ k. leb n k ≡ true) (range_from m es)
unfolding range_from
range_from-above n m [] h = tt
range_from-above n m (e ∷ es) h = (ground arith, range_from-above n (m + 1) es (omega arith))

range_from-sorted :
    (n : ℕ) (es : List PlannedExport) → Pairs (λ a b. leb a b ≡ true) (range_from n es)
unfolding range_from
range_from-sorted n [] = tt
range_from-sorted n (e ∷ es) =
    (range_from-above n (n + 1) es (omega arith), range_from-sorted (n + 1) es)

targets-All :
    (t : Text) (es : List PlannedExport)
    → All (λ e. target_leb t e.virtual_target ≡ true) es
    → All (λ u. target_leb t u ≡ true) (targets es)
targets-All t [] h = tt
targets-All t (e ∷ es) h = (h.0, targets-All t es h.1)

targets-sorted :
    (es : List PlannedExport)
    → Pairs (λ a b. target_leb a.virtual_target b.virtual_target ≡ true) es
    → Pairs (λ a b. target_leb a b ≡ true) (targets es)
targets-sorted [] h = tt
targets-sorted (e ∷ es) h = (targets-All e.virtual_target es h.0, targets-sorted es h.1)

abbrev pub plan_of : List PlannedExport → NamespacePlan
plan_of planned = record {
  exports = planned;
  staging_root = internal_staging_root;
  workload = codes "sftp_v1";
  format_version = pos 1;
}

make_plan-tests :
    (planned : List PlannedExport)
    → is_empty planned ≡ false
    → (sort_by leb (slots planned) == range_from 0 planned) ≡ true
    → (targets planned == sort_by target_leb (targets planned)) ≡ true
    → make_plan (plan_of planned) ≡ ok (plan_of planned)
unfolding make_plan
make_plan-tests planned n s t =
    rw (n, ==_refl internal_staging_root, ==_refl (codes "sftp_v1"), s, t)

-- The checks of `NamespacePlan` never refuse what the loop has planned.
make_plan-IsPlan :
    (planned : List PlannedExport)
    → is_empty planned ≡ false
    → IsPlan planned
    → make_plan (plan_of planned) ≡ ok (plan_of planned)
make_plan-IsPlan planned n h =
    make_plan-tests planned n
      ((==_iff (sort_by leb (slots planned)) (range_from 0 planned)).1 (
        sort_by-sorted leb (slots planned) (rw h.numbered (range_from-sorted 0 planned))
        ∙ h.numbered))
      ((==_iff (targets planned) (sort_by target_leb (targets planned))).1
        (sym (sort_by-sorted target_leb (targets planned) (targets-sorted planned h.ordered))))

abbrev pub in_order : Grant → List GrantExport
in_order g = sort_by (λ a b. target_leb a.virtual_target b.virtual_target) g.exports

plan_exports-in_order :
    (g : Grant) {planned : List PlannedExport}
    → plan_exports [] (in_order g) ≡ ok planned
    → Finishes [] planned (in_order g)
plan_exports-in_order g k =
    plan_exports-Finishes [] (in_order g) IsPlan-nil (λ p m. elim m [ ])
      (sort_by-IsSorted _ export-IsOrder g.exports) k

Finishes-nonempty :
    (planned : List PlannedExport) (es : List GrantExport)
    → is_empty es ≡ false
    → Finishes [] planned es
    → is_empty planned ≡ false
Finishes-nonempty [] [] n f = n
Finishes-nonempty [] (e ∷ es) n f = let (p, m, _) = f.every e (here refl) in elim m [ ]
Finishes-nonempty (p ∷ ps) es n f = refl

nonempty_of_In : {A : Type 0} {a : A} (xs : List A) → In a xs → is_empty xs ≡ false
nonempty_of_In [] m = elim m [ ]
nonempty_of_In (x ∷ xs) m = refl

sort-nonempty :
    (es : List GrantExport)
    → is_empty es ≡ false
    → is_empty (
        sort_by
          (λ (a : GrantExport) (b : GrantExport). target_leb a.virtual_target b.virtual_target)
          es)
      ≡ false
sort-nonempty [] n = cc
sort-nonempty (e ∷ es) n = nonempty_of_In _ (In-sort_by _ (e ∷ es) (here refl))

in_order-nonempty : (g : Grant) → is_empty g.exports ≡ false → is_empty (in_order g) ≡ false
in_order-nonempty g n = sort-nonempty g.exports n

make_plan_same : (p : NamespacePlan) {q : NamespacePlan} → make_plan p ≡ ok q → q ≡ p
unfolding make_plan
make_plan_same p h = ground arith

-- A plan that is returned is the loop's list.
build-parts :
    (g : Grant) {p : NamespacePlan}
    → build_namespace_plan g ≡ ok p
    → (planned : List PlannedExport) × (plan_exports [] (in_order g) ≡ ok planned)
      × (p.exports ≡ planned)
unfolding build_namespace_plan
build-parts g h =
    let (planned, q, k) = >>=-eq-ok (plan_exports [] (in_order g)) _ h in
    let (_, made) = raise_if-eq-ok (is_empty planned) _ _ k in
    (planned, q, ap (λ (x : NamespacePlan). x.exports) (make_plan_same (plan_of planned) made))

-- For a grant with exports, the plan that is returned is the one that the loop has planned, and every
-- error comes from the loop: the empty-plan test and the checks of `NamespacePlan` never fail.
pub build_is_loop :
    (g : Grant)
    → is_empty g.exports ≡ false
    → build_namespace_plan g ≡ (plan_exports [] (in_order g) >>= λ planned. ok (plan_of planned))
unfolding build_namespace_plan
build_is_loop g n = elim (Result-cases (plan_exports [] (in_order g))) [
  | inr (e, q) ↦ rw q
  | inl (planned, q) ↦
      let f = plan_exports-in_order g q in
      let some_left = Finishes-nonempty planned (in_order g) (in_order-nonempty g n) f in
      rw (q, some_left) (make_plan-IsPlan planned some_left f.plan)
]

-- A plan that is returned numbers its slots from 0, orders its targets, keeps them apart from one
-- another and from the reserved paths as far as the comparison of their texts tells, which takes a path
-- with two leading slashes for another path, and stands for the exports of the grant: each export is
-- planned with its access, identity, kind and target, and nothing else is planned.
pub build_sound :
    (g : Grant) {p : NamespacePlan}
    → build_namespace_plan g ≡ ok p
    → IsPlan p.exports × Covers p.exports g.exports
build_sound g {p} h =
    let (planned, q, e) = build-parts g h in
    let f = plan_exports-in_order g q in
    rw e (
      f.plan,
      record {
        every = λ x m. f.every x (In-sort_by _ g.exports m);
        only = λ x m. elim (f.only x m) [
          | inl none_before ↦ elim none_before [ ]
          | inr (y, n, r) ↦ (y, sort_by-In _ g.exports n, r)
        ];
      },
    )
