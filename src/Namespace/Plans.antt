-- ===== src/Namespace/Plans.antt =====
-- namespace/planner.py: what the loop of `build_namespace_plan` keeps true of the planned exports.
use astral_project.Base.{
  ℕ, ◌+◌, ◌≡◌, refl, sym, ap, ap₂, subst, ◌∙◌, ◌⊎◌, inl, inr, true, false, Option, none, some, List,
  [], ◌∷◌, ◌++◌, arith, ◌==◌, ==_iff, nat_eq, string_eq, list_eq, option_eq, pair_eq, Result, ok,
  err, ◌>>=◌, ◌>>◌, raise_if, raise_if-eq-ok, length, any, find?, In, here, there, All, Pairs,
  All-append, Pairs-snoc, In-append_left, In-append_right, any-eq-false, find?-eq-some,
  find?-eq-none, Text, int_eq, In-append-cases,
}
use astral_project.Grant.Types.{
  export_kind_eq, access_mode_eq, GrantExport, SourceIdentity, kind_value,
}
use astral_project.Core.{AstralError}
use astral_project.Namespace.Planner.{
  PlannedExport, make_planned_export, nested, normalized_target, place, same_identity,
  paths_overlap, plan_export, reserved, same_export, slots, range_from, target_leb, plan_error,
}

-- What holds of one planned export.
pub record IsClear (e : PlannedExport) : Type 0 where
  pub normal : normalized_target e.virtual_target ≡ ok e.virtual_target
  pub free : reserved e.virtual_target ≡ false
  pub kind : kind_value e.identity.object_type ≡ e.kind

-- The planned exports of a namespace: slots count up from 0, targets are in order, none lies in another,
-- each is normalized and clear of the reserved paths, and each kind is that of its identity.
pub record IsPlan (es : List PlannedExport) : Type 0 where
  pub numbered : slots es ≡ range_from 0 es
  pub ordered : Pairs (λ a b. target_leb a.virtual_target b.virtual_target ≡ true) es
  pub apart : Pairs (λ a b. paths_overlap a.virtual_target b.virtual_target ≡ false) es
  pub clear : All IsClear es

-- The planned export has the access, the identity, the kind and the target of the grant's.
pub record Represents (p : PlannedExport) (e : GrantExport) : Type 0 where
  pub access : p.access_mode ≡ e.access_mode
  pub identity : p.identity ≡ e.source_identity
  pub kind : p.kind ≡ kind_value e.kind
  pub target : p.virtual_target ≡ e.virtual_target

abbrev pub candidate_of : ℕ → GrantExport → PlannedExport
candidate_of slot e = record {
  access_mode = e.access_mode;
  descriptor_slot = slot;
  identity = e.source_identity;
  kind = kind_value e.kind;
  virtual_target = e.virtual_target;
}

normalized_target_same : (t : Text) {u : Text} → normalized_target t ≡ ok u → u ≡ t
unfolding normalized_target
normalized_target_same t h = ground arith

make_planned_export-ok :
    (e : PlannedExport) {f : PlannedExport}
    → make_planned_export e ≡ ok f
    → (f ≡ e) × ((kind_value e.identity.object_type == e.kind) ≡ true)
unfolding make_planned_export
make_planned_export-ok e h = ground arith

same_identity-eq : (a b : SourceIdentity) → same_identity a b ≡ true → a ≡ b
unfolding same_identity
same_identity-eq a b h = ground (
  arith,
  ==_iff a.filesystem_type b.filesystem_type,
  ==_iff a.object_type b.object_type,
  ==_iff a.device b.device,
  ==_iff a.inode b.inode,
)

-- The outcomes of one round.
data Placed (planned : List PlannedExport) (c : PlannedExport) (next : List PlannedExport)
    : Type 0 where
  repeated :
      (d : PlannedExport)
      → In d planned
      → same_export d c ≡ true
      → next ≡ planned
      → Placed planned c next
  appended :
      All (λ p. paths_overlap p.virtual_target c.virtual_target ≡ false) planned
      → next ≡ planned ++ c ∷ []
      → Placed planned c next

overlap_parts : (a b : Text) → (a == b) ≡ false → nested a b ≡ false → paths_overlap a b ≡ false
unfolding nested paths_overlap
overlap_parts a b h k = ground arith

All-both :
    {A : Type 0} (P Q R : A → Type 0) (xs : List A)
    → ((a : A) → P a → Q a → R a)
    → All P xs
    → All Q xs
    → All R xs
All-both P Q R [] f hp hq = tt
All-both P Q R (x ∷ xs) f hp hq = (f x hp.0 hq.0, All-both P Q R xs f hp.1 hq.1)

place_new :
    (planned : List PlannedExport) (c : PlannedExport) {next : List PlannedExport}
    → place planned c none ≡ ok next
    → (any (λ item. nested item.virtual_target c.virtual_target) planned ≡ false)
      × (next ≡ planned ++ c ∷ [])
unfolding place
place_new planned c h = ground arith

place_old :
    (planned : List PlannedExport) (c d : PlannedExport) {next : List PlannedExport}
    → place planned c (some d) ≡ ok next
    → (same_export d c ≡ true) × (next ≡ planned)
unfolding place
place_old planned c d h = ground arith

place-Placed :
    (planned : List PlannedExport) (c : PlannedExport) {next : List PlannedExport}
    → place planned c (find? (λ item. item.virtual_target == c.virtual_target) planned) ≡ ok next
    → Placed planned c next
place-Placed planned c {next} h =
    by_search (find? (λ item. item.virtual_target == c.virtual_target) planned) refl h
  where
    by_search :
        (o : Option PlannedExport)
        → find? (λ item. item.virtual_target == c.virtual_target) planned ≡ o
        → place planned c o ≡ ok next
        → Placed planned c next
    by_search none q k =
        let (open_space, added) = place_new planned c k in
        appended
          (All-both (λ p. (p.virtual_target == c.virtual_target) ≡ false)
            (λ p. nested p.virtual_target c.virtual_target ≡ false) _ planned
            (λ p. overlap_parts p.virtual_target c.virtual_target)
            (find?-eq-none (λ item. item.virtual_target == c.virtual_target) planned q)
            (any-eq-false (λ item. nested item.virtual_target c.virtual_target) planned open_space))
          added
    by_search (some d) q k =
        let (m, _) = find?-eq-some (λ item. item.virtual_target == c.virtual_target) planned q in
        let (same, kept) = place_old planned c d k in repeated d m same kept

plan_export-Placed :
    (planned : List PlannedExport) (e : GrantExport) {next : List PlannedExport}
    → plan_export planned e ≡ ok next
    → IsClear (candidate_of (length planned) e)
      × Placed planned (candidate_of (length planned) e) next
unfolding plan_export
plan_export-Placed planned e {next} h = by_target (normalized_target e.virtual_target) refl h
  where
    c : PlannedExport
    c = candidate_of (length planned) e

    by_candidate :
        normalized_target e.virtual_target ≡ ok e.virtual_target
        → reserved e.virtual_target ≡ false
        → (r : Result AstralError PlannedExport) → make_planned_export c ≡ r
        → (do
          candidate ← r
          place planned candidate (find? (λ item. item.virtual_target == e.virtual_target) planned))
          ≡ ok next
        → IsClear c × Placed planned c next
    by_candidate n f (err m) q k = cc
    by_candidate n f (ok made) q k =
        let (same, kinds) = make_planned_export-ok c q in
        (
          record {
            normal = n;
            free = f;
            kind = (==_iff (kind_value e.source_identity.object_type) (kind_value e.kind)).0 kinds;
          },
          place-Placed planned c (rw same at k),
        )

    by_target :
        (r : Result AstralError Text)
        → normalized_target e.virtual_target ≡ r
        → (do
          target ← r
          raise_if (reserved target) (plan_error "virtual target overlaps reserved runtime path")
          candidate ← make_planned_export (record {
            access_mode = e.access_mode;
            descriptor_slot = length planned;
            identity = e.source_identity;
            kind = kind_value e.kind;
            virtual_target = target;
          })
          place planned candidate (find? (λ item. item.virtual_target == target) planned))
          ≡ ok next
        → IsClear c × Placed planned c next
    by_target (err m) q k = cc
    by_target (ok t) q k =
        let same = normalized_target_same e.virtual_target q in
        let k' = rw same at k in
        let (f, k'') = raise_if-eq-ok (reserved e.virtual_target) _ _ k' in
        by_candidate (q ∙ ap ok same) f (make_planned_export c) refl k''

-- The slots and the numbers of a list with one more export.
slots-snoc :
    (es : List PlannedExport) (c : PlannedExport)
    → slots (es ++ c ∷ []) ≡ slots es ++ c.descriptor_slot ∷ []
slots-snoc [] c = refl
slots-snoc (e ∷ es) c = ap (λ r. e.descriptor_slot ∷ r) (slots-snoc es c)

range_from-snoc :
    (n : ℕ) (es : List PlannedExport) (c : PlannedExport)
    → range_from n (es ++ c ∷ []) ≡ range_from n es ++ (n + length es) ∷ []
unfolding range_from
range_from-snoc n [] c = ap (λ (m : ℕ). m ∷ []) (omega arith)
range_from-snoc n (e ∷ es) c =
    ap (λ r. n ∷ r)
      (range_from-snoc (n + 1) es c ∙ ap (λ (m : ℕ). range_from (n + 1) es ++ m ∷ []) (omega arith))

-- An appended candidate keeps the plan, if no planned target is above its own.
IsPlan-snoc :
    (es : List PlannedExport) (c : PlannedExport)
    → IsPlan es
    → IsClear c
    → c.descriptor_slot ≡ length es
    → All (λ p. target_leb p.virtual_target c.virtual_target ≡ true) es
    → All (λ p. paths_overlap p.virtual_target c.virtual_target ≡ false) es
    → IsPlan (es ++ c ∷ [])
IsPlan-snoc es c h k s o a = record {
  numbered =
      slots-snoc es c
      ∙ ap₂ (λ xs (m : ℕ). xs ++ m ∷ []) h.numbered (s ∙ (omega arith))
      ∙ sym (range_from-snoc 0 es c);
  ordered =
      Pairs-snoc (λ a b. target_leb a.virtual_target b.virtual_target ≡ true) es c h.ordered o;
  apart =
      Pairs-snoc (λ a b. paths_overlap a.virtual_target b.virtual_target ≡ false) es c h.apart a;
  clear = All-append IsClear es (c ∷ []) h.clear (k, tt);
}

same_export-tests :
    (a b : PlannedExport)
    → same_export a b ≡ true
    → ((a.access_mode == b.access_mode) ≡ true)
      × (same_identity a.identity b.identity ≡ true)
      × ((a.kind == b.kind) ≡ true)
      × ((a.virtual_target == b.virtual_target) ≡ true)
unfolding same_export
same_export-tests a b h = ground arith

same_export-Represents :
    (d : PlannedExport) (slot : ℕ) (e : GrantExport)
    → same_export d (candidate_of slot e) ≡ true
    → Represents d e
same_export-Represents d slot e h =
    let (access, identity, kind, target) = same_export-tests d (candidate_of slot e) h in
    record {
      access = (==_iff d.access_mode e.access_mode).0 access;
      identity = same_identity-eq d.identity e.source_identity identity;
      kind = (==_iff d.kind (kind_value e.kind)).0 kind;
      target = (==_iff d.virtual_target e.virtual_target).0 target;
    }

candidate-Represents : (slot : ℕ) (e : GrantExport) → Represents (candidate_of slot e) e
candidate-Represents slot e = record { access = refl; identity = refl; kind = refl; target = refl }

-- One round keeps the plan, keeps what is planned, and plans the export at hand.
pub record Advances (planned next : List PlannedExport) (e : GrantExport) : Type 0 where
  pub plan : IsPlan next
  pub kept : (p : PlannedExport) → In p planned → In p next
  pub planned_one : (p : PlannedExport) × In p next × Represents p e
  pub only : (p : PlannedExport) → In p next → In p planned ⊎ Represents p e

pub plan_export-Advances :
    (planned : List PlannedExport) (e : GrantExport) {next : List PlannedExport}
    → IsPlan planned
    → All (λ p. target_leb p.virtual_target e.virtual_target ≡ true) planned
    → plan_export planned e ≡ ok next
    → Advances planned next e
plan_export-Advances planned e {next} h o k =
    let (clear, placed) = plan_export-Placed planned e k in outcome clear placed
  where
    c : PlannedExport
    c = candidate_of (length planned) e

    newest : (p : PlannedExport) → In p (planned ++ c ∷ []) → In p planned ⊎ Represents p e
    newest p m = elim (In-append-cases planned (c ∷ []) m) [
      | inl old ↦ inl old
      | inr (here q) ↦
          inr (subst (λ x. Represents x e) (sym q) (candidate-Represents (length planned) e))
      | inr (there last) ↦ elim last [ ]
    ]

    outcome : IsClear c → Placed planned c next → Advances planned next e
    outcome clear (repeated d m same kept) = record {
      plan = rw kept h;
      kept = λ p n. rw kept n;
      planned_one = (d, rw kept m, same_export-Represents d (length planned) e same);
      only = λ p n. inl (rw kept at n);
    }
    outcome clear (appended apart added) = record {
      plan = rw added (IsPlan-snoc planned c h clear refl o apart);
      kept = λ p n. rw added (In-append_left planned (c ∷ []) n);
      planned_one = (
        c,
        rw added (In-append_right planned (c ∷ []) (here refl)),
        candidate-Represents (length planned) e,
      );
      only = λ p n. newest p (rw added at n);
    }
