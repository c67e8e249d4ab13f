-- ===== src/State/Retention.antt =====
-- state/sqlite.py: what `_audit` adds and what `_apply_audit_retention` takes away again.
use astral_project.Base.{
  ℕ, suc, ◌+◌, ◌-◌, ◌≤◌, ◌≡◌, refl, sym, ap, subst, ◌∙◌, ◌≢◌, inl, inr, false, Option, none, some,
  List, [], ◌∷◌, ◌++◌, map, arith, leb, leb_iff, Bool-cases, nat_eq, string_eq, list_eq, option_eq,
  pair_eq, length, All, All-append, All-map, Text, Bytes, int_eq,
}
use astral_project.Audit.Event.{AuditEvent}
use astral_project.Audit.Chain.{AuditRetentionBoundary, last_of, create_boundary}
use astral_project.State.Tables.{Tables}
use astral_project.State.AuditKept.{Readable, ids, valid_ids-map, drop_through-map}
use astral_project.State.ChainKept.{
  DrawnBefore, expected_after, Follows-snoc, AuditKept, Made, Linked-snoc, last_of-snoc,
}
use astral_project.Audit.Linear.{GoesOn, Apart, Linear, Follows}
use astral_project.State.AuditTable.{
  event_row, prune, boundary_row, valid_ids, drop_through, retained,
}

pub map-append :
    {A B : Type 0} (f : A → B) (xs ys : List A) → map f (xs ++ ys) ≡ map f xs ++ map f ys
map-append f [] ys = refl
map-append f (x ∷ xs) ys = ap (λ rest. f x ∷ rest) (map-append f xs ys)

pub length-ids : (events : List AuditEvent) → length (ids events) ≡ length events
length-ids [] = refl
length-ids (e ∷ events) = omega (arith, length-ids events)

pub GoesOn-snoc :
    (bs : List AuditRetentionBoundary) (events : List AuditEvent) (e : AuditEvent)
    → GoesOn (last_of bs) events
    → (events ≡ [] → bs ≡ [])
    → e.previous_event_id ≡ expected_after none events
    → GoesOn (last_of bs) (events ++ e ∷ [])
unfolding GoesOn expected_after last_of
GoesOn-snoc bs events e h k q = from (last_of bs) events refl h k q
  where
    from :
        (latest : Option AuditRetentionBoundary) (ds : List AuditEvent)
        → last_of bs ≡ latest
        → GoesOn latest ds
        → (ds ≡ [] → bs ≡ [])
        → e.previous_event_id ≡ expected_after none ds
        → GoesOn latest (ds ++ e ∷ [])
    from none ds l h k q = Follows-snoc none ds e h q
    from (some b) [] l h k q = absurd (some_last (k refl) l)
      where
        some_last : bs ≡ [] → last_of bs ≡ some b → ⊥
        some_last p r = let bad : none ≡ some b = rw p at r in cc
    from (some b) (d ∷ ds) l h k q =
        (h.0, Follows-snoc (some b.pruned_through_event_id) (d ∷ ds) e h.1 q)

GoesOn-first :
    (b : AuditRetentionBoundary) (e : AuditEvent) (events : List AuditEvent)
    → GoesOn (some b) (e ∷ events)
    → e.event_id ≡ b.first_retained_event_id
unfolding GoesOn
GoesOn-first b e events h = h.0

GoesOn-rest :
    (latest : Option AuditRetentionBoundary) (e : AuditEvent) (events : List AuditEvent)
    → GoesOn latest (e ∷ events)
    → Follows (some e.event_id) events
unfolding GoesOn Follows
GoesOn-rest none e events h = h.1
GoesOn-rest (some b) e events h = h.1.1

pub DrawnBefore-mono :
    (uuid4 : ℕ → Text) (m n : ℕ) (events : List AuditEvent)
    → m ≤ n
    → All (DrawnBefore uuid4 m) events
    → All (DrawnBefore uuid4 n) events
DrawnBefore-mono uuid4 m n events l h =
    All-map (DrawnBefore uuid4 m) (DrawnBefore uuid4 n) events
      (λ e d. let (k, p, q) = d in (k, omega (arith, p, l), q)) h

-- A drawn identifier is none of the earlier ones.
pub fresh-Apart :
    (uuid4 : ℕ → Text) (n : ℕ) (e : AuditEvent) (events : List AuditEvent)
    → ((j k : ℕ) → uuid4 j ≡ uuid4 k → j ≡ k)
    → e.event_id ≡ uuid4 n
    → All (DrawnBefore uuid4 n) events
    → All (λ d. Apart d e) events
fresh-Apart uuid4 n e events unique_ids q h =
    All-map (DrawnBefore uuid4 n) (λ d. Apart d e) events
      (λ d drawn r.
        let (k, p, s) = drawn in
        let same : n ≡ k = unique_ids n k (sym q ∙ r ∙ s) in omega (arith, same, p))
      h

above : (m n : ℕ) → leb m n ≡ false → suc n ≤ m
above m n h = ground arith

module _ (sha256_hex : Bytes → Text) (uuid4 : ℕ → Text) (limit n : ℕ) where
  -- The tables before the retention: one event more than `AuditKept` allows.
  abbrev pub Grown : Tables → List AuditEvent → List AuditRetentionBoundary → Type 0
  Grown t events boundaries =
      (t.audit_events ≡ map event_row events)
      × All Readable events
      × (t.audit_retention_boundary ≡ map boundary_row boundaries)
      × All (Made sha256_hex) boundaries
      × Linear boundaries events
      × (length events ≤ suc limit)
      × (events ≢ [])
      × All (DrawnBefore uuid4 n) events

  shorter :
      (t : Tables) (events : List AuditEvent)
      → All Readable events
      → t.audit_events ≡ map event_row events
      → length (valid_ids t.audit_events) ≡ length events
  shorter t events r q = ap length (ap valid_ids q ∙ valid_ids-map events r) ∙ length-ids events

  -- One event too many: the first goes, and a boundary tells of it.
  pruned_one :
      (t : Tables) (d c : AuditEvent) (rest : List AuditEvent) (bs : List AuditRetentionBoundary)
      → length rest + 1 ≡ limit
      → Grown t (d ∷ c ∷ rest) bs
      → AuditKept sha256_hex uuid4 limit n (prune sha256_hex 1 (ids (d ∷ c ∷ rest)) t)
  unfolding prune GoesOn create_boundary
  pruned_one t d c rest bs l
        (rows, readable, brows, made, (linked, goes_on, apart), size, some_left, drawn) =
      record {
        events = c ∷ rest;
        boundaries = bs ++ b ∷ [];
        event_rows = ap (drop_through 1) rows ∙ drop_through-map 1 (d ∷ c ∷ rest) readable;
        readable = readable.1;
        boundary_rows = rw (brows) (sym (map-append boundary_row bs (b ∷ [])));
        made =
            All-append (Made sha256_hex) bs (b ∷ []) made
              ((d.event_id, c.event_id, refl, readable.0.1, readable.1.0.1), tt);
        linear = (
          Linked-snoc bs b linked
              (λ x l. GoesOn-first x d (c ∷ rest) (subst (λ o. GoesOn o (d ∷ c ∷ rest)) l goes_on)),
          subst (λ o. GoesOn o (c ∷ rest)) (sym (last_of-snoc bs b))
              (refl, GoesOn-rest (last_of bs) d (c ∷ rest) goes_on),
          apart.1,
        );
        bounded = omega (arith, l);
        none_lost = λ e. cc;
        drawn_before = drawn.1;
      }
    where
      b : AuditRetentionBoundary
      b = create_boundary sha256_hex d.event_id c.event_id

  pruned :
      (t : Tables) (events : List AuditEvent) (bs : List AuditRetentionBoundary)
      → 1 ≤ limit
      → length events ≡ suc limit
      → Grown t events bs
      → AuditKept sha256_hex uuid4 limit n (prune sha256_hex 1 (ids events) t)
  pruned t [] bs positive l grown = absurd (grown.6 refl)
  pruned t (d ∷ []) bs positive l grown = let bad : ⊥ = omega (arith, l, positive) in absurd bad
  pruned t (d ∷ c ∷ rest) bs positive l grown = pruned_one t d c rest bs (omega (arith, l)) grown

  pub retained-AuditKept :
      (t : Tables) (events : List AuditEvent) (bs : List AuditRetentionBoundary)
      → 1 ≤ limit
      → Grown t events bs
      → AuditKept sha256_hex uuid4 limit n (retained sha256_hex limit t)
  unfolding retained
  retained-AuditKept t events bs positive grown =
      elim (Bool-cases (leb (length (valid_ids t.audit_events)) limit)) [
        | inl small ↦ rw small (record {
          events = events;
          boundaries = bs;
          event_rows = grown.0;
          readable = grown.1;
          boundary_rows = grown.2;
          made = grown.3;
          linear = grown.4;
          bounded = rw (shorter t events grown.1 grown.0) at ((leb_iff _ limit).0 small);
          none_lost = λ e. absurd (grown.6 e);
          drawn_before = grown.7;
        })
        | inr large ↦
            let many : length events ≡ suc limit = omega (arith, grown.5, same, above _ _ large) in
            let one : length (valid_ids t.audit_events) - limit ≡ 1 = omega (arith, same, many) in
            rw (large, one, listed) (pruned t events bs positive many grown)
      ]
    where
      same : length (valid_ids t.audit_events) ≡ length events
      same = shorter t events grown.1 grown.0

      listed : valid_ids t.audit_events ≡ ids events
      listed = ap valid_ids grown.0 ∙ valid_ids-map events grown.1
