-- ===== src/State/Rotation.antt =====
-- state/sqlite.py: `_apply_audit_retention` with any limit, where no boundary was recorded before.
use astral_project.Base.{
  ℕ, zero, suc, ◌-◌, ◌≤◌, ◌≡◌, refl, sym, ap, subst, ◌∙◌, inl, inr, Option, none, some, List, [],
  ◌∷◌, map, arith, leb, Bool-cases, nat_eq, string_eq, list_eq, option_eq, pair_eq, length, drop,
  length-drop, All, Pairs, Text, Bytes, int_eq,
}
use astral_project.Audit.Event.{AuditEvent}
use astral_project.Audit.Chain.{AuditRetentionBoundary, last_of, create_boundary}
use astral_project.State.Tables.{Tables}
use astral_project.State.AuditKept.{Readable, ids, valid_ids-map, drop_through-map}
use astral_project.State.ChainKept.{DrawnBefore, AuditKept}
use astral_project.State.Retention.{length-ids}
use astral_project.Audit.Linear.{GoesOn, Apart, Follows, Linked}
use astral_project.State.AuditTable.{
  event_row, prune, boundary_row, valid_ids, drop_through, retained,
}

All-drop : {A : Type 0} (P : A → Type 0) (n : ℕ) (xs : List A) → All P xs → All P (drop n xs)
All-drop P zero xs h = h
All-drop P (suc n) [] h = tt
All-drop P (suc n) (x ∷ xs) h = All-drop P n xs h.1

Pairs-drop :
    {A : Type 0} (P : A → A → Type 0) (n : ℕ) (xs : List A) → Pairs P xs → Pairs P (drop n xs)
Pairs-drop P zero xs h = h
Pairs-drop P (suc n) [] h = tt
Pairs-drop P (suc n) (x ∷ xs) h = Pairs-drop P n xs h.1

Follows-drop :
    (n : ℕ) (expected : Option Text) (events : List AuditEvent)
    → Follows expected events
    → (e : Option Text) × Follows e (drop n events)
unfolding Follows
Follows-drop zero expected events h = (expected, h)
Follows-drop (suc n) expected [] h = (expected, tt)
Follows-drop (suc n) expected (e ∷ events) h = Follows-drop n (some e.event_id) events h.1

drop-drop : {A : Type 0} (n : ℕ) (xs : List A) → drop (suc n) xs ≡ drop 1 (drop n xs)
drop-drop zero xs = refl
drop-drop (suc n) [] = refl
drop-drop (suc n) (x ∷ xs) = drop-drop n xs

ids-drop : (n : ℕ) (events : List AuditEvent) → drop n (ids events) ≡ ids (drop n events)
ids-drop zero events = refl
ids-drop (suc n) [] = refl
ids-drop (suc n) (e ∷ events) = ids-drop n events

no_boundaries : (bs : List AuditRetentionBoundary) → map boundary_row bs ≡ [] → bs ≡ []
no_boundaries [] h = refl
no_boundaries (b ∷ bs) h = cc

module _ (sha256_hex : Bytes → Text) (uuid4 : ℕ → Text) (limit n : ℕ) (t : Tables)
    (k : AuditKept sha256_hex uuid4 limit n t) (fresh : t.audit_retention_boundary ≡ []) where
  none_before : k.boundaries ≡ []
  none_before = no_boundaries k.boundaries (sym k.boundary_rows ∙ fresh)

  Follows-first : Follows none k.events
  unfolding GoesOn last_of
  Follows-first = subst (λ bs. GoesOn (last_of bs) k.events) none_before k.linear.1

  cut :
      (j : ℕ) (suffix : List AuditEvent)
      → drop j k.events ≡ suffix
      → 2 ≤ length suffix
      → length suffix ≤ suc limit
      → AuditKept sha256_hex uuid4 limit n (prune sha256_hex (suc j) (ids suffix) t)
  unfolding prune GoesOn Linked last_of Follows create_boundary
  cut j [] q l m = absurd (omega (arith, l))
  cut j (d ∷ []) q l m = absurd (omega (arith, l))
  cut j (d ∷ c ∷ rest) q l m =
      let readable : All Readable (d ∷ c ∷ rest) =
        subst (All Readable) q (All-drop Readable j k.events k.readable) in
      let drawn : All (DrawnBefore uuid4 n) (d ∷ c ∷ rest) =
        subst (All (DrawnBefore uuid4 n)) q
          (All-drop (DrawnBefore uuid4 n) j k.events k.drawn_before) in
      let apart : Pairs Apart (d ∷ c ∷ rest) =
        subst (Pairs Apart) q (Pairs-drop Apart j k.events k.linear.2) in
      let (e, follows) = Follows-drop j none k.events Follows-first in
      let onwards : Follows e (d ∷ c ∷ rest) = subst (Follows e) q follows in
      record {
        events = c ∷ rest;
        boundaries = create_boundary sha256_hex d.event_id c.event_id ∷ [];
        event_rows =
            ap (drop_through (suc j)) k.event_rows
            ∙ drop_through-map (suc j) k.events k.readable
            ∙ ap (map event_row) (drop-drop j k.events ∙ ap (drop 1) q);
        readable = readable.1;
        boundary_rows = rw fresh refl;
        made = ((d.event_id, c.event_id, refl, readable.0.1, readable.1.0.1), tt);
        linear = (tt, (refl, onwards.1), apart.1);
        bounded = omega (arith, m);
        none_lost = λ h. cc;
        drawn_before = drawn.1;
      }

  -- The first rotation may retain as few events as it likes.
  pub first_rotation :
      (retain : ℕ) → 1 ≤ retain → AuditKept sha256_hex uuid4 limit n (retained sha256_hex retain t)
  unfolding retained
  first_rotation retain positive =
      elim (Bool-cases (leb (length (valid_ids t.audit_events)) retain)) [
        | inl small ↦ rw small k
        | inr large ↦
            let j = length k.events - suc retain in
            let more : suc retain ≤ length (valid_ids t.audit_events) = ground (arith, large) in
            let excess : length (valid_ids t.audit_events) - retain ≡ suc j =
              omega (arith, same, more) in
            let before : suc j - 1 ≡ j = omega arith in
            let size = length-drop j k.events in
            rw (large, excess, listed, before, ids-drop j k.events)
              (cut j (drop j k.events) refl (omega (arith, size, more, same, positive))
                (omega (arith, size, k.bounded)))
      ]
    where
      listed : valid_ids t.audit_events ≡ ids k.events
      listed = ap valid_ids k.event_rows ∙ valid_ids-map k.events k.readable

      same : length (valid_ids t.audit_events) ≡ length k.events
      same = ap length listed ∙ length-ids k.events
