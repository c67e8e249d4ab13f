-- ===== src/State/AuditSteps.antt =====
-- state/sqlite.py: every call of `_audit`, from a whole chain to a whole chain.
use astral_project.Base.{
  ℕ, suc, ◌≤◌, ◌≡◌, sym, ap, ◌∙◌, ◌≢◌, none, List, [], ◌∷◌, ◌++◌, arith, nat_eq, string_eq, list_eq,
  option_eq, pair_eq, ok, length, length-append, All-append, Pairs-snoc, Text, Bytes, int_eq,
  Result, Bool-cases, err, leb, refl, inl, inr, ltb, encode_utf8, any, ◌==◌, Bool, true, false,
}
use astral_project.Audit.Event.{
  AuditEvent, Occurrence, create_event, AuditEventError, audit_max_event_bytes,
}
use astral_project.State.Tables.{
  Tables, HostRow, GrantRow, SessionRow, Revocation, Store, AuditRow, audit_event_error,
  integrity_error,
}
use astral_project.State.AuditKept.{Readable}
use astral_project.Base.Dict.{Dict}
use astral_project.State.ChainKept.{AuditKept, expected_after, latest-previous, DrawnBefore}
use astral_project.State.AuditTable.{
  event_row, latest_event_id, backwards, retained, audit, insert_event, audit_step, dumped,
  envelope, prune, valid_ids,
}
use astral_project.State.Retention.{
  Grown, retained-AuditKept, map-append, GoesOn-snoc, fresh-Apart, DrawnBefore-mono,
}
use astral_project.State.Created.{event_of, create_event-eq-ok, create_event-Readable}
use astral_project.Audit.Linear.{Apart}
use astral_project.State.Ends.{Ends, step-Ends, raise_if-Ends}
use astral_project.Audit.Json.{json_dumps}
use astral_project.State.Actions.{modify, Action, ◌>>◌, ◌>>=◌, raise_if, step}

-- What the audit leaves alone.
abbrev pub RestOf : Type 0
RestOf =
    Dict Text HostRow
    × Dict Text GrantRow
    × Dict Text Bytes
    × Dict Text SessionRow
    × Dict Text Revocation

abbrev pub rest_of : Tables → RestOf
rest_of t = (t.hosts, t.grants, t.grant_issuer_keys, t.sessions, t.revocations)

length-snoc-le :
    (events : List AuditEvent) (e : AuditEvent) (n : ℕ)
    → length events ≤ n
    → length (events ++ e ∷ []) ≤ suc n
length-snoc-le events e n h = omega (arith, length-append events (e ∷ []), h)

snoc-ne-nil : (events : List AuditEvent) (e : AuditEvent) → events ++ e ∷ [] ≢ []
snoc-ne-nil [] e h = cc
snoc-ne-nil (d ∷ events) e h = cc

abbrev with_row : Tables → AuditEvent → Tables
with_row t e = record t { audit_events = t.audit_events ++ event_row e ∷ [] }

module _ (sha256_hex : Bytes → Text) (uuid4 : ℕ → Text)
    (unique_ids : (j k : ℕ) → uuid4 j ≡ uuid4 k → j ≡ k) (limit n : ℕ) (positive : 1 ≤ limit)
    (t : Tables) (kept : AuditKept sha256_hex uuid4 limit n t) where
  -- The tables after the insertion of a created event
  added-Grown :
      (o : Occurrence) (e : AuditEvent)
      → create_event (uuid4 n) (latest_event_id (backwards t.audit_events)) o ≡ ok e
      → Grown sha256_hex uuid4 limit (suc n) (with_row t e) (kept.events ++ e ∷ []) kept.boundaries
  added-Grown o e h = (
    ap (λ rows. rows ++ event_row e ∷ []) kept.event_rows
        ∙ sym (map-append event_row kept.events (e ∷ [])),
    All-append Readable kept.events (e ∷ []) kept.readable (create_event-Readable _ _ o e h, tt),
    kept.boundary_rows,
    kept.made,
    (
      kept.linear.0,
      GoesOn-snoc kept.boundaries kept.events e kept.linear.1 kept.none_lost follows,
      Pairs-snoc Apart kept.events e kept.linear.2
          (fresh-Apart uuid4 n e kept.events unique_ids named kept.drawn_before),
    ),
    length-snoc-le kept.events e limit kept.bounded,
    snoc-ne-nil kept.events e,
    All-append (DrawnBefore uuid4 (suc n)) kept.events (e ∷ [])
        (DrawnBefore-mono uuid4 n (suc n) kept.events (omega arith) kept.drawn_before)
        ((n, omega arith, named), tt),
  )
    where
      made : e ≡ event_of (uuid4 n) (latest_event_id (backwards t.audit_events)) o
      made = (create_event-eq-ok _ _ o e h).0

      named : e.event_id ≡ uuid4 n
      named = ap (λ x. x.event_id) made

      follows : e.previous_event_id ≡ expected_after none kept.events
      follows =
          ap (λ x. x.previous_event_id) made
          ∙ ap (λ rows. latest_event_id (backwards rows)) kept.event_rows
          ∙ latest-previous kept.events kept.readable

  pub added-AuditKept :
      (o : Occurrence) (e : AuditEvent)
      → create_event (uuid4 n) (latest_event_id (backwards t.audit_events)) o ≡ ok e
      → AuditKept sha256_hex uuid4 limit (suc n) (retained sha256_hex limit (with_row t e))
  added-AuditKept o e h =
      retained-AuditKept sha256_hex uuid4 limit (suc n) (with_row t e) (kept.events ++ e ∷ [])
        kept.boundaries positive (added-Grown o e h)

audit_step-eq-ok :
    (r : Result AuditEventError AuditEvent) {e : AuditEvent} → audit_step r ≡ ok e → r ≡ ok e
audit_step-eq-ok (ok d) h = cc h
audit_step-eq-ok (err x) h = cc

rest_of-prune :
    (sha256_hex : Bytes → Text) (n : ℕ) (valid : List Text) (t : Tables)
    → rest_of (prune sha256_hex n valid t) ≡ rest_of t
unfolding prune
rest_of-prune sha256_hex n [] t = refl
rest_of-prune sha256_hex n (cutoff ∷ []) t = refl
rest_of-prune sha256_hex n (cutoff ∷ first ∷ rest) t = refl

pub rest_of-retained :
    (sha256_hex : Bytes → Text) (limit : ℕ) (t : Tables)
    → rest_of (retained sha256_hex limit t) ≡ rest_of t
unfolding retained
rest_of-retained sha256_hex limit t =
    elim (Bool-cases (leb (length (valid_ids t.audit_events)) limit)) [
      | inl small ↦ rw small refl
      | inr large ↦ rw large (rest_of-prune sha256_hex _ _ t)
    ]

insert_event-Ends :
    {B : Type 0} (Q : B → Store → Type 0) (E : Store → Type 0) (row : AuditRow) (rest : Action B)
    (s : Store)
    → Ends Q E (
        rest (record s {
          tables = record s.tables { audit_events = s.tables.audit_events ++ row ∷ [] };
        }))
    → E s
    → Ends Q E ((insert_event row >> rest) s)
unfolding insert_event
insert_event-Ends {B} Q E row rest s h e =
    from (any (λ other. other.event_id == row.event_id) s.tables.audit_events)
  where
    insertion : Tables → Tables
    insertion t = record t { audit_events = t.audit_events ++ row ∷ [] }

    from : (b : Bool) → Ends Q E (((raise_if b integrity_error >> modify insertion) >> rest) s)
    from true = e
    from false = h

module _ (sha256_hex : Bytes → Text) (uuid4 : ℕ → Text)
    (unique_ids : (j k : ℕ) → uuid4 j ≡ uuid4 k → j ≡ k) (limit : ℕ) (positive : 1 ≤ limit) where
  -- A whole chain that took the place of another, with the other tables as they were
  abbrev pub Audited : Store → Store → Type 0
  Audited s s' =
      AuditKept sha256_hex uuid4 limit s'.drawn s'.tables
      × (rest_of s'.tables ≡ rest_of s.tables)
      × (s.drawn ≤ s'.drawn)

  pub audit-Audited :
      (o : Occurrence) (s : Store)
      → AuditKept sha256_hex uuid4 limit s.drawn s.tables
      → Ends (λ _ s'. Audited s s') (λ s'. s.drawn ≤ s'.drawn) (audit sha256_hex uuid4 limit o s)
  unfolding audit
  audit-Audited o s kept =
      step-Ends Q E (audit_step created) written drawn_one
        (λ e h.
          step-Ends Q E (dumped (json_dumps (envelope e))) (sized e) drawn_one
            (λ text _.
              raise_if-Ends Q E (ltb audit_max_event_bytes (length (encode_utf8 text)))
                (audit_event_error "audit event exceeds serialized size limit") (insert e) drawn_one
                (λ _.
                  insert_event-Ends Q E (event_row e) (modify (retained sha256_hex limit)) drawn_one
                    (done e h) later)
                later)
            later)
        later
    where
      Q : Unit {0} → Store → Type 0
      Q _ s' = Audited s s'

      E : Store → Type 0
      E s' = s.drawn ≤ s'.drawn

      drawn_one : Store
      drawn_one = record s { drawn = suc s.drawn }

      later : s.drawn ≤ suc s.drawn
      later = omega arith

      created : Result AuditEventError AuditEvent
      created = create_event (uuid4 s.drawn) (latest_event_id (backwards s.tables.audit_events)) o

      insert : AuditEvent → Action (Unit {0})
      insert e = insert_event (event_row e) >> modify (retained sha256_hex limit)

      sized : AuditEvent → Text → Action (Unit {0})
      sized e text =
          raise_if (ltb audit_max_event_bytes (length (encode_utf8 text)))
            (audit_event_error "audit event exceeds serialized size limit")
          >> insert e

      written : AuditEvent → Action (Unit {0})
      written e = step (dumped (json_dumps (envelope e))) >>= sized e

      done :
          (e : AuditEvent)
          → audit_step created ≡ ok e
          → Audited s
              (record drawn_one { tables = retained sha256_hex limit (with_row s.tables e) })
      done e h = (
        added-AuditKept sha256_hex uuid4 unique_ids limit s.drawn positive s.tables kept o e
            (audit_step-eq-ok created h),
        rest_of-retained sha256_hex limit (with_row s.tables e),
        later,
      )
