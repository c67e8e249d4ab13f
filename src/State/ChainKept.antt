-- ===== src/State/ChainKept.antt =====
-- state/sqlite.py: the state of the audit tables that `_audit` and `_apply_audit_retention` keep.
use astral_project.Base.{
  ℕ, suc, ◌≤◌, ◌≡◌, refl, sym, ◌∙◌, inl, inr, false, Option, none, some, List, [], ◌∷◌, ◌++◌, map,
  Bool-cases, ==_refl, nat_eq, string_eq, list_beq, list_eq, option_eq, pair_eq, ok, length,
  is_empty, all, All, contains, Text, Bytes, int_eq,
}
use astral_project.Audit.Event.{AuditEvent}
use astral_project.Audit.Chain.{
  AuditRetentionBoundary, last_of, boundary_from_dict, create_boundary,
}
use astral_project.Grant.Payload.{same_set}
use astral_project.State.Tables.{Tables, AuditRow}
use astral_project.State.AuditKept.{Readable, latest-append, read_events-map}
use astral_project.Audit.Linear.{Follows, Linked, Linear, validate_chain-Linear}
use astral_project.State.AuditTable.{
  event_row, latest_event_id, backwards, boundary_row, row_dict, is_valid_row, chain_of,
  read_boundaries,
}
use astral_project.Audit.Json.{json_at, json_get}

-- What the event after these names.
unfoldable pub expected_after : Option Text → List AuditEvent → Option Text
expected_after expected [] = expected
expected_after expected (e ∷ events) = expected_after (some e.event_id) events

pub Follows-snoc :
    (expected : Option Text) (events : List AuditEvent) (e : AuditEvent)
    → Follows expected events
    → e.previous_event_id ≡ expected_after expected events
    → Follows expected (events ++ e ∷ [])
unfolding Follows expected_after
Follows-snoc expected [] e h q = (q, tt)
Follows-snoc expected (d ∷ events) e h q = (h.0, Follows-snoc (some d.event_id) events e h.1 q)

abbrev or_else : Option Text → Option Text → Option Text
or_else none other = other
or_else (some id) other = some id

latest-or_else :
    (rows : List AuditRow) (e : AuditEvent)
    → Readable e
    → latest_event_id (rows ++ event_row e ∷ []) ≡ or_else (latest_event_id rows) (some e.event_id)
unfolding latest_event_id event_row
latest-or_else [] e r = latest-append e [] r
latest-or_else (row ∷ rows) e r = elim (Bool-cases (is_valid_row row)) [
  | inl t ↦ rw t refl
  | inr f ↦ rw f (latest-or_else rows e r)
]

latest-expected_after :
    (expected : Option Text) (events : List AuditEvent)
    → All Readable events
    → or_else (latest_event_id (backwards (map event_row events))) expected
      ≡ expected_after expected events
unfolding latest_event_id backwards expected_after
latest-expected_after expected [] h = refl
latest-expected_after expected (e ∷ events) h =
    rw (latest-or_else (backwards (map event_row events)) e h.0) (
      kept (latest_event_id (backwards (map event_row events)))
      ∙ latest-expected_after (some e.event_id) events h.1)
  where
    kept :
        (o : Option Text)
        → or_else (or_else o (some e.event_id)) expected ≡ or_else o (some e.event_id)
    kept none = refl
    kept (some id) = refl

or_else-none : (o : Option Text) → or_else o none ≡ o
or_else-none none = refl
or_else-none (some id) = refl

-- `_audit` names the event that the newest readable row holds.
pub latest-previous :
    (events : List AuditEvent)
    → All Readable events
    → latest_event_id (backwards (map event_row events)) ≡ expected_after none events
latest-previous events h = sym (or_else-none _) ∙ latest-expected_after none events h

pub last_of-snoc : {A : Type 0} (xs : List A) (x : A) → last_of (xs ++ x ∷ []) ≡ some x
unfolding last_of
last_of-snoc [] x = refl
last_of-snoc (y ∷ []) x = refl
last_of-snoc (y ∷ z ∷ xs) x = last_of-snoc (z ∷ xs) x

pub Linked-snoc :
    (bs : List AuditRetentionBoundary) (b : AuditRetentionBoundary)
    → Linked bs
    → ((c : AuditRetentionBoundary)
        → last_of bs ≡ some c
        → b.pruned_through_event_id ≡ c.first_retained_event_id)
    → Linked (bs ++ b ∷ [])
unfolding Linked last_of
Linked-snoc [] b h k = tt
Linked-snoc (c ∷ []) b h k = (k c refl, tt)
Linked-snoc (c ∷ d ∷ bs) b h k = (h.0, Linked-snoc (d ∷ bs) b h.1 k)

-- A boundary that `AuditRetentionBoundary.create` makes of two identifiers.
abbrev pub Made : (Bytes → Text) → AuditRetentionBoundary → Type 0
Made sha256_hex b =
    (pruned : Text) × (first : Text) × (b ≡ create_boundary sha256_hex pruned first)
    × (is_empty pruned ≡ false)
    × (is_empty first ≡ false)

-- The event carries an identifier that was drawn before the n-th.
abbrev pub DrawnBefore : (ℕ → Text) → ℕ → AuditEvent → Type 0
DrawnBefore uuid4 n e = (k : ℕ) × (suc k ≤ n) × (e.event_id ≡ uuid4 k)

-- The audit tables hold readable events with drawn identifiers, no more than the limit, and the
-- boundaries of a linear chain.
pub record AuditKept (sha256_hex : Bytes → Text) (uuid4 : ℕ → Text) (limit n : ℕ) (t : Tables)
    : Type 0 where
  pub events : List AuditEvent
  pub boundaries : List AuditRetentionBoundary
  pub event_rows : t.audit_events ≡ map event_row events
  pub readable : All Readable events
  pub boundary_rows : t.audit_retention_boundary ≡ map boundary_row boundaries
  pub made : All (Made sha256_hex) boundaries
  pub linear : Linear boundaries events
  pub bounded : length events ≤ limit
  pub none_lost : events ≡ [] → boundaries ≡ []
  pub drawn_before : All (DrawnBefore uuid4 n) events

module _ (sha256_hex : Bytes → Text) (digest : (b : Bytes) → is_empty (sha256_hex b) ≡ false) where
  boundary_from_dict-row_dict :
      (pruned first : Text)
      → is_empty pruned ≡ false
      → is_empty first ≡ false
      → boundary_from_dict sha256_hex
          (row_dict (boundary_row (create_boundary sha256_hex pruned first)))
        ≡ ok (create_boundary sha256_hex pruned first)
  unfolding boundary_from_dict row_dict boundary_row create_boundary json_at json_get same_set all
      contains list_beq
  boundary_from_dict-row_dict pruned first p f =
      rw (p, f, digest, ==_refl (create_boundary sha256_hex pruned first).digest) refl

  read_boundaries-map :
      (bs : List AuditRetentionBoundary)
      → All (Made sha256_hex) bs
      → read_boundaries sha256_hex (map boundary_row bs) ≡ some bs
  unfolding read_boundaries
  read_boundaries-map [] h = refl
  read_boundaries-map (b ∷ bs) ((pruned, first, q, p, f), h) =
      rw
        (q, boundary_from_dict-row_dict pruned first p f, read_boundaries-map bs h, read_boundaries)
        refl

  module _ (uuid4 : ℕ → Text) (limit n : ℕ) (t : Tables)
      (kept : AuditKept sha256_hex uuid4 limit n t) where
    -- Of such tables `audit_chain_errors` reports nothing.
    pub AuditKept-chain_of : chain_of sha256_hex t ≡ []
    unfolding chain_of
    AuditKept-chain_of =
        rw
          (
            kept.boundary_rows,
            kept.event_rows,
            read_boundaries-map kept.boundaries kept.made,
            read_events-map none kept.events kept.readable,
          )
          ((validate_chain-Linear kept.boundaries kept.events).1 kept.linear)
