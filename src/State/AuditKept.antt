-- ===== src/State/AuditKept.antt =====
-- state/sqlite.py: `_audit` and `_apply_audit_retention` keep the chain of events whole.
use astral_project.Base.{
  ℕ, zero, suc, ◌≡◌, refl, ap, true, false, Option, none, some, List, [], ◌∷◌, ◌++◌, map, nat_eq,
  string_eq, list_eq, option_eq, pair_eq, drop, is_empty, All, Text, int_eq,
}
use astral_project.Audit.Event.{AuditEvent}
use astral_project.State.Tables.{AuditRow}
use astral_project.State.AuditTable.{
  backwards, drop_through, is_valid_row, latest_event_id, read_event, read_events, valid_ids,
  event_row,
}

-- An event that reads back from its row, whatever precedes it.
abbrev pub Readable : AuditEvent → Type 0
Readable e =
    ((legacy : Option Text) → read_event legacy (event_row e) ≡ some e)
    × (is_empty e.event_id ≡ false)

abbrev pub ids : List AuditEvent → List Text
ids events = map (λ e. e.event_id) events

valid_row : (e : AuditEvent) → Readable e → is_valid_row (event_row e) ≡ true
valid_row e (r, _) = rw (r none, is_valid_row) refl

pub read_events-map :
    (previous : Option Text) (events : List AuditEvent)
    → All Readable events
    → read_events previous (map event_row events) ≡ events
unfolding read_events
read_events-map previous [] h = refl
read_events-map previous (e ∷ events) h =
    rw (h.0.0 previous, read_events)
      (ap (λ rest. e ∷ rest) (read_events-map (some e.event_id) events h.1))

pub valid_ids-map :
    (events : List AuditEvent) → All Readable events → valid_ids (map event_row events) ≡ ids events
unfolding valid_ids event_row
valid_ids-map [] h = refl
valid_ids-map (e ∷ events) h =
    rw (valid_row e h.0) (ap (λ rest. e.event_id ∷ rest) (valid_ids-map events h.1))

pub drop_through-map :
    (n : ℕ) (events : List AuditEvent)
    → All Readable events
    → drop_through n (map event_row events) ≡ map event_row (drop n events)
unfolding drop_through
drop_through-map zero events h = refl
drop_through-map (suc n) [] h = refl
drop_through-map (suc n) (e ∷ events) h =
    rw (valid_row e h.0, drop_through) (drop_through-map n events h.1)

-- The search from the newest row finds the last of the identifiers.
pub latest-append :
    (e : AuditEvent) (older : List AuditRow)
    → Readable e
    → latest_event_id (event_row e ∷ older) ≡ some e.event_id
unfolding latest_event_id event_row
latest-append e older r = rw (valid_row e r) refl

pub backwards-snoc :
    (rows : List AuditRow) (row : AuditRow) → backwards (rows ++ row ∷ []) ≡ row ∷ backwards rows
unfolding backwards
backwards-snoc [] row = refl
backwards-snoc (first ∷ rows) row = rw (backwards-snoc rows row) refl
