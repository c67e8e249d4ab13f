-- ===== src/Audit/Linear.antt =====
-- audit/events.py: what it means that `validate_chain` finds no errors.
use astral_project.Base.{
  ◌≡◌, refl, ◌≢◌, ◌↔◌, inl, inr, true, false, Option, none, some, List, [], ◌∷◌, ◌++◌, arith,
  Bool-cases, or-eq-false, ◌==◌, ==_iff, nat_eq, string_eq, list_eq, option_eq, pair_eq, All, Pairs,
  contains, Text, int_eq,
}
use astral_project.Audit.Event.{AuditEvent}
use astral_project.Audit.Chain.{
  AuditRetentionBoundary, boundary_errors, event_errors, from_keys, last_of, chain_errors,
  validate_chain, retention_boundary,
}

-- Each event names the one before it, the first one what is expected.
unfoldable pub Follows : Option Text → List AuditEvent → Type 0
Follows expected [] = Unit
Follows expected (e ∷ events) = (e.previous_event_id ≡ expected) × Follows (some e.event_id) events

abbrev pub Apart : AuditEvent → AuditEvent → Type 0
Apart a b = b.event_id ≢ a.event_id

-- Each boundary prunes what the one before it had retained first.
unfoldable pub Linked : List AuditRetentionBoundary → Type 0
Linked [] = Unit
Linked (b ∷ []) = Unit
Linked (b ∷ c ∷ rest) = (c.pruned_through_event_id ≡ b.first_retained_event_id) × Linked (c ∷ rest)

-- The events go on where the latest boundary says that they do.
unfoldable pub GoesOn : Option AuditRetentionBoundary → List AuditEvent → Type 0
unfolding Follows
GoesOn none events = Follows none events
GoesOn (some b) [] = Unit
GoesOn (some b) (e ∷ events) =
    (e.event_id ≡ b.first_retained_event_id) × Follows (some b.pruned_through_event_id) (e ∷ events)

abbrev pub Linear : List AuditRetentionBoundary → List AuditEvent → Type 0
Linear boundaries events =
    Linked boundaries × GoesOn (last_of boundaries) events × Pairs Apart events

append-eq-nil : {A : Type 0} (xs ys : List A) → xs ++ ys ≡ [] → (xs ≡ []) × (ys ≡ [])
append-eq-nil [] ys h = (refl, h)
append-eq-nil (x ∷ xs) ys h = cc

from_keys-eq-nil : (errors : List Text) → (from_keys [] errors ≡ []) ↔ (errors ≡ [])
unfolding from_keys contains
from_keys-eq-nil [] = (λ _. refl, λ _. refl)
from_keys-eq-nil (x ∷ xs) = (λ h. cc, λ h. cc)

boundary_errors-eq-nil :
    (boundaries : List AuditRetentionBoundary)
    → (boundary_errors boundaries ≡ []) ↔ Linked boundaries
unfolding boundary_errors Linked
boundary_errors-eq-nil [] = (λ _. tt, λ _. refl)
boundary_errors-eq-nil (b ∷ []) = (λ _. tt, λ _. refl)
boundary_errors-eq-nil (b ∷ c ∷ rest) = ground (
  arith,
  ==_iff c.pruned_through_event_id b.first_retained_event_id,
  boundary_errors-eq-nil (c ∷ rest),
)

-- No event is one of those seen before.
abbrev Unseen : List Text → List AuditEvent → Type 0
Unseen known events = All (λ e. contains known e.event_id ≡ false) events

apart : (a b : Text) → ((a == b) ≡ false) ↔ (a ≢ b)
apart a b = (
  λ h q. let bad : true ≡ false = rw ((==_iff a b).1 q) at h in cc,
  λ n. elim (Bool-cases (a == b)) [ inl t ↦ absurd (n ((==_iff a b).0 t)) | inr f ↦ f ],
)

Unseen-later :
    (known : List Text) (e : AuditEvent) (events : List AuditEvent)
    → Unseen (e.event_id ∷ known) events ↔ (All (Apart e) events × Unseen known events)
unfolding contains
Unseen-later known e [] = (λ _. (tt, tt), λ _. tt)
Unseen-later known e (d ∷ events) =
    let (split_apart, join_apart) = apart d.event_id e.event_id in
    let (ih, ih') = Unseen-later known e events in
    (
      λ h.
          let (p, q) = or-eq-false (d.event_id == e.event_id) (contains known d.event_id) h.0 in
          let (r, s) = ih h.1 in ((split_apart p, r), (q, s)),
      λ h. let (k, l) = h in (rw (join_apart k.0, l.0) refl, ih' (k.1, l.1)),
    )

event_errors-eq-nil :
    (known : List Text) (expected : Option Text) (events : List AuditEvent)
    → (event_errors known expected events ≡ [])
      ↔ (Follows expected events × Pairs Apart events × Unseen known events)
unfolding event_errors Follows
event_errors-eq-nil known expected [] = (λ _. (tt, tt, tt), λ _. refl)
event_errors-eq-nil known expected (e ∷ events) =
    let (ih, ih') = event_errors-eq-nil (e.event_id ∷ known) (some e.event_id) events in
    let (away, back) = Unseen-later known e events in
    let (same, same') = ==_iff e.previous_event_id expected in
    (
      λ h. elim (Bool-cases (contains known e.event_id)) [
        | inl t ↦
            let bad : e.event_id ∷ event_errors (e.event_id ∷ known) (some e.event_id) events ≡ [] =
              rw t at h in
            cc
        | inr f ↦ elim (Bool-cases (e.previous_event_id == expected)) [
          | inl p ↦
              let (q, r, u) = ih (rw (f, p) at h) in
              let (v, w) = away u in ((same p, q), (v, r), (f, w))
          | inr n ↦
              let bad : e.event_id ∷ event_errors (e.event_id ∷ known) (some e.event_id) events
                  ≡ [] =
                rw (f, n) at h in
              cc
        ]
      ],
      λ h. let ((p, q), (v, r), (f, w)) = h in rw (f, same' p) (ih' (q, r, back (v, w))),
    )

Unseen-none : (events : List AuditEvent) → Unseen [] events
unfolding contains
Unseen-none [] = tt
Unseen-none (e ∷ events) = (refl, Unseen-none events)

chain_errors-eq-nil :
    (latest : Option AuditRetentionBoundary) (events : List AuditEvent)
    → (chain_errors latest events ≡ []) ↔ (GoesOn latest events × Pairs Apart events)
unfolding chain_errors GoesOn
chain_errors-eq-nil none events =
    let (onward, back) = event_errors-eq-nil [] none events in
    (λ h. let (p, q, _) = onward h in (p, q), λ h. back (h.0, h.1, Unseen-none events))
chain_errors-eq-nil (some b) [] = (λ _. (tt, tt), λ _. refl)
chain_errors-eq-nil (some b) (e ∷ events) =
    let (onward, back) = event_errors-eq-nil [] (some b.pruned_through_event_id) (e ∷ events) in
    let (same, same') = ==_iff e.event_id b.first_retained_event_id in
    (
      λ h. elim (Bool-cases (e.event_id == b.first_retained_event_id)) [
        | inl p ↦ let (q, r, _) = onward (rw p at h) in ((same p, q), r)
        | inr n ↦
            let bad : retention_boundary ∷ event_errors [] none (e ∷ events) ≡ [] = rw n at h in cc
      ],
      λ h. rw (same' h.0.0) (back (h.0.1, h.1, Unseen-none (e ∷ events))),
    )

-- `validate_chain` finds no error exactly if each boundary prunes what the one before it retained
-- first, the first event is the one that the latest boundary retains and names the one it prunes,
-- or none where there is no boundary, each other event names the one before it, and no two events
-- have one identifier.
pub validate_chain-Linear :
    (boundaries : List AuditRetentionBoundary) (events : List AuditEvent)
    → (validate_chain events none boundaries ≡ []) ↔ Linear boundaries events
unfolding validate_chain
validate_chain-Linear boundaries events =
    let (plain, plain') = from_keys-eq-nil (boundary_errors boundaries ++ chained) in
    let (linked, linked') = boundary_errors-eq-nil boundaries in
    let (goes_on, goes_on') = chain_errors-eq-nil (last_of boundaries) events in
    (
      λ h.
          let (p, q) = append-eq-nil (boundary_errors boundaries) chained (plain h) in
          let (r, s) = goes_on q in (linked p, r, s),
      λ h. plain' (rw (linked' h.0) (goes_on' (h.1, h.2))),
    )
  where
    chained : List Text
    chained = chain_errors (last_of boundaries) events
