-- ===== src/Homed/Bounds.antt =====
-- homed/mediation.py: the queue and the requests of a session stay within their bounds.
use astral_project.Profile.Rule.{operation_eq}
use astral_project.Base.{
  inl, inr, refl, ℕ, suc, ◌≡◌, Bool, not, ◌&&◌, ◌||◌, some, List, [], ◌∷◌, arith, leb, Bool-cases,
  Option-cases, nat_eq, string_eq, list_eq, option_eq, pair_eq, ok, raise_if-eq-ok, length,
  is_empty, All, All-map, contains, Text, int_eq,
}
use astral_project.Base.Dict.{get, length-put_known}
use astral_project.Homed.Pending.{
  Mediator, Config, Key, Pending, MediationRequest, MediationResult, MediationDecision, Answer,
  timeout, cancelled, default_to, key_of, Wanted, answered, is_credential, closed, waiting,
}
use astral_project.Homed.Mediation.{
  Sound, Known, Reachable, starts, requests, polls, decides, cancels,
}
use astral_project.Homed.Approvals.{same_pair, finish-Known}
use astral_project.Homed.Mediator.{
  finish, leave, prune_recent, poll, request_locked, request_start, coalesced_pending, cancel_all,
  cancel_session, decide, decide_pending, is_trusted, observer_raises,
}
use astral_project.Homed.Admission.{wanted_by, recent-Sound, coalesced_found}
use astral_project.Homed.Approved.{
  ok_injective, polled_there, Reachable-Sound, finish-keeps_Known, session-Known,
}
use astral_project.Homed.Bounded.{
  Bounded, admit-Bounded, finish-Bounded, leave-Bounded, prune-Bounded,
}

locked-Bounded :
    (c : Config) (r : MediationRequest) (now : ℕ) (m : Mediator) (log : List Wanted)
    → Sound m log
    → Bounded c m
    → Bounded c ((request_locked c r now m).1)
unfolding request_locked
locked-Bounded c r now m log sound bounded =
    elim (Bool-cases (contains m.allowed_once (wanted_by r) && not (is_credential r.sensitivity))) [
      | inl t ↦ rw t bounded
      | inr t ↦ rw t (elim (Option-cases (coalesced_pending (wanted_by r) m)) [
        | inr (p, e) ↦
            let (found, same) = coalesced_found (wanted_by r) m log p sound e in
            rw e (
              rw
                  (length-put_known (key_of p.request) (record p { waiters = suc p.waiters })
                    m.pending found)
                  bounded.0,
              bounded.1,
            )
        | inl e ↦ rw e (elim (Bool-cases (leb c.max_pending (length m.pending))) [
          | inl q ↦ rw q bounded
          | inr q ↦
              rw q
                (elim (Bool-cases (
                  leb c.max_requests_per_session
                    (length (default_to [] (get r.session_id m.recent))))) [
                      | inl q' ↦ rw q' bounded
                      | inr q' ↦ rw q' (admit-Bounded c r now m bounded q q')
                    ])
        ])
      ])
    ]

start-Bounded :
    (c : Config) (r : MediationRequest) (now : ℕ) (m : Mediator) (log : List Wanted)
    {x : Answer × Mediator}
    → Sound m log
    → Bounded c m
    → request_start c r now m ≡ ok x
    → Bounded c (x.1)
unfolding request_start prune_recent
start-Bounded c r now m log sound bounded h =
    let (named, rest) =
      raise_if-eq-ok (is_empty r.session_id || is_empty r.path || is_empty r.path_component) _ _
        h in
    rw (← ok_injective rest) (
      locked-Bounded c r now (prune_recent c r.session_id now m) log (recent-Sound m log _ sound)
        (prune-Bounded c r.session_id now m bounded))

some-Bounded :
    (c : Config) (a : Answer) (m : Mediator)
    → Bounded c m
    → (x : Answer × Mediator) → some (a, m) ≡ some x
    → Bounded c (x.1)
some-Bounded c a m bounded x h =
    let y : Answer × Mediator = (a, m) in let q : y ≡ x = cc in rw (← (same_pair q).1) bounded

poll-Bounded :
    (c : Config) (k : Key) (now : ℕ) (m : Mediator) (log : List Wanted) (p : Pending)
    → Sound m log
    → Bounded c m
    → get k m.pending ≡ some p
    → (x : Answer × Mediator) → poll k now m ≡ some x
    → Bounded c (x.1)
unfolding poll
poll-Bounded c k now m log p sound bounded found =
    rw (poll, found)
      (elim (Option-cases p.result) [
        | inr (r, e) ↦
            rw e (some-Bounded c (answered r) (leave p m) (leave-Bounded c p m known bounded))
        | inl e ↦ rw e (elim (Bool-cases (leb p.request.deadline now)) [
          | inl t ↦ rw t (
              some-Bounded c (answered expired) _ (
                leave-Bounded c (record p { result = some expired }) (finish p expired m)
                  (finish-Known p expired m e) (finish-Bounded c p expired m known bounded)))
          | inr t ↦ rw t (some-Bounded c (waiting k) m bounded)
        ])
      ])
  where
    expired : MediationResult
    expired = closed timeout (some p.request)

    known : Known p m
    known = (p, rw (sound.keyed k p found) found, refl)

decide_pending-Bounded :
    (c : Config) (p : Pending) (d : MediationDecision) (m : Mediator)
    → Known p m
    → Bounded c m
    → Bounded c ((decide_pending c p d m).1)
unfolding decide_pending
decide_pending-Bounded c p d m known bounded = elim (Bool-cases (observer_raises c p d)) [
  | inl t ↦ rw t (finish-Bounded c p _ m known bounded)
  | inr t ↦ rw t (finish-Bounded c p _ m known bounded)
]

decide-Bounded :
    (c : Config) (s : Text) (n : ℕ) (d : MediationDecision) (m : Mediator) (log : List Wanted)
    {x : Bool × Mediator}
    → Sound m log
    → Bounded c m
    → decide c s n d m ≡ ok x
    → Bounded c (x.1)
unfolding decide
decide-Bounded c s n d m log {x} sound bounded h =
    let (trusted, rest) = raise_if-eq-ok (not (is_trusted d)) _ _ h in
    rw (← ok_injective rest) (elim (Option-cases (get (s, n) m.pending)) [
      | inl e ↦ rw e bounded
      | inr (p, e) ↦ rw e (elim (Option-cases p.result) [
        | inr (r, f) ↦ rw f bounded
        | inl f ↦
            rw f (decide_pending-Bounded c p d m (p, rw (sound.keyed (s, n) p e) e, refl) bounded)
      ])
    ])

cancel_all-Bounded :
    (c : Config) (ps : List Pending) (m : Mediator)
    → Bounded c m
    → All (λ p. Known p m) ps
    → Bounded c (cancel_all ps m)
unfolding cancel_all
cancel_all-Bounded c [] m bounded known = bounded
cancel_all-Bounded c (p ∷ ps) m bounded known =
    cancel_all-Bounded c ps (finish p (closed cancelled (some p.request)) m)
      (finish-Bounded c p (closed cancelled (some p.request)) m known.0 bounded)
      (All-map _ _ ps
        (λ q k. finish-keeps_Known p q (closed cancelled (some p.request)) m known.0 k) known.1)

-- In every state that calls of the mediator lead to, no more requests are pending than the queue
-- holds, and no session has more recent requests than it may.
pub Reachable-Bounded :
    (c : Config) (m : Mediator) (log : List Wanted) → Reachable c m log → Bounded c m
unfolding get cancel_session
Reachable-Bounded c m log starts = (omega arith, λ s. omega arith)
Reachable-Bounded c m' log (requests {m = m} r now run h) =
    start-Bounded c r now m log (Reachable-Sound c m log run) (Reachable-Bounded c m log run) h
Reachable-Bounded c m' log (polls {m = m} k now run h) =
    let (p, e) = polled_there k now m h in
    poll-Bounded c k now m log p (Reachable-Sound c m log run) (Reachable-Bounded c m log run) e _ h
Reachable-Bounded c m' _ (decides {m = m} {log = log} s n d run h) =
    decide-Bounded c s n d m log (Reachable-Sound c m log run) (Reachable-Bounded c m log run) h
Reachable-Bounded c m' log (cancels {m = m} s run h) = rw (← (same_pair h).1) (
    cancel_all-Bounded c _ m (Reachable-Bounded c m log run)
      (session-Known s m log (Reachable-Sound c m log run)))
