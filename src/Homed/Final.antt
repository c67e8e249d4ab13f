-- ===== src/Homed/Final.antt =====
-- homed/mediation.py: a decision that was taken is final, whatever calls follow.
use astral_project.Base.{
  ℕ, suc, ◌-◌, ◌≤◌, ◌≡◌, refl, sym, ap, subst, ◌∙◌, ◌≢◌, inl, inr, Bool, true, false, not, ◌&&◌,
  ◌||◌, Option, none, some, List, [], ◌∷◌, arith, leb, nat_beq, Bool-cases, Option-cases, ◌==◌,
  ==_iff, nat_eq, string_eq, list_eq, option_eq, pair_eq, ok, length, is_empty, contains, Text,
  int_eq, raise_if-eq-ok,
}
use astral_project.Base.Dict.{get, put, get-put_same, get-put_other, get-put-cases, get-pop-cases}
use astral_project.Profile.Rule.{operation_eq}
use astral_project.Homed.Pending.{
  Mediator, Config, Key, Pending, MediationResult, MediationDecision, MediationRequest, Answer,
  timeout, closed, Wanted, key_of, default_to, is_credential,
}
use astral_project.Homed.Mediation.{Reachable, Sound, approve}
use astral_project.Homed.Admission.{wanted_by, coalesced_found, recent-Sound}
use astral_project.Homed.Settled.{decide_taken}
use astral_project.Homed.Approvals.{same_pair}
use astral_project.Homed.Approved.{Reachable-Sound, of_session, ok_injective, polled_there}
use astral_project.Homed.Mediator.{
  admit, cancel_all, coalesced_pending, decide, decide_pending, finish, is_trusted, leave,
  observer_raises, poll, prune_recent, remove, request_locked, request_start, cancel_session,
}

-- The number of the key was given, and its request, if it is there, has its result.
abbrev pub Spent : Key → Mediator → Type 0
Spent k m =
    (k.1 ≤ default_to 0 (get k.0 m.next_request))
    × ((p : Pending) → get k m.pending ≡ some p → p.result ≢ none)

-- What calls of the mediator lead to from a state on.
pub data Onwards (c : Config) (m : Mediator) : Mediator → Type 0 where
  stays : Onwards c m m
  requests :
      {m1 m2 : Mediator} {a : Answer} (r : MediationRequest) (now : ℕ)
      → Onwards c m m1
      → request_start c r now m1 ≡ ok (a, m2)
      → Onwards c m m2
  polls :
      {m1 m2 : Mediator} {a : Answer} (k : Key) (now : ℕ)
      → Onwards c m m1
      → poll k now m1 ≡ some (a, m2)
      → Onwards c m m2
  decides :
      {m1 m2 : Mediator} {taken : Bool} (s : Text) (n : ℕ) (d : MediationDecision)
      → Onwards c m m1
      → decide c s n d m1 ≡ ok (taken, m2)
      → Onwards c m m2
  cancels :
      {m1 m2 : Mediator} {count : ℕ} (s : Text)
      → Onwards c m m1
      → cancel_session s m1 ≡ (count, m2)
      → Onwards c m m2

Onwards-Reachable :
    (c : Config) (m m' : Mediator) (log : List Wanted)
    → Reachable c m log
    → Onwards c m m'
    → (later : List Wanted) × Reachable c m' later
Onwards-Reachable c m _ log run stays = (log, run)
Onwards-Reachable c m m' log run (requests r now o h) =
    let (l, on) = Onwards-Reachable c m _ log run o in (l, Reachable.requests r now on h)
Onwards-Reachable c m m' log run (polls k now o h) =
    let (l, on) = Onwards-Reachable c m _ log run o in (l, Reachable.polls k now on h)
Onwards-Reachable c m m' log run (decides {m1 = m1} {taken = taken} s n d o h) =
    let (l, on) = Onwards-Reachable c m _ log run o in
    (approve (get (s, n) m1.pending) d taken l, Reachable.decides s n d on h)
Onwards-Reachable c m m' log run (cancels s o h) =
    let (l, on) = Onwards-Reachable c m _ log run o in (l, Reachable.cancels s on h)

polled_state :
    {a b : Answer} {m m' : Mediator}
    → ◌≡◌ {A = Option (Answer × Mediator)} (some (a, m)) (some (b, m'))
    → m ≡ m'
polled_state {a} {b} {m} {m'} h =
    let x : Answer × Mediator = (a, m) in
    let y : Answer × Mediator = (b, m') in let q : x ≡ y = cc in (same_pair q).1

module _ (k : Key) where
  -- A request with its result is written.
  written-Spent :
      (p : Pending) (m : Mediator)
      → Spent k m
      → (key_of p.request ≡ k → p.result ≢ none)
      → Spent k (record m { pending = put (key_of p.request) p m.pending })
  written-Spent p m spent h = (
    spent.0,
    λ q g. elim (get-put-cases k (key_of p.request) p m.pending g) [
      | inl (at_k, same) ↦ rw same (h (sym at_k))
      | inr (other, g') ↦ spent.1 q g'
    ],
  )

  finish-Spent :
      (p : Pending) (r : MediationResult) (m : Mediator) → Spent k m → Spent k (finish p r m)
  unfolding finish
  finish-Spent p r m spent = elim (Option-cases p.result) [
    | inr (x, e) ↦ rw (finish, e) spent
    | inl e ↦ rw (finish, e) (written-Spent (record p { result = some r }) m spent (λ _ bad. cc))
  ]

  leave-Spent : (p : Pending) (m : Mediator) → Spent k m → p.result ≢ none → Spent k (leave p m)
  unfolding leave remove
  leave-Spent p m spent h = elim (Bool-cases (nat_beq (p.waiters - 1) 0)) [
    | inl t ↦ rw t (spent.0, λ q g. spent.1 q (get-pop-cases k (key_of p.request) m.pending g).1)
    | inr t ↦ rw t (written-Spent (record p { waiters = p.waiters - 1 }) m spent (λ _. h))
  ]

  cancel_all-Spent : (ps : List Pending) (m : Mediator) → Spent k m → Spent k (cancel_all ps m)
  unfolding cancel_all
  cancel_all-Spent [] m spent = spent
  cancel_all-Spent (p ∷ ps) m spent = cancel_all-Spent ps _ (finish-Spent p _ m spent)

  admit-Spent :
      (c : Config) (r : MediationRequest) (now : ℕ) (m : Mediator)
      → Spent k m
      → Spent k (admit c r now m).1
  unfolding admit
  admit-Spent c r now m spent = (
    elim (Bool-cases (k.0 == r.session_id)) [
      | inl t ↦
          let same : k.0 ≡ r.session_id = (==_iff k.0 r.session_id).0 t in
          let low : k.1 ≤ last =
            subst (λ s. k.1 ≤ default_to 0 (get s m.next_request)) same spent.0 in
          rw (same, get-put_same r.session_id (suc last) m.next_request) (omega (arith, low))
      | inr t ↦ rw (get-put_other k.0 r.session_id (suc last) m.next_request t) spent.0
    ],
    λ q g. elim (get-put-cases k (r.session_id, suc last) _ m.pending g) [
      | inl (at_k, same) ↦
          let low : suc last ≤ last =
            subst (λ (j : Key). j.1 ≤ default_to 0 (get j.0 m.next_request)) at_k spent.0 in
          absurd (omega (arith, low))
      | inr (other, g') ↦ spent.1 q g'
    ],
  )
    where
      last : ℕ
      last = default_to 0 (get r.session_id m.next_request)

  poll-Spent :
      (j : Key) (now : ℕ) (m : Mediator) {a : Answer} {m' : Mediator}
      → Spent k m
      → poll j now m ≡ some (a, m')
      → Spent k m'
  unfolding poll
  poll-Spent j now m {a} {m'} spent h =
      let (p, found) = polled_there j now m h in
      elim (Option-cases p.result) [
        | inr (r, e) ↦
            let same : leave p m ≡ m' = polled_state (rw (poll, found, e) at h) in
            rw (← same) (leave-Spent p m spent (λ bad. cc))
        | inl e ↦ elim (Bool-cases (leb p.request.deadline now)) [
          | inl t ↦
              let r = closed timeout (some p.request) in
              let same : leave (record p { result = some r }) (finish p r m) ≡ m' =
                polled_state (rw (poll, found, e, t) at h) in
              rw (← same) (
                leave-Spent (record p { result = some r }) (finish p r m) (finish-Spent p r m spent)
                  (λ bad. cc))
          | inr t ↦
              let same : m ≡ m' = polled_state (rw (poll, found, e, t) at h) in rw (← same) spent
        ]
      ]

  decide_pending-Spent :
      (c : Config) (p : Pending) (d : MediationDecision) (m : Mediator)
      → Spent k m
      → Spent k (decide_pending c p d m).1
  unfolding decide_pending
  decide_pending-Spent c p d m spent = elim (Bool-cases (observer_raises c p d)) [
    | inl t ↦ rw t (finish-Spent p _ m spent)
    | inr t ↦ rw t (finish-Spent p _ m spent)
  ]

  decide-Spent :
      (c : Config) (s : Text) (n : ℕ) (d : MediationDecision) (m : Mediator) {taken : Bool}
      {m' : Mediator}
      → Spent k m
      → decide c s n d m ≡ ok (taken, m')
      → Spent k m'
  unfolding decide
  decide-Spent c s n d m spent h =
      let (trusted, rest) = raise_if-eq-ok (not (is_trusted d)) _ _ h in
      elim (Option-cases (get (s, n) m.pending)) [
        | inl e ↦ rw (← (same_pair (ok_injective (rw e at rest))).1) spent
        | inr (p, e) ↦ elim (Option-cases p.result) [
          | inr (r, f) ↦ rw (← (same_pair (ok_injective (rw (e, f) at rest))).1) spent
          | inl f ↦
              rw (← (same_pair (ok_injective (rw (e, f) at rest))).1)
                (decide_pending-Spent c p d m spent)
        ]
      ]

  -- A request joins a pending one or is admitted.
  locked-Spent :
      (c : Config) (r : MediationRequest) (now : ℕ) (m : Mediator) (log : List Wanted)
      → Sound m log
      → Spent k m
      → Spent k (request_locked c r now m).1
  unfolding request_locked
  locked-Spent c r now m log sound spent =
      elim (Bool-cases
        (contains m.allowed_once (wanted_by r) && not (is_credential r.sensitivity))) [
          | inl t ↦ rw t spent
          | inr t ↦ rw t (elim (Option-cases (coalesced_pending (wanted_by r) m)) [
            | inr (p, e) ↦
                let (found, _) = coalesced_found (wanted_by r) m log p sound e in
                rw e (
                  written-Spent (record p { waiters = suc p.waiters }) m spent
                    (λ at_k. spent.1 p (subst (λ j. get j m.pending ≡ some p) at_k found)))
            | inl e ↦ rw e (elim (Bool-cases (leb c.max_pending (length m.pending))) [
              | inl q ↦ rw q spent
              | inr q ↦
                  rw q
                    (elim (Bool-cases (
                      leb c.max_requests_per_session
                        (length (default_to [] (get r.session_id m.recent))))) [
                          | inl f ↦ rw f spent
                          | inr f ↦ rw f (admit-Spent c r now m spent)
                        ])
            ])
          ])
        ]

  start-Spent :
      (c : Config) (r : MediationRequest) (now : ℕ) (m : Mediator) (log : List Wanted) {a : Answer}
      {m' : Mediator}
      → Sound m log
      → Spent k m
      → request_start c r now m ≡ ok (a, m')
      → Spent k m'
  unfolding request_start prune_recent
  start-Spent c r now m log sound spent h =
      let (named, rest) =
        raise_if-eq-ok (is_empty r.session_id || is_empty r.path || is_empty r.path_component) _ _
          h in
      rw (← (same_pair (ok_injective rest)).1) (
        locked-Spent c r now (prune_recent c r.session_id now m) log (recent-Sound m log _ sound)
          spent)

  cancel-Spent : (s : Text) (m : Mediator) → Spent k m → Spent k (cancel_session s m).1
  unfolding cancel_session
  cancel-Spent s m spent = cancel_all-Spent (of_session s m) m spent

  Onwards-Spent :
      (c : Config) (m m' : Mediator) (log : List Wanted)
      → Reachable c m log
      → Spent k m
      → Onwards c m m'
      → Spent k m'
  Onwards-Spent c m _ log run spent stays = spent
  Onwards-Spent c m m' log run spent (requests {m1 = m1} r now o h) =
      let (l, on) = Onwards-Reachable c m m1 log run o in
      start-Spent c r now m1 l (Reachable-Sound c m1 l on) (Onwards-Spent c m m1 log run spent o) h
  Onwards-Spent c m m' log run spent (polls {m1 = m1} j now o h) =
      poll-Spent j now m1 (Onwards-Spent c m m1 log run spent o) h
  Onwards-Spent c m m' log run spent (decides {m1 = m1} s n d o h) =
      decide-Spent c s n d m1 (Onwards-Spent c m m1 log run spent o) h
  Onwards-Spent c m m' log run spent (cancels {m1 = m1} s o h) =
      rw (← (same_pair h).1) (cancel-Spent s m1 (Onwards-Spent c m m1 log run spent o))

-- Once `decide` has taken a decision on a request, any further trusted decision on it is refused and
-- changes nothing, whatever calls of the mediator come in between, in every state that calls lead to.
pub decided_for_good :
    (c : Config) (m m' m'' : Mediator) (log : List Wanted) (s : Text) (n : ℕ)
    (d d' : MediationDecision)
    → Reachable c m log
    → decide c s n d m ≡ ok (true, m')
    → Onwards c m' m''
    → is_trusted d' ≡ true
    → decide c s n d' m'' ≡ ok (false, m'')
unfolding decide
decided_for_good c m m' m'' log s n d d' run h onwards trusted =
    elim (Option-cases (get (s, n) m''.pending)) [
      | inl e ↦ rw (decide, trusted, e) refl
      | inr (p, e) ↦ elim (Option-cases p.result) [
        | inr (r, f) ↦ rw (decide, trusted, e, f) refl
        | inl f ↦ absurd (spent.1 p e f)
      ]
    ]
  where
    after : Reachable c m' (approve (get (s, n) m.pending) d true log)
    after = Reachable.decides s n d run h

    closed_there : Spent (s, n) m'
    closed_there =
        let (p, found, (r, e)) = decide_taken c m m' log s n d run h in
        (
          (Reachable-Sound c m' _ after).fresh s n (record p { result = some r }) e,
          λ q g bad.
              let same : record p { result = some r } ≡ q = cc in
              let worse : some r ≡ none = ap (λ x. x.result) same ∙ bad in cc,
        )

    spent : Spent (s, n) m''
    spent = Onwards-Spent (s, n) c m' m'' _ after closed_there onwards
