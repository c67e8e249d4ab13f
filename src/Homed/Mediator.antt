-- ===== src/Homed/Mediator.antt =====
-- homed/mediation.py: `UnknownPathMediator`. A call of `request` is its locked part up to the loop
-- (`request_start`) and then rounds of the loop (`poll`), between which other calls may run. Times
-- are ticks of the clock. The observer of requests cannot change the state and is left out.
use astral_project.Base.{
  ℕ, suc, ◌+◌, ◌-◌, String, Bool, true, false, not, ◌&&◌, ◌||◌, Option, none, some, List, [], ◌∷◌,
  ◌++◌, map, ltb, leb, nat_beq, if◌then◌else◌, ◌==◌, nat_eq, string_eq, list_eq, option_eq, pair_eq,
  Result, ok, ◌>>◌, raise_if, length, is_empty, filter, contains, Text, codes, int_eq,
}
use astral_project.Base.Dict.{Dict, get, put, pop}
use astral_project.Homed.Pending.{
  Answer, Config, Key, MediationDecision, MediationRequest, MediationResult, Mediator, Pending,
  PendingRequest, Wanted, allow_once, answered, cancelled, closed, default_to, deny, hide,
  is_allow_once, is_credential, is_hide, key_of, queue_full, rate_limited, timeout, waiting,
  wanted_of,
}
use astral_project.Profile.Rule.{operation_eq}

-- `set.add`
unfoldable pub add : Wanted → List Wanted → List Wanted
add w ws = if contains ws w then ws else ws ++ w ∷ []

-- `_finish`
unfoldable pub finish : Pending → MediationResult → Mediator → Mediator
finish p result m = elim p.result [
  | some r ↦ m
  | none ↦ record m {
    pending = put (key_of p.request) (record p { result = some result }) m.pending;
    allowed_once =
        if is_allow_once result.decision && not (is_credential p.request.sensitivity)
        then add (wanted_of p) m.allowed_once
        else m.allowed_once;
  }
]

-- `_remove`
unfoldable pub remove : Pending → Mediator → Mediator
remove p m = record m {
  pending = pop (key_of p.request) m.pending;
  coalesced = pop (wanted_of p) m.coalesced;
}

-- `while recent and recent[0] < cutoff: recent.popleft()`
unfoldable pub drop_old : ℕ → ℕ → List ℕ → List ℕ
drop_old span now [] = []
drop_old span now (t ∷ ts) =
    let rest = drop_old span now ts in if ltb (t + span) now then rest else t ∷ ts

-- `_prune_recent`; `t < now - timeout` is `t + timeout < now`
unfoldable pub prune_recent : Config → Text → ℕ → Mediator → Mediator
unfolding drop_old
prune_recent c session now m = record m {
  recent = put session (drop_old c.timeout now (default_to [] (get session m.recent))) m.recent;
}

-- `pending.waiters += 1`
abbrev pub join_pending : Pending → Mediator → Answer × Mediator
join_pending p m = (
  waiting (key_of p.request),
  record m { pending = put (key_of p.request) (record p { waiters = suc p.waiters }) m.pending },
)

-- The request that is admitted: it gets the next number of its session.
unfoldable pub admit : Config → MediationRequest → ℕ → Mediator → Answer × Mediator
admit c r now m =
    let number = suc (default_to 0 (get r.session_id m.next_request)) in
    let request : PendingRequest = record {
      session_id = r.session_id;
      request_number = number;
      operation = r.operation;
      path_component = r.path_component;
      opaque_ancestor = r.opaque_ancestor;
      sensitivity = r.sensitivity;
      deadline = now + c.timeout;
      provenance = record { source = codes "unknown"; observer = none };
    } in
    let pending : Pending = record {
      request = request;
      full_path = r.path;
      result = none;
      waiters = 1;
    } in
    (
      waiting (r.session_id, number),
      record m {
        next_request = put r.session_id number m.next_request;
        pending = put (r.session_id, number) pending m.pending;
        coalesced = put (r.session_id, (r.path, r.operation)) (r.session_id, number) m.coalesced;
        recent = put r.session_id (default_to [] (get r.session_id m.recent) ++ now ∷ []) m.recent;
      },
    )

-- `self._coalesced.get(key)`, the object that the entry points to
unfoldable pub coalesced_pending : Wanted → Mediator → Option Pending
coalesced_pending key m = elim (get key m.coalesced) [ none ↦ none | some k ↦ get k m.pending ]

-- The branches of `request` behind the pruning; a coalesced key finds its pending request.
unfoldable pub request_locked : Config → MediationRequest → ℕ → Mediator → Answer × Mediator
unfolding admit coalesced_pending
request_locked c r now m =
    let key : Wanted = (r.session_id, (r.path, r.operation)) in
    if contains m.allowed_once key && not (is_credential r.sensitivity)
    then (
      answered (record { allowed = true; hidden = false; decision = allow_once; request = none }),
      m,
    )
    else elim (coalesced_pending key m) [
      | some p ↦ join_pending p m
      | none ↦
          if leb c.max_pending (length m.pending)
          then (
            answered
                (record { allowed = false; hidden = false; decision = queue_full; request = none }),
            m,
          )
          else if leb c.max_requests_per_session
              (length (default_to [] (get r.session_id m.recent)))
          then (
            answered (record {
              allowed = false;
              hidden = false;
              decision = rate_limited;
              request = none;
            }),
            m,
          )
          else admit c r now m
    ]

-- `request` up to its loop
unfoldable pub request_start :
    Config → MediationRequest → ℕ → Mediator → Result String (Answer × Mediator)
unfolding request_locked prune_recent
request_start c r now m = do
  raise_if (is_empty r.session_id || is_empty r.path || is_empty r.path_component)
      "mediation request identity and path are required"
  ok (request_locked c r now (prune_recent c r.session_id now m))

-- The `finally` of `request`, for the pending request as it is by then.
unfoldable pub leave : Pending → Mediator → Mediator
unfolding remove
leave p m =
    let left : Pending = record p { waiters = p.waiters - 1 } in
    if nat_beq left.waiters 0
    then remove left m
    else record m { pending = put (key_of p.request) left m.pending }

-- One round of the loop of `request`, by a caller that waits for the key.
unfoldable pub poll : Key → ℕ → Mediator → Option (Answer × Mediator)
unfolding leave finish
poll k now m = elim (get k m.pending) [
  | none ↦ none
  | some p ↦ elim p.result [
    | some r ↦ some (answered r, leave p m)
    | none ↦
        let r = closed timeout (some p.request) in
        if leb p.request.deadline now
        then some (answered r, leave (record p { result = some r }) (finish p r m))
        else some (waiting k, m)
  ]
]

-- `decision not in {ALLOW_ONCE, DENY, HIDE}`
abbrev pub is_trusted : MediationDecision → Bool
is_trusted allow_once = true
is_trusted deny = true
is_trusted hide = true
is_trusted _ = false

-- `callback is not None` and the callback raises
abbrev pub observer_raises : Config → Pending → MediationDecision → Bool
observer_raises c p decision = elim c.decision_observer [
  | none ↦ false
  | some callback ↦ callback p.request p.full_path decision
]

unfoldable pub decide_pending : Config → Pending → MediationDecision → Mediator → Bool × Mediator
unfolding finish
decide_pending c p decision m =
    if observer_raises c p decision
    then (false, finish p (closed cancelled (some p.request)) m)
    else (
      true,
      finish p
          (record {
            allowed = is_allow_once decision;
            hidden = is_hide decision;
            decision = decision;
            request = some p.request;
          })
          m,
    )

-- `decide`
unfoldable pub decide :
    Config → Text → ℕ → MediationDecision → Mediator → Result String (Bool × Mediator)
unfolding decide_pending
decide c session number decision m = do
  raise_if (not (is_trusted decision)) "only allow-once, deny, or hide may be trusted decisions"
  ok (elim (get (session, number) m.pending) [
    | none ↦ (false, m)
    | some p ↦ elim p.result [ some r ↦ (false, m) | none ↦ decide_pending c p decision m ]
  ])

-- The loop of `cancel_session`.
unfoldable pub cancel_all : List Pending → Mediator → Mediator
unfolding finish
cancel_all [] m = m
cancel_all (p ∷ ps) m = cancel_all ps (finish p (closed cancelled (some p.request)) m)

abbrev pub values {ℓ} : {K V : Type ℓ} → Dict K V → List V
values [] = []
values ((k, v) ∷ rest) = v ∷ values rest

-- `cancel_session`
unfoldable pub cancel_session : Text → Mediator → ℕ × Mediator
unfolding cancel_all
cancel_session session m =
    let found = filter (λ p. p.request.session_id == session) (values m.pending) in
    let m' = cancel_all found m in
    (length found, record m' { allowed_once = filter (λ w. not (w.0 == session)) m'.allowed_once })

-- `pending`
unfoldable pub open_requests : Mediator → List PendingRequest
open_requests m = map (λ p. p.request) (filter (λ p. is_open p.result) (values m.pending))
  where
    is_open : Option MediationResult → Bool
    is_open none = true
    is_open (some r) = false
