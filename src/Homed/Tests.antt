-- ===== src/Homed/Tests.antt =====
-- homed/mediation.py: a session that asks for one path, and the theorems at its states.
use astral_project.Homed.Bounded.{Bounded}
use astral_project.Base.{
  ◌≡◌, refl, ◌≢◌, true, false, none, some, [], ◌∷◌, nat_eq, string_eq, list_beq, list_eq, option_eq,
  pair_beq, pair_eq, ok, In, contains, codes, int_eq,
}
use astral_project.Base.Dict.{get, put, pop}
use astral_project.Profile.Rule.{Operation, operation_eq, Operation-discrete, other}
use astral_project.Homed.Pending.{
  Mediator, Config, Key, Pending, MediationRequest, MediationResult, allow_once, deny, answered,
  waiting, key_of, Wanted, wanted_of, initial,
}
use astral_project.Homed.Mediation.{Reachable, starts, requests, decides, approve}
use astral_project.Homed.Bounds.{Reachable-Bounded}
use astral_project.Homed.Mediator.{
  cancel_session, decide, poll, request_start, decide_pending, leave, request_locked, finish,
  prune_recent, remove, add, drop_old, admit, coalesced_pending,
}
use astral_project.Homed.Settled.{cancel_closes}
use astral_project.Homed.Final.{Onwards, decided_for_good}
use astral_project.Homed.Admission.{wanted_by}
use astral_project.Homed.Approved.{poll_approved, request_approved}

abbrev small : Config
small = record {
  timeout = 5;
  max_pending = 1;
  max_requests_per_session = 2;
  decision_observer = none;
}

abbrev asking : MediationRequest
asking = record {
  session_id = codes "s";
  path = codes "p";
  path_component = codes "p";
  operation = Operation.read;
  sensitivity = other;
  opaque_ancestor = false;
}

abbrev requested : Pending
requested = record {
  request = record {
    session_id = codes "s";
    request_number = 1;
    operation = Operation.read;
    path_component = codes "p";
    opaque_ancestor = false;
    sensitivity = other;
    deadline = 15;
    provenance = record { source = codes "unknown"; observer = none };
  };
  full_path = codes "p";
  result = none;
  waiters = 1;
}

abbrev allowing : MediationResult
allowing = record {
  allowed = true;
  hidden = false;
  decision = allow_once;
  request = some requested.request;
}

abbrev asked_state : Mediator
asked_state = record {
  pending = (key_of requested.request, requested) ∷ [];
  coalesced = (wanted_by asking, key_of requested.request) ∷ [];
  allowed_once = [];
  next_request = (codes "s", 1) ∷ [];
  recent = (codes "s", 10 ∷ []) ∷ [];
}

abbrev allowed_state : Mediator
allowed_state = record asked_state {
  pending = (key_of requested.request, record requested { result = some allowing }) ∷ [];
  allowed_once = wanted_by asking ∷ [];
}

abbrev done_state : Mediator
done_state = record allowed_state { pending = []; coalesced = [] }

asks : request_start small asking 10 initial ≡ ok (waiting (key_of requested.request), asked_state)
unfolding request_start request_locked prune_recent drop_old get put admit coalesced_pending
    contains list_beq pair_beq Operation-discrete
asks = refl

run_asked : Reachable small asked_state []
run_asked = requests asking 10 starts asks

allows : decide small (codes "s") 1 allow_once asked_state ≡ ok (true, allowed_state)
unfolding decide decide_pending finish get put add contains list_beq pair_beq Operation-discrete
allows = refl

run_allowed : Reachable small allowed_state (wanted_by asking ∷ [])
unfolding approve get list_beq pair_beq Operation-discrete
run_allowed = decides (codes "s") 1 allow_once run_asked allows

gets : poll (key_of requested.request) 12 allowed_state ≡ some (answered allowing, done_state)
unfolding poll leave remove get put pop list_beq Operation-discrete pair_beq
gets = refl

there_now : get (key_of requested.request) asked_state.pending ≡ some requested
unfolding get list_beq pair_beq
there_now = refl

request_approved_example :
    ((x : MediationResult)
      → waiting (key_of requested.request) ≡ answered x
      → x.allowed ≡ true
      → In (wanted_by asking) [])
    × ((k : Key)
        → waiting (key_of requested.request) ≡ waiting k
        → (p : Pending) × (get k asked_state.pending ≡ some p) × (wanted_of p ≡ wanted_by asking))
request_approved_example =
    request_approved small initial [] asking 10 (waiting (key_of requested.request)) asked_state
      starts asks

poll_approved_example :
    (p : Pending) × (get (key_of requested.request) allowed_state.pending ≡ some p)
    × In (wanted_of p) (wanted_by asking ∷ [])
poll_approved_example =
    poll_approved small allowed_state (wanted_by asking ∷ []) (key_of requested.request) 12 allowing
      done_state run_allowed gets refl

decided_for_good_example : decide small (codes "s") 1 deny done_state ≡ ok (false, done_state)
decided_for_good_example =
    decided_for_good small asked_state allowed_state done_state [] (codes "s") 1 allow_once deny
      run_asked allows (Onwards.polls (key_of requested.request) 12 Onwards.stays gets) refl

Reachable-Bounded_example : Bounded small asked_state
Reachable-Bounded_example = Reachable-Bounded small asked_state [] run_asked

cancel_closes_example :
    ((k : Key) (p : Pending)
      → get k ((cancel_session (codes "s") allowed_state).1.pending) ≡ some p
      → p.request.session_id ≡ codes "s"
      → p.result ≢ none)
    × ((w : Wanted)
        → In w ((cancel_session (codes "s") allowed_state).1.allowed_once)
        → w.0 ≢ codes "s")
cancel_closes_example =
    cancel_closes small allowed_state (wanted_by asking ∷ []) (codes "s") run_allowed
