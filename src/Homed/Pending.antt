-- ===== src/Homed/Pending.antt =====
-- homed/mediation.py: requests, decisions, results, and the state of `UnknownPathMediator`. Times are
-- ticks of the clock.
use astral_project.Base.{
  ℕ, String, Bool, true, false, ◌||◌, Option, none, some, List, [], leb, nat_eq, string_eq, list_eq,
  option_eq, pair_eq, Result, ok, ◌>>◌, raise_if, Text, int_eq,
}
use astral_project.Base.Dict.{Dict}
use astral_project.Profile.Rule.{Operation, Sensitivity, credential}

pub data MediationDecision : Type 0 where
  allow_once deny hide timeout queue_full rate_limited cancelled : MediationDecision

pub record ProvenanceSkeleton : Type 0 where
  pub source : Text
  pub observer : Option Text

-- `PendingRequest.key`
abbrev pub Key : Type 0
Key = Text × ℕ

pub record PendingRequest : Type 0 where
  pub session_id : Text
  pub request_number : ℕ
  pub operation : Operation
  pub path_component : Text
  pub opaque_ancestor : Bool
  pub sensitivity : Sensitivity
  pub deadline : ℕ
  pub provenance : ProvenanceSkeleton

pub record MediationResult : Type 0 where
  pub allowed : Bool
  pub hidden : Bool
  pub decision : MediationDecision
  pub request : Option PendingRequest

pub record Pending : Type 0 where
  pub request : PendingRequest
  pub full_path : Text
  pub result : Option MediationResult
  pub waiters : ℕ

-- `(session_id, path, operation)`
abbrev pub Wanted : Type 0
Wanted = Text × (Text × Operation)

-- The arguments of `request`.
pub record MediationRequest : Type 0 where
  pub session_id : Text
  pub path : Text
  pub path_component : Text
  pub operation : Operation
  pub sensitivity : Sensitivity
  pub opaque_ancestor : Bool

-- The bounds, and whether the observer of decisions raises.
pub record Config : Type 0 where
  pub timeout : ℕ
  pub max_pending : ℕ
  pub max_requests_per_session : ℕ
  pub decision_observer : Option (PendingRequest → Text → MediationDecision → Bool)

-- `UnknownPathMediator.__init__`
unfoldable pub make_config : Config → Result String Config
make_config c = do
  raise_if (leb c.timeout 0 || leb c.max_pending 0 || leb c.max_requests_per_session 0)
      "mediation bounds must be positive"
  ok c

pub record Mediator : Type 0 where
  pub pending : Dict Key Pending
  pub coalesced : Dict Wanted Key
  pub allowed_once : List Wanted
  pub next_request : Dict Text ℕ
  pub recent : Dict Text (List ℕ)

abbrev pub initial : Mediator
initial = record { pending = []; coalesced = []; allowed_once = []; next_request = []; recent = [] }

abbrev pub is_credential : Sensitivity → Bool
is_credential credential = true
is_credential _ = false

abbrev pub is_allow_once : MediationDecision → Bool
is_allow_once allow_once = true
is_allow_once _ = false

abbrev pub is_hide : MediationDecision → Bool
is_hide hide = true
is_hide _ = false

abbrev pub key_of : PendingRequest → Key
key_of r = (r.session_id, r.request_number)

abbrev pub wanted_of : Pending → Wanted
wanted_of p = (p.request.session_id, (p.full_path, p.request.operation))

-- `MediationResult(False, True, decision, pending.request)`
abbrev pub closed : MediationDecision → Option PendingRequest → MediationResult
closed decision request = record {
  allowed = false;
  hidden = true;
  decision = decision;
  request = request;
}

abbrev pub default_to {ℓ} : {A : Type ℓ} → A → Option A → A
default_to d none = d
default_to d (some a) = a

-- What a call of `request` comes to: its result, or another round of the loop.
pub data Answer : Type 0 where
  answered : MediationResult → Answer
  waiting : Key → Answer
