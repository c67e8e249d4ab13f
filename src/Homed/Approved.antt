-- ===== src/Homed/Approved.antt =====
-- homed/mediation.py: decisions, cancellation, and the runs of the mediator.
use astral_project.Base.{
  inl, inr, ap, sym, refl, ℕ, ◌≡◌, ◌∙◌, Bool, true, false, not, some, List, [], ◌∷◌, Bool-cases,
  Option-cases, ◌==◌, ==_iff, nat_eq, string_eq, list_eq, option_eq, pair_eq, Result, ok,
  raise_if-eq-ok, here, All, All-map, Text, int_eq, In, filter, none, filter-In, is_empty, there,
  ◌||◌, All-of_In, Option,
}
use astral_project.Base.Dict.{get, get-put_same, get-put_other, Dict, Unique, In-get}
use astral_project.Homed.Pending.{
  Mediator, Config, Wanted, Pending, MediationResult, MediationDecision, closed, cancelled,
  is_allow_once, wanted_of, key_of, Key, MediationRequest, Answer, answered, waiting,
}
use astral_project.Homed.Mediator.{
  cancel_all, decide, decide_pending, finish, observer_raises, is_trusted, cancel_session, poll,
  request_start, prune_recent, values,
}
use astral_project.Homed.Mediation.{
  Sound, Known, finish-Sound, approve, later, Reachable, requests, polls, decides, cancels, starts,
}
use astral_project.Homed.Approvals.{same_pair, poll-Polled}
use astral_project.Homed.Admission.{Kept, wanted_by, locked-Kept, recent-Sound}

decide_pending-Sound :
    (c : Config) (p : Pending) (d : MediationDecision) (m : Mediator) (log : List Wanted)
    → Sound m log
    → Known p m
    → Sound ((decide_pending c p d m).1) (approve (some p) d ((decide_pending c p d m).0) log)
unfolding decide_pending approve
decide_pending-Sound c p d m log sound known = elim (Bool-cases (observer_raises c p d)) [
  | inl t ↦
      rw t
        (finish-Sound p (closed cancelled (some p.request)) m log sound known (λ q. cc) (λ q. cc))
  | inr t ↦ rw t (elim (Bool-cases (is_allow_once d)) [
    | inl y ↦ rw y (
        finish-Sound p _ m (wanted_of p ∷ log) (later m log (wanted_of p) sound) known
          (λ q. here refl) (λ q. here refl))
    | inr y ↦ rw y (
        finish-Sound p _ m log sound known (λ q. cc)
          (λ q. let bad : true ≡ false = sym q ∙ y in cc))
  ])
]

pub ok_injective : {E A : Type 0} {a b : A} → ◌≡◌ {A = Result E A} (ok a) (ok b) → a ≡ b
ok_injective h = cc

decide-Sound :
    (c : Config) (s : Text) (n : ℕ) (d : MediationDecision) (m : Mediator) (log : List Wanted)
    {taken : Bool} {m' : Mediator}
    → Sound m log
    → decide c s n d m ≡ ok (taken, m')
    → Sound m' (approve (get (s, n) m.pending) d taken log)
unfolding decide approve
decide-Sound c s n d m log sound h =
    let (trusted, rest) = raise_if-eq-ok (not (is_trusted d)) _ _ h in
    elim (Option-cases (get (s, n) m.pending)) [
      | inl e ↦
          let unchanged = same_pair (ok_injective (rw e at rest)) in rw e (rw (← unchanged.1) sound)
      | inr (p, e) ↦ rw e (elim (Option-cases p.result) [
        | inr (r, f) ↦
            let unchanged = same_pair (ok_injective (rw (e, f) at rest)) in
            rw (← unchanged.1, ← unchanged.0) sound
        | inl f ↦
            let changed = same_pair (ok_injective (rw (e, f) at rest)) in
            rw (← changed.1, ← changed.0)
              (decide_pending-Sound c p d m log sound (p, rw (sound.keyed (s, n) p e) e, refl))
      ])
    ]

pub finish-keeps_Known :
    (p q : Pending) (r : MediationResult) (m : Mediator)
    → Known p m
    → Known q m
    → Known q (finish p r m)
unfolding finish
finish-keeps_Known p q r m (a, fa, sa) (b, fb, sb) = elim (Option-cases p.result) [
  | inr (x, e) ↦ rw e (b, fb, sb)
  | inl e ↦ rw e (elim (Bool-cases (key_of q.request == key_of p.request)) [
    | inl t ↦
        let at_p = (==_iff (key_of q.request) (key_of p.request)).0 t in
        let fb' : get (key_of p.request) m.pending ≡ some b = rw at_p at fb in
        let a_is_b : a ≡ b = cc in
        (
          closing,
          rw at_p (get-put_same (key_of p.request) closing m.pending),
          sym sa ∙ ap (λ x. wanted_of x) a_is_b ∙ sb,
        )
    | inr t ↦
        (b, rw (get-put_other (key_of q.request) (key_of p.request) closing m.pending t) fb, sb)
  ])
]
  where
    closing : Pending
    closing = record p { result = some r }

cancel_all-Sound :
    (ps : List Pending) (m : Mediator) (log : List Wanted)
    → Sound m log
    → All (λ p. Known p m) ps
    → Sound (cancel_all ps m) log
unfolding cancel_all
cancel_all-Sound [] m log sound known = sound
cancel_all-Sound (p ∷ ps) m log sound known =
    cancel_all-Sound ps (finish p (closed cancelled (some p.request)) m) log
      (finish-Sound p (closed cancelled (some p.request)) m log sound known.0 (λ q. cc) (λ q. cc))
      (All-map _ _ ps
        (λ q k. finish-keeps_Known p q (closed cancelled (some p.request)) m known.0 k) known.1)

pub values-In : (p : Pending) (d : Dict Key Pending) → In p (values d) → (k : Key) × In (k, p) d
values-In p [] h = elim h [ ]
values-In p ((k, q) ∷ rest) (here e) = (k, here (ap (λ x. (k, x)) e))
values-In p ((k, q) ∷ rest) (there h) = let (j, i) = values-In p rest h in (j, there i)

-- The requests of a session, as `cancel_session` finds them.
abbrev pub of_session : Text → Mediator → List Pending
of_session s m = filter (λ p. p.request.session_id == s) (values m.pending)

pub session-Known :
    (s : Text) (m : Mediator) (log : List Wanted)
    → Sound m log
    → All (λ p. Known p m) (of_session s m)
session-Known s m log sound = All-of_In (λ p. Known p m) (of_session s m) known
  where
    known : (p : Pending) → In p (of_session s m) → Known p m
    known p h =
        let (h', e) = filter-In (λ q. q.request.session_id == s) (values m.pending) h in
        let (k, i) = values-In p m.pending h' in
        let g = In-get k p m.pending sound.unique i in (p, rw (sound.keyed k p g) g, refl)

cancel-Sound :
    (s : Text) (m : Mediator) (log : List Wanted) → Sound m log → Sound ((cancel_session s m).1) log
unfolding cancel_session
cancel-Sound s m log sound = record {
  unique = all_closed.unique;
  keyed = all_closed.keyed;
  fresh = all_closed.fresh;
  pointed = all_closed.pointed;
  backed = all_closed.backed;
  once = λ w h. all_closed.once w ((filter-In (λ v. not (v.0 == s)) closed_once h).0);
}
  where
    all_closed : Sound (cancel_all (of_session s m) m) log
    all_closed = cancel_all-Sound (of_session s m) m log sound (session-Known s m log sound)

    closed_once : List Wanted
    closed_once = (cancel_all (of_session s m) m).allowed_once

pub start-Kept :
    (c : Config) (r : MediationRequest) (now : ℕ) (m : Mediator) (log : List Wanted)
    {x : Answer × Mediator}
    → Sound m log
    → request_start c r now m ≡ ok x
    → Kept log r x
unfolding request_start prune_recent
start-Kept c r now m log sound h =
    let (named, rest) =
      raise_if-eq-ok (is_empty r.session_id || is_empty r.path || is_empty r.path_component) _ _
        h in
    rw (← ok_injective rest)
      (locked-Kept c r now (prune_recent c r.session_id now m) log (recent-Sound m log _ sound))

pub polled_there :
    (k : Key) (now : ℕ) (m : Mediator) {a : Answer} {m' : Mediator}
    → poll k now m ≡ some (a, m')
    → (p : Pending) × (get k m.pending ≡ some p)
unfolding poll
polled_there k now m {a} {m'} h = elim (Option-cases (get k m.pending)) [
  | inl e ↦
      let bad : ◌≡◌ {A = Option (Answer × Mediator)} none (some (a, m')) = rw (poll, e) at h in cc
  | inr (p, e) ↦ (p, e)
]

pub Reachable-Sound :
    (c : Config) (m : Mediator) (log : List Wanted) → Reachable c m log → Sound m log
unfolding get Unique
Reachable-Sound c m log starts = record {
  unique = tt;
  keyed = λ k p h. cc;
  fresh = λ s n p h. cc;
  pointed = λ w k h. cc;
  backed = λ k p h. cc;
  once = λ w h. elim h [ ];
}
Reachable-Sound c m' log (requests {m = m} r now run h) =
    (start-Kept c r now m log (Reachable-Sound c m log run) h).0
Reachable-Sound c m' log (polls {m = m} {a = a} k now run h) =
    let (p, e) = polled_there k now m h in
    (poll-Polled k now m log p (Reachable-Sound c m log run) e a m' h).0
Reachable-Sound c m' _ (decides {m = m} {log = log} s n d run h) =
    decide-Sound c s n d m log (Reachable-Sound c m log run) h
Reachable-Sound c m' log (cancels {m = m} s run h) =
    rw (← (same_pair h).1) (cancel-Sound s m log (Reachable-Sound c m log run))

-- In every state that calls of the mediator lead to, a request that is answered at once is allowed
-- only if a trusted decision allowed the same path, operation and session before; a request that waits
-- waits for a pending request of the same path, operation and session.
pub request_approved :
    (c : Config) (m : Mediator) (log : List Wanted) (r : MediationRequest) (now : ℕ) (a : Answer)
    (m' : Mediator)
    → Reachable c m log
    → request_start c r now m ≡ ok (a, m')
    → ((x : MediationResult) → a ≡ answered x → x.allowed ≡ true → In (wanted_by r) log)
      × ((k : Key)
          → a ≡ waiting k
          → (p : Pending) × (get k m'.pending ≡ some p) × (wanted_of p ≡ wanted_by r))
request_approved c m log r now a m' run h =
    let (sound, waits, answers) = start-Kept c r now m log (Reachable-Sound c m log run) h in
    (answers, waits)

-- In every state that calls of the mediator lead to, a waiting request is answered with permission
-- only if a trusted decision allowed its path, operation and session before.
pub poll_approved :
    (c : Config) (m : Mediator) (log : List Wanted) (k : Key) (now : ℕ) (x : MediationResult)
    (m' : Mediator)
    → Reachable c m log
    → poll k now m ≡ some (answered x, m')
    → x.allowed ≡ true
    → (p : Pending) × (get k m.pending ≡ some p) × In (wanted_of p) log
poll_approved c m log k now x m' run h a =
    let (p, e) = polled_there k now m h in
    (p, e, (poll-Polled k now m log p (Reachable-Sound c m log run) e (answered x) m' h).1 x refl a)
