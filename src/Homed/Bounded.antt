-- ===== src/Homed/Bounded.antt =====
-- homed/mediation.py: single steps keep the queue and the requests of a session within their bounds.
use astral_project.Profile.Rule.{operation_eq}
use astral_project.Base.{
  inl, inr, ℕ, suc, ◌+◌, ◌-◌, ◌≤◌, ◌≡◌, false, some, List, [], ◌∷◌, ◌++◌, arith, ltb, leb, nat_beq,
  Bool-cases, Option-cases, ◌==◌, ==_iff, nat_eq, string_eq, list_eq, option_eq, pair_eq, length,
  length-append, Text, int_eq,
}
use astral_project.Base.Dict.{
  get, length-put, length-put_known, length-pop, get-put_same, get-put_other,
}
use astral_project.Homed.Pending.{
  Mediator, Config, Pending, MediationRequest, MediationResult, default_to, key_of,
}
use astral_project.Homed.Mediation.{Known}
use astral_project.Homed.Mediator.{admit, drop_old, finish, leave, prune_recent, remove}

abbrev pub Bounded : Config → Mediator → Type 0
Bounded c m =
    (length m.pending ≤ c.max_pending)
    × ((s : Text) → length (default_to [] (get s m.recent)) ≤ c.max_requests_per_session)

pub length-drop_old : (span now : ℕ) (ts : List ℕ) → length (drop_old span now ts) ≤ length ts
unfolding drop_old
length-drop_old span now [] = omega arith
length-drop_old span now (t ∷ ts) = elim (Bool-cases (ltb (t + span) now)) [
  | inl e ↦ rw e (omega (arith, length-drop_old span now ts))
  | inr e ↦ rw e (omega arith)
]

pub prune-Bounded :
    (c : Config) (s : Text) (now : ℕ) (m : Mediator)
    → Bounded c m
    → Bounded c (prune_recent c s now m)
unfolding prune_recent
prune-Bounded c s now m (queue, rate) = (
  queue,
  λ s'. elim (Bool-cases (s' == s)) [
    | inl t ↦
        rw ((==_iff s' s).0 t, get-put_same s pruned m.recent)
          (omega (arith, rate s, length-drop_old c.timeout now (default_to [] (get s m.recent))))
    | inr t ↦ rw (get-put_other s' s pruned m.recent t) (rate s')
  ],
)
  where
    pruned : List ℕ
    pruned = drop_old c.timeout now (default_to [] (get s m.recent))

pub finish-Bounded :
    (c : Config) (p : Pending) (r : MediationResult) (m : Mediator)
    → Known p m
    → Bounded c m
    → Bounded c (finish p r m)
unfolding finish
finish-Bounded c p r m (q, found, same) bounded = elim (Option-cases p.result) [
  | inr (x, e) ↦ rw e bounded
  | inl e ↦ rw e (
    rw (length-put_known (key_of p.request) (record p { result = some r }) m.pending found)
        bounded.0,
    bounded.1,
  )
]

pub leave-Bounded :
    (c : Config) (p : Pending) (m : Mediator) → Known p m → Bounded c m → Bounded c (leave p m)
unfolding leave remove
leave-Bounded c p m (q, found, same) bounded = elim (Bool-cases (nat_beq (p.waiters - 1) 0)) [
  | inl t ↦ rw t (omega (arith, bounded.0, length-pop (key_of p.request) m.pending), bounded.1)
  | inr t ↦ rw t (
    rw (length-put_known (key_of p.request) (record p { waiters = p.waiters - 1 }) m.pending found)
        bounded.0,
    bounded.1,
  )
]

pub fits : {a b n : ℕ} → a ≤ suc b → leb n b ≡ false → a ≤ n
fits h q = ground arith

pub admit-Bounded :
    (c : Config) (r : MediationRequest) (now : ℕ) (m : Mediator)
    → Bounded c m
    → leb c.max_pending (length m.pending) ≡ false
    → leb c.max_requests_per_session (length (default_to [] (get r.session_id m.recent))) ≡ false
    → Bounded c ((admit c r now m).1)
unfolding admit
admit-Bounded c r now m (queue, rate) q s = (
  fits (length-put _ _ m.pending) q,
  λ s'. elim (Bool-cases (s' == r.session_id)) [
    | inl t ↦
        rw
          (
            (==_iff s' r.session_id).0 t,
            get-put_same r.session_id more m.recent,
            length-append (default_to [] (get r.session_id m.recent)) (now ∷ []),
          )
          (ground arith)
    | inr t ↦ rw (get-put_other s' r.session_id more m.recent t) (rate s')
  ],
)
  where
    more : List ℕ
    more = default_to [] (get r.session_id m.recent) ++ now ∷ []
