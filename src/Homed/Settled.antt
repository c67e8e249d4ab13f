-- ===== src/Homed/Settled.antt =====
-- homed/mediation.py: a decision that is taken closes its request, and cancelling a session closes all.
use astral_project.Profile.Rule.{operation_eq}
use astral_project.Base.{
  ℕ, ◌≡◌, sym, ap, ◌∙◌, ◌≢◌, inl, inr, true, false, not, none, some, List, [], ◌∷◌, Bool-cases,
  Option-cases, ◌==◌, ==_iff, nat_eq, string_eq, list_eq, option_eq, pair_eq, ok, In, here, there,
  In-filter, filter-In, Text, int_eq, raise_if-eq-ok,
}
use astral_project.Base.Dict.{Dict, get, put, get-put_same, get-put-cases}
use astral_project.Homed.Pending.{
  Mediator, Config, Key, Pending, MediationResult, MediationDecision, cancelled, Wanted, closed,
  key_of, is_allow_once, is_hide,
}
use astral_project.Homed.Mediation.{Reachable}
use astral_project.Homed.Approvals.{same_pair}
use astral_project.Homed.Approved.{Reachable-Sound, of_session, ok_injective}
use astral_project.Homed.Mediator.{
  cancel_all, decide, finish, is_trusted, decide_pending, observer_raises, cancel_session, values,
}

finish_closes :
    (p : Pending) (r : MediationResult) (m : Mediator)
    → p.result ≡ none
    → get (key_of p.request) (finish p r m).pending ≡ some (record p { result = some r })
unfolding finish
finish_closes p r m e =
    rw e (get-put_same (key_of p.request) (record p { result = some r }) m.pending)

abbrev decided : Pending → MediationDecision → MediationResult
decided p d = record {
  allowed = is_allow_once d;
  hidden = is_hide d;
  decision = d;
  request = some p.request;
}

pub decide_taken :
    (c : Config) (m m' : Mediator) (log : List Wanted) (s : Text) (n : ℕ) (d : MediationDecision)
    → Reachable c m log
    → decide c s n d m ≡ ok (true, m')
    → (p : Pending) × (get (s, n) m.pending ≡ some p)
      × ((r : MediationResult) × (get (s, n) m'.pending ≡ some (record p { result = some r })))
unfolding decide decide_pending
decide_taken c m m' log s n d run h =
    let (trusted, rest) = raise_if-eq-ok (not (is_trusted d)) _ _ h in
    elim (Option-cases (get (s, n) m.pending)) [
      | inl e ↦
          let q = same_pair (ok_injective (rw e at rest)) in let bad : false ≡ true = q.0 in cc
      | inr (p, e) ↦ elim (Option-cases p.result) [
        | inr (r, f) ↦
            let q = same_pair (ok_injective (rw (e, f) at rest)) in
            let bad : false ≡ true = q.0 in cc
        | inl f ↦ elim (Bool-cases (observer_raises c p d)) [
          | inl t ↦
              let q = same_pair (ok_injective (rw (e, f, t) at rest)) in
              let bad : false ≡ true = q.0 in cc
          | inr t ↦
              let q = same_pair (ok_injective (rw (e, f, t) at rest)) in
              let at_key = (Reachable-Sound c m log run).keyed (s, n) p e in
              (p, e, (decided p d, rw (← q.1, ← at_key) (finish_closes p (decided p d) m f)))
        ]
      ]
    ]

get-values : (k : Key) (p : Pending) (d : Dict Key Pending) → get k d ≡ some p → In p (values d)
unfolding get
get-values k p [] h = cc
get-values k p ((k', q) ∷ rest) h = elim (Bool-cases (k == k')) [
  | inl t ↦ let e : some q ≡ some p = rw t at h in here (cc)
  | inr t ↦ there (get-values k p rest (rw t at h))
]

all_closed :
    (s : Text) (ps : List Pending) (m : Mediator)
    → ((k : Key) (p : Pending)
        → get k m.pending ≡ some p
        → (key_of p.request ≡ k) × (p.request.session_id ≡ s → p.result ≡ none → In p ps))
    → (k : Key) (p : Pending) → get k (cancel_all ps m).pending ≡ some p
    → p.request.session_id ≡ s
    → p.result ≢ none
unfolding cancel_all finish
all_closed s [] m left k p h e = λ q. elim ((left k p h).1 e q) [ ]
all_closed s (p' ∷ ps) m left k p h e = all_closed s ps (finish p' r m) next k p h e
  where
    r : MediationResult
    r = closed cancelled (some p'.request)

    next :
        (k : Key) (p : Pending)
        → get k (finish p' r m).pending ≡ some p
        → (key_of p.request ≡ k) × (p.request.session_id ≡ s → p.result ≡ none → In p ps)
    next k p h = elim (Option-cases p'.result) [
      | inr (x, e) ↦
          let g : get k m.pending ≡ some p = rw (finish, e) at h in
          let (key, f) = left k p g in
          (
            key,
            λ i q. elim (f i q) [
              | here same ↦ let bad : none ≡ some x = sym q ∙ ap (λ y. y.result) same ∙ e in cc
              | there j ↦ j
            ],
          )
      | inl e ↦
          let g : get k (put (key_of p'.request) (record p' { result = some r }) m.pending)
              ≡ some p =
            rw (finish, e) at h in
          elim (get-put-cases k (key_of p'.request) (record p' { result = some r }) m.pending g) [
            | inl (at_k, same) ↦ (
              ap (λ y. key_of y.request) same ∙ sym at_k,
              λ i q. let bad : none ≡ some r = sym q ∙ ap (λ y. y.result) same in cc,
            )
            | inr (other, g') ↦
                let (key, f) = left k p g' in
                (
                  key,
                  λ i q. elim (f i q) [
                    | here same ↦
                        let at_k : k ≡ key_of p'.request =
                          sym key ∙ ap (λ y. key_of y.request) same in
                        let bad : true ≡ false =
                          sym ((==_iff k (key_of p'.request)).1 at_k) ∙ other in
                        cc
                    | there j ↦ j
                  ],
                )
          ]
    ]

-- After a session was cancelled, none of its requests is open and nothing is allowed once for it.
pub cancel_closes :
    (c : Config) (m : Mediator) (log : List Wanted) (s : Text)
    → Reachable c m log
    → ((k : Key) (p : Pending)
        → get k ((cancel_session s m).1.pending) ≡ some p
        → p.request.session_id ≡ s
        → p.result ≢ none)
      × ((w : Wanted) → In w ((cancel_session s m).1.allowed_once) → w.0 ≢ s)
unfolding cancel_session
cancel_closes c m log s run = (
  all_closed s (of_session s m) m left,
  λ w i q.
      let (_, kept) =
        filter-In (λ v. not (v.0 == s)) (cancel_all (of_session s m) m).allowed_once i in
      let bad : false ≡ true = rw ((==_iff w.0 s).1 q) at kept in cc,
)
  where
    left :
        (k : Key) (p : Pending)
        → get k m.pending ≡ some p
        → (key_of p.request ≡ k)
          × (p.request.session_id ≡ s → p.result ≡ none → In p (of_session s m))
    left k p g = (
      (Reachable-Sound c m log run).keyed k p g,
      λ e q.
          In-filter (λ y. y.request.session_id == s) (values m.pending) (get-values k p m.pending g)
            ((==_iff p.request.session_id s).1 e),
    )
