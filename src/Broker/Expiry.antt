-- ===== src/Broker/Expiry.antt =====
-- broker/registry.py: what `expire` takes away and what it leaves.
use astral_project.Base.{
  ℕ, ◌≡◌, refl, sym, ap, subst, ◌∙◌, inl, inr, Bool, true, false, not, ◌||◌, none, some, List, [],
  ◌∷◌, Bool-cases, Option-cases, or-eq-false, ◌==◌, ==_iff, nat_eq, string_eq, list_eq, option_eq,
  pair_eq, ok, length, In, here, there, contains, contains-In, In-contains, Bytes, ℤ, leb_ℤ, int_eq,
}
use astral_project.Base.Dict.{
  Dict, get, pop, get-pop_other, get-pop_same, Unique, In-get, put-Unique, pop-Unique,
}
use astral_project.Broker.Registry.{
  cancel, expire, expired_keys, pop_each, ActiveSession, Registry, supervise_end, terminate, Worker,
  register, Supervision, is_some, exited, supervision_failed, terminate_each, then_return,
  then_raise, Outcome,
}
use astral_project.Core.{AstralError}
use astral_project.Broker.Terminated.{
  terminate-sessions, terminate_each-sessions, terminate_each-In, terminate_each_returns,
  then_raise-1, then_return-1, then_return-eq-ok, then_return_returns,
}

pop_each-left :
    (k : Bytes) (ks : List Bytes) (d : Dict Bytes ActiveSession)
    → (pop_each (k ∷ ks) d).1 ≡ (pop_each ks (pop k d)).1
unfolding pop_each
pop_each-left k ks d = elim (Option-cases (get k d)) [
  | inl e ↦ rw (pop_each, e) refl
  | inr (s, e) ↦ rw (pop_each, e) refl
]

pop_each-Unique :
    (ks : List Bytes) (d : Dict Bytes ActiveSession) → Unique d → Unique (pop_each ks d).1
unfolding pop_each
pop_each-Unique [] d u = u
pop_each-Unique (k ∷ ks) d u =
    subst Unique (sym (pop_each-left k ks d)) (pop_each-Unique ks (pop k d) (pop-Unique k d u))

module _ (cleanup_fails : Worker → Bool) where
  terminated-Unique :
      (w : Worker) (r : Registry)
      → Unique r.sessions
      → Unique (terminate cleanup_fails w r).1.sessions
  terminated-Unique w r u = subst Unique (sym (terminate-sessions cleanup_fails w r)) u

  -- Every operation keeps the identifiers of the sessions apart.
  pub operations_unique :
      (r : Registry)
      → Unique r.sessions
      → ((id : Bytes) (w : Worker) (expires_at now : ℤ)
          → Unique ((register cleanup_fails id w expires_at now r).1.sessions))
        × ((id : Bytes) → Unique ((cancel cleanup_fails id r).1.sessions))
        × ((now : ℤ) → Unique ((expire cleanup_fails now r).1.sessions))
        × ((id : Bytes) (s : ActiveSession) (how : Supervision)
            → Unique ((supervise_end cleanup_fails id s how r).sessions))
  unfolding expire supervise_end register cancel
  operations_unique r u = (registered, cancelled, expired, ended)
    where
      failed :
          (e : AstralError) (w : Worker)
          → Unique ((then_raise {A = Unit {0}} e (terminate cleanup_fails w r)).1.sessions)
      failed e w =
          subst (λ r'. Unique r'.sessions)
            (sym (then_raise-1 (Unit {0}) e (terminate cleanup_fails w r)))
            (terminated-Unique w r u)

      registered :
          (id : Bytes) (w : Worker) (expires_at now : ℤ)
          → Unique ((register cleanup_fails id w expires_at now r).1.sessions)
      registered id w expires_at now =
          elim (Bool-cases (not (length id == 16) || leb_ℤ expires_at now)) [
            | inl t ↦ rw (register, t) (failed _ w)
            | inr t ↦ elim (Bool-cases (is_some (get id r.sessions))) [
              | inl q ↦ rw (register, t, q) (failed _ w)
              | inr q ↦ rw (register, t, q) (put-Unique id _ r.sessions u)
            ]
          ]

      cancelled : (id : Bytes) → Unique ((cancel cleanup_fails id r).1.sessions)
      cancelled id = elim (Option-cases (get id r.sessions)) [
        | inl e ↦ rw (cancel, e) u
        | inr (s, e) ↦
            rw (cancel, e)
              (subst (λ r'. Unique r'.sessions) (sym (then_return-1 true _))
                (terminated-Unique s.worker _ (pop-Unique id r.sessions u)))
      ]

      expired : (now : ℤ) → Unique ((expire cleanup_fails now r).1.sessions)
      expired now =
          let parts = pop_each (expired_keys now r.sessions) r.sessions in
          subst (λ r'. Unique r'.sessions) (sym (then_return-1 (length parts.0) _))
            (subst Unique (sym (terminate_each-sessions cleanup_fails parts.0 _))
              (pop_each-Unique (expired_keys now r.sessions) r.sessions u))

      ended :
          (id : Bytes) (s : ActiveSession) (how : Supervision)
          → Unique ((supervise_end cleanup_fails id s how r).sessions)
      ended id s exited = pop-Unique id r.sessions u
      ended id s supervision_failed = pop-Unique id _ (terminated-Unique s.worker r u)

pop_each-stays :
    (ks : List Bytes) (d : Dict Bytes ActiveSession) (k : Bytes)
    → contains ks k ≡ false
    → get k (pop_each ks d).1 ≡ get k d
unfolding pop_each contains
pop_each-stays [] d k h = refl
pop_each-stays (j ∷ ks) d k h =
    let (other, more) = or-eq-false (k == j) (contains ks k) h in
    ap (get k) (pop_each-left j ks d)
    ∙ pop_each-stays ks (pop j d) k more
    ∙ get-pop_other k j d other

pop_each-none :
    (ks : List Bytes) (d : Dict Bytes ActiveSession) (k : Bytes)
    → get k d ≡ none
    → get k (pop_each ks d).1 ≡ none
unfolding pop_each
pop_each-none [] d k h = h
pop_each-none (j ∷ ks) d k h =
    ap (get k) (pop_each-left j ks d)
    ∙ pop_each-none ks (pop j d) k (elim (Bool-cases (k == j)) [
      | inl t ↦ rw ((==_iff k j).0 t) (get-pop_same j d)
      | inr t ↦ get-pop_other k j d t ∙ h
    ])

-- What is popped later is popped.
pop_each_later :
    (j : Bytes) (ks : List Bytes) (d : Dict Bytes ActiveSession) (s : ActiveSession)
    → In s (pop_each ks (pop j d)).0
    → In s (pop_each (j ∷ ks) d).0
unfolding pop_each
pop_each_later j ks d s m = elim (Option-cases (get j d)) [
  | inl e ↦ rw (pop_each, e) m
  | inr (u, e) ↦ rw (pop_each, e) (there m)
]

pop_each_goes :
    (ks : List Bytes) (d : Dict Bytes ActiveSession) (k : Bytes) (s : ActiveSession)
    → contains ks k ≡ true
    → get k d ≡ some s
    → (get k (pop_each ks d).1 ≡ none) × In s (pop_each ks d).0
unfolding pop_each contains
pop_each_goes [] d k s h e = cc
pop_each_goes (j ∷ ks) d k s h e = elim (Bool-cases (k == j)) [
  | inl t ↦
      let at_j = (==_iff k j).0 t in
      let e' : get j d ≡ some s = rw at_j at e in
      (
        rw at_j
            (ap (get j) (pop_each-left j ks d) ∙ pop_each-none ks (pop j d) j (get-pop_same j d)),
        rw (pop_each, e') (here refl),
      )
  | inr t ↦
      let more : contains ks k ≡ true = rw t at h in
      let (gone, popped) = pop_each_goes ks (pop j d) k s more (get-pop_other k j d t ∙ e) in
      (ap (get k) (pop_each-left j ks d) ∙ gone, pop_each_later j ks d s popped)
]

expired-In :
    (now : ℤ) (d : Dict Bytes ActiveSession) (k : Bytes) (s : ActiveSession)
    → get k d ≡ some s
    → leb_ℤ s.expires_at now ≡ true
    → In k (expired_keys now d)
unfolding get expired_keys
expired-In now [] k s e h = cc
expired-In now ((k', u) ∷ rest) k s e h = elim (Bool-cases (k == k')) [
  | inl t ↦
      let e' : some u ≡ some s = rw t at e in
      let q : u ≡ s = cc in rw (q, h) (here ((==_iff k k').0 t))
  | inr t ↦ elim (Bool-cases (leb_ℤ u.expires_at now)) [
    | inl l ↦ rw l (there (expired-In now rest k s (rw t at e) h))
    | inr l ↦ rw l (expired-In now rest k s (rw t at e) h)
  ]
]

In-expired :
    (now : ℤ) (d : Dict Bytes ActiveSession) (k : Bytes)
    → In k (expired_keys now d)
    → (s : ActiveSession) × In (k, s) d × (leb_ℤ s.expires_at now ≡ true)
unfolding expired_keys
In-expired now [] k i = elim i [ ]
In-expired now ((k', u) ∷ rest) k i = elim (Bool-cases (leb_ℤ u.expires_at now)) [
  | inl l ↦
      let i' : In k (k' ∷ expired_keys now rest) = rw l at i in
      elim i' [
        | here e ↦ (u, here (ap (λ x. (x, u)) e), l)
        | there j ↦ let (s, m, h) = In-expired now rest k j in (s, there m, h)
      ]
  | inr l ↦
      let i' : In k (expired_keys now rest) = rw l at i in
      let (s, m, h) = In-expired now rest k i' in (s, there m, h)
]

-- In a registry whose identifiers are apart, `expire` takes away every session that is due and leaves
-- every other one as it was. If it returns, the workers of those that were due are terminated, and it
-- returns if no worker's cleanup raises.
pub expire_exact :
    (cleanup_fails : Worker → Bool) (now : ℤ) (r : Registry)
    → Unique r.sessions
    → (k : Bytes) (s : ActiveSession) → get k r.sessions ≡ some s
    → let (result, r') = expire cleanup_fails now r in
      (leb_ℤ s.expires_at now ≡ true
        → (get k r'.sessions ≡ none) × ((n : ℕ) → result ≡ ok n → In s.worker r'.terminated))
      × (leb_ℤ s.expires_at now ≡ false → get k r'.sessions ≡ some s)
      × (((w : Worker) → cleanup_fails w ≡ false) → (n : ℕ) × (result ≡ ok n))
unfolding expire
expire_exact cleanup_fails now r u k s e = (
  λ due.
      let (gone, popped) =
        pop_each_goes keys r.sessions k s (In-contains keys k (expired-In now r.sessions k s e due))
          e in
      (
        ap (get k) kept ∙ gone,
        λ n h.
            subst (λ r'. In s.worker r'.terminated) (sym same)
              (terminate_each-In cleanup_fails parts.0 s left
                (then_return-eq-ok (length parts.0) ended h).0 popped),
      ),
  λ early. elim (Bool-cases (contains keys k)) [
    | inr t ↦ ap (get k) kept ∙ pop_each-stays keys r.sessions k t ∙ e
    | inl t ↦
        let (s', m, due) = In-expired now r.sessions k (contains-In keys k t) in
        let e' : get k r.sessions ≡ some s' = In-get k s' r.sessions u m in
        let same : s' ≡ s = cc in
        let bad : true ≡ false = sym due ∙ ap (λ x. leb_ℤ x.expires_at now) same ∙ early in cc
  ],
  λ clean. (
    length parts.0,
    then_return_returns (length parts.0) ended
        (terminate_each_returns cleanup_fails parts.0 left clean),
  ),
)
  where
    keys : List Bytes
    keys = expired_keys now r.sessions

    parts : List ActiveSession × Dict Bytes ActiveSession
    parts = pop_each keys r.sessions

    left : Registry
    left = record r { sessions = parts.1 }

    ended : Outcome (Unit {0})
    ended = terminate_each cleanup_fails parts.0 left

    same : (then_return (length parts.0) ended).1 ≡ ended.1
    same = then_return-1 (length parts.0) ended

    kept : (then_return (length parts.0) ended).1.sessions ≡ parts.1
    kept = ap (λ r'. r'.sessions) same ∙ terminate_each-sessions cleanup_fails parts.0 left
