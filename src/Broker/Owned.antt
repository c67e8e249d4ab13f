-- ===== src/Broker/Owned.antt =====
-- broker/registry.py: a worker that is handed over or given back is registered or terminated.
use astral_project.Base.{
  ◌≡◌, refl, sym, ap, subst, ◌∙◌, ◌⊎◌, inl, inr, Bool, true, false, not, ◌||◌, Option, none, some,
  Bool-cases, or-eq-false, ◌==◌, nat_eq, string_eq, list_eq, option_eq, pair_eq, ok, err, length,
  In, Bytes, ℤ, leb_ℤ, int_eq,
}
use astral_project.Base.Dict.{get, pop, get-put_same, get-pop_same, get-pop_other}
use astral_project.Broker.Registry.{
  cancel, register, terminate, Registry, Worker, ActiveSession, is_some, then_raise, then_return,
}
use astral_project.Broker.Terminated.{
  terminate-In, terminate-sessions, terminate_returns, raised, then_raise-1, then_return-1,
  then_return_returns,
}
use astral_project.Core.{AstralError}

is_some-eq-false {ℓ} : {A : Type ℓ} (o : Option A) → is_some o ≡ false → o ≡ none
is_some-eq-false none h = refl
is_some-eq-false (some a) h = cc

module _ (cleanup_fails : Worker → Bool) where
  register_fails :
      (e : AstralError) (w : Worker) (r : Registry)
      → (e' : AstralError) × ((then_raise {A = Unit {0}} e (terminate cleanup_fails w r)).0
          ≡ err e')
        × In w (then_raise {A = Unit {0}} e (terminate cleanup_fails w r)).1.terminated
        × ((then_raise {A = Unit {0}} e (terminate cleanup_fails w r)).1.sessions ≡ r.sessions)
  register_fails e w r =
      let x = terminate cleanup_fails w r in
      let (e', q) = raised (Unit {0}) e x in
      let same = then_raise-1 (Unit {0}) e x in
      (
        e',
        q,
        subst (λ r'. In w r'.terminated) (sym same) (terminate-In cleanup_fails w r),
        ap (λ r'. r'.sessions) same ∙ terminate-sessions cleanup_fails w r,
      )

  -- `register` either files the worker's session under its identifier and touches no other worker, or
  -- it raises, terminates the worker it was given, and leaves the sessions as they were.
  pub register_owns :
      (id : Bytes) (w : Worker) (expires_at now : ℤ) (r : Registry)
      → let (result, r') = register cleanup_fails id w expires_at now r in
        ((result ≡ ok tt)
          × (get id r'.sessions
              ≡ some (record { session_id = id; expires_at = expires_at; worker = w }))
          × (r'.terminated ≡ r.terminated)
          × (leb_ℤ expires_at now ≡ false)
          × (get id r.sessions ≡ none))
        ⊎ ((e : AstralError) × (result ≡ err e) × In w r'.terminated × (r'.sessions ≡ r.sessions))
  unfolding register
  register_owns id w expires_at now r =
      elim (Bool-cases (not (length id == 16) || leb_ℤ expires_at now)) [
        | inl t ↦ rw (register, t) (inr (register_fails _ w r))
        | inr t ↦ elim (Bool-cases (is_some (get id r.sessions))) [
          | inl u ↦ rw (register, t, u) (inr (register_fails _ w r))
          | inr u ↦
              rw (register, t, u)
                (inl (
                  refl,
                  get-put_same id _ r.sessions,
                  refl,
                  (or-eq-false (not (length id == 16)) (leb_ℤ expires_at now) t).1,
                  is_some-eq-false (get id r.sessions) u,
                ))
        ]
      ]

  -- `cancel` terminates the worker of an active identifier and frees it, and leaves every other session;
  -- it returns true unless the cleanup of the worker raises. For another identifier it returns false and
  -- changes nothing.
  pub cancel_terminates :
      (id : Bytes) (r : Registry)
      → ((s : ActiveSession)
          → get id r.sessions ≡ some s
          → (cleanup_fails s.worker ≡ false → (cancel cleanup_fails id r).0 ≡ ok true)
            × In s.worker ((cancel cleanup_fails id r).1.terminated)
            × (get id ((cancel cleanup_fails id r).1.sessions) ≡ none)
            × ((other : Bytes)
                → (other == id) ≡ false
                → get other ((cancel cleanup_fails id r).1.sessions) ≡ get other r.sessions))
        × (get id r.sessions ≡ none → cancel cleanup_fails id r ≡ (ok false, r))
  unfolding cancel
  cancel_terminates id r = (λ s e. rw (cancel, e) (found s), λ e. rw (cancel, e) refl)
    where
      freed : Registry
      freed = record r { sessions = pop id r.sessions }

      found :
          (s : ActiveSession)
          → let (result, r') = then_return true (terminate cleanup_fails s.worker freed) in
            (cleanup_fails s.worker ≡ false → result ≡ ok true)
            × In s.worker r'.terminated
            × (get id r'.sessions ≡ none)
            × ((other : Bytes)
                → (other == id) ≡ false
                → get other r'.sessions ≡ get other r.sessions)
      found s =
          let x = terminate cleanup_fails s.worker freed in
          let same = then_return-1 true x in
          let kept =
            ap (λ r'. r'.sessions) same ∙ terminate-sessions cleanup_fails s.worker freed in
          (
            λ h. then_return_returns true x (terminate_returns cleanup_fails s.worker freed h),
            subst (λ r'. In s.worker r'.terminated) (sym same)
                (terminate-In cleanup_fails s.worker freed),
            ap (get id) kept ∙ get-pop_same id r.sessions,
            λ other h. ap (get other) kept ∙ get-pop_other other id r.sessions h,
          )
