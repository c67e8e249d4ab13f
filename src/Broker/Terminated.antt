-- ===== src/Broker/Terminated.antt =====
-- broker/registry.py: what `terminate` does to the registry.
use astral_project.Base.{
  ◌≡◌, refl, sym, subst, ◌∙◌, ◌⊎◌, inl, inr, Bool, false, List, [], ◌∷◌, Bool-cases, nat_eq,
  string_eq, list_eq, option_eq, pair_eq, ok, err, In, here, there, contains, contains-In, int_eq,
  err-ne-ok,
}
use astral_project.Broker.Registry.{
  terminate, terminate_each, Registry, Worker, ActiveSession, then_raise, then_return, Outcome,
  and_then,
}
use astral_project.Core.{AstralError}

module _ (x : Outcome (Unit {0})) (next : Registry → Outcome (Unit {0})) where
  and_then_keeps :
      (P : Registry → Type 0)
      → P x.1
      → ((r : Registry) → P r → P (next r).1)
      → P (and_then x next).1
  and_then_keeps P h k = from x h
    where
      from : (y : Outcome (Unit {0})) → P y.1 → P (and_then y next).1
      from (ok u, r) q = k r q
      from (err e, r) q = q

  and_then-eq-ok :
      (and_then x next).0 ≡ ok tt
      → (r : Registry) × (x ≡ (ok tt, r)) × ((next r).0 ≡ ok tt) × (and_then x next ≡ next r)
  and_then-eq-ok h = from x h
    where
      from :
          (y : Outcome (Unit {0}))
          → (and_then y next).0 ≡ ok tt
          → (r : Registry) × (y ≡ (ok tt, r)) × ((next r).0 ≡ ok tt) × (and_then y next ≡ next r)
      from (ok u, r) q = (r, refl, q, refl)
      from (err e, r) q = absurd (err-ne-ok q)

  and_then_returns :
      x.0 ≡ ok tt → ((r : Registry) → (next r).0 ≡ ok tt) → (and_then x next).0 ≡ ok tt
  and_then_returns h k = from x h
    where
      from : (y : Outcome (Unit {0})) → y.0 ≡ ok tt → (and_then y next).0 ≡ ok tt
      from (ok u, r) q = k r
      from (err e, r) q = absurd (err-ne-ok q)

module _ (cleanup_fails : Worker → Bool) where
  pub terminate-In : (w : Worker) (r : Registry) → In w (terminate cleanup_fails w r).1.terminated
  unfolding terminate
  terminate-In w r = elim (Bool-cases (contains r.terminated w)) [
    | inl t ↦ rw (terminate, t) (contains-In r.terminated w t)
    | inr t ↦ rw (terminate, t) (here refl)
  ]

  pub terminate_grows :
      (w v : Worker) (r : Registry)
      → In v r.terminated
      → In v (terminate cleanup_fails w r).1.terminated
  unfolding terminate
  terminate_grows w v r i = elim (Bool-cases (contains r.terminated w)) [
    | inl t ↦ rw (terminate, t) i
    | inr t ↦ rw (terminate, t) (there i)
  ]

  pub terminate-cases :
      (w v : Worker) (r : Registry)
      → In v (terminate cleanup_fails w r).1.terminated
      → (v ≡ w) ⊎ In v r.terminated
  unfolding terminate
  terminate-cases w v r i = elim (Bool-cases (contains r.terminated w)) [
    | inl t ↦ inr (rw (terminate, t) at i)
    | inr t ↦
        let j : In v (w ∷ r.terminated) = rw (terminate, t) at i in
        elim j [ here q ↦ inl q | there k ↦ inr k ]
  ]

  pub terminate-sessions :
      (w : Worker) (r : Registry) → (terminate cleanup_fails w r).1.sessions ≡ r.sessions
  unfolding terminate
  terminate-sessions w r = elim (Bool-cases (contains r.terminated w)) [
    | inl t ↦ rw (terminate, t) refl
    | inr t ↦ rw (terminate, t) refl
  ]

  pub terminate_returns :
      (w : Worker) (r : Registry)
      → cleanup_fails w ≡ false
      → (terminate cleanup_fails w r).0 ≡ ok tt
  unfolding terminate
  terminate_returns w r h = elim (Bool-cases (contains r.terminated w)) [
    | inl t ↦ rw (terminate, t) refl
    | inr t ↦ rw (terminate, t, h) refl
  ]

  pub terminate_each-sessions :
      (ss : List ActiveSession) (r : Registry)
      → (terminate_each cleanup_fails ss r).1.sessions ≡ r.sessions
  unfolding terminate_each
  terminate_each-sessions [] r = refl
  terminate_each-sessions (s ∷ ss) r =
      and_then_keeps (terminate cleanup_fails s.worker r) (λ r'. terminate_each cleanup_fails ss r')
        (λ r'. r'.sessions ≡ r.sessions) (terminate-sessions s.worker r)
        (λ r' q. terminate_each-sessions ss r' ∙ q)

  pub terminate_each_grows :
      (ss : List ActiveSession) (v : Worker) (r : Registry)
      → In v r.terminated
      → In v (terminate_each cleanup_fails ss r).1.terminated
  unfolding terminate_each
  terminate_each_grows [] v r i = i
  terminate_each_grows (s ∷ ss) v r i =
      and_then_keeps (terminate cleanup_fails s.worker r) (λ r'. terminate_each cleanup_fails ss r')
        (λ r'. In v r'.terminated) (terminate_grows s.worker v r i)
        (λ r' q. terminate_each_grows ss v r' q)

  -- If no call raised, every worker is terminated.
  pub terminate_each-In :
      (ss : List ActiveSession) (s : ActiveSession) (r : Registry)
      → (terminate_each cleanup_fails ss r).0 ≡ ok tt
      → In s ss
      → In s.worker (terminate_each cleanup_fails ss r).1.terminated
  unfolding terminate_each
  terminate_each-In [] s r h m = elim m [ ]
  terminate_each-In (d ∷ ss) s r h m =
      let next = λ (r' : Registry). terminate_each cleanup_fails ss r' in
      let (r', first, rest, same) = and_then-eq-ok (terminate cleanup_fails d.worker r) next h in
      elim m [
        | here q ↦ rw (q) (
            and_then_keeps (terminate cleanup_fails d.worker r) next
              (λ r'. In d.worker r'.terminated) (terminate-In d.worker r)
              (λ r' i. terminate_each_grows ss d.worker r' i))
        | there i ↦
            subst (λ x. In s.worker x.1.terminated) (sym same) (terminate_each-In ss s r' rest i)
      ]

  pub terminate_each_returns :
      (ss : List ActiveSession) (r : Registry)
      → ((w : Worker) → cleanup_fails w ≡ false)
      → (terminate_each cleanup_fails ss r).0 ≡ ok tt
  unfolding terminate_each
  terminate_each_returns [] r h = refl
  terminate_each_returns (s ∷ ss) r h =
      and_then_returns (terminate cleanup_fails s.worker r)
        (λ r'. terminate_each cleanup_fails ss r') (terminate_returns s.worker r (h s.worker))
        (λ r'. terminate_each_returns ss r' h)

-- What follows a call changes nothing of the registry.
pub then_raise-1 :
    (A : Type 0) (e : AstralError) (x : Outcome (Unit {0})) → (then_raise {A = A} e x).1 ≡ x.1
then_raise-1 A e (ok u, r) = refl
then_raise-1 A e (err e', r) = refl

pub then_return-1 : {A : Type 0} (a : A) (x : Outcome (Unit {0})) → (then_return a x).1 ≡ x.1
then_return-1 a (ok u, r) = refl
then_return-1 a (err e, r) = refl

pub raised :
    (A : Type 0) (e : AstralError) (x : Outcome (Unit {0}))
    → (e' : AstralError) × ((then_raise {A = A} e x).0 ≡ err e')
raised A e (ok u, r) = (e, refl)
raised A e (err e', r) = (e', refl)

pub then_return-eq-ok :
    {A : Type 0} (a : A) (x : Outcome (Unit {0})) {b : A}
    → (then_return a x).0 ≡ ok b
    → (x.0 ≡ ok tt) × (b ≡ a)
then_return-eq-ok a (ok u, r) h = (refl, cc)
then_return-eq-ok a (err e, r) h = absurd (err-ne-ok h)

pub then_return_returns :
    {A : Type 0} (a : A) (x : Outcome (Unit {0})) → x.0 ≡ ok tt → (then_return a x).0 ≡ ok a
then_return_returns a (ok u, r) h = refl
then_return_returns a (err e, r) h = absurd (err-ne-ok h)
