-- ===== src/Homed/Approvals.antt =====
-- homed/mediation.py: no answer allows a path that no trusted decision allowed, in whatever order the
-- calls come.
use astral_project.Base.{
  inl, inr, ap, refl, ℕ, ◌-◌, ◌≡◌, ◌∙◌, true, Option, none, some, List, leb, nat_beq, Bool-cases,
  Option-cases, nat_eq, string_eq, list_eq, option_eq, pair_eq, In, int_eq,
}
use astral_project.Base.Dict.{get, get-put_same}
use astral_project.Homed.Pending.{
  Mediator, Key, Wanted, Pending, MediationResult, Answer, waiting, answered, wanted_of, key_of,
  closed, timeout,
}
use astral_project.Homed.Mediator.{finish, leave, poll}
use astral_project.Homed.Mediation.{Sound, Known, Backed, write_back, remove-Sound, finish-Sound}
use astral_project.Homed.Admission.{refusing}

leave-Sound :
    (p : Pending) (m : Mediator) (log : List Wanted)
    → Sound m log
    → Known p m
    → Backed log p
    → Sound (leave p m) log
unfolding leave
leave-Sound p m log sound known b = elim (Bool-cases (nat_beq (p.waiters - 1) 0)) [
  | inl t ↦ rw t (remove-Sound left m log sound known)
  | inr t ↦ rw t (write_back left m log sound known b)
]
  where
    left : Pending
    left = record p { waiters = p.waiters - 1 }

-- A request that is there, and the one that closes it.
pub finish-Known :
    (p : Pending) (r : MediationResult) (m : Mediator)
    → p.result ≡ none
    → Known (record p { result = some r }) (finish p r m)
unfolding finish
finish-Known p r m e = rw e (
  record p { result = some r },
  get-put_same (key_of p.request) (record p { result = some r }) m.pending,
  refl,
)

-- What a round of the loop comes to.
abbrev pub Polled : Key → List Wanted → Pending → Option (Answer × Mediator) → Type 0
Polled k log p o =
    (a : Answer) (m' : Mediator)
    → o ≡ some (a, m')
    → Sound m' log
      × ((x : MediationResult) → a ≡ answered x → x.allowed ≡ true → In (wanted_of p) log)

pub same_pair : {A B : Type 0} {x y : A × B} → x ≡ y → (x.0 ≡ y.0) × (x.1 ≡ y.1)
same_pair h = (ap (λ x. x.0) h, ap (λ x. x.1) h)

-- A known answer in a state that is sound.
answer-Polled :
    (k : Key) (log : List Wanted) (p : Pending) (a : Answer) (m : Mediator)
    → Sound m log
    → ((x : MediationResult) → a ≡ answered x → x.allowed ≡ true → In (wanted_of p) log)
    → Polled k log p (some (a, m))
answer-Polled k log p a m sound backed a' m' h =
    let x : Answer × Mediator = (a, m) in
    let y : Answer × Mediator = (a', m') in
    let q : x ≡ y = cc in
    let (same_answer, same_state) = same_pair q in
    (rw (← same_state) sound, λ x e. backed x (same_answer ∙ e))

pub poll-Polled :
    (k : Key) (now : ℕ) (m : Mediator) (log : List Wanted) (p : Pending)
    → Sound m log
    → get k m.pending ≡ some p
    → Polled k log p (poll k now m)
unfolding poll
poll-Polled k now m log p sound found =
    rw (poll, found)
      (elim (Option-cases p.result) [
        | inr (r, e) ↦ rw e (
            answer-Polled k log p (answered r) (leave p m) (leave-Sound p m log sound known backed)
              (λ x q. let i : r ≡ x = cc in backed x (rw (← i) e)))
        | inl e ↦ rw e (elim (Bool-cases (leb p.request.deadline now)) [
          | inl t ↦ rw t (
              answer-Polled k log p (answered expired) _
                (leave-Sound (record p { result = some expired }) (finish p expired m) log
                  (finish-Sound p expired m log sound known (λ q. cc) (λ q. cc))
                  (finish-Known p expired m e)
                  (λ x q g. let i : expired ≡ x = cc in refusing expired x (ap answered i) g refl))
                (λ x q g. refusing expired x q g refl))
          | inr t ↦ rw t (answer-Polled k log p (waiting k) m sound (λ x q. cc))
        ])
      ])
  where
    expired : MediationResult
    expired = closed timeout (some p.request)

    at_key : get (key_of p.request) m.pending ≡ some p
    at_key = rw (sound.keyed k p found) found

    known : Known p m
    known = (p, at_key, refl)

    backed : Backed log p
    backed = sound.backed k p found
