-- ===== src/Homed/Admission.antt =====
-- homed/mediation.py: a request that is admitted or joins another keeps the state sound.
use astral_project.Base.{
  inl, inr, ap, sym, refl, ℕ, suc, ◌+◌, ◌≤◌, ◌≡◌, ◌∙◌, true, false, not, ◌&&◌, none, some, List, [],
  arith, leb, Bool-cases, Option-cases, and-eq-true, ◌==◌, ==_iff, nat_eq, string_eq, list_eq,
  option_eq, pair_eq, length, In, contains, contains-In, Text, codes, int_eq,
}
use astral_project.Base.Dict.{
  Dict, get, put, get-put_same, get-put_other, get-put-cases, put-Unique,
}
use astral_project.Profile.Rule.{operation_eq}
use astral_project.Homed.Pending.{
  Mediator, Config, Key, Wanted, Pending, MediationRequest, MediationResult, Answer, waiting,
  answered, wanted_of, default_to, key_of, is_credential,
}
use astral_project.Homed.Mediator.{admit, coalesced_pending, request_locked, join_pending}
use astral_project.Homed.Mediation.{Sound, write_back}

abbrev pub wanted_by : MediationRequest → Wanted
wanted_by r = (r.session_id, (r.path, r.operation))

pub recent-Sound :
    (m : Mediator) (log : List Wanted) (recent : Dict Text (List ℕ))
    → Sound m log
    → Sound (record m { recent = recent }) log
recent-Sound m log recent sound = record {
  unique = sound.unique;
  keyed = sound.keyed;
  fresh = sound.fresh;
  pointed = sound.pointed;
  backed = sound.backed;
  once = sound.once;
}

-- The caller waits for a request that is there and wants the same.
abbrev pub Waits : MediationRequest → Answer × Mediator → Type 0
Waits r (a, m) =
    (k : Key)
    → a ≡ waiting k
    → (p : Pending) × (get k m.pending ≡ some p) × (wanted_of p ≡ wanted_by r)

-- An answer at once allows only what was approved.
abbrev pub Answers : List Wanted → MediationRequest → Answer × Mediator → Type 0
Answers log r (a, m) =
    (x : MediationResult) → a ≡ answered x → x.allowed ≡ true → In (wanted_by r) log

abbrev pub Kept : List Wanted → MediationRequest → Answer × Mediator → Type 0
Kept log r x = Sound (x.1) log × Waits r x × Answers log r x

admit-Kept :
    (c : Config) (r : MediationRequest) (now : ℕ) (m : Mediator) (log : List Wanted)
    → Sound m log
    → Kept log r (admit c r now m)
unfolding admit
admit-Kept c r now m log sound = (
  record {
    unique = put-Unique key _ m.pending sound.unique;
    keyed = λ k u h. elim (get-put-cases k key new m.pending h) [
      | inl (e, i) ↦ rw (i, e) refl
      | inr (_, g) ↦ sound.keyed k u g
    ];
    fresh = λ s n u h. elim (get-put-cases (s, n) key new m.pending h) [
      | inl (e, i) ↦
          rw (ap (λ x. x.0) e, ap (λ x. x.1) e, get-put_same r.session_id (suc last) m.next_request)
            (omega arith)
      | inr (_, g) ↦ grown s n (sound.fresh s n u g)
    ];
    pointed = pointed;
    backed = λ k u h x e. elim (get-put-cases k key new m.pending h) [
      | inl (_, i) ↦ let bad : none ≡ some x = rw i at e in cc
      | inr (_, g) ↦ sound.backed k u g x e
    ];
    once = sound.once;
  },
  λ k e. let q : key ≡ k = cc in (new, rw (← q) (get-put_same key new m.pending), refl),
  λ x e. cc,
)
  where
    last : ℕ
    last = default_to 0 (get r.session_id m.next_request)

    key : Key
    key = (r.session_id, suc last)

    new : Pending
    new = record {
      request = record {
        session_id = r.session_id;
        request_number = suc last;
        operation = r.operation;
        path_component = r.path_component;
        opaque_ancestor = r.opaque_ancestor;
        sensitivity = r.sensitivity;
        deadline = now + c.timeout;
        provenance = record { source = codes "unknown"; observer = none };
      };
      full_path = r.path;
      result = none;
      waiters = 1;
    }

    grown :
        (s : Text) (n : ℕ)
        → n ≤ default_to 0 (get s m.next_request)
        → n ≤ default_to 0 (get s (put r.session_id (suc last) m.next_request))
    grown s n h = elim (Bool-cases (s == r.session_id)) [
      | inl t ↦
          let e = (==_iff s r.session_id).0 t in
          let h' : n ≤ last = rw e at h in
          rw (e, get-put_same r.session_id (suc last) m.next_request) (omega (arith, h'))
      | inr t ↦ rw (get-put_other s r.session_id (suc last) m.next_request t) h
    ]

    pointed :
        (w : Wanted) (k : Key)
        → get w (put (wanted_by r) key m.coalesced) ≡ some k
        → (u : Pending) × (get k (put key new m.pending) ≡ some u) × (wanted_of u ≡ w)
    pointed w k h = elim (get-put-cases w (wanted_by r) key m.coalesced h) [
      | inl (e, i) ↦ (new, rw i (get-put_same key new m.pending), sym e)
      | inr (_, g) ↦
          let (u, f, e) = sound.pointed w k g in
          elim (Bool-cases (k == key)) [
            | inl t ↦
                let at_key : get key m.pending ≡ some u = rw ((==_iff k key).0 t) at f in
                absurd (omega (arith, sound.fresh r.session_id (suc last) u at_key))
            | inr t ↦ (u, rw (get-put_other k key new m.pending t) f, e)
          ]
    ]

join-Kept :
    (r : MediationRequest) (p : Pending) (m : Mediator) (log : List Wanted)
    → Sound m log
    → get (key_of p.request) m.pending ≡ some p
    → wanted_of p ≡ wanted_by r
    → Kept log r (join_pending p m)
join-Kept r p m log sound found same = (
  write_back joined m log sound (p, found, refl) (sound.backed (key_of p.request) p found),
  λ k e.
      let q : key_of p.request ≡ k = cc in
      (joined, rw (← q) (get-put_same (key_of p.request) joined m.pending), same),
  λ x e. cc,
)
  where
    joined : Pending
    joined = record p { waiters = suc p.waiters }

-- The entry of a coalesced key.
pub coalesced_found :
    (w : Wanted) (m : Mediator) (log : List Wanted) (p : Pending)
    → Sound m log
    → coalesced_pending w m ≡ some p
    → (get (key_of p.request) m.pending ≡ some p) × (wanted_of p ≡ w)
unfolding coalesced_pending
coalesced_found w m log p sound h = elim (Option-cases (get w m.coalesced)) [
  | inl e ↦ let bad : none ≡ some p = rw (coalesced_pending, e) at h in cc
  | inr (k, e) ↦
      let g : get k m.pending ≡ some p = rw (coalesced_pending, e) at h in
      let (u, g', same) = sound.pointed w k e in
      let is_u : u ≡ p = cc in (rw (sound.keyed k p g) g, rw is_u at same)
]

pub refusing :
    {G : Type 0} (r x : MediationResult)
    → answered r ≡ answered x
    → x.allowed ≡ true
    → r.allowed ≡ false
    → G
refusing r x e a f =
    let q : r ≡ x = cc in let bad : true ≡ false = sym a ∙ ap (λ y. y.allowed) (sym q) ∙ f in cc

pub locked-Kept :
    (c : Config) (r : MediationRequest) (now : ℕ) (m : Mediator) (log : List Wanted)
    → Sound m log
    → Kept log r (request_locked c r now m)
unfolding request_locked
locked-Kept c r now m log sound =
    elim (Bool-cases (contains m.allowed_once (wanted_by r) && not (is_credential r.sensitivity))) [
      | inl t ↦ rw t (
        sound,
        λ k e. cc,
        λ x e a.
            sound.once (wanted_by r)
              (contains-In m.allowed_once (wanted_by r) (and-eq-true _ _ t).0),
      )
      | inr t ↦ rw t (elim (Option-cases (coalesced_pending (wanted_by r) m)) [
        | inr (p, e) ↦
            let (found, same) = coalesced_found (wanted_by r) m log p sound e in
            rw e (join-Kept r p m log sound found same)
        | inl e ↦ rw e (elim (Bool-cases (leb c.max_pending (length m.pending))) [
          | inl q ↦ rw q (sound, λ k e. cc, λ x e a. refusing _ x e a refl)
          | inr q ↦
              rw q
                (elim (Bool-cases (
                  leb c.max_requests_per_session
                    (length (default_to [] (get r.session_id m.recent))))) [
                      | inl q ↦ rw q (sound, λ k e. cc, λ x e a. refusing _ x e a refl)
                      | inr q ↦ rw q (admit-Kept c r now m log sound)
                    ])
        ])
      ])
    ]
