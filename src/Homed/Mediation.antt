-- ===== src/Homed/Mediation.antt =====
-- homed/mediation.py: runs of the mediator, and what holds in every state that they reach.
use astral_project.Base.{
  inl, inr, ap, sym, ==_iff, Bool-cases, ℕ, ◌≤◌, ◌≡◌, Bool, true, ◌&&◌, Option, none, some, List,
  [], ◌∷◌, if◌then◌else◌, nat_eq, string_eq, list_eq, option_eq, pair_eq, ok, In, Text, int_eq,
  ◌==◌, ◌∙◌, refl, there, false, not, ◌⊎◌, contains, Option-cases, ◌++◌, In-append-cases,
  and-eq-true, here,
}
use astral_project.Base.Dict.{
  get-put_same, get-put_other, get-put-cases, Unique, put-Unique, get, put, pop, get-pop-cases,
  get-pop_other, pop-Unique,
}
use astral_project.Profile.Rule.{operation_eq}
use astral_project.Homed.Pending.{
  Mediator, Config, Key, Wanted, Pending, MediationRequest, MediationDecision, Answer, initial,
  is_allow_once, key_of, wanted_of, default_to, MediationResult, is_credential,
}
use astral_project.Homed.Mediator.{request_start, poll, decide, cancel_session, add, finish, remove}

-- The trusted approvals so far: a decision that `decide` took adds what it allowed.
unfoldable pub approve : Option Pending → MediationDecision → Bool → List Wanted → List Wanted
approve none decision taken log = log
approve (some p) decision taken log =
    if taken && is_allow_once decision then wanted_of p ∷ log else log

-- The states that calls of the mediator lead to, with the approvals on the way.
pub data Reachable (c : Config) : Mediator → List Wanted → Type 0 where
  starts : Reachable c initial []
  requests :
      {m m' : Mediator} {log : List Wanted} {a : Answer} (r : MediationRequest) (now : ℕ)
      → Reachable c m log
      → request_start c r now m ≡ ok (a, m')
      → Reachable c m' log
  polls :
      {m m' : Mediator} {log : List Wanted} {a : Answer} (k : Key) (now : ℕ)
      → Reachable c m log
      → poll k now m ≡ some (a, m')
      → Reachable c m' log
  decides :
      {m m' : Mediator} {log : List Wanted} {taken : Bool} (s : Text) (n : ℕ)
      (d : MediationDecision)
      → Reachable c m log
      → decide c s n d m ≡ ok (taken, m')
      → Reachable c m' (approve (get (s, n) m.pending) d taken log)
  cancels :
      {m m' : Mediator} {log : List Wanted} {count : ℕ} (s : Text)
      → Reachable c m log
      → cancel_session s m ≡ (count, m')
      → Reachable c m' log

-- An answer that allows was approved.
abbrev pub Backed : List Wanted → Pending → Type 0
Backed log p = (r : MediationResult) → p.result ≡ some r → r.allowed ≡ true → In (wanted_of p) log

-- What a state keeps.
pub record Sound (m : Mediator) (log : List Wanted) : Type 0 where
  pub unique : Unique m.pending
  pub keyed : (k : Key) (p : Pending) → get k m.pending ≡ some p → key_of p.request ≡ k
  pub fresh :
      (s : Text) (n : ℕ) (p : Pending)
      → get (s, n) m.pending ≡ some p
      → n ≤ default_to 0 (get s m.next_request)
  pub pointed :
      (w : Wanted) (k : Key)
      → get w m.coalesced ≡ some k
      → (p : Pending) × (get k m.pending ≡ some p) × (wanted_of p ≡ w)
  pub backed : (k : Key) (p : Pending) → get k m.pending ≡ some p → Backed log p
  pub once : (w : Wanted) → In w m.allowed_once → In w log

-- The key's request is there and wants the same.
abbrev pub Known : Pending → Mediator → Type 0
Known p m =
    (q : Pending) × (get (key_of p.request) m.pending ≡ some q) × (wanted_of q ≡ wanted_of p)

-- Writing back a request that is there.
pub write_back :
    (p : Pending) (m : Mediator) (log : List Wanted)
    → Sound m log
    → Known p m
    → Backed log p
    → Sound (record m { pending = put (key_of p.request) p m.pending }) log
write_back p m log sound (q, found, same) b = record {
  unique = put-Unique (key_of p.request) p m.pending sound.unique;
  keyed = λ k u h. elim (get-put-cases k (key_of p.request) p m.pending h) [
    | inl (e, i) ↦ rw (i, e) refl
    | inr (_, g) ↦ sound.keyed k u g
  ];
  fresh = λ s n u h. elim (get-put-cases (s, n) (key_of p.request) p m.pending h) [
    | inl (e, i) ↦ sound.fresh s n q (rw e found)
    | inr (_, g) ↦ sound.fresh s n u g
  ];
  pointed = pointed;
  backed = λ k u h. elim (get-put-cases k (key_of p.request) p m.pending h) [
    | inl (e, i) ↦ rw i b
    | inr (_, g) ↦ sound.backed k u g
  ];
  once = sound.once;
}
  where
    pointed :
        (w : Wanted) (k : Key)
        → get w m.coalesced ≡ some k
        → (u : Pending) × (get k (put (key_of p.request) p m.pending) ≡ some u) × (wanted_of u ≡ w)
    pointed w k h =
        let (u, g, e) = sound.pointed w k h in
        elim (Bool-cases (k == key_of p.request)) [
          | inl t ↦
              let at_k = (==_iff k (key_of p.request)).0 t in
              let again : get (key_of p.request) m.pending ≡ some u = rw at_k at g in
              let u_is_q : u ≡ q = cc in
              (
                p,
                rw at_k (get-put_same (key_of p.request) p m.pending),
                sym same ∙ ap (λ x. wanted_of x) (sym u_is_q) ∙ e,
              )
          | inr t ↦ (u, rw (get-put_other k (key_of p.request) p m.pending t) g, e)
        ]

-- Approvals only add up.
pub later : (m : Mediator) (log : List Wanted) (w : Wanted) → Sound m log → Sound m (w ∷ log)
later m log w sound = record {
  unique = sound.unique;
  keyed = sound.keyed;
  fresh = sound.fresh;
  pointed = sound.pointed;
  backed = λ k p h r e a. there (sound.backed k p h r e a);
  once = λ v h. there (sound.once v h);
}

In-add : (v w : Wanted) (ws : List Wanted) → In v (add w ws) → In v ws ⊎ (v ≡ w)
unfolding add
In-add v w ws h = elim (Bool-cases (contains ws w)) [
  | inl t ↦ let h' : In v ws = rw t at h in inl h'
  | inr t ↦
      let h' : In v (ws ++ w ∷ []) = rw t at h in
      elim (In-append-cases ws (w ∷ []) h') [
        | inl i ↦ inl i
        | inr (here e) ↦ inr e
        | inr (there i) ↦ elim i [ ]
      ]
]

pub added :
    (m : Mediator) (log : List Wanted) (w : Wanted)
    → Sound m log
    → In w log
    → Sound (record m { allowed_once = add w m.allowed_once }) log
added m log w sound i = record {
  unique = sound.unique;
  keyed = sound.keyed;
  fresh = sound.fresh;
  pointed = sound.pointed;
  backed = sound.backed;
  once = λ v h. elim (In-add v w m.allowed_once h) [ inl j ↦ sound.once v j | inr e ↦ rw e i ];
}

pub finish-Sound :
    (p : Pending) (r : MediationResult) (m : Mediator) (log : List Wanted)
    → Sound m log
    → Known p m
    → (r.allowed ≡ true → In (wanted_of p) log)
    → (is_allow_once r.decision ≡ true → In (wanted_of p) log)
    → Sound (finish p r m) log
unfolding finish
finish-Sound p r m log sound known a d = elim (Option-cases p.result) [
  | inr (s, e) ↦ rw e sound
  | inl e ↦ rw e (elim (Bool-cases allows) [
    | inl t ↦ rw t (added _ log (wanted_of p) written (d ((and-eq-true _ _ t).0)))
    | inr t ↦ rw t written
  ])
]
  where
    allows : Bool
    allows = is_allow_once r.decision && not (is_credential p.request.sensitivity)

    closing : Pending
    closing = record p { result = some r }

    written : Sound (record m { pending = put (key_of p.request) closing m.pending }) log
    written = write_back closing m log sound known (λ s e h. a (let q : r ≡ s = cc in rw q h))

-- A request whose last caller leaves.
pub remove-Sound :
    (p : Pending) (m : Mediator) (log : List Wanted)
    → Sound m log
    → Known p m
    → Sound (remove p m) log
unfolding remove
remove-Sound p m log sound (q, found, same) = record {
  unique = pop-Unique (key_of p.request) m.pending sound.unique;
  keyed = λ k u h. sound.keyed k u ((get-pop-cases k (key_of p.request) m.pending h).1);
  fresh = λ s n u h. sound.fresh s n u ((get-pop-cases (s, n) (key_of p.request) m.pending h).1);
  pointed = pointed;
  backed = λ k u h. sound.backed k u ((get-pop-cases k (key_of p.request) m.pending h).1);
  once = sound.once;
}
  where
    pointed :
        (w : Wanted) (k : Key)
        → get w (pop (wanted_of p) m.coalesced) ≡ some k
        → (u : Pending) × (get k (pop (key_of p.request) m.pending) ≡ some u) × (wanted_of u ≡ w)
    pointed w k h =
        let (other, h') = get-pop-cases w (wanted_of p) m.coalesced h in
        let (u, g, e) = sound.pointed w k h' in
        elim (Bool-cases (k == key_of p.request)) [
          | inl t ↦
              let at_k = (==_iff k (key_of p.request)).0 t in
              let again : get (key_of p.request) m.pending ≡ some u = rw at_k at g in
              let u_is_q : u ≡ q = cc in
              let equal : w ≡ wanted_of p = sym e ∙ ap (λ x. wanted_of x) u_is_q ∙ same in
              let bad : true ≡ false = sym ((==_iff w (wanted_of p)).1 equal) ∙ other in cc
          | inr t ↦ (u, rw (get-pop_other k (key_of p.request) m.pending t) g, e)
        ]
