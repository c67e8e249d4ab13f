-- ===== src/Homed/Leases.antt =====
-- homed/core.py: leases of the request budget, opened and cancelled in any order.
use astral_project.Base.{
  ℕ, zero, suc, ◌+◌, ◌≤◌, ◌≡◌, refl, ap, inl, inr, Bool, true, false, List, [], ◌∷◌, ◌++◌, arith,
  ltb, Bool-cases, ◌==◌, nat_eq, string_eq, list_eq, option_eq, pair_eq, Result, ok, err, ℤ, pos,
  negsuc, pos_part, int_eq,
}
use astral_project.Homed.Core.{
  RequestBudget, RequestLease, Errno, make_budget, open_lease, cancel_lease, reserve, reserve_size,
  budget_release,
}

-- The budget and its leases, as constructors and cancellations leave them.
pub data Leased : RequestBudget → List RequestLease → Type 0 where
  begins :
      {b : RequestBudget} (requests memory : ℤ) → make_budget requests memory ≡ ok b → Leased b []
  opens :
      {b b' : RequestBudget} {ls : List RequestLease} {l : RequestLease} (size : ℤ)
      → Leased b ls
      → open_lease size b ≡ (ok l, b')
      → Leased b' (l ∷ ls)
  fails :
      {b b' : RequestBudget} {ls : List RequestLease} {e : Errno} (size : ℤ)
      → Leased b ls
      → open_lease size b ≡ (err e, b')
      → Leased b' ls
  cancels :
      {b b' : RequestBudget} {l' : RequestLease} (l : RequestLease) (front back : List RequestLease)
      → Leased b (front ++ l ∷ back)
      → cancel_lease l b ≡ (l', b')
      → Leased b' (front ++ l' ∷ back)

abbrev pub one_if : Bool → ℕ
one_if true = 1
one_if false = 0

abbrev pub size_if : Bool → ℤ → ℕ
size_if true size = pos_part size
size_if false size = 0

-- The leases that still hold something, and what they hold.
unfoldable pub active_leases : List RequestLease → ℕ
active_leases [] = 0
active_leases (l ∷ ls) = one_if l.active + active_leases ls

unfoldable pub active_memory : List RequestLease → ℕ
active_memory [] = 0
active_memory (l ∷ ls) = size_if l.active l.size + active_memory ls

active_leases-append :
    (xs ys : List RequestLease) → active_leases (xs ++ ys) ≡ active_leases xs + active_leases ys
unfolding active_leases
active_leases-append [] ys = omega arith
active_leases-append (x ∷ xs) ys = omega (arith, active_leases-append xs ys)

active_memory-append :
    (xs ys : List RequestLease) → active_memory (xs ++ ys) ≡ active_memory xs + active_memory ys
unfolding active_memory
active_memory-append [] ys = omega arith
active_memory-append (x ∷ xs) ys = omega (arith, active_memory-append xs ys)

abbrev pub Balanced : RequestBudget → List RequestLease → Type 0
Balanced b ls =
    (b.permits + active_leases ls ≡ b.max_requests)
    × (b.memory ≡ active_memory ls)
    × (b.memory ≤ b.max_memory)

-- What one attempt does.
abbrev Opened :
    RequestBudget → List RequestLease → Result Errno RequestLease × RequestBudget → Type 0
Opened b ls (result, b') =
    ((l : RequestLease) → result ≡ ok l → Balanced b' (l ∷ ls))
    × ((e : Errno) → result ≡ err e → Balanced b' ls)

nonzero : (n : ℕ) → (n == 0) ≡ false → 1 ≤ n
nonzero n h = ground arith

not_below : (m n : ℕ) → ltb m n ≡ false → n ≤ m
not_below m n h = ground arith

open_lease-Opened :
    (size : ℤ) (b : RequestBudget) (ls : List RequestLease)
    → Balanced b ls
    → Opened b ls (open_lease size b)
unfolding open_lease reserve reserve_size active_leases active_memory
open_lease-Opened (negsuc n) b ls balanced = (λ l h. cc, λ e h. balanced)
open_lease-Opened (pos n) b ls balanced = elim (Bool-cases (ltb b.max_memory n)) [
  | inl t ↦ rw t (λ l h. cc, λ e h. balanced)
  | inr t ↦ rw t (elim (Bool-cases (b.permits == 0)) [
    | inl u ↦ rw u (λ l h. cc, λ e h. balanced)
    | inr u ↦ rw u (elim (Bool-cases (ltb b.max_memory (b.memory + n))) [
      | inl v ↦ rw v (
        λ l h. cc,
        λ e h. let (p, q, r) = balanced in (omega (arith, p, nonzero b.permits u), q, r),
      )
      | inr v ↦ rw v (
        λ l h.
            let (p, q, r) = balanced in
            let e : taken ≡ l = cc in
            rw (← e) (
              omega (arith, p, nonzero b.permits u),
              omega (arith, q),
              not_below b.max_memory (b.memory + n) v,
            ),
        λ e h. cc,
      )
    ])
  ])
]
  where
    taken : RequestLease
    taken = record { size = pos n; active = true }

cancel_lease-Balanced :
    (size : ℤ) (active : Bool) (b : RequestBudget) (front back : List RequestLease)
    → let l : RequestLease = record { size = size; active = active } in
      Balanced b (front ++ l ∷ back)
      → Balanced ((cancel_lease l b).1) (front ++ (cancel_lease l b).0 ∷ back)
unfolding cancel_lease budget_release active_leases active_memory
cancel_lease-Balanced size false b front back balanced = balanced
cancel_lease-Balanced size true b front back (p, q, r) = (
  omega (
    arith,
    p,
    active_leases-append front (held ∷ back),
    active_leases-append front (free ∷ back),
  ),
  omega (
    arith,
    q,
    active_memory-append front (held ∷ back),
    active_memory-append front (free ∷ back),
  ),
  omega (arith, r),
)
  where
    held : RequestLease
    held = record { size = size; active = true }

    free : RequestLease
    free = record { size = size; active = false }

-- However leases are opened and cancelled, one call after the other, the free permits and the active leases add up to the
-- permits of the budget, and the memory that is used is what the active leases hold and no more than
-- the budget has.
pub Leased-Balanced : (b : RequestBudget) (ls : List RequestLease) → Leased b ls → Balanced b ls
unfolding make_budget active_leases active_memory
Leased-Balanced b ls (begins (pos (suc n)) (pos (suc k)) h) =
    let fresh : RequestBudget = record {
      max_requests = suc n;
      max_memory = suc k;
      permits = suc n;
      memory = 0;
    } in
    let e : fresh ≡ b = cc in rw (← e) (omega arith, refl, omega arith)
Leased-Balanced b ls (begins (pos (suc n)) (pos zero) h) = cc
Leased-Balanced b ls (begins (pos (suc n)) (negsuc k) h) = cc
Leased-Balanced b ls (begins (pos zero) memory h) = cc
Leased-Balanced b ls (begins (negsuc n) memory h) = cc
Leased-Balanced b' _ (opens {b = b} {ls = ls} {l = l} size run h) =
    let opened = open_lease-Opened size b ls (Leased-Balanced b ls run) in
    rw (← ap (λ x. x.1) h) (opened.0 l (ap (λ x. x.0) h))
Leased-Balanced b' ls (fails {b = b} {e = e} size run h) =
    let opened = open_lease-Opened size b ls (Leased-Balanced b ls run) in
    rw (← ap (λ x. x.1) h) (opened.1 e (ap (λ x. x.0) h))
Leased-Balanced b' _ (cancels {b = b} l front back run h) =
    rw (← ap (λ x. x.1) h, ← ap (λ x. x.0) h)
      (cancel_lease-Balanced l.size l.active b front back
        (Leased-Balanced b (front ++ l ∷ back) run))
