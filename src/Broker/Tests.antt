-- ===== src/Broker/Tests.antt =====
-- broker/registry.py: a worker that is registered, cancelled and followed by another.
use astral_project.Base.{
  ℕ, ◌≡◌, refl, ◌⊎◌, Bool, true, false, none, some, [], ◌∷◌, ◌==◌, nat_eq, string_eq, list_beq,
  list_eq, option_eq, pair_eq, ok, err, In, contains, Bytes, pos, leb_ℤ, int_eq,
}
use astral_project.Base.Dict.{get, put, pop, Unique}
use astral_project.Core.{AstralError}
use astral_project.Broker.Registry.{
  exited, ActiveSession, Registry, cancel, expire, register, terminate, supervise_end, Worker,
  then_return, terminate_each, pop_each, expired_keys,
}
use astral_project.Broker.Expiry.{expire_exact}
use astral_project.Broker.Owned.{cancel_terminates, register_owns}
use astral_project.Broker.Stale.{stale_supervisor}

abbrev id : Bytes
id = 0 ∷ 1 ∷ 2 ∷ 3 ∷ 4 ∷ 5 ∷ 6 ∷ 7 ∷ 8 ∷ 9 ∷ 10 ∷ 11 ∷ 12 ∷ 13 ∷ 14 ∷ 15 ∷ []

abbrev first_session : ActiveSession
first_session = record { session_id = id; expires_at = pos 50; worker = 1 }

abbrev second_session : ActiveSession
second_session = record { session_id = id; expires_at = pos 90; worker = 2 }

abbrev empty : Registry
empty = record { sessions = []; terminated = [] }

abbrev one : Registry
one = record { sessions = (id, first_session) ∷ []; terminated = [] }

abbrev again : Registry
again = record { sessions = (id, second_session) ∷ []; terminated = 1 ∷ [] }

-- The worker whose staging directory cannot be removed
abbrev stuck : Worker → Bool
stuck w = w == 3

registers : register stuck id 1 (pos 50) (pos 10) empty ≡ (ok tt, one)
unfolding register get put
registers = refl

registers_again : register stuck id 2 (pos 90) (pos 20) ((cancel stuck id one).1) ≡ (ok tt, again)
unfolding register cancel get put pop terminate list_beq contains
registers_again = refl

first_there : get id one.sessions ≡ some first_session
unfolding get list_beq
first_there = refl

second_there : get id again.sessions ≡ some second_session
unfolding get list_beq
second_there = refl

one_unique : Unique one.sessions
unfolding Unique get
one_unique = (refl, tt)

register_owns_example :
    (((register stuck id 1 (pos 50) (pos 10) empty).0 ≡ ok tt)
      × (get id ((register stuck id 1 (pos 50) (pos 10) empty).1.sessions) ≡ some first_session)
      × ((register stuck id 1 (pos 50) (pos 10) empty).1.terminated ≡ [])
      × (leb_ℤ (pos 50) (pos 10) ≡ false)
      × (get id empty.sessions ≡ none))
    ⊎ ((e : AstralError) × ((register stuck id 1 (pos 50) (pos 10) empty).0 ≡ err e)
        × In 1 ((register stuck id 1 (pos 50) (pos 10) empty).1.terminated)
        × ((register stuck id 1 (pos 50) (pos 10) empty).1.sessions ≡ []))
register_owns_example = register_owns stuck id 1 (pos 50) (pos 10) empty

cancel_terminates_example :
    ((s : ActiveSession)
      → get id one.sessions ≡ some s
      → (stuck s.worker ≡ false → (cancel stuck id one).0 ≡ ok true)
        × In s.worker ((cancel stuck id one).1.terminated)
        × (get id ((cancel stuck id one).1.sessions) ≡ none)
        × ((other : Bytes)
            → (other == id) ≡ false
            → get other ((cancel stuck id one).1.sessions) ≡ get other one.sessions))
    × (get id one.sessions ≡ none → cancel stuck id one ≡ (ok false, one))
cancel_terminates_example = cancel_terminates stuck id one

expire_exact_example :
    (leb_ℤ (pos 50) (pos 60) ≡ true
      → (get id ((expire stuck (pos 60) one).1.sessions) ≡ none)
        × ((n : ℕ)
            → (expire stuck (pos 60) one).0 ≡ ok n
            → In 1 ((expire stuck (pos 60) one).1.terminated)))
    × (leb_ℤ (pos 50) (pos 60) ≡ false
        → get id ((expire stuck (pos 60) one).1.sessions) ≡ some first_session)
    × (((w : Worker) → stuck w ≡ false) → (n : ℕ) × ((expire stuck (pos 60) one).0 ≡ ok n))
expire_exact_example = expire_exact stuck (pos 60) one one_unique id first_session first_there

-- Of two sessions that are due, the worker of the first cannot be cleaned up.
abbrev two : Registry
two = record {
  sessions =
      (1 ∷ [], record { session_id = 1 ∷ []; expires_at = pos 50; worker = 3 })
      ∷ (2 ∷ [], record { session_id = 2 ∷ []; expires_at = pos 50; worker = 4 })
      ∷ [];
  terminated = [];
}

expiry_stops : (expire stuck (pos 60) two).1 ≡ record { sessions = []; terminated = 3 ∷ [] }
unfolding expire expired_keys pop_each terminate_each terminate get pop list_beq contains
expiry_stops = refl

stale_supervisor_example :
    (cancel stuck id again
      ≡ then_return true (terminate stuck 2 (record again { sessions = pop id again.sessions })))
    × (cancel stuck id (supervise_end stuck id first_session exited again)
        ≡ (ok false, supervise_end stuck id first_session exited again))
    × (In 2 ((supervise_end stuck id first_session exited again).terminated)
        → In 2 again.terminated ⊎ (second_session.worker ≡ first_session.worker))
stale_supervisor_example =
    stale_supervisor stuck id again first_session second_session exited second_there
