-- ===== src/Broker/Stale.antt =====
-- broker/registry.py: the end of a supervisor whose session was cancelled and whose identifier was
-- registered again.
use astral_project.Base.{
  ◌≡◌, refl, ◌⊎◌, inl, inr, Bool, true, false, some, nat_eq, string_eq, list_eq, option_eq, pair_eq,
  ok, In, Bytes, int_eq,
}
use astral_project.Base.Dict.{get, pop, get-pop_same}
use astral_project.Broker.Registry.{
  exited, supervision_failed, cancel, supervise_end, terminate, Registry, ActiveSession,
  Supervision, then_return, Worker,
}
use astral_project.Broker.Terminated.{terminate-cases}

-- A supervisor that ends takes away whatever session is registered under its identifier by then: if
-- that is a newer one, it can no longer be cancelled, and its worker is not terminated thereby unless it
-- is the supervisor's own.
pub stale_supervisor :
    (cleanup_fails : Worker → Bool) (id : Bytes) (r : Registry) (old new : ActiveSession)
    (how : Supervision)
    → get id r.sessions ≡ some new
    → (cancel cleanup_fails id r
        ≡ then_return true
            (terminate cleanup_fails new.worker (record r { sessions = pop id r.sessions })))
      × (cancel cleanup_fails id (supervise_end cleanup_fails id old how r)
          ≡ (ok false, supervise_end cleanup_fails id old how r))
      × (In new.worker ((supervise_end cleanup_fails id old how r).terminated)
          → In new.worker r.terminated ⊎ (new.worker ≡ old.worker))
unfolding cancel supervise_end
stale_supervisor cleanup_fails id r old new exited e =
    (rw (cancel, e) refl, rw (cancel, get-pop_same id r.sessions) refl, λ i. inl i)
stale_supervisor cleanup_fails id r old new supervision_failed e = (
  rw (cancel, e) refl,
  rw (cancel, get-pop_same id (terminate cleanup_fails old.worker r).1.sessions) refl,
  λ i. elim (terminate-cases cleanup_fails old.worker new.worker r i) [
    | inl q ↦ inr q
    | inr j ↦ inl j
  ],
)
