-- ===== src/Broker/Registry.antt =====
-- broker/registry.py: `ActiveSessionRegistry`. A worker is its identity, the workers that were
-- terminated are a list, and the thread that supervises a session is two steps, its look at the
-- registry and its end, between which other calls may run. Which workers leave a staging directory that
-- cannot be removed (broker/mapping.py) is a parameter.
use astral_project.Base.{
  ℕ, String, Bool, true, false, not, ◌||◌, Option, none, some, List, [], ◌∷◌, if◌then◌else◌, ◌==◌,
  nat_eq, string_eq, list_eq, option_eq, pair_eq, Result, ok, err, length, contains, Bytes, ℤ,
  leb_ℤ, int_eq,
}
use astral_project.Base.Dict.{Dict, get, put, pop}
use astral_project.Core.{AstralError, astral_error, daemon_auth}

abbrev pub Worker : Type 0
Worker = ℕ

pub record ActiveSession : Type 0 where
  pub session_id : Bytes
  pub expires_at : ℤ
  pub worker : Worker

pub record Registry : Type 0 where
  pub sessions : Dict Bytes ActiveSession
  pub terminated : List Worker

-- `_error`, here and in broker/mapping.py
abbrev pub registry_error : String → AstralError
registry_error message = astral_error daemon_auth message

abbrev pub is_some {ℓ} : {A : Type ℓ} → Option A → Bool
is_some none = false
is_some (some a) = true

-- What a call raises or returns, and the registry after it
abbrev pub Outcome : Type 0 → Type 0
Outcome A = Result AstralError A × Registry

-- A call, and then `raise` or `return`, if the call has not raised itself.
abbrev pub then_raise : {A : Type 0} → AstralError → Outcome (Unit {0}) → Outcome A
then_raise e (ok u, r) = (err e, r)
then_raise e (err e', r) = (err e', r)

abbrev pub and_then : {A : Type 0} → Outcome (Unit {0}) → (Registry → Outcome A) → Outcome A
and_then (ok u, r) next = next r
and_then (err e, r) next = (err e, r)

abbrev pub then_return : {A : Type 0} → A → Outcome (Unit {0}) → Outcome A
then_return a (ok u, r) = (ok a, r)
then_return a (err e, r) = (err e, r)

-- `[key for key, value in self._sessions.items() if value.expires_at <= now]`
unfoldable pub expired_keys : ℤ → Dict Bytes ActiveSession → List Bytes
expired_keys now [] = []
expired_keys now ((k, s) ∷ rest) =
    let keys = expired_keys now rest in if leb_ℤ s.expires_at now then k ∷ keys else keys

-- `[self._sessions.pop(key) for key in expired]`, with the sessions that stay
unfoldable pub pop_each :
    List Bytes → Dict Bytes ActiveSession → List ActiveSession × Dict Bytes ActiveSession
pop_each [] d = ([], d)
pop_each (k ∷ ks) d =
    let (popped, left) = pop_each ks (pop k d) in
    elim (get k d) [ none ↦ (popped, left) | some s ↦ (s ∷ popped, left) ]

-- `active_count`
unfoldable pub active_count : Registry → ℕ
active_count r = length r.sessions

-- How the supervision of a worker ends.
pub data Supervision : Type 0 where
  exited : Supervision
  supervision_failed : Supervision

-- The first statement of `_supervise`.
unfoldable pub supervise_look : Bytes → Registry → Option ActiveSession
supervise_look id r = get id r.sessions

module _ (cleanup_fails : Worker → Bool) where
  -- `worker.terminate()`: a worker that was not reaped before is, and then its staging directory is
  -- removed, which may raise.
  unfoldable pub terminate : Worker → Registry → Outcome (Unit {0})
  terminate w r = if contains r.terminated w then (ok tt, r) else (
    if cleanup_fails w then err (registry_error "worker staging cleanup failed") else ok tt,
    record r { terminated = w ∷ r.terminated },
  )

  -- `register`; the thread that it starts is `supervise_look` and `supervise_end`
  unfoldable pub register : Bytes → Worker → ℤ → ℤ → Registry → Outcome (Unit {0})
  unfolding terminate
  register id w expires_at now r =
      if not (length id == 16) || leb_ℤ expires_at now
      then then_raise (registry_error "worker session identifier or expiry is invalid")
          (terminate w r)
      else if is_some (get id r.sessions)
      then then_raise (registry_error "worker session identifier is already active") (terminate w r)
      else (
        ok tt,
        record r {
          sessions =
              put id (record { session_id = id; expires_at = expires_at; worker = w }) r.sessions;
        },
      )

  -- `cancel`
  unfoldable pub cancel : Bytes → Registry → Outcome Bool
  unfolding terminate
  cancel id r = elim (get id r.sessions) [
    | none ↦ (ok false, r)
    | some s ↦ then_return true (terminate s.worker (record r { sessions = pop id r.sessions }))
  ]

  -- `for session in sessions: session.worker.terminate()`
  unfoldable pub terminate_each : List ActiveSession → Registry → Outcome (Unit {0})
  unfolding terminate
  terminate_each [] r = (ok tt, r)
  terminate_each (s ∷ rest) r = and_then (terminate s.worker r) (λ r'. terminate_each rest r')

  -- `expire`
  unfoldable pub expire : ℤ → Registry → Outcome ℕ
  unfolding pop_each expired_keys terminate_each
  expire now r =
      let (popped, left) = pop_each (expired_keys now r.sessions) r.sessions in
      then_return (length popped) (terminate_each popped (record r { sessions = left }))

  -- The rest of `_supervise` for the session that it found, once the supervision of its worker ended;
  -- what `terminate` raises there ends the thread after the `finally`.
  unfoldable pub supervise_end : Bytes → ActiveSession → Supervision → Registry → Registry
  unfolding terminate
  supervise_end id s exited r = record r { sessions = pop id r.sessions }
  supervise_end id s supervision_failed r =
      let after = (terminate s.worker r).1 in record after { sessions = pop id after.sessions }
