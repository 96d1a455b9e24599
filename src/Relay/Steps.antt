-- ===== src/Relay/Steps.antt =====
-- The steps of a handler: a change of the state in memory, and a call of the durable store.
use shelly.Prelude.{ℕ, leb, guard, none, some, Text, Result, ok}
use shelly.Prelude.Io.{Io}
use shelly.Relay.State.{Limiter, Env, RelayState, RelayInner, RelayMetrics, RelayStore, ApiError}

abbrev pub Relay : (Key S C A : Type 0) → Type 0
Relay Key S C A = Io (RelayState Key S C) ApiError A

module _ {Key S C : Type 0} where
  abbrev pub with_inner :
      (RelayInner Key → RelayInner Key) → RelayState Key S C → RelayState Key S C
  with_inner f s = record s { inner = f s.inner }

  abbrev pub count : (RelayMetrics → RelayMetrics) → RelayState Key S C → RelayState Key S C
  count f s = record s { metrics = f s.metrics }

  -- The store's answer, and the state with the store behind the call.
  abbrev pub after_store :
      {A : Type 0} → RelayState Key S C → Result Text A × S → Result Text A × RelayState Key S C
  after_store s (r, db) = (r, record s { db = db })

module _ {Key Sig S C : Type 0} (env : Env Key Sig S C) where
  -- A call of the store; `default` is the answer where there is no store.
  unfoldable pub stored :
      {A : Type 0} → A → (RelayStore Key S → Io S Text A) → Io (RelayState Key S C) Text A
  stored default call s = elim env.store [
    | none ↦ (ok default, s)
    | some store ↦ after_store s (call store s.db)
  ]

  -- A call of the store whose failure is logged and no more.
  unfoldable pub logged :
      (RelayStore Key S → Io S Text (Unit {0})) → RelayState Key S C → RelayState Key S C
  unfolding stored
  logged call s = (stored tt call s).1

  -- A request is counted, and refused over the limit.
  unfoldable pub limit : Limiter → Text → ℕ → ℕ → ApiError → Relay Key S C (Unit {0})
  limit limiter client minute most refusal s =
      let (counted, limits) = env.increment limiter client minute s.limits in
      (guard (leb counted most) refusal, record s { limits = limits })
