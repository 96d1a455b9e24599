-- ===== src/Relay/Keys.antt =====
-- The registered keys: which registration replaces which key, and what a failed one leaves.
use shelly.Prelude.{
  ℕ, ◌≤◌, ◌≡◌, ◌≢◌, refl, sym, ap, ◌∙◌, ◌⊎◌, inl, inr, true, false, Option, none, some, Text, Eq,
  text_eq, nat_eq, ok, arith, length, if◌then◌else◌, Bool-cases, Option-cases,
}
use shelly.Prelude.Dict.{
  Dict, lookup, insert, IsUnique, lookup-insert, lookup-insert_self, lookup-remove, length-insert,
  insert-IsUnique, beq_refl,
}
use shelly.Relay.State.{Env, RelayState, RelayInner, DaemonRegistration, max_daemons}
use shelly.Relay.Checks.{daemon_capacity_exceeded, registration_key_changed}
use shelly.Relay.Signatures.{public_key_of}
use shelly.Relay.Verifying.{verify_signed_request}
use shelly.Relay.Daemons.{
  Http, RegisterDaemonRequest, signed, pair_path, authorize_key, register_commit, same_registration,
  rollback_daemon_registration,
}

module _ {Key Sig S C : Type 0} ⦃key_eq : Eq Key⦄ (env : Env Key Sig S C) where
  -- A known daemon gets another key only by a request that the check of signatures accepts.
  authorize_key-eq-ok :
      (http : Http RegisterDaemonRequest) (request : RegisterDaemonRequest) (existing key : Key)
      (s s' : RelayState Key S C)
      → authorize_key env http request (some existing) key s ≡ (ok tt, s')
      → (existing ≡ key)
        ⊎ ((nonce : Text) × (ts_ms : ℕ) × (verify_signed_request env
                (http.clock 2)
                (signed http pair_path request.daemon_node_id nonce ts_ms)
                s
              ≡ (ok tt, s')))
  unfolding authorize_key
  authorize_key-eq-ok http request existing key s s' h =
      elim (Bool-cases (key_eq.beq existing key)) [
        | inl same ↦ inl ((key_eq.beq_iff existing key).0 same)
        | inr other ↦ elim (Option-cases request.nonce) [
          | inl missing ↦ absurd (cc (ap (λ r. r.0) (rw (other, missing) at h)))
          | inr (nonce, given) ↦ elim (Option-cases request.ts_ms) [
            | inl missing ↦ absurd (cc (ap (λ r. r.0) (rw (other, given, missing) at h)))
            | inr (ts_ms, timed) ↦ inr (nonce, ts_ms, rw (other, given, timed) at h)
          ]
        ]
      ]

  -- The change in memory, where it is made.
  pub record Committed (id : Text) (registration : DaemonRegistration Key)
      (existing : Option (DaemonRegistration Key)) (s s' : RelayState Key S C) : Type 0 where
    pub replaces :
        (public_key_of id s.inner ≡ none)
        ⊎ (public_key_of id s.inner ≡ some registration.public_key)
        ⊎ ((r : DaemonRegistration Key) × (existing ≡ some r)
            × (public_key_of id s.inner ≡ some r.public_key))
    pub daemons : s'.inner.daemons ≡ insert id registration s.inner.daemons
    pub others :
        (j : Text)
        → lookup j s'.inner.daemons
          ≡ (if text_eq.beq id j then some registration else lookup j s.inner.daemons)
    pub within : length s.inner.daemons ≤ max_daemons → length s'.inner.daemons ≤ max_daemons

  abbrev key_of : Option (DaemonRegistration Key) → Option Key
  key_of existing = elim existing [ none ↦ none | some r ↦ some r.public_key ]

  unchanged :
      (existing : Option (DaemonRegistration Key)) (current : Option Key) (requested : Key)
      → registration_key_changed (key_of existing) current requested ≡ false
      → (current ≡ none)
        ⊎ (current ≡ some requested)
        ⊎ ((r : DaemonRegistration Key) × (existing ≡ some r) × (current ≡ some r.public_key))
  unfolding registration_key_changed
  unchanged none none requested h = inl refl
  unchanged none (some current) requested h =
      inr (inl (ap some ((key_eq.beq_iff current requested).0 (ground (arith, h)))))
  unchanged (some r) none requested h = absurd (cc h)
  unchanged (some r) (some current) requested h =
      inr (inr (r, refl, ap some ((key_eq.beq_iff current r.public_key).0 (ground (arith, h)))))

  room_left :
      (id : Text) (registration : DaemonRegistration Key) (inner : RelayInner Key)
      → daemon_capacity_exceeded inner id max_daemons ≡ false
      → length inner.daemons ≤ max_daemons
      → length (insert id registration inner.daemons) ≤ max_daemons
  unfolding daemon_capacity_exceeded
  room_left id registration inner room le =
      ground (arith, room, le, length-insert id registration inner.daemons)

  committed :
      (id : Text) (registration : DaemonRegistration Key)
      (existing : Option (DaemonRegistration Key)) (s s' : RelayState Key S C)
      → daemon_capacity_exceeded s.inner id max_daemons ≡ false
      → registration_key_changed
          (key_of existing)
          (public_key_of id s.inner)
          registration.public_key
        ≡ false
      → s'.inner ≡ record s.inner { daemons = insert id registration s.inner.daemons }
      → Committed id registration existing s s'
  committed id registration existing s s' room same e =
      let daemons : s'.inner.daemons ≡ insert id registration s.inner.daemons =
        ap (λ inner. inner.daemons) e in
      record {
        replaces = unchanged existing (public_key_of id s.inner) registration.public_key same;
        daemons = daemons;
        others = λ j. ap (lookup j) daemons ∙ lookup-insert id j registration s.inner.daemons;
        within = λ le. rw daemons (room_left id registration s.inner room le);
      }

  -- Whatever other requests did since the registration was observed: the change in memory replaces no
  -- key but the observed one or its own, it changes no other daemon, and it keeps the number of daemons
  -- within the limit.
  pub register_commit-eq-ok :
      (id : Text) (registration : DaemonRegistration Key)
      (existing : Option (DaemonRegistration Key)) (s s' : RelayState Key S C)
      → register_commit env id registration existing s ≡ (ok tt, s')
      → Committed id registration existing s s'
  unfolding register_commit
  register_commit-eq-ok id registration existing s s' h =
      elim (Bool-cases (daemon_capacity_exceeded s.inner id max_daemons)) [
        | inl full ↦ absurd (cc (ap (λ r. r.0) (rw full at h)))
        | inr room ↦
            elim (Bool-cases (
              registration_key_changed (key_of existing) (public_key_of id s.inner)
                registration.public_key)) [
                  | inl changed ↦ absurd (cc (ap (λ r. r.0) (rw (room, changed) at h)))
                  | inr same ↦
                      committed id registration existing s s' room same
                        (sym (ap (λ r. r.1.inner) (rw (room, same) at h)))
                ]
      ]

  registration_refl : (r : DaemonRegistration Key) → same_registration env (some r) r ≡ true
  unfolding same_registration
  registration_refl r = ground (arith, beq_refl r.public_key, beq_refl r.updated_at_ms)

  registration_eq : (r q : DaemonRegistration Key) → same_registration env (some r) q ≡ true → r ≡ q
  unfolding same_registration
  registration_eq r q h =
      let keys : r.public_key ≡ q.public_key =
        (key_eq.beq_iff r.public_key q.public_key).0 (ground (arith, h)) in
      let times : r.updated_at_ms ≡ q.updated_at_ms = ground (arith, h) in cc (keys, times)

  rolled_back :
      (id : Text) (registration : DaemonRegistration Key)
      (daemons : Dict Text (DaemonRegistration Key)) (inner : RelayInner Key) (j : Text)
      → IsUnique daemons
      → inner.daemons ≡ insert id registration daemons
      → lookup j
          (rollback_daemon_registration env id (lookup id daemons) registration inner).daemons
        ≡ lookup j daemons
  unfolding rollback_daemon_registration
  rolled_back id registration daemons inner j u e =
      let mine : same_registration env (lookup id inner.daemons) registration ≡ true =
        rw (e, lookup-insert_self id registration daemons) (registration_refl registration) in
      elim (Option-cases (lookup id daemons)) [
        | inl absent ↦
            rw (mine, absent, e)
              (lookup-remove id j (insert id registration daemons)
                  (insert-IsUnique id registration daemons u)
                ∙ ground
                    (arith, absent, lookup-insert id j registration daemons, text_eq.beq_iff id j))
        | inr (r, present) ↦
            rw (mine, present, e)
              (lookup-insert id j r (insert id registration daemons)
                ∙ ground
                    (arith, present, lookup-insert id j registration daemons, text_eq.beq_iff id j))
      ]

  -- Where the durable store fails right after the change in memory, every registration is as
  -- before. The map of the daemons had one entry for a key.
  rollback-register_commit :
      (id : Text) (registration : DaemonRegistration Key) (s s' : RelayState Key S C) (j : Text)
      → IsUnique s.inner.daemons
      → register_commit env id registration (lookup id s.inner.daemons) s ≡ (ok tt, s')
      → lookup j
          (rollback_daemon_registration env id
            (lookup id s.inner.daemons)
            registration
            s'.inner).daemons
        ≡ lookup j s.inner.daemons
  rollback-register_commit id registration s s' j u h =
      let c = register_commit-eq-ok id registration (lookup id s.inner.daemons) s s' h in
      rolled_back id registration s.inner.daemons s'.inner j u c.daemons

  -- A registration that another request made in the meantime is left alone.
  rollback_daemon_registration_other :
      (id : Text) (previous : Option (DaemonRegistration Key))
      (attempted current : DaemonRegistration Key) (inner : RelayInner Key)
      → lookup id inner.daemons ≡ some current
      → current ≢ attempted
      → rollback_daemon_registration env id previous attempted inner ≡ inner
  unfolding rollback_daemon_registration same_registration
  rollback_daemon_registration_other id previous attempted current inner known other =
      elim (Bool-cases (same_registration env (some current) attempted)) [
        | inl same ↦ absurd (other (registration_eq current attempted same))
        | inr differs ↦ rw (known, differs) refl
      ]
