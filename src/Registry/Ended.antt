-- ===== src/Registry/Ended.antt =====
-- The names of the sessions through the cap of the restored sessions, the end of a session and its kill.
use shelly.Prelude.{
  ℕ, zero, suc, ◌≡◌, ◌≢◌, refl, sym, ap, ◌∙◌, subst, Bool, false, not, ◌&&◌, Option, none, some,
  Text, arith, ltb, length, Bool-cases, Option-cases, inl, inr, Result, ok, err, text_eq, text_beq,
  text_beq_iff,
}
use shelly.Prelude.Dict.{
  Dict, IsUnique, lookup, insert, remove, contains_key, lookup-insert, lookup-remove,
  insert-IsUnique, remove-IsUnique, beq_refl,
}
use shelly.Persistence.{StoredSession, StoreError, max_stored_sessions}
use shelly.Registry.{
  LiveSession, Registry, oldest, free_name, drop_restored, cap_restored, insert_restored_session,
  restore_session, evict_naturally_exited_session, publish_session_list, name_of, free,
  forget_session, kill_session_for, removed_result,
}
use shelly.Registry.Named.{
  Live, Kept, Names, Holds, live, kept, IsNamed, lookup-removed, shrinks-IsNamed, freed-taken,
  less-IsNamed, less_freed-IsNamed,
}

-- What is kept of a registry: its names, and its live sessions.
abbrev pub IsKept : Registry → Registry → Type 0
IsKept s t = IsNamed t.sessions t.restored t.session_names × (t.sessions ≡ s.sessions)

free_name-IsKept :
    (id : Text) (o : Option StoredSession) (st : Registry)
    → IsNamed st.sessions st.restored st.session_names
    → lookup id st.restored ≡ o
    → IsKept st (free_name id o (record st { restored = remove id st.restored }))
unfolding free_name
free_name-IsKept id none st n e = (less-IsNamed n id, refl)
free_name-IsKept id (some session) st n e = elim (Bool-cases (contains_key id st.sessions)) [
  | inl alive ↦ simp (alive, free_name) (less-IsNamed n id, refl)
  | inr gone ↦ simp (gone, free_name) (less_freed-IsNamed n id session e gone, refl)
]

cap_restored-IsKept :
    (commits : Text → Bool) (fuel : ℕ) (st : Registry)
    → IsNamed st.sessions st.restored st.session_names
    → IsKept st (cap_restored commits fuel st)
unfolding cap_restored drop_restored
cap_restored-IsKept commits zero st n = (n, refl)
cap_restored-IsKept commits (suc fuel) st n =
    elim (Bool-cases (ltb max_stored_sessions (length st.restored))) [
      | inr room ↦ simp (room, cap_restored) (n, refl)
      | inl over ↦ elim (Option-cases (oldest st.restored)) [
        | inl e ↦ simp (over, e, cap_restored) (n, refl)
        | inr (id, e) ↦
            let freed = free_name-IsKept id (lookup id st.restored) st n refl in
            let rest = cap_restored-IsKept commits fuel (drop_restored commits id st) freed.0 in
            simp (over, e, cap_restored) (rest.0, rest.1 ∙ freed.1)
      ]
    ]

-- One live session less.
module _ {live_s : Live} {kept_s : Kept} {names_s : Names} (n : IsNamed live_s kept_s names_s)
    (id : Text) where
  gone-Holds : (i name : Text) → Holds (remove id live_s) kept_s i name → Holds live_s kept_s i name
  gone-Holds i _ (live session h) = live session (lookup-removed id i live_s n.sessions_unique h).1
  gone-Holds i _ (kept session h) = kept session h

  gone-lives :
      (i : Text) (session : LiveSession)
      → lookup i (remove id live_s) ≡ some session
      → lookup i live_s ≡ some session
  gone-lives i session h = (lookup-removed id i live_s n.sessions_unique h).1

  gone-IsNamed : IsNamed (remove id live_s) kept_s names_s
  gone-IsNamed =
      shrinks-IsNamed n (remove id live_s) kept_s names_s gone-Holds
        (λ i name h. n.taken i name (gone-Holds i name h)) gone-lives
        (remove-IsUnique id live_s n.sessions_unique) n.restored_unique n.names_unique

  gone-others :
      contains_key id kept_s ≡ false
      → (i name : Text) → Holds (remove id live_s) kept_s i name
      → id ≢ i
  gone-others absent i _ (live other h) = (lookup-removed id i live_s n.sessions_unique h).0
  gone-others absent i _ (kept other h) = λ e. absurd (cc (rw (e, h) at absent))

  -- Where it is nowhere any more, its name is freed.
  gone_freed-IsNamed :
      (session : LiveSession)
      → lookup id live_s ≡ some session
      → contains_key id kept_s ≡ false
      → IsNamed (remove id live_s) kept_s (remove session.stored.summary.name names_s)
  gone_freed-IsNamed session found absent =
      shrinks-IsNamed n (remove id live_s) kept_s (remove session.stored.summary.name names_s)
        gone-Holds
        (freed-taken n (remove id live_s) kept_s id session.stored.summary.name (live session found)
          gone-Holds (gone-others absent))
        gone-lives (remove-IsUnique id live_s n.sessions_unique) n.restored_unique
        (remove-IsUnique session.stored.summary.name names_s n.names_unique)

-- A live session is stored beside itself.
module _ (st : Registry) (n : IsNamed st.sessions st.restored st.session_names) (id : Text)
    (session : LiveSession) (found : lookup id st.sessions ≡ some session) where
  added-Holds :
      (i name : Text)
      → Holds st.sessions (insert id session.stored st.restored) i name
      → Holds st.sessions st.restored i name
  added-Holds i _ (live other h) = live other h
  added-Holds i _ (kept other h) = elim (Bool-cases (text_beq id i)) [
    | inr different ↦
        kept other (sym (rw different at (lookup-insert id i session.stored st.restored)) ∙ h)
    | inl equal ↦
        let here : some session.stored ≡ some other =
          sym (rw equal at (lookup-insert id i session.stored st.restored)) ∙ h in
        let stored : session.stored ≡ other = cc here in
        subst (λ name. Holds st.sessions st.restored i name) (ap (λ s. s.summary.name) stored)
          (live session
            (subst (λ j. lookup j st.sessions ≡ some session) ((text_beq_iff id i).0 equal) found))
  ]

  added-IsNamed :
      IsNamed st.sessions
        (insert id session.stored st.restored)
        (insert session.stored.summary.name tt st.session_names)
  added-IsNamed =
      shrinks-IsNamed n st.sessions (insert id session.stored st.restored)
        (insert session.stored.summary.name tt st.session_names) added-Holds
        (λ i name h.
          let there = n.taken i name (added-Holds i name h) in
          ground (
            arith,
            lookup-insert session.stored.summary.name name tt st.session_names,
            text_beq_iff session.stored.summary.name name,
          ))
        (λ i other h. h) n.sessions_unique
        (insert-IsUnique id session.stored st.restored n.restored_unique)
        (insert-IsUnique session.stored.summary.name tt st.session_names n.names_unique)

  insert_restored_session-IsKept :
      (commits : Text → Bool) → IsKept st (insert_restored_session commits session.stored st)
  unfolding insert_restored_session
  insert_restored_session-IsKept commits =
      cap_restored-IsKept commits
        (length (insert session.stored.summary.id session.stored st.restored))
        (record st {
          session_names = insert session.stored.summary.name tt st.session_names;
          restored = insert session.stored.summary.id session.stored st.restored;
        })
        (subst
          (λ j.
            IsNamed st.sessions (insert j session.stored st.restored)
              (insert session.stored.summary.name tt st.session_names))
          (sym (n.own id session found)) added-IsNamed)

  restore_session-IsNamed :
      (commits : Text → Bool) (t : Registry)
      → restore_session commits id session.stored st ≡ t
      → IsNamed t.sessions t.restored t.session_names
  unfolding restore_session
  restore_session-IsNamed commits t e =
      let all = insert_restored_session-IsKept commits in
      let added : Registry = insert_restored_session commits session.stored st in
      let there : lookup id added.sessions ≡ some session = rw all.1 found in
      elim (Bool-cases (contains_key id added.restored)) [
        | inl stays ↦ rw (sym e) (simp (stays, restore_session) (gone-IsNamed all.0 id))
        | inr absent ↦
            rw (sym e)
              (simp (absent, restore_session) (gone_freed-IsNamed all.0 id session there absent))
      ]

removed-absent :
    {V : Type 0} (id : Text) (m : Dict Text V) → IsUnique m → contains_key id (remove id m) ≡ false
removed-absent id m u = ground (arith, lookup-remove id id m u, beq_refl id)

forgotten-IsNamed :
    {live_s : Live} {kept_s : Kept} {names_s : Names} (n : IsNamed live_s kept_s names_s)
    (id : Text) (a : Option LiveSession) (b : Option StoredSession)
    → lookup id live_s ≡ a
    → lookup id kept_s ≡ b
    → IsNamed (remove id live_s) (remove id kept_s) (free (name_of a b) names_s)
forgotten-IsNamed {kept_s} n id (some session) b e f =
    gone_freed-IsNamed (less-IsNamed n id) id session e (removed-absent id kept_s n.restored_unique)
forgotten-IsNamed n id none none e f = gone-IsNamed (less-IsNamed n id) id
forgotten-IsNamed n id none (some session) e f =
    gone-IsNamed (less_freed-IsNamed n id session f (rw e refl)) id

abbrev pub AreNamed : Registry → Type 0
AreNamed st = IsNamed st.sessions st.restored st.session_names

pub kill_session_for-IsNamed :
    (kills commits : Bool) (id : Text) (st : Registry)
    → AreNamed st
    → AreNamed (kill_session_for kills commits id st).1
unfolding kill_session_for forget_session publish_session_list
kill_session_for-IsNamed kills commits id st n =
    elim (Bool-cases (contains_key id st.sessions && not kills)) [
      | inl alive ↦ simp (alive, kill_session_for) n
      | inr killed ↦
          simp (killed, kill_session_for)
            (removed (forget_session commits id st)
              (forgotten-IsNamed n id (lookup id st.sessions) (lookup id st.restored) refl refl))
    ]
  where
    removed :
        (r : Result StoreError (Unit {0}) × Registry) → AreNamed r.1 → AreNamed (removed_result r).1
    removed (ok u, t) h = h
    removed (err e, t) h = h

pub evict-IsNamed :
    (commits : Text → Bool) (id : Text) (st : Registry)
    → AreNamed st
    → AreNamed (evict_naturally_exited_session commits id st)
unfolding evict_naturally_exited_session publish_session_list
evict-IsNamed commits id st n = elim (Option-cases (lookup id st.sessions)) [
  | inl e ↦ simp (e, evict_naturally_exited_session) n
  | inr (session, e) ↦ elim (Bool-cases session.was_killed) [
    | inl killed ↦ simp (e, killed, evict_naturally_exited_session) n
    | inr ended ↦
        simp (e, ended, evict_naturally_exited_session)
          (restore_session-IsNamed st n id session e commits _ refl)
  ]
]
