-- ===== src/Registry/Created.antt =====
-- The names of the sessions through their creation, and through all that happens to a registry.
use shelly.Prelude.{
  ℕ, suc, ◌≡◌, ◌≢◌, ◌⊎◌, refl, sym, ap, ◌∙◌, subst, Bool, true, false, Option, none, some, List, [],
  ◌∷◌, Text, arith, length, Bool-cases, Option-cases, inl, inr, Result, ok, err, text_eq, text_beq,
  text_beq_iff,
}
use shelly.Prelude.Dict.{
  lookup, insert, remove, contains_key, lookup-insert, insert-IsUnique, remove-IsUnique,
}
use shelly.Session.{ClientSize}
use shelly.Registry.{
  LiveSession, Registry, evict_naturally_exited_session, publish_session_list, kill_session_for,
}
use shelly.Registry.Names.{
  CreateError, first_free, auto_name, chosen_name, chosen, reserve_new_session_name,
  auto_candidates, suffixed, base_name, validate_requested_session_name, is_valid_size,
  spawned_under, create_under, create_session_for,
}
use shelly.Registry.Named.{Live, Kept, Names, Holds, live, kept, IsNamed, lookup-removed}
use shelly.Registry.Ended.{AreNamed, kill_session_for-IsNamed, evict-IsNamed}

first_free-free :
    (candidates : List Text) (names : Names) {name : Text}
    → first_free candidates names ≡ some name
    → contains_key name names ≡ false
unfolding first_free
first_free-free [] names h = absurd (cc h)
first_free-free (c ∷ candidates) names h = elim (Bool-cases (contains_key c names)) [
  | inl e ↦ first_free-free candidates names (simp e at h)
  | inr e ↦
      let same : c ≡ _ = cc (simp e at h) in subst (λ name. contains_key name names ≡ false) same e
]

auto_name-free :
    (start : ℕ) (names : Names) {name : Text}
    → auto_name start names ≡ some name
    → contains_key name names ≡ false
unfolding auto_name
auto_name-free start names h = elim (Option-cases (first_free (auto_candidates start 18) names)) [
  | inl e ↦
      first_free-free (suffixed (base_name start) 2 (suc (length names))) names
        (simp (e, auto_name) at h)
  | inr (found, e) ↦
      let same : found ≡ _ = cc (simp (e, auto_name) at h) in
      subst (λ name. contains_key name names ≡ false) same
        (first_free-free (auto_candidates start 18) names e)
]

-- A name that is chosen was not taken.
pub chosen-free :
    (start : ℕ) (requested : Result CreateError (Option Text)) (names : Names) {name : Text}
    → chosen start requested names ≡ some (ok name)
    → contains_key name names ≡ false
unfolding chosen_name
chosen-free start (err e) names h = absurd (cc h)
chosen-free start (ok (some asked)) names h = elim (Bool-cases (contains_key asked names)) [
  | inl e ↦ absurd (cc (simp (e, chosen_name) at h))
  | inr e ↦
      let same : asked ≡ _ = cc (simp (e, chosen_name) at h) in
      subst (λ name. contains_key name names ≡ false) same e
]
chosen-free start (ok none) names h = elim (Option-cases (auto_name start names)) [
  | inl e ↦ absurd (cc (simp (e, chosen_name) at h))
  | inr (found, e) ↦
      let same : found ≡ _ = cc (simp (e, chosen_name) at h) in
      subst (λ name. contains_key name names ≡ false) same (auto_name-free start names e)
]

-- A new session under a free name.
module _ {live_s : Live} {kept_s : Kept} {names_s : Names} (n : IsNamed live_s kept_s names_s)
    (id : Text) (session : LiveSession)
    (fresh : contains_key session.stored.summary.name names_s ≡ false) where
  abbrev IsNew : Text → Text → Type 0
  IsNew i name =
      ((id ≡ i) × (name ≡ session.stored.summary.name)) ⊎ ((id ≢ i) × Holds live_s kept_s i name)

  created-Holds :
      (i name : Text) → Holds (insert id session live_s) (remove id kept_s) i name → IsNew i name
  created-Holds i _ (kept other h) =
      let (different, before) = lookup-removed id i kept_s n.restored_unique h in
      inr (different, kept other before)
  created-Holds i _ (live other h) = elim (Bool-cases (text_beq id i)) [
    | inl equal ↦
        let here : some session ≡ some other =
          sym (rw equal at (lookup-insert id i session live_s)) ∙ h in
        let same : session ≡ other = cc here in
        inl ((text_beq_iff id i).0 equal, ap (λ s. s.stored.summary.name) (sym same))
    | inr different ↦ inr (
      (λ e. absurd (cc (sym different ∙ (text_beq_iff id i).1 e))),
      live other (sym (rw different at (lookup-insert id i session live_s)) ∙ h),
    )
  ]

  new_name-other : (i name : Text) → Holds live_s kept_s i name → name ≢ session.stored.summary.name
  new_name-other i name h e =
      absurd (cc (sym fresh ∙ subst (λ m. contains_key m names_s ≡ true) e (n.taken i name h)))

  single-created : (i j name : Text) → IsNew i name → IsNew j name → i ≡ j
  single-created i j name (inl (a, p)) (inl (b, q)) = sym a ∙ b
  single-created i j name (inl (a, p)) (inr (b, h)) = absurd (new_name-other j name h p)
  single-created i j name (inr (b, h)) (inl (a, p)) = absurd (new_name-other i name h p)
  single-created i j name (inr (a, h)) (inr (b, k)) = n.single i j name h k

  same-created : (i m o : Text) → IsNew i m → IsNew i o → m ≡ o
  same-created i m o (inl (a, p)) (inl (b, q)) = p ∙ sym q
  same-created i m o (inl (a, p)) (inr (b, h)) = absurd (b a)
  same-created i m o (inr (b, h)) (inl (a, p)) = absurd (b a)
  same-created i m o (inr (a, h)) (inr (b, k)) = n.same i m o h k

  taken-created :
      (i name : Text)
      → IsNew i name
      → contains_key name (insert session.stored.summary.name tt names_s) ≡ true
  taken-created i name (inl (a, p)) = ground (
    arith,
    p,
    lookup-insert session.stored.summary.name name tt names_s,
    text_beq_iff session.stored.summary.name name,
  )
  taken-created i name (inr (a, h)) =
      let there = n.taken i name h in
      ground (arith, lookup-insert session.stored.summary.name name tt names_s)

  created-IsNamed :
      session.stored.summary.id ≡ id
      → IsNamed
          (insert id session live_s)
          (remove id kept_s)
          (insert session.stored.summary.name tt names_s)
  created-IsNamed own = record {
    taken = λ i name h. taken-created i name (created-Holds i name h);
    single =
        λ i j name h k. single-created i j name (created-Holds i name h) (created-Holds j name k);
    same = λ i m o h k. same-created i m o (created-Holds i m h) (created-Holds i o k);
    own = λ i other h.
        ground (arith, lookup-insert id i session live_s, text_beq_iff id i, n.own i other, own);
    sessions_unique = insert-IsUnique id session live_s n.sessions_unique;
    restored_unique = remove-IsUnique id kept_s n.restored_unique;
    names_unique = insert-IsUnique session.stored.summary.name tt names_s n.names_unique;
  }

-- A session that is started has the name that it was started under, and is stored under its id.
abbrev pub IsSpawned : Text → Option (Text × LiveSession) → Type 0
IsSpawned name none = Unit {0}
IsSpawned name (some (id, session)) =
    (session.stored.summary.name ≡ name) × (session.stored.summary.id ≡ id)

spawned-AreNamed :
    (name : Text) (spawned : Option (Text × LiveSession)) (st : Registry)
    → AreNamed st
    → contains_key name st.session_names ≡ false
    → IsSpawned name spawned
    → AreNamed (spawned_under name spawned st).1
unfolding publish_session_list
spawned-AreNamed name none st n fresh h = n
spawned-AreNamed name (some (id, session)) st n fresh (named, own) =
    subst
      (λ m.
        IsNamed (insert id session st.sessions) (remove id st.restored)
          (insert m tt st.session_names))
      named
      (created-IsNamed n id session
        (subst (λ m. contains_key m st.session_names ≡ false) (sym named) fresh) own)

-- Where there is an answer.
abbrev Answers : Option (Result CreateError Text × Registry) → Type 0
Answers none = Unit {0}
Answers (some r) = AreNamed r.1

create_under-AreNamed :
    (choice : Option (Result CreateError Text)) (spawn : Text → Option (Text × LiveSession))
    (st : Registry)
    → AreNamed st
    → ((name : Text) → choice ≡ some (ok name) → contains_key name st.session_names ≡ false)
    → ((name : Text) → IsSpawned name (spawn name))
    → Answers (create_under choice spawn st)
create_under-AreNamed none spawn st n free named = tt
create_under-AreNamed (some (err e)) spawn st n free named = n
create_under-AreNamed (some (ok name)) spawn st n free named =
    spawned-AreNamed name (spawn name) st n (free name refl) (named name)

create_session_for-AreNamed :
    (start : ℕ) (requested : Text) (size : ClientSize) (spawn : Text → Option (Text × LiveSession))
    (st : Registry)
    → AreNamed st
    → ((name : Text) → IsSpawned name (spawn name))
    → Answers (create_session_for start requested size spawn st)
unfolding create_session_for reserve_new_session_name
create_session_for-AreNamed start requested size spawn st n named =
    elim (Bool-cases (is_valid_size size)) [
      | inr invalid ↦ simp (invalid, create_session_for) n
      | inl valid ↦
          simp (valid, create_session_for)
            (create_under-AreNamed (reserve_new_session_name start requested st.session_names) spawn
              st n
              (λ name e.
                chosen-free start (validate_requested_session_name requested) st.session_names e)
              named)
    ]

-- What happens to the registry of a daemon that has started without stored sessions.
pub data History : Registry → Type 0 where
  starts :
      (st : Registry) → st.sessions ≡ [] → st.restored ≡ [] → st.session_names ≡ [] → History st
  creates :
      {st t : Registry} (start : ℕ) (requested : Text) (size : ClientSize)
      (spawn : Text → Option (Text × LiveSession)) (answer : Result CreateError Text)
      → ((name : Text) → IsSpawned name (spawn name))
      → History st
      → create_session_for start requested size spawn st ≡ some (answer, t)
      → History t
  exits :
      {st : Registry} (commits : Text → Bool) (id : Text)
      → History st
      → History (evict_naturally_exited_session commits id st)
  kills :
      {st : Registry} (dies commits : Bool) (id : Text)
      → History st
      → History (kill_session_for dies commits id st).1

-- Through all creations, ends and kills of sessions, and whatever the store and the processes answer,
-- the name of every session, live or restored, is reserved, no two sessions have the same name, and a
-- session that is both live and restored has one. Every session that is started has the name and the
-- id that it was started under; the daemon has started without stored sessions.
pub History-IsNamed :
    {st : Registry} → History st → IsNamed st.sessions st.restored st.session_names
unfolding lookup
History-IsNamed (starts st e f g) =
    rw (e, f, g)
      (record {
        taken = λ id name h. absurd (nobody h);
        single = λ i j name h k. absurd (nobody h);
        same = λ id m n h k. absurd (nobody h);
        own = λ id session h. absurd (cc h);
        sessions_unique = tt;
        restored_unique = tt;
        names_unique = tt;
      })
  where
    nobody : {id name : Text} → Holds [] [] id name → ⊥
    nobody (live session h) = absurd (cc h)
    nobody (kept session h) = absurd (cc h)
History-IsNamed (creates {st} {t} start requested size spawn answer named history e) =
    subst Answers e
      (create_session_for-AreNamed start requested size spawn st (History-IsNamed history) named)
History-IsNamed (exits {st} commits id history) =
    evict-IsNamed commits id st (History-IsNamed history)
History-IsNamed (kills {st} dies commits id history) =
    kill_session_for-IsNamed dies commits id st (History-IsNamed history)
