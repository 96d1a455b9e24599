-- ===== src/Registry/Named.antt =====
-- The names of the sessions through their creation, their end and their kill.
use shelly.Prelude.{◌≡◌, ◌≢◌, subst, true, false, some, Text, arith, text_eq, text_beq_iff}
use shelly.Prelude.Dict.{
  Dict, IsUnique, lookup, remove, contains_key, lookup-remove, remove-IsUnique,
}
use shelly.Persistence.{StoredSession}
use shelly.Registry.{LiveSession}

abbrev pub Live : Type 0
Live = Dict Text LiveSession

abbrev pub Kept : Type 0
Kept = Dict Text StoredSession

abbrev pub Names : Type 0
Names = Dict Text (Unit {0})

-- The session with the id has the name, live or restored.
pub data Holds (sessions : Live) (restored : Kept) (id : Text) : Text → Type 0 where
  live :
      (session : LiveSession)
      → lookup id sessions ≡ some session
      → Holds sessions restored id session.stored.summary.name
  kept :
      (session : StoredSession)
      → lookup id restored ≡ some session
      → Holds sessions restored id session.summary.name

-- A session's name is reserved, and is no other session's; one session has one name; a live session is
-- stored under its id; the maps have one entry for a key.
pub record IsNamed (sessions : Live) (restored : Kept) (names : Names) : Type 0 where
  pub taken : (id name : Text) → Holds sessions restored id name → contains_key name names ≡ true
  pub single :
      (i j name : Text) → Holds sessions restored i name → Holds sessions restored j name → i ≡ j
  pub same : (id m n : Text) → Holds sessions restored id m → Holds sessions restored id n → m ≡ n
  pub own :
      (id : Text) (session : LiveSession)
      → lookup id sessions ≡ some session
      → session.stored.summary.id ≡ id
  pub sessions_unique : IsUnique sessions
  pub restored_unique : IsUnique restored
  pub names_unique : IsUnique names

-- The name of a session that is there.
pub some_name :
    {name : Text} (names : Dict Text (Unit {0})) (gone : Text)
    → IsUnique names
    → contains_key name names ≡ true
    → gone ≢ name
    → contains_key name (remove gone names) ≡ true
some_name {name} names gone u there other =
    ground (arith, lookup-remove gone name names u, text_beq_iff gone name)

pub lookup-removed :
    {V : Type 0} (i j : Text) (m : Dict Text V) {v : V}
    → IsUnique m
    → lookup j (remove i m) ≡ some v
    → (i ≢ j) × (lookup j m ≡ some v)
lookup-removed i j m u h = ground (arith, lookup-remove i j m u, text_beq_iff i j)

module _ {live_s : Live} {kept_s : Kept} {names_s : Names} (n : IsNamed live_s kept_s names_s) where
  -- Fewer sessions, whose names are still reserved.
  pub shrinks-IsNamed :
      (live_t : Live) (kept_t : Kept) (names_t : Names)
      → ((id name : Text) → Holds live_t kept_t id name → Holds live_s kept_s id name)
      → ((id name : Text) → Holds live_t kept_t id name → contains_key name names_t ≡ true)
      → ((id : Text) (session : LiveSession)
          → lookup id live_t ≡ some session
          → lookup id live_s ≡ some session)
      → IsUnique live_t
      → IsUnique kept_t
      → IsUnique names_t
      → IsNamed live_t kept_t names_t
  shrinks-IsNamed live_t kept_t names_t fewer taken lives us ur un = record {
    taken = taken;
    single = λ i j name h k. n.single i j name (fewer i name h) (fewer j name k);
    same = λ id m o h k. n.same id m o (fewer id m h) (fewer id o k);
    own = λ id session h. n.own id session (lives id session h);
    sessions_unique = us;
    restored_unique = ur;
    names_unique = un;
  }

  -- The name of a session that is gone can be freed.
  pub freed-taken :
      (live_t : Live) (kept_t : Kept) (id gone : Text)
      → Holds live_s kept_s id gone
      → ((i name : Text) → Holds live_t kept_t i name → Holds live_s kept_s i name)
      → ((i name : Text) → Holds live_t kept_t i name → id ≢ i)
      → (i name : Text) → Holds live_t kept_t i name
      → contains_key name (remove gone names_s) ≡ true
  freed-taken live_t kept_t id gone held fewer others i name h =
      some_name names_s gone n.names_unique (n.taken i name (fewer i name h)) (λ same.
        others i name h
          (n.single id i name (subst (Holds live_s kept_s id) same held) (fewer i name h)))

  -- One restored session less.
  less-Holds :
      (id i name : Text) → Holds live_s (remove id kept_s) i name → Holds live_s kept_s i name
  less-Holds id i _ (live session h) = live session h
  less-Holds id i _ (kept session h) =
      kept session (lookup-removed id i kept_s n.restored_unique h).1

  less-others :
      (id : Text)
      → contains_key id live_s ≡ false
      → (i name : Text) → Holds live_s (remove id kept_s) i name
      → id ≢ i
  less-others id gone i _ (live other h) = λ e. absurd (cc (rw (e, h) at gone))
  less-others id gone i _ (kept other h) = (lookup-removed id i kept_s n.restored_unique h).0

  pub less-IsNamed : (id : Text) → IsNamed live_s (remove id kept_s) names_s
  less-IsNamed id =
      shrinks-IsNamed live_s (remove id kept_s) names_s (less-Holds id)
        (λ i name h. n.taken i name (less-Holds id i name h)) (λ i session h. h) n.sessions_unique
        (remove-IsUnique id kept_s n.restored_unique) n.names_unique

  pub less_freed-IsNamed :
      (id : Text) (session : StoredSession)
      → lookup id kept_s ≡ some session
      → contains_key id live_s ≡ false
      → IsNamed live_s (remove id kept_s) (remove session.summary.name names_s)
  less_freed-IsNamed id session e gone =
      shrinks-IsNamed live_s (remove id kept_s) (remove session.summary.name names_s)
        (less-Holds id)
        (freed-taken live_s (remove id kept_s) id session.summary.name (kept session e)
          (less-Holds id) (less-others id gone))
        (λ i session h. h) n.sessions_unique (remove-IsUnique id kept_s n.restored_unique)
        (remove-IsUnique session.summary.name names_s n.names_unique)
