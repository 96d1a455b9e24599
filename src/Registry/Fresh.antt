-- ===== src/Registry/Fresh.antt =====
-- The search for a name ends, with a name that is not taken.
use shelly.Prelude.{
  ℕ, zero, suc, ◌+◌, ◌^◌, ◌<◌, ◌≡◌, refl, sym, ap, ◌∙◌, true, false, Option, none, some, List, [],
  ◌∷◌, ◌++◌, Text, arith, length, if◌then◌else◌, ltb, ◌-◌, lt→ltb, Bool, Bool-cases, Option-cases,
  inl, inr, Result, ok, err, text_eq, text_beq, text_beq_iff,
}
use shelly.Prelude.Dict.{
  IsUnique, lookup, remove, contains_key, lookup-remove, remove-IsUnique, length-remove,
}
use shelly.Signing.{show_u64}
use shelly.Signing.Decimal.{show_u64-injective}
use shelly.Registry.Names.{
  CreateError, name_exists, first_free, suffixed, auto_name, auto_candidates, base_name, chosen,
  chosen_name, reserve_new_session_name, validate_requested_session_name,
}
use shelly.Registry.Named.{Names}
use shelly.Registry.Created.{chosen-free}

abbrev is_new : Text → List Text → Bool
is_new name [] = true
is_new name (other ∷ names) = if text_beq other name then false else is_new name names

-- No name twice.
abbrev IsDistinct : List Text → Type 0
IsDistinct [] = Unit {0}
IsDistinct (name ∷ names) = (is_new name names ≡ true) × IsDistinct names

first_free-remove :
    (gone : Text) (candidates : List Text) (names : Names)
    → IsUnique names
    → is_new gone candidates ≡ true
    → first_free candidates (remove gone names) ≡ first_free candidates names
unfolding first_free
first_free-remove gone [] names u h = refl
first_free-remove gone (c ∷ candidates) names u h = ground (
  arith,
  first_free-remove gone candidates names u,
  lookup-remove gone c names u,
  text_beq_iff gone c,
  text_beq_iff c gone,
)

-- Of more candidates than there are names taken, one is free.
first_free-finds :
    (candidates : List Text) (names : Names)
    → IsUnique names
    → IsDistinct candidates
    → length names < length candidates
    → (name : Text) × (first_free candidates names ≡ some name)
unfolding first_free
first_free-finds [] names u d h = absurd (omega arith)
first_free-finds (c ∷ candidates) names u d h = elim (Option-cases (lookup c names)) [
  | inl e ↦ (c, rw e refl)
  | inr (there, e) ↦
      let size = length-remove c there names e in
      let (name, found) =
        first_free-finds candidates (remove c names) (remove-IsUnique c names u) d.1
          (omega (arith, size)) in
      (name, rw e (sym (first_free-remove c candidates names u d.0) ∙ found))
]

append-injective : (base a b : Text) → base ++ a ≡ base ++ b → a ≡ b
append-injective [] a b e = e
append-injective (c ∷ base) a b e = append-injective base a b (cc e)

suffixed-is_new :
    (base : Text) (k suffix left : ℕ)
    → k < suffix
    → suffix + left < 2 ^ 31
    → is_new (base ++ show_u64 k) (suffixed base suffix left) ≡ true
unfolding suffixed
suffixed-is_new base k suffix zero less small = refl
suffixed-is_new base k suffix (suc left) less small =
    let within : ltb suffix (2 ^ 31 - 1) ≡ true = lt→ltb suffix (2 ^ 31 - 1) (omega arith) in
    let rest = suffixed-is_new base k (suc suffix) left (omega arith) (omega arith) in
    elim (Bool-cases (text_beq (base ++ show_u64 suffix) (base ++ show_u64 k))) [
      | inr different ↦ rw (within, different) rest
      | inl equal ↦
          let same =
            append-injective base (show_u64 suffix) (show_u64 k)
              ((text_beq_iff (base ++ show_u64 suffix) (base ++ show_u64 k)).0 equal) in
          absurd (omega (arith, show_u64-injective suffix k (omega arith) (omega arith) same))
    ]

suffixed-IsDistinct :
    (base : Text) (suffix left : ℕ)
    → suffix + left < 2 ^ 31
    → IsDistinct (suffixed base suffix left)
unfolding suffixed
suffixed-IsDistinct base suffix zero small = tt
suffixed-IsDistinct base suffix (suc left) small =
    let within : ltb suffix (2 ^ 31 - 1) ≡ true = lt→ltb suffix (2 ^ 31 - 1) (omega arith) in
    rw within (
      suffixed-is_new base suffix (suc suffix) left (omega arith) (omega arith),
      suffixed-IsDistinct base (suc suffix) left (omega arith),
    )

length-suffixed :
    (base : Text) (suffix left : ℕ)
    → suffix + left < 2 ^ 31
    → length (suffixed base suffix left) ≡ left
unfolding suffixed
length-suffixed base suffix zero small = refl
length-suffixed base suffix (suc left) small =
    let within : ltb suffix (2 ^ 31 - 1) ≡ true = lt→ltb suffix (2 ^ 31 - 1) (omega arith) in
    rw within (ap suc (length-suffixed base (suc suffix) left (omega arith)))

auto_name_found :
    (start : ℕ) (names : Names)
    → IsUnique names
    → length names + 4 < 2 ^ 31
    → (name : Text) × (auto_name start names ≡ some name)
unfolding auto_name
auto_name_found start names u small =
    elim (Option-cases (first_free (auto_candidates start 18) names)) [
      | inr (found, e) ↦ (found, simp (e, auto_name) refl)
      | inl e ↦
          let many = length-suffixed (base_name start) 2 (suc (length names)) (omega arith) in
          let (name, found) =
            first_free-finds (suffixed (base_name start) 2 (suc (length names))) names u
              (suffixed-IsDistinct (base_name start) 2 (suc (length names)) (omega arith))
              (omega (arith, many)) in
          (name, simp (e, auto_name) found)
    ]

-- An answer with a name has one that was not taken.
abbrev pub IsFree : Result CreateError Text → Names → Type 0
IsFree (ok name) names = contains_key name names ≡ false
IsFree (err e) names = Unit {0}

chosen_ends :
    (start : ℕ) (requested : Result CreateError (Option Text)) (names : Names)
    → IsUnique names
    → length names + 4 < 2 ^ 31
    → (answer : Result CreateError Text) × (chosen start requested names ≡ some answer)
unfolding chosen_name
chosen_ends start (err e) names u small = (err e, refl)
chosen_ends start (ok (some name)) names u small = elim (Bool-cases (contains_key name names)) [
  | inl e ↦ (err name_exists, simp (e, chosen_name) refl)
  | inr e ↦ (ok name, simp (e, chosen_name) refl)
]
chosen_ends start (ok none) names u small =
    let (name, found) = auto_name_found start names u small in
    (ok name, simp (found, chosen_name) refl)

is_free :
    (start : ℕ) (requested : Result CreateError (Option Text)) (names : Names)
    (answer : Result CreateError Text)
    → chosen start requested names ≡ some answer
    → IsFree answer names
is_free start requested names (err e) h = tt
is_free start requested names (ok name) h = chosen-free start requested names h

-- The search for the name of a new session ends, also where every automatic name is taken and the
-- suffixes are tried, with an error or with a name that was not taken. The suffix is an i32: there are
-- fewer than 2^31 - 4 names taken, and the set has each once.
pub reserve_new_session_name_ends :
    (start : ℕ) (requested : Text) (names : Names)
    → IsUnique names
    → length names + 4 < 2 ^ 31
    → (answer : Result CreateError Text) × (reserve_new_session_name start requested names
        ≡ some answer)
      × IsFree answer names
unfolding reserve_new_session_name
reserve_new_session_name_ends start requested names u small =
    let (answer, e) = chosen_ends start (validate_requested_session_name requested) names u small in
    (answer, e, is_free start (validate_requested_session_name requested) names answer e)
