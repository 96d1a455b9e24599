-- ===== src/Prelude/Io.antt =====
-- Steps that may fail and that change a state: the state afterwards is kept on an error as well.
use mathlib.Core.Bool.{Bool, true, false}
use mathlib.Core.Path.{◌≡◌, refl, ap, sym}
use shelly.Prelude.Results.{Result, ok, err, map_err, guard}

abbrev pub Io : Type 0 → Type 0 → Type 0 → Type 0
Io S E A = S → Result E A × S

abbrev pub continue_with : {S E A B : Type 0} → Result E A × S → (A → Io S E B) → Result E B × S
continue_with (ok a, s) f = f a s
continue_with (err e, s) f = (err e, s)

infixl 5 ◌>>=◌
abbrev pub ◌>>=◌ : {S E A B : Type 0} → Io S E A → (A → Io S E B) → Io S E B
◌>>=◌ m f s = continue_with (m s) f

abbrev pub pure : {S E A : Type 0} → Result E A → Io S E A
pure r s = (r, s)

abbrev pub failing_with : {S E F A : Type 0} → (E → F) → Io S E A → Io S F A
failing_with f m s = (map_err f (m s).0, (m s).1)

infixl 5 ◌>>◌
abbrev pub ◌>>◌ : {S E A : Type 0} → Io S E (Unit {0}) → Io S E A → Io S E A
◌>>◌ m k = m >>= λ _. k

-- `if !test { return Err(e) }`
abbrev pub require : {S E : Type 0} → Bool → E → Io S E (Unit {0})
require test e s = (guard test e, s)

abbrev pub get : {S E : Type 0} → Io S E S
get s = (ok s, s)

abbrev pub modify : {S E : Type 0} → (S → S) → Io S E (Unit {0})
modify f s = (ok tt, f s)

continue_with-eq-ok :
    {S E A B : Type 0} (r : Result E A × S) (f : A → Io S E B) {b : B} {s' : S}
    → continue_with r f ≡ (ok b, s')
    → (a : A) × (t : S) × (r ≡ (ok a, t)) × (f a t ≡ (ok b, s'))
continue_with-eq-ok (ok a, t) f h = (a, t, refl, h)
continue_with-eq-ok (err e, t) f h = absurd (cc (ap (λ r. r.0) h))

-- Where a chain succeeds, its first step did, and the rest went on from there.
pub bind-eq-ok :
    {S E A B : Type 0} (m : Io S E A) (f : A → Io S E B) (s : S) {b : B} {s' : S}
    → (m >>= f) s ≡ (ok b, s')
    → (a : A) × (t : S) × (m s ≡ (ok a, t)) × (f a t ≡ (ok b, s'))
bind-eq-ok m f s h = continue_with-eq-ok (m s) f h

pub require-eq-ok :
    {S E : Type 0} (test : Bool) (e : E) (s : S) {a : Unit {0}} {t : S}
    → require test e s ≡ (ok a, t)
    → (test ≡ true) × (t ≡ s)
require-eq-ok true e s h = (refl, sym (ap (λ r. r.1) h))
require-eq-ok false e s h = absurd (cc (ap (λ r. r.0) h))
