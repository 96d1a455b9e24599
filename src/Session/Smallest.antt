-- ===== src/Session/Smallest.antt =====
-- The terminal of a session has the size that all its clients can show.
use shelly.Prelude.{
  ◌≡◌, refl, List, [], ◌∷◌, All, Bool, true, false, none, some, Text, Bool-cases, Option-cases, inl,
  inr, text_eq,
}
use shelly.Prelude.Dict.{lookup, insert, lookup-insert_self}
use shelly.Session.{Session, ClientSize, min_client_size}
use shelly.Session.Sizes.{Fits, min_client_size_greatest}
use shelly.Session.Clients.{
  Attached, sizes_of, resize, apply_min_attached_resize, attach_client, update_client_size,
  detach_client, resize_round,
}

-- The greatest size that fits each of the sizes; of no sizes nothing is said.
abbrev pub IsGreatest : List ClientSize → ClientSize → Type 0
IsGreatest [] size = Unit {0}
IsGreatest (first ∷ rest) size =
    All (Fits size) (first ∷ rest)
    × ((other : ClientSize) → All (Fits other) (first ∷ rest) → Fits other size)

-- A resize is asked for, or the terminal has the greatest size that fits every client.
abbrev pub IsSettled : Bool → Attached → Type 0
IsSettled true a = Unit {0}
IsSettled false a = IsGreatest (sizes_of a.attached_sizes) a.terminal_size

-- What changes the sizes, where the terminal takes each size that it is given and the process runs.
pub data Resizes : Attached → Attached → Type 0 where
  attaches :
      (id : Text) (size : ClientSize) (a : Attached) → Resizes a (attach_client true id size a).1
  updates :
      (id : Text) (size : ClientSize) (a : Attached) → Resizes a (update_client_size id size a)
  detaches : (id : Text) (a : Attached) → Resizes a (detach_client id a)
  resizes : (s : Session) (a : Attached) → s.exit_code ≡ none → Resizes a (resize_round true s a)

pub data Sizing (a : Attached) : Attached → Type 0 where
  done : Sizing a a
  then_step : {b c : Attached} → Sizing a b → Resizes b c → Sizing a c

none-IsGreatest :
    (sizes : List ClientSize) (size : ClientSize)
    → min_client_size sizes ≡ none
    → IsGreatest sizes size
unfolding min_client_size
none-IsGreatest [] size e = tt
none-IsGreatest (first ∷ rest) size e = absurd (cc e)

least-IsGreatest :
    (sizes : List ClientSize) (least : ClientSize)
    → min_client_size sizes ≡ some least
    → IsGreatest sizes least
least-IsGreatest [] least e = tt
least-IsGreatest (first ∷ rest) least e = (
  (min_client_size_greatest (first ∷ rest) least least e).0,
  (λ other fits. (min_client_size_greatest (first ∷ rest) least other e).1 fits),
)

applied-IsGreatest :
    (a : Attached)
    → IsGreatest
        (sizes_of (apply_min_attached_resize true a).1.attached_sizes)
        (apply_min_attached_resize true a).1.terminal_size
unfolding apply_min_attached_resize resize
applied-IsGreatest a = elim (Option-cases (min_client_size (sizes_of a.attached_sizes))) [
  | inl e ↦ rw (e, apply_min_attached_resize) (none-IsGreatest _ a.terminal_size e)
  | inr (least, e) ↦ rw (e, apply_min_attached_resize) (least-IsGreatest _ least e)
]

IsGreatest-IsSettled :
    (scheduled : Bool) (a : Attached)
    → IsGreatest (sizes_of a.attached_sizes) a.terminal_size
    → IsSettled scheduled a
IsGreatest-IsSettled true a h = tt
IsGreatest-IsSettled false a h = h

Resizes-IsSettled :
    {a b : Attached} → Resizes a b → IsSettled a.scheduled a → IsSettled b.scheduled b
unfolding attach_client update_client_size detach_client resize_round
Resizes-IsSettled (attaches id size a) h = IsGreatest-IsSettled _ _ (applied-IsGreatest _)
Resizes-IsSettled (updates id size a) h = tt
Resizes-IsSettled (detaches id a) h = tt
Resizes-IsSettled (resizes s a live) h = elim (Bool-cases a.scheduled) [
  | inl e ↦
      let now : Attached = (apply_min_attached_resize true (record a { scheduled = false })).1 in
      let after : resize_round true s a ≡ now = simp (e, live, resize_round) refl in
      rw after (
        IsGreatest-IsSettled now.scheduled now
          (applied-IsGreatest (record a { scheduled = false })))
  | inr e ↦ let after : resize_round true s a ≡ a = simp (e, resize_round) refl in rw after h
]

-- Whatever clients attach, change their size and leave, a terminal of which no resize is asked for
-- has, if there are clients attached, the size that fits every one of them, in columns and in rows, and
-- into which every other size that fits them all fits. The terminal takes each size that it is given,
-- and the process runs at a debounced resize; it starts from a terminal of which that holds.
pub Sizing-IsSettled :
    {a b : Attached} → Sizing a b → IsSettled a.scheduled a → IsSettled b.scheduled b
Sizing-IsSettled done h = h
Sizing-IsSettled (then_step steps step) h = Resizes-IsSettled step (Sizing-IsSettled steps h)

failed-sizes :
    (takes : Bool) (a : Attached)
    → (apply_min_attached_resize takes a).1.attached_sizes ≡ a.attached_sizes
unfolding apply_min_attached_resize resize
failed-sizes takes a = elim (Option-cases (min_client_size (sizes_of a.attached_sizes))) [
  | inl e ↦ simp (e, apply_min_attached_resize) refl
  | inr (least, e) ↦ elim (Bool-cases takes) [
    | inl f ↦ simp (e, f, apply_min_attached_resize) refl
    | inr f ↦ simp (e, f, apply_min_attached_resize) refl
  ]
]

-- Whether or not the terminal takes the new size, the client is counted among those attached: where
-- `attach_client` answers with an error there is no handle whose drop would remove it.
pub attach_client_counted :
    (takes : Bool) (id : Text) (size : ClientSize) (a : Attached)
    → lookup id (attach_client takes id size a).1.attached_sizes ≡ some size
unfolding attach_client
attach_client_counted takes id size a =
    rw (failed-sizes takes (record a { attached_sizes = insert id size a.attached_sizes }))
      (lookup-insert_self id size a.attached_sizes)
