-- ===== src/Push/Dispatched.antt =====
-- An event of a session is pushed to every device, whatever becomes of the other pushes.
use mathlib.Core.List.{append_assoc, append-nil}
use shelly.Prelude.{
  ◌≡◌, ◌↔◌, refl, sym, ap, ◌∙◌, arith, Bool, Option-cases, true, false, Option, none, some, List,
  [], ◌∷◌, ◌++◌, Text, map, Result-cases, inl, inr, ok, err,
}
use mathlib.Core.List.{Permᴰ}
use shelly.Prelude.Sorting.{IsSorted, sort_by-Perm, sort_by-IsSorted}
use shelly.Protocol.{PushPlatform}
use shelly.Persistence.{StoredDevice}
use shelly.Push.{
  RelayError, RelayPushEventType, RelayRequest, PushWorker, Network, push_request, recipients,
  tokens, text_leb, post, get_or_insert, ensure_daemon_registered, ensure_from, push_all,
  dispatch_session_event,
}

abbrev pub push_to : Text → Text → RelayPushEventType → PushPlatform × Text → RelayRequest
push_to id hash event to = push_request id to.1 to.0 hash event

-- Of each device that has a platform and a token, in the order of the devices, the platform and the
-- token; of the others nothing.
pub data Told : List StoredDevice → List (PushPlatform × Text) → Type 0 where
  nobody : Told [] []
  told :
      {device : StoredDevice} {devices : List StoredDevice} {to : List (PushPlatform × Text)}
      (platform : PushPlatform) (token : Text)
      → device.push_platform ≡ some platform
      → device.push_token ≡ some token
      → Told devices to
      → Told (device ∷ devices) ((platform, token) ∷ to)
  no_platform :
      {device : StoredDevice} {devices : List StoredDevice} {to : List (PushPlatform × Text)}
      → device.push_platform ≡ none
      → Told devices to
      → Told (device ∷ devices) to
  no_token :
      {device : StoredDevice} {devices : List StoredDevice} {to : List (PushPlatform × Text)}
      → device.push_token ≡ none
      → Told devices to
      → Told (device ∷ devices) to

tokens-Told : (devices : List StoredDevice) → Told devices (tokens devices)
unfolding tokens
tokens-Told [] = nobody
tokens-Told (device ∷ devices) =
    let rest = tokens-Told devices in
    elim (Option-cases device.push_platform) [
      | inl e ↦ simp e (no_platform e rest)
      | inr (platform, e) ↦ elim (Option-cases device.push_token) [
        | inl f ↦ simp (e, f) (no_token f rest)
        | inr (token, f) ↦ simp (e, f) (told platform token e f rest)
      ]
    ]

text_leb_total : (a b : Text) → text_leb a b ≡ false → text_leb b a ≡ true
unfolding text_leb
text_leb_total [] b h = absurd (cc h)
text_leb_total (x ∷ a) [] h = refl
text_leb_total (x ∷ a) (y ∷ b) h = ground (arith, text_leb_total a b)

text_leb_trans : (a b c : Text) → text_leb a b ≡ true → text_leb b c ≡ true → text_leb a c ≡ true
unfolding text_leb
text_leb_trans [] b c h k = refl
text_leb_trans (x ∷ a) [] c h k = absurd (cc h)
text_leb_trans (x ∷ a) (y ∷ b) [] h k = absurd (cc k)
text_leb_trans (x ∷ a) (y ∷ b) (z ∷ c) h k = ground (arith, text_leb_trans a b c)

abbrev pub by_token : PushPlatform × Text → PushPlatform × Text → Bool
by_token left right = text_leb left.1 right.1

-- Those that are told: one entry for each device with a platform and a token, by their tokens.
abbrev pub IsToldTo : List StoredDevice → List (PushPlatform × Text) → Type 0
IsToldTo devices sent =
    (to : List (PushPlatform × Text)) × Told devices to × Permᴰ to sent × IsSorted by_token sent

recipients-IsToldTo : (devices : List StoredDevice) → IsToldTo devices (recipients devices)
unfolding recipients
recipients-IsToldTo devices = (
  tokens devices,
  tokens-Told devices,
  sort_by-Perm by_token (tokens devices),
  sort_by-IsSorted by_token (tokens devices) (record {
    total = λ x y. text_leb_total x.1 y.1;
    trans = λ x y z. text_leb_trans x.1 y.1 z.1;
  }),
)

module _ (net : Network) where
  -- The relay accepts each of the requests, sent one after the other.
  abbrev pub IsAccepted : List RelayRequest → List RelayRequest → Type 0
  IsAccepted before [] = Unit {0}
  IsAccepted before (request ∷ requests) =
      (net.respond before request ≡ ok tt) × IsAccepted (before ++ request ∷ []) requests

  push_all-posted :
      (id hash : Text) (event : RelayPushEventType) (first : Option RelayError)
      (to : List (PushPlatform × Text)) (worker : PushWorker)
      → (push_all net id hash event first to worker).1.posted
        ≡ worker.posted ++ map (push_to id hash event) to
  unfolding push_all
  push_all-posted id hash event first [] worker = sym (append-nil worker.posted)
  push_all-posted id hash event first ((platform, token) ∷ to) worker =
      let request = push_request id token platform hash event in
      push_all-posted id hash event (get_or_insert first (net.respond worker.posted request)) to
        (post net request worker).1
      ∙ append_assoc worker.posted (request ∷ []) (map (push_to id hash event) to)

  -- An error that is kept is the answer.
  push_all-failed :
      (id hash : Text) (event : RelayPushEventType) (e : RelayError)
      (to : List (PushPlatform × Text)) (worker : PushWorker)
      → (push_all net id hash event (some e) to worker).0 ≡ err e
  unfolding push_all
  push_all-failed id hash event e [] worker = refl
  push_all-failed id hash event e ((platform, token) ∷ to) worker =
      let request = push_request id token platform hash event in
      elim (Result-cases (net.respond worker.posted request)) [
        | inl (u, f) ↦
            rw (f, push_all) (push_all-failed id hash event e to (post net request worker).1)
        | inr (g, f) ↦
            rw (f, push_all) (push_all-failed id hash event e to (post net request worker).1)
      ]

  push_all-IsAccepted :
      (id hash : Text) (event : RelayPushEventType) (to : List (PushPlatform × Text))
      (worker : PushWorker)
      → ((push_all net id hash event none to worker).0 ≡ ok tt)
        ↔ IsAccepted worker.posted (map (push_to id hash event) to)
  unfolding push_all
  push_all-IsAccepted id hash event [] worker = ((λ h. tt), (λ h. refl))
  push_all-IsAccepted id hash event ((platform, token) ∷ to) worker =
      let request = push_request id token platform hash event in
      elim (Result-cases (net.respond worker.posted request)) [
        | inl (u, f) ↦
            let rest = push_all-IsAccepted id hash event to (post net request worker).1 in
            ((λ h. (f, rest.0 (rw (f, push_all) at h))), (λ h. rw (f, push_all) (rest.1 h.1)))
        | inr (g, f) ↦
            let failed = push_all-failed id hash event g to (post net request worker).1 in
            (
              (λ h. absurd (cc (sym failed ∙ (rw (f, push_all) at h)))),
              (λ h. absurd (cc (sym f ∙ h.0))),
            )
      ]

  -- Where the daemon is registered, an event posts one push for each device that has a platform and a
  -- token, and none for another device, in the order of the tokens, whether or not the earlier pushes
  -- failed; it answers without an error exactly where the relay accepts them all. A post stands for the
  -- request with all its retries.
  pub dispatch_session_event-posted :
      (devices : List StoredDevice) (session_id id : Text) (event : RelayPushEventType)
      (worker : PushWorker)
      → worker.daemon_node_id ≡ some id
      → worker.daemon_registered ≡ true
      → (sent : List (PushPlatform × Text)) × IsToldTo devices sent
        × ((dispatch_session_event net devices session_id event worker).1.posted
            ≡ worker.posted ++ map (push_to id (net.hash_for_push session_id) event) sent)
        × (((dispatch_session_event net devices session_id event worker).0 ≡ ok tt)
            ↔ IsAccepted worker.posted (map (push_to id (net.hash_for_push session_id) event) sent))
  unfolding dispatch_session_event
  dispatch_session_event-posted devices session_id id event worker known paired =
      let ready : ensure_daemon_registered net worker ≡ (ok id, worker) = is_ready in
      rw ready (
        recipients devices,
        recipients-IsToldTo devices,
        push_all-posted id (net.hash_for_push session_id) event none (recipients devices) worker,
        push_all-IsAccepted id (net.hash_for_push session_id) event (recipients devices) worker,
      )
    where
      is_ready : ensure_daemon_registered net worker ≡ (ok id, worker)
      is_ready =
          unfold ensure_daemon_registered ensure_from in
          ap (λ k. ensure_from net k worker.daemon_registered worker) known
          ∙ ap (λ b. ensure_from net (some id) b worker) paired
