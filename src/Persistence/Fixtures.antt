-- ===== src/Persistence/Fixtures.antt =====
-- The libraries of the tests: they encode a session that is blank, but
-- for its last activity and its scrollback, and they encrypt by writing the key in front.
use shelly.Prelude.{
  ℕ, zero, suc, ◌≡◌, refl, sym, ap, Option, none, some, List, [], ◌∷◌, ◌++◌, Text, length,
  if◌then◌else◌, text_eq, Bool-cases, inl, inr, ◌==◌, ==_iff, take, drop, take-append,
  drop-append_self, text_eq,
}
use shelly.Protocol.{PushPlatform, apns, fcm}
use shelly.Session.{AgentState, idle, working, awaiting_input, crashed}
use shelly.Signing.{strip_prefix}
use shelly.Persistence.{
  Bytes, Libraries, Codec, Persistence, StoredSession, StoredDevice, EncryptedBlob, encrypted,
  last_activity,
}
use shelly.Persistence.Payload.{IsCodec, IsLawful, strip_prefix-append}

abbrev stored :
    Text
    → Text
    → List Text
    → Text
    → ℕ
    → ℕ
    → AgentState
    → Option Text
    → Option Text
    → ℕ
    → Bytes
    → Option ℕ
    → StoredSession
stored id name command cwd created_at last_activity state last_line model seq scrollback exit_code =
    record {
      summary = record {
        id = id;
        name = name;
        command = command;
        cwd = cwd;
        created_at = created_at;
        last_activity = last_activity;
        state = state;
        last_line = last_line;
        model = model;
      };
      scrollback_start_seq = seq;
      scrollback = scrollback;
      exit_code = exit_code;
    }

abbrev pub blank : ℕ → Bytes → StoredSession
blank last_activity scrollback = stored [] [] [] [] 0 last_activity idle none none 0 scrollback none

abbrev encode_fields :
    Text
    → Text
    → List Text
    → Text
    → ℕ
    → ℕ
    → AgentState
    → Option Text
    → Option Text
    → ℕ
    → Bytes
    → Option ℕ
    → Option Bytes
encode_fields [] [] [] [] zero last idle none none zero scrollback none = some (last ∷ scrollback)
encode_fields _ _ _ _ _ _ _ _ _ _ _ _ = none

abbrev decode_blank : Bytes → Option StoredSession
decode_blank [] = none
decode_blank (last ∷ scrollback) = some (blank last scrollback)

abbrev session_codec : Codec StoredSession
session_codec = record {
  encode = λ s.
      encode_fields s.summary.id s.summary.name s.summary.command s.summary.cwd s.summary.created_at
        s.summary.last_activity s.summary.state s.summary.last_line s.summary.model
        s.scrollback_start_seq s.scrollback s.exit_code;
  decode = decode_blank;
}

decode-encode_fields :
    (id name : Text) (command : List Text) (cwd : Text) (created_at last_activity : ℕ)
    (state : AgentState) (last_line model : Option Text) (seq : ℕ) (scrollback : Bytes)
    (exit_code : Option ℕ) (bytes : Bytes)
    → encode_fields id name command cwd created_at last_activity state last_line model seq
        scrollback exit_code
      ≡ some bytes
    → decode_blank bytes
      ≡ some (
          stored id name command cwd created_at last_activity state last_line model seq scrollback
            exit_code)
decode-encode_fields [] [] [] [] zero a idle none none zero s none bytes h =
    let e : a ∷ s ≡ bytes = cc h in rw (sym e) refl
decode-encode_fields [] [] [] [] zero a idle none none zero s (some _) bytes h = absurd (cc h)
decode-encode_fields [] [] [] [] zero a idle none none (suc _) s x bytes h = absurd (cc h)
decode-encode_fields [] [] [] [] zero a idle none (some _) q s x bytes h = absurd (cc h)
decode-encode_fields [] [] [] [] zero a idle (some _) m q s x bytes h = absurd (cc h)
decode-encode_fields [] [] [] [] zero a working l m q s x bytes h = absurd (cc h)
decode-encode_fields [] [] [] [] zero a awaiting_input l m q s x bytes h = absurd (cc h)
decode-encode_fields [] [] [] [] zero a crashed l m q s x bytes h = absurd (cc h)
decode-encode_fields [] [] [] [] (suc _) a t l m q s x bytes h = absurd (cc h)
decode-encode_fields [] [] [] (_ ∷ _) c a t l m q s x bytes h = absurd (cc h)
decode-encode_fields [] [] (_ ∷ _) d c a t l m q s x bytes h = absurd (cc h)
decode-encode_fields [] (_ ∷ _) k d c a t l m q s x bytes h = absurd (cc h)
decode-encode_fields (_ ∷ _) n k d c a t l m q s x bytes h = absurd (cc h)

-- A blob is its nonce of 24 bytes and its ciphertext.
abbrev encode_blob : EncryptedBlob → Option Bytes
encode_blob blob = if length blob.nonce == 24 then some (blob.nonce ++ blob.ciphertext) else none

abbrev blob_codec : Codec EncryptedBlob
blob_codec = record {
  encode = encode_blob;
  decode = λ bytes. some (record { nonce = take 24 bytes; ciphertext = drop 24 bytes });
}

encode_blob-shape :
    (blob : EncryptedBlob) (bytes : Bytes)
    → encode_blob blob ≡ some bytes
    → (length blob.nonce ≡ 24) × (blob.nonce ++ blob.ciphertext ≡ bytes)
encode_blob-shape blob bytes h = elim (Bool-cases (length blob.nonce == 24)) [
  | inl e ↦ ((==_iff (length blob.nonce) 24).0 e, cc (rw e at h))
  | inr e ↦ absurd (cc (rw e at h))
]

blob_codec-IsCodec : IsCodec blob_codec
blob_codec-IsCodec blob bytes h =
    let (size, whole) = encode_blob-shape blob bytes h in
    let front : take 24 bytes ≡ blob.nonce =
      rw (sym whole, sym size) (take-append blob.nonce blob.ciphertext) in
    let back : drop 24 bytes ≡ blob.ciphertext =
      rw (sym whole, sym size) (drop-append_self blob.nonce blob.ciphertext) in
    ap some (rw (front, back) refl)

abbrev pub device : Text → Text → ℕ → Option ℕ → Option PushPlatform → Option Text → StoredDevice
device name id paired_at last_seen platform token = record {
  name = name;
  device_node_id = id;
  paired_at = paired_at;
  last_seen = last_seen;
  push_platform = platform;
  push_token = token;
}

-- A device without a name, with its token if it has one.
abbrev encode_device : Text → Text → ℕ → Option ℕ → Option PushPlatform → Option Text → Option Bytes
encode_device [] (c ∷ []) paired_at (some seen) none none = some (0 ∷ c ∷ paired_at ∷ seen ∷ [])
encode_device [] (c ∷ []) paired_at (some seen) (some apns) (some token) =
    some (1 ∷ c ∷ paired_at ∷ seen ∷ token)
encode_device [] (c ∷ []) paired_at none none none = some (2 ∷ c ∷ paired_at ∷ [])
encode_device _ _ _ _ _ _ = none

abbrev decode_device : Bytes → Option StoredDevice
decode_device (zero ∷ c ∷ paired_at ∷ seen ∷ []) =
    some (device [] (c ∷ []) paired_at (some seen) none none)
decode_device (suc zero ∷ c ∷ paired_at ∷ seen ∷ token) =
    some (device [] (c ∷ []) paired_at (some seen) (some apns) (some token))
decode_device (suc (suc _) ∷ c ∷ paired_at ∷ []) =
    some (device [] (c ∷ []) paired_at none none none)
decode_device _ = none

decode-encode_device :
    (name id : Text) (paired_at : ℕ) (last_seen : Option ℕ) (platform : Option PushPlatform)
    (token : Option Text) (bytes : Bytes)
    → encode_device name id paired_at last_seen platform token ≡ some bytes
    → decode_device bytes ≡ some (device name id paired_at last_seen platform token)
decode-encode_device [] (c ∷ []) p (some s) none none bytes h =
    let e : 0 ∷ c ∷ p ∷ s ∷ [] ≡ bytes = cc h in rw (sym e) refl
decode-encode_device [] (c ∷ []) p (some s) (some apns) (some t) bytes h =
    let e : 1 ∷ c ∷ p ∷ s ∷ t ≡ bytes = cc h in rw (sym e) refl
decode-encode_device [] (c ∷ []) p none none none bytes h =
    let e : 2 ∷ c ∷ p ∷ [] ≡ bytes = cc h in rw (sym e) refl
decode-encode_device [] (c ∷ []) p (some s) none (some t) bytes h = absurd (cc h)
decode-encode_device [] (c ∷ []) p (some s) (some apns) none bytes h = absurd (cc h)
decode-encode_device [] (c ∷ []) p (some s) (some fcm) t bytes h = absurd (cc h)
decode-encode_device [] (c ∷ []) p none (some q) t bytes h = absurd (cc h)
decode-encode_device [] (c ∷ []) p none none (some t) bytes h = absurd (cc h)
decode-encode_device [] [] p s q t bytes h = absurd (cc h)
decode-encode_device [] (c ∷ d ∷ i) p s q t bytes h = absurd (cc h)
decode-encode_device (_ ∷ _) i p s q t bytes h = absurd (cc h)

abbrev device_codec : Codec StoredDevice
device_codec = record {
  encode = λ d.
      encode_device d.name d.device_node_id d.paired_at d.last_seen d.push_platform d.push_token;
  decode = decode_device;
}

abbrev pub libraries : Libraries
libraries = record {
  sessions = session_codec;
  devices = device_codec;
  plaintexts = record { encode = λ bytes. some bytes; decode = λ bytes. some bytes };
  blobs = blob_codec;
  encrypt = λ key nonce bytes. some (key ++ bytes);
  decrypt = λ key nonce bytes. strip_prefix key bytes;
  sha256_hex = λ id. id;
}

pub libraries-IsLawful : IsLawful libraries
libraries-IsLawful = record {
  devices = λ d bytes h.
      decode-encode_device d.name d.device_node_id d.paired_at d.last_seen d.push_platform
        d.push_token bytes h;
  sessions = λ s bytes h.
      decode-encode_fields s.summary.id s.summary.name s.summary.command s.summary.cwd
        s.summary.created_at s.summary.last_activity s.summary.state s.summary.last_line
        s.summary.model s.scrollback_start_seq s.scrollback s.exit_code bytes h;
  plaintexts = λ a bytes h. sym h;
  blobs = blob_codec-IsCodec;
  nonce_first = λ blob bytes h. (blob.ciphertext, sym (encode_blob-shape blob bytes h).1);
  cipher = λ key nonce bytes ciphertext h.
      let e : key ++ bytes ≡ ciphertext = cc h in rw (sym e) (strip_prefix-append key bytes);
}

abbrev pub a_key : Bytes
a_key = 1 ∷ 2 ∷ 3 ∷ []

abbrev pub a_nonce : Bytes
a_nonce =
    0 ∷ 1 ∷ 2 ∷ 3 ∷ 4 ∷ 5 ∷ 6 ∷ 7 ∷ 8 ∷ 9 ∷ 10 ∷ 11 ∷ 12 ∷ 13 ∷ 14 ∷ 15 ∷ 16 ∷ 17 ∷ 18 ∷ 19 ∷ 20
    ∷ 21 ∷ 22 ∷ 23 ∷ []

abbrev pub empty_store : Persistence
empty_store = record { sessions = []; devices = []; mode = encrypted a_key }
