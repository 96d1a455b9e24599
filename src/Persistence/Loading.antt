-- ===== src/Persistence/Loading.antt =====
-- What a start of the daemon reads of the table of devices.
use mathlib.Core.List.Permᴰ
use mathlib.Core.List.{Mem, mem-cons_self, mem-cons_of_mem}
use shelly.Prelude.{
  ◌≡◌, refl, sym, ap, ◌∙◌, leb, none, some, [], ◌∷◌, Text, All, Bool-cases, Option-cases,
  Result-cases, inl, inr, Result, ok, text_eq, text_beq, text_beq_iff,
}
use shelly.Prelude.Dict.{Dict, IsUnique, lookup}
use shelly.Prelude.Sorting.{sort_by-Perm, All-sort_by}
use shelly.Signing.{strip_prefix}
use shelly.Persistence.{
  Bytes, Libraries, Persistence, StoredDevice, StoreError, readable, decode_device,
  device_storage_key, load_devices,
}
use shelly.Persistence.Rows.{stored_device}

module _ {A : Type 0} (read : Bytes → Result StoreError A) where
  readable-All :
      (P : A → Type 0) (rows : Dict Text Bytes)
      → IsUnique rows
      → ((key : Text) (bytes : Bytes) (a : A)
          → lookup key rows ≡ some bytes
          → read bytes ≡ ok a
          → P a)
      → All P (readable read rows)
  unfolding readable lookup
  readable-All P [] u h = tt
  readable-All P ((key, value) ∷ rows) u h =
      let rest =
        readable-All P rows u.1
          (λ k bytes a found. h k bytes a (later key value k bytes rows u.0 found)) in
      elim (Result-cases (read value)) [
        | inl (a, e) ↦ rw (e, readable) (h key value a (here key value rows) e, rest)
        | inr (error, e) ↦ rw (e, readable) rest
      ]
    where
      here : (k : Text) (v : Bytes) (m : Dict Text Bytes) → lookup k ((k, v) ∷ m) ≡ some v
      here k v m = rw ((text_beq_iff k k).1 refl) refl

      later :
          (k : Text) (v : Bytes) (j : Text) (w : Bytes) (m : Dict Text Bytes)
          → lookup k m ≡ none
          → lookup j m ≡ some w
          → lookup j ((k, v) ∷ m) ≡ some w
      later k v j w m fresh found = elim (Bool-cases (text_beq k j)) [
        | inr e ↦ rw e found
        | inl e ↦ absurd (cc (sym fresh ∙ (ap (λ i. lookup i m) ((text_beq_iff k j).0 e) ∙ found)))
      ]

  readable-Mem :
      (key : Text) (bytes : Bytes) (a : A) (rows : Dict Text Bytes)
      → lookup key rows ≡ some bytes
      → read bytes ≡ ok a
      → Mem a (readable read rows)
  unfolding readable lookup
  readable-Mem key bytes a [] found e = absurd (cc found)
  readable-Mem key bytes a ((k, value) ∷ rows) found e = elim (Bool-cases (text_beq k key)) [
    | inl f ↦
        let same : value ≡ bytes = cc (rw f at found) in
        rw (ap read same ∙ e, readable) mem-cons_self
    | inr f ↦
        let rest = readable-Mem key bytes a rows (rw f at found) e in
        elim (Result-cases (read value)) [
          | inl (b, g) ↦ rw (g, readable) (mem-cons_of_mem b rest)
          | inr (error, g) ↦ rw (g, readable) rest
        ]
  ]

module _ (lib : Libraries) where
  pub load_devices-All :
      (P : StoredDevice → Type 0) (p : Persistence)
      → IsUnique p.devices
      → ((key : Text) (bytes : Bytes) (device : StoredDevice)
          → lookup key p.devices ≡ some bytes
          → decode_device lib p.mode bytes ≡ ok device
          → P device)
      → All P (load_devices lib p)
  unfolding load_devices
  load_devices-All P p u h =
      All-sort_by P (λ a b. leb a.paired_at b.paired_at)
        (readable (decode_device lib p.mode) p.devices)
        (readable-All (decode_device lib p.mode) P p.devices u h)

  -- A device whose row can be read is loaded.
  pub load_devices-Mem :
      (p : Persistence) (id : Text) (device : StoredDevice)
      → stored_device lib p id ≡ some device
      → Mem device (load_devices lib p)
  unfolding load_devices Permᴰ.mem strip_prefix
  load_devices-Mem p id device h =
      elim (Option-cases (lookup (device_storage_key lib id) p.devices)) [
        | inl e ↦ absurd (cc (rw e at h))
        | inr (bytes, e) ↦ elim (Result-cases (decode_device lib p.mode bytes)) [
          | inr (error, f) ↦ absurd (cc (rw (e, f) at h))
          | inl (read, f) ↦
              let same : read ≡ device = cc (rw (e, f) at h) in
              Permᴰ.mem
                (sort_by-Perm (λ a b. leb a.paired_at b.paired_at)
                  (readable (decode_device lib p.mode) p.devices))
                (readable-Mem (decode_device lib p.mode) (device_storage_key lib id) bytes device
                  p.devices e (f ∙ ap ok same))
        ]
      ]
