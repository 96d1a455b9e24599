-- ===== src/Signing/Header.antt =====
-- The signature header: what `split_signature_header` makes of it.
use shelly.Prelude.{
  ◌≡◌, refl, ◌⊎◌, inl, inr, false, some, [], ◌∷◌, ◌++◌, Text, arith, ==_iff, Option-cases,
}
use shelly.Signing.{
  SignatureVersion, v1, v2, v1_signature_prefix, v2_signature_prefix, strip_prefix, prefix_of,
  has_version_marker, signature_header, split_signature_header,
}

strip_prefix-append : (p s : Text) → strip_prefix p (p ++ s) ≡ some s
unfolding strip_prefix
strip_prefix-append [] s = refl
strip_prefix-append (c ∷ p) s = ground (arith, ==_iff c c, strip_prefix-append p s)

strip_prefix-eq-some : (p s t : Text) → strip_prefix p s ≡ some t → s ≡ p ++ t
unfolding strip_prefix
strip_prefix-eq-some [] s t h = ground arith
strip_prefix-eq-some (c ∷ p) [] t h = ground arith
strip_prefix-eq-some (c ∷ p) (x ∷ s) t h = ground (arith, ==_iff x c, strip_prefix-eq-some p s t)

-- A header that was written for a version is read as that version, with its signature.
split_signature_header-signature_header :
    (version : SignatureVersion) (signature : Text)
    → split_signature_header (signature_header version signature) ≡ some (version, signature)
unfolding split_signature_header signature_header prefix_of strip_prefix
split_signature_header-signature_header v1 signature =
    ground (arith, strip_prefix-append v1_signature_prefix signature)
split_signature_header-signature_header v2 signature =
    ground (arith, strip_prefix-append v2_signature_prefix signature)

-- What is read of a header was written for that version, or it is a bare signature of version 1:
-- a header with the mark of any other version is never read.
split_signature_header-eq-some :
    (value : Text) (version : SignatureVersion) (signature : Text)
    → split_signature_header value ≡ some (version, signature)
    → (value ≡ signature_header version signature)
      ⊎ ((version ≡ v1) × (signature ≡ value) × (has_version_marker value ≡ false))
unfolding split_signature_header signature_header prefix_of
split_signature_header-eq-some value version signature h =
    elim (Option-cases (strip_prefix v1_signature_prefix value)) [
      | inr (s, first) ↦
          let e : value ≡ v1_signature_prefix ++ s =
            strip_prefix-eq-some v1_signature_prefix value s first in
          ground (arith, h, first, e)
      | inl not_first ↦ elim (Option-cases (strip_prefix v2_signature_prefix value)) [
        | inr (s, second) ↦
            let e : value ≡ v2_signature_prefix ++ s =
              strip_prefix-eq-some v2_signature_prefix value s second in
            ground (arith, h, not_first, second, e)
        | inl not_second ↦ ground (arith, h, not_first, not_second)
      ]
    ]
