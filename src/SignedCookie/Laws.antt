-- ===== src/SignedCookie/Laws.antt =====
-- Sealing and opening.
use atrium_core.Base.{
  ◌≡◌, ◌≢◌, ◌↔◌, Option, none, some, [], ◌∷◌, Text, All, arith, ==_refl, ==_iff, Option-cases, inl,
  inr,
}
use atrium_core.Strings.{cut}
use atrium_core.Strings.Laws.{cut-append, contains_byte-All}
use atrium_core.Url.Bytes.{IsByte}
use atrium_core.Base64.{encode, decode}
use atrium_core.Base64.RoundTrip.{IsDigit, encode-IsDigit, decode-encode}
use atrium_core.Crypto.{Crypto, IsByteValued}
use atrium_core.SignedCookie.{mac, seal, open_token, check_signature}

no_dot : (s : Text) → All IsDigit s → All (λ c. c ≢ b'.') s
no_dot [] h = tt
no_dot (c ∷ s) (p, h) = (p.0, no_dot s h)

module _ (crypto : Crypto) where
  -- What is sealed under a key is opened again under it.
  pub open_token-seal :
      (key payload : Text)
      → IsByteValued crypto
      → All IsByte payload
      → open_token crypto key (seal crypto key payload) ≡ some payload
  unfolding open_token seal
  open_token-seal key payload valued h =
      let sig = mac crypto key payload in
      rw (
        cut-append b'.' (encode payload) (encode sig)
            (contains_byte-All b'.' _ (no_dot _ (encode-IsDigit payload h))),
        open_token,
        decode-encode payload h,
        decode-encode sig (valued.hmac_bytes key payload),
        ==_refl sig,
      )

  -- A token that carries a payload: both parts decode, and the signature is that of the payload.
  pub record IsSigned (key token payload : Text) : Type 0 where
    pub payload_part : Text
    pub sig_part : Text
    pub parts : cut b'.' token ≡ some (payload_part, sig_part)
    pub payload_decoded : decode payload_part ≡ some payload
    pub sig_decoded : decode sig_part ≡ some (mac crypto key payload)

  check_signature-eq-some :
      (key payload : Text) (p s : Option Text)
      → check_signature crypto key p s ≡ some payload
      → (p ≡ some payload) × (s ≡ some (mac crypto key payload))
  unfolding check_signature
  check_signature-eq-some key payload none s e = absurd (cc)
  check_signature-eq-some key payload (some p) none e = absurd (cc)
  check_signature-eq-some key payload (some p) (some s) e =
      ground (arith, ==_iff s (mac crypto key p))

  open_token_sound :
      (key token payload : Text)
      → open_token crypto key token ≡ some payload
      → IsSigned key token payload
  unfolding open_token
  open_token_sound key token payload e = elim (Option-cases (cut b'.' token)) [
    | inl missing ↦ absurd (cc (rw (missing, open_token) at e))
    | inr ((p, s), parts) ↦
        let (a, b) =
          check_signature-eq-some key payload (decode p) (decode s) (rw (parts, open_token) at e) in
        record {
          payload_part = p;
          sig_part = s;
          parts = parts;
          payload_decoded = a;
          sig_decoded = b;
        }
  ]

  open_token_complete :
      (key token payload : Text)
      → IsSigned key token payload
      → open_token crypto key token ≡ some payload
  unfolding open_token
  open_token_complete key token payload s =
      rw (s.parts, open_token, s.payload_decoded, s.sig_decoded, ==_refl (mac crypto key payload))

  -- A token is opened exactly when it is signed: it has a dot, the text before it decodes to the
  -- payload, and the text behind it to the authentication code of the payload under the key.
  pub open_token_iff :
      (key token payload : Text)
      → (open_token crypto key token ≡ some payload) ↔ IsSigned key token payload
  open_token_iff key token payload =
      (open_token_sound key token payload, open_token_complete key token payload)
