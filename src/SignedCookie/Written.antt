-- ===== src/SignedCookie/Written.antt =====
-- A signed token is written into a cookie as it is: no byte of it is dropped.
use atrium_core.Base.{
  ℕ, ◌≡◌, refl, ap, ◌∙◌, true, Bool-cases, inl, inr, arith, [], ◌∷◌, ◌++◌, Text, All, All-append,
}
use atrium_core.Base64.{digit, encode}
use atrium_core.Crypto.{Crypto}
use atrium_core.Http.{is_cookie_byte, sanitized}
use atrium_core.SignedCookie.{seal}

pub sanitized-cons :
    (c : ℕ) (s : Text) → is_cookie_byte c ≡ true → sanitized (c ∷ s) ≡ c ∷ sanitized s
sanitized-cons c s h = rw h refl

pub sanitized-append : (s t : Text) → sanitized (s ++ t) ≡ sanitized s ++ sanitized t
sanitized-append [] t = refl
sanitized-append (c ∷ s) t = elim (Bool-cases (is_cookie_byte c)) [
  | inl e ↦ rw e (ap (λ u. c ∷ u) (sanitized-append s t))
  | inr e ↦ rw e (sanitized-append s t)
]

digit-is_cookie_byte : (d : ℕ) → is_cookie_byte (digit d) ≡ true
unfolding digit
digit-is_cookie_byte d = ground arith

abbrev pub IsCookieByte : ℕ → Type 0
IsCookieByte c = is_cookie_byte c ≡ true

pub sanitized_same : (s : Text) → All IsCookieByte s → sanitized s ≡ s
sanitized_same [] h = refl
sanitized_same (c ∷ s) (b, h) = sanitized-cons c s b ∙ ap (λ u. c ∷ u) (sanitized_same s h)

encode-IsCookieByte : (s : Text) → All IsCookieByte (encode s)
unfolding encode
encode-IsCookieByte [] = tt
encode-IsCookieByte (a ∷ []) = (digit-is_cookie_byte _, (digit-is_cookie_byte _, tt))
encode-IsCookieByte (a ∷ b ∷ []) =
    (digit-is_cookie_byte _, (digit-is_cookie_byte _, (digit-is_cookie_byte _, tt)))
encode-IsCookieByte (a ∷ b ∷ c ∷ s) = (
  digit-is_cookie_byte _,
  (
    digit-is_cookie_byte _,
    (digit-is_cookie_byte _, (digit-is_cookie_byte _, encode-IsCookieByte s)),
  ),
)

pub sanitized-seal :
    (crypto : Crypto) (key payload : Text)
    → sanitized (seal crypto key payload) ≡ seal crypto key payload
unfolding seal
sanitized-seal crypto key payload = sanitized_same _ (
    All-append IsCookieByte (encode payload) (b'.' ∷ encode (crypto.hmac_sha256 key payload))
      (encode-IsCookieByte payload) (refl, encode-IsCookieByte (crypto.hmac_sha256 key payload)))
