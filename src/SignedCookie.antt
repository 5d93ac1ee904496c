-- ===== src/SignedCookie.antt =====
-- internal/signedcookie/signedcookie.go: authenticated values, "payload.signature" in base64url.
pub mod Laws
pub mod Written
use atrium_core.Base.{Option, none, some, [], ◌∷◌, ◌++◌, Text, ◌==◌, if◌then◌else◌}
use atrium_core.Strings.{cut}
use atrium_core.Base64.{encode, decode}
use atrium_core.Crypto.{Crypto}

module _ (crypto : Crypto) where
  -- mac
  abbrev pub mac : Text → Text → Text
  mac key payload = crypto.hmac_sha256 key payload

  -- Seal
  unfoldable pub seal : Text → Text → Text
  seal key payload = encode payload ++ b'.' ∷ encode (mac key payload)

  -- The comparison of the decoded signature with the expected one.
  unfoldable pub check_signature : Text → Option Text → Option Text → Option Text
  check_signature key none sig = none
  check_signature key (some payload) none = none
  check_signature key (some payload) (some sig) =
      if sig == mac key payload then some payload else none

  -- Open, `none` for ErrInvalid.
  unfoldable pub open_token : Text → Text → Option Text
  unfolding check_signature
  open_token key token = elim (cut b'.' token) [
    | none ↦ none
    | some (payload_part, sig_part) ↦ check_signature key (decode payload_part) (decode sig_part)
  ]
