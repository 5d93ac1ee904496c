-- ===== src/Crypto.antt =====
-- The functions that the gateway takes from Go's crypto and from golang.org/x/text, as parameters.
use atrium_core.Base.{Text, All}
use atrium_core.Url.Bytes.{IsByte}

pub record Crypto : Type 0 where
  -- HMAC-SHA256 of a message under a key.
  pub hmac_sha256 : Text → Text → Text
  -- The SHA-256 sum of a text, in hexadecimal.
  pub sha256_hex : Text → Text
  -- strings.ToLower
  pub to_lower : Text → Text
  -- norm.NFKC.String
  pub nfkc : Text → Text

-- A message authentication code is a byte string.
pub record IsByteValued (crypto : Crypto) : Type 0 where
  pub hmac_bytes : (key message : Text) → All IsByte (crypto.hmac_sha256 key message)
