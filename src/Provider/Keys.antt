-- ===== src/Provider/Keys.antt =====
-- internal/provider/keys.go: the signing key of the client. The parsers and printers of encoding/pem and
-- crypto/x509 are parameters, `none` for their errors.
use atrium_core.Base.{
  ◌≡◌, refl, ◌↔◌, ◌⊎◌, inl, inr, Bool, true, Option, none, some, Text, if◌then◌else◌, Option-cases,
  Bool-cases, sym, ◌∙◌, ap,
}

-- What is read of an ECDSA key: whether its curve is P-256, and the DER bytes of its public half.
pub record EcKey : Type 0 where
  pub is_p256 : Bool
  pub public_der : Option Text

-- A key in PKCS#8: ECDSA or of another kind.
pub data Pkcs8Key : Type 0 where
  ecdsa : EcKey → Pkcs8Key
  other_kind : Pkcs8Key

-- pem.Decode, with the bytes of the first block; the parsers of SEC1 and PKCS#8; and
-- pem.EncodeToMemory of a block of type "PUBLIC KEY".
pub record KeyParsers : Type 0 where
  pub pem_block : Text → Option Text
  pub parse_sec1 : Text → Option EcKey
  pub parse_pkcs8 : Text → Option Pkcs8Key
  pub pem_public : Text → Text

abbrev pub ecdsa_of : Option Pkcs8Key → Option EcKey
ecdsa_of none = none
ecdsa_of (some (ecdsa k)) = some k
ecdsa_of (some other_kind) = none

module _ (parsers : KeyParsers) where
  -- parseECPrivateKey
  unfoldable pub parse_ec_private_key : Text → Option EcKey
  parse_ec_private_key der = elim (parsers.parse_sec1 der) [
    | some k ↦ some k
    | none ↦ ecdsa_of (parsers.parse_pkcs8 der)
  ]

  abbrev pub on_p256 : Option EcKey → Option EcKey
  on_p256 none = none
  on_p256 (some k) = if k.is_p256 then some k else none

  -- LoadPrivateKey
  unfoldable pub load_private_key : Text → Option EcKey
  load_private_key pem = elim (parsers.pem_block pem) [
    | none ↦ none
    | some der ↦ on_p256 (parse_ec_private_key der)
  ]

  -- PublicKeyPEM
  unfoldable pub public_key_pem : EcKey → Option Text
  public_key_pem k = elim k.public_der [ none ↦ none | some der ↦ some (parsers.pem_public der) ]

  -- The public half of a configured key, where newClient can use it.
  unfoldable pub usable_key : Text → Option Text
  usable_key pem = elim (load_private_key pem) [ none ↦ none | some k ↦ public_key_pem k ]

  -- A PEM text that holds a P-256 key, in SEC1, or in PKCS#8 where it is not SEC1.
  pub record IsLoaded (pem : Text) (k : EcKey) : Type 0 where
    pub der : Text
    pub block : parsers.pem_block pem ≡ some der
    pub form :
        (parsers.parse_sec1 der ≡ some k)
        ⊎ ((parsers.parse_sec1 der ≡ none) × (parsers.parse_pkcs8 der ≡ some (ecdsa k)))
    pub curve : k.is_p256 ≡ true

  loads : (pem : Text) (k : EcKey) → IsLoaded pem k → load_private_key pem ≡ some k
  unfolding load_private_key parse_ec_private_key
  loads pem k l = elim l.form [
    | inl e ↦ rw (l.block, load_private_key, e, parse_ec_private_key, l.curve) refl
    | inr (n, e) ↦ rw (l.block, load_private_key, n, parse_ec_private_key, e, l.curve) refl
  ]

  on_p256_sound :
      (o : Option EcKey) (k : EcKey) → on_p256 o ≡ some k → (o ≡ some k) × (k.is_p256 ≡ true)
  on_p256_sound none k h = absurd (cc (h))
  on_p256_sound (some j) k h = elim (Bool-cases j.is_p256) [
    | inl e ↦
        let same : j ≡ k = cc (rw e at h) in (ap some same, ap (λ i. i.is_p256) (sym same) ∙ e)
    | inr e ↦ absurd (cc (rw e at h))
  ]

  ecdsa_of_sound : (o : Option Pkcs8Key) (k : EcKey) → ecdsa_of o ≡ some k → o ≡ some (ecdsa k)
  ecdsa_of_sound none k h = absurd (cc (h))
  ecdsa_of_sound (some (ecdsa j)) k h = cc (h)
  ecdsa_of_sound (some other_kind) k h = absurd (cc (h))

  parsed_sound :
      (der : Text) (k : EcKey)
      → parse_ec_private_key der ≡ some k
      → (parsers.parse_sec1 der ≡ some k)
        ⊎ ((parsers.parse_sec1 der ≡ none) × (parsers.parse_pkcs8 der ≡ some (ecdsa k)))
  unfolding parse_ec_private_key
  parsed_sound der k h = elim (Option-cases (parsers.parse_sec1 der)) [
    | inl n ↦
        inr (n, ecdsa_of_sound (parsers.parse_pkcs8 der) k (rw (n, parse_ec_private_key) at h))
    | inr (j, e) ↦ inl (e ∙ (rw (e, parse_ec_private_key) at h))
  ]

  is_loaded : (pem : Text) (k : EcKey) → load_private_key pem ≡ some k → IsLoaded pem k
  unfolding load_private_key
  is_loaded pem k h = elim (Option-cases (parsers.pem_block pem)) [
    | inl n ↦ absurd (cc (rw (n, load_private_key) at h))
    | inr (der, e) ↦
        let (parsed, curve) =
          on_p256_sound (parse_ec_private_key der) k (rw (e, load_private_key) at h) in
        record { der = der; block = e; form = parsed_sound der k parsed; curve = curve }
  ]

  -- A key is loaded exactly if its PEM block holds a P-256 key: in SEC1, or in PKCS#8 where the block is not
  -- SEC1.
  pub load_private_key_iff :
      (pem : Text) (k : EcKey) → (load_private_key pem ≡ some k) ↔ IsLoaded pem k
  load_private_key_iff pem k = (is_loaded pem k, loads pem k)
