-- ===== src/Tos/Acceptance.antt =====
-- What an acceptance cookie proves: consent of one recipient to one document.
use atrium_core.Base.{
  ◌≡◌, ◌↔◌, true, ◌&&◌, some, Text, ◌==◌, ==_iff, arith, All, Option-cases, inl, inr,
}
use atrium_core.Crypto.{Crypto, IsByteValued}
use atrium_core.Url.Bytes.{IsByte}
use atrium_core.SignedCookie.{seal, open_token}
use atrium_core.SignedCookie.Laws.{open_token-seal}
use atrium_core.Http.{Request, cookie}
use atrium_core.Auth.Session.{Time}
use atrium_core.Tos.{
  Manager, TosCodec, TosCookieData, acceptance, acceptance_cookie_name, check_acceptance, matches,
  verify_cookie, hash_email,
}

module _ (crypto : Crypto) (codec : TosCodec) where
  -- The request has an acceptance cookie that is signed under the manager's key and holds the hash of
  -- the email and the hash of the current document.
  pub record HasConsent (m : Manager) (r : Request) (email : Text) : Type 0 where
    pub token : Text
    pub payload : Text
    pub data_ : TosCookieData
    pub present : cookie r acceptance_cookie_name ≡ some token
    pub opened : open_token crypto m.signing_key token ≡ some payload
    pub decoded : codec.unmarshal payload ≡ some data_
    pub same_email : data_.email_hash ≡ hash_email crypto email
    pub same_document : data_.tos_hash ≡ m.content_hash

  -- encoding/json gives back what was written for this payload, as bytes.
  pub record IsFaithful (d : TosCookieData) (payload : Text) : Type 0 where
    pub written : codec.marshal d ≡ some payload
    pub read : codec.unmarshal payload ≡ some d
    pub bytes : All IsByte payload

  matches_sound :
      (m : Manager) (email : Text) (d : TosCookieData)
      → matches crypto codec m email (some d) ≡ true
      → (d.email_hash ≡ hash_email crypto email) × (d.tos_hash ≡ m.content_hash)
  matches_sound m email d h =
      ground
        (arith, ==_iff d.email_hash (hash_email crypto email), ==_iff d.tos_hash m.content_hash)

  matches_complete :
      (m : Manager) (email : Text) (d : TosCookieData)
      → d.email_hash ≡ hash_email crypto email
      → d.tos_hash ≡ m.content_hash
      → matches crypto codec m email (some d) ≡ true
  matches_complete m email d h k =
      ground
        (arith, ==_iff d.email_hash (hash_email crypto email), ==_iff d.tos_hash m.content_hash)

  consents :
      (m : Manager) (r : Request) (email : Text)
      → check_acceptance crypto codec m r email ≡ true
      → HasConsent m r email
  unfolding check_acceptance verify_cookie
  consents m r email h = elim (Option-cases (cookie r acceptance_cookie_name)) [
    | inl e ↦ absurd (cc (rw (e, check_acceptance) at h))
    | inr (token, e) ↦ elim (Option-cases (open_token crypto m.signing_key token)) [
      | inl f ↦ absurd (cc (rw (e, check_acceptance, f, verify_cookie) at h))
      | inr (payload, f) ↦ elim (Option-cases (codec.unmarshal payload)) [
        | inl g ↦ absurd (cc (rw (e, check_acceptance, f, verify_cookie, g) at h))
        | inr (d, g) ↦
            let (p, q) =
              matches_sound m email d (rw (e, check_acceptance, f, verify_cookie, g) at h) in
            record {
              token = token;
              payload = payload;
              data_ = d;
              present = e;
              opened = f;
              decoded = g;
              same_email = p;
              same_document = q;
            }
      ]
    ]
  ]

  has_consent :
      (m : Manager) (r : Request) (email : Text)
      → HasConsent m r email
      → check_acceptance crypto codec m r email ≡ true
  unfolding check_acceptance verify_cookie
  has_consent m r email c =
      rw (c.present, check_acceptance, c.opened, verify_cookie, c.decoded)
        (matches_complete m email c.data_ c.same_email c.same_document)

  -- Consent is recognised exactly where `HasConsent` holds.
  pub check_acceptance_iff :
      (m : Manager) (r : Request) (email : Text)
      → (check_acceptance crypto codec m r email ≡ true) ↔ HasConsent m r email
  check_acceptance_iff m r email = (consents m r email, has_consent m r email)

  -- A cookie that records the acceptance of `email` under one manager, presented to a manager with the
  -- same key on behalf of `other`: it counts exactly if the two emails have one hash and the two
  -- documents have one hash.
  pub check_acceptance-acceptance :
      (m m' : Manager) (r : Request) (email other : Text) (now : Time) (payload : Text)
      → IsByteValued crypto
      → IsFaithful (acceptance crypto codec m email now) payload
      → m'.signing_key ≡ m.signing_key
      → cookie r acceptance_cookie_name ≡ some (seal crypto m.signing_key payload)
      → check_acceptance crypto codec m' r other
        ≡ (hash_email crypto email == hash_email crypto other && m.content_hash == m'.content_hash)
  unfolding check_acceptance verify_cookie
  check_acceptance-acceptance m m' r email other now payload valued faithful same present = rw (
    present,
    check_acceptance,
    same,
    open_token-seal crypto m.signing_key payload valued faithful.bytes,
    verify_cookie,
    faithful.read,
  )
