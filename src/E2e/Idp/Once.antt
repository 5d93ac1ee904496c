-- ===== src/E2e/Idp/Once.antt =====
-- A code of the mock identity provider is exchanged once, for the identity that it was handed out for.
use atrium_core.Base.{
  ℕ, ◌≡◌, refl, ap, false, Option, none, some, List, [], ◌∷◌, Text, txt, ◌==◌, ==_refl, lookup, get,
  Bool-cases, inl, inr,
}
use atrium_core.Http.{Request, Out, error}
use atrium_core.E2e.Idp.{
  Codes, MockOidc, delete_code, identity, submit, handle_auth_submit, exchange, token_answer,
  id_claims, handle_token,
}

lookup-delete_code : (code : Text) (s : Codes) → lookup code (delete_code code s) ≡ none
unfolding lookup delete_code
lookup-delete_code code [] = refl
lookup-delete_code code ((k, d) ∷ s) = elim (Bool-cases (k == code)) [
  | inl e ↦ rw e (lookup-delete_code code s)
  | inr e ↦ rw (e, e) (lookup-delete_code code s)
]

delete_code_absent : (code : Text) (s : Codes) → lookup code s ≡ none → delete_code code s ≡ s
unfolding lookup delete_code
delete_code_absent code [] h = refl
delete_code_absent code ((k, d) ∷ s) h = elim (Bool-cases (k == code)) [
  | inl e ↦ absurd (cc (rw e at h))
  | inr e ↦ rw e (ap (λ t. (k, d) ∷ t) (delete_code_absent code s (rw e at h)))
]

-- Deleting a code brings no other one back.
lookup-delete_other :
    (code other : Text) (s : Codes)
    → lookup code s ≡ none
    → lookup code (delete_code other s) ≡ none
unfolding lookup delete_code
lookup-delete_other code other [] h = refl
lookup-delete_other code other ((k, d) ∷ s) h = elim (Bool-cases (k == code)) [
  | inl e ↦ absurd (cc (rw e at h))
  | inr e ↦ elim (Bool-cases (k == other)) [
    | inl o ↦ rw o (lookup-delete_other code other s (rw e at h))
    | inr o ↦ rw (o, e) (lookup-delete_other code other s (rw e at h))
  ]
]

module _ (p : MockOidc) where
  -- The requests to the provider, in which no submit is given the code `code` by randomHex.
  pub data Later (code : Text) : Codes → Codes → Type 0 where
    now_on : {s : Codes} → Later code s s
    submitted :
        {s t : Codes} (other : Text) (r : Request) (w : Out)
        → (other == code) ≡ false
        → Later code s t
        → Later code s (handle_auth_submit p other t r w).0
    redeemed :
        {s t : Codes} (now : ℕ) (r : Request) (w : Out)
        → Later code s t
        → Later code s (handle_token p now t r w).0

  submitted-absent :
      (code other : Text) (s : Codes) (o : Option (List (Text × Text))) (w : Out)
      → (other == code) ≡ false
      → lookup code s ≡ none
      → lookup code (submit p o other s w).0 ≡ none
  unfolding lookup
  submitted-absent code other s none w n h = h
  submitted-absent code other s (some form) w n h = rw n (lookup-delete_other code other s h)

  exchanged-absent :
      (code : Text) (now : ℕ) (s : Codes) (o : Option (List (Text × Text))) (w : Out)
      → lookup code s ≡ none
      → lookup code (exchange p o now s w).0 ≡ none
  exchanged-absent code now s none w h = h
  exchanged-absent code now s (some form) w h = lookup-delete_other code (get (txt "code") form) s h

  submit-absent :
      (code other : Text) (s : Codes) (r : Request) (w : Out)
      → (other == code) ≡ false
      → lookup code s ≡ none
      → lookup code (handle_auth_submit p other s r w).0 ≡ none
  unfolding handle_auth_submit
  submit-absent code other s r w n h = submitted-absent code other s (p.parse_form r) w n h

  token-absent :
      (code : Text) (now : ℕ) (s : Codes) (r : Request) (w : Out)
      → lookup code s ≡ none
      → lookup code (handle_token p now s r w).0 ≡ none
  unfolding handle_token
  token-absent code now s r w h = exchanged-absent code now s (p.parse_form r) w h

  Later-absent :
      (code : Text) {s t : Codes} → Later code s t → lookup code s ≡ none → lookup code t ≡ none
  Later-absent code now_on h = h
  Later-absent code (submitted other r w n l) h =
      submit-absent code other _ r w n (Later-absent code l h)
  Later-absent code (redeemed now r w l) h = token-absent code now _ r w (Later-absent code l h)

  exchange_absent :
      (code : Text) (now : ℕ) (s : Codes) (o : Option (List (Text × Text)))
      (form : List (Text × Text)) (w : Out)
      → o ≡ some form
      → get (txt "code") form ≡ code
      → lookup code s ≡ none
      → exchange p o now s w ≡ (s, error (txt "invalid_grant") 400 w)
  exchange_absent code now s o form w f c h = rw (f, c, h, delete_code_absent code s h) refl

  exchange-absent :
      (code : Text) (now : ℕ) (s : Codes) (o : Option (List (Text × Text)))
      (form : List (Text × Text)) (w : Out)
      → o ≡ some form
      → get (txt "code") form ≡ code
      → lookup code (exchange p o now s w).0 ≡ none
  exchange-absent code now s o form w f c = rw (f, c) (lookup-delete_code code s)

  -- Once a token request has named a code, every later token request with that code is refused with 400 and
  -- changes nothing, whatever requests come between, as long as randomHex does not draw the code again.
  pub handle_token_once :
      (code : Text) (form form' : List (Text × Text)) (now now' : ℕ) (s t : Codes) (r r' : Request)
      (w w' : Out)
      → p.parse_form r ≡ some form
      → get (txt "code") form ≡ code
      → p.parse_form r' ≡ some form'
      → get (txt "code") form' ≡ code
      → Later code (handle_token p now s r w).0 t
      → handle_token p now' t r' w' ≡ (t, error (txt "invalid_grant") 400 w')
  unfolding handle_token
  handle_token_once code form form' now now' s t r r' w w' f c f' c' l =
      exchange_absent code now' t (p.parse_form r') form' w' f' c'
        (Later-absent code l (exchange-absent code now s (p.parse_form r) form w f c))

  -- A code that a login form was given is exchanged for the token of that form: its address, whether it
  -- is verified, and the nonce of the flow.
  pub handle_auth_submit-handle_token :
      (code : Text) (form form' : List (Text × Text)) (now : ℕ) (s : Codes) (r r' : Request)
      (w w' : Out)
      → p.parse_form r ≡ some form
      → p.parse_form r' ≡ some form'
      → get (txt "code") form' ≡ code
      → (handle_token p now (handle_auth_submit p code s r w).0 r' w').1
        ≡ token_answer p (p.sign (id_claims p now (identity p form))) w'
  unfolding handle_token handle_auth_submit lookup
  handle_auth_submit-handle_token code form form' now s r r' w w' f f' c =
      rw (f', c, f, ==_refl code) refl
