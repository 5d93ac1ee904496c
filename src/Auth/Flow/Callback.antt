-- ===== src/Auth/Flow/Callback.antt =====
-- The response of the callback: the flow's cookies go in every case, and a session comes only with a sign-in.
use mathlib.Core.Path.{subst}
use atrium_core.Base.{
  ℕ, ◌≡◌, refl, ◌∙◌, ap, none, some, List, [], ◌∷◌, ◌++◌, Text, txt, ◌==◌, ==_refl, lookup, get,
  Bool-cases, inl, inr,
}
use atrium_core.Base.Result.{ok, err}
use atrium_core.Crypto.{Crypto}
use atrium_core.Slog.{Logger, Level, Attr}
use atrium_core.Http.{
  Request, Out, Cookie, cookie, set_cookie, written, redirect, write_header, set_header, put, emit,
}
use atrium_core.Path.{redirect_target}
use atrium_core.Audit.{log}
use atrium_core.Auth.Next.{next_of_cookie}
use atrium_core.Auth.Session.{OidcAuth, Codec, Time, create_session_cookie}
use atrium_core.Auth.Session.Issue.{create_session_cookie-written}
use atrium_core.Auth.Flow.{
  Idp, Refusal, SignedIn, sign_in, cookie_state, cookie_nonce, cookie_pkce, cookie_next_path,
  cleared, clear_flow_cookies, record_refusal, state_mismatch, pkce_missing, exchange_failed,
  id_token_missing, verification_failed, nonce_mismatch, undecodable_claims, provider_error,
  email_not_verified, email_missing, mfa_missing, auth_too_old, finish_callback, start_session,
  callback_handler, error_path, auth_error,
}

-- A response of which nothing but cookies, headers and log lines has been written, and its cookies.
pub record IsOpen (cookies : List Cookie) (w : Out) : Type 0 where
  pub unwritten : w.status ≡ none
  pub holds : w.cookies ≡ cookies

-- A redirect that was answered, with its cookies.
pub record IsRedirect (code : ℕ) (target : Text) (cookies : List Cookie) (w : Out) : Type 0 where
  pub answered : w.status ≡ some code
  pub leads : get (txt "Location") w.header ≡ redirect_target target
  pub holds : w.cookies ≡ cookies

lookup-put : (k v : Text) (h : List (Text × Text)) → lookup k (put k v h) ≡ some v
unfolding lookup put
lookup-put k v [] = rw (==_refl k)
lookup-put k v ((j, u) ∷ h) = elim (Bool-cases (j == k)) [
  | inl e ↦ rw (e, ==_refl k)
  | inr e ↦ rw (e, e) (lookup-put k v h)
]

get-put : (k v : Text) (h : List (Text × Text)) → get k (put k v h) ≡ v
unfolding get
get-put k v h = rw (lookup-put k v h, get)

set_cookie-cookies :
    (c : Cookie) (w : Out)
    → w.status ≡ none
    → (set_cookie c w).cookies ≡ w.cookies ++ written c ∷ []
unfolding set_cookie
set_cookie-cookies c w h = rw h refl

set_cookie-status : (c : Cookie) (w : Out) → w.status ≡ none → (set_cookie c w).status ≡ none
unfolding set_cookie
set_cookie-status c w h = rw h refl

pub set_cookie-IsOpen :
    (c : Cookie) (l : List Cookie) (w : Out)
    → IsOpen l w
    → IsOpen (l ++ written c ∷ []) (set_cookie c w)
set_cookie-IsOpen c l w o = record {
  unwritten = set_cookie-status c w o.unwritten;
  holds = set_cookie-cookies c w o.unwritten ∙ ap (λ l. l ++ written c ∷ []) o.holds;
}

pub redirect-IsRedirect :
    (target : Text) (code : ℕ) (l : List Cookie) (w : Out)
    → IsOpen l w
    → IsRedirect code target l (redirect target code w)
unfolding redirect set_header write_header
redirect-IsRedirect target code l w o = rw o.unwritten (record {
  answered = refl;
  leads = get-put (txt "Location") (redirect_target target) w.header;
  holds = o.holds;
})

emit-IsOpen :
    (logger : Logger) (at : Level) (message : Text) (attrs : List Attr) (l : List Cookie) (w : Out)
    → IsOpen l w
    → IsOpen l (emit logger at message attrs w)
unfolding emit
emit-IsOpen logger at message attrs l w o = record { unwritten = o.unwritten; holds = o.holds }

pub log-IsOpen :
    (logger : Logger) (r : Request) (at : Level) (event : Text) (attrs : List Attr)
    (l : List Cookie) (w : Out)
    → IsOpen l w
    → IsOpen l (log logger r at event attrs w)
unfolding log emit
log-IsOpen logger r at event attrs l w o = record { unwritten = o.unwritten; holds = o.holds }

record_refusal-IsOpen :
    (a : OidcAuth) (r : Request) (e : Refusal) (l : List Cookie) (w : Out)
    → IsOpen l w
    → IsOpen l (record_refusal a r e w)
unfolding record_refusal
record_refusal-IsOpen a r state_mismatch l w o = emit-IsOpen _ _ _ _ l w o
record_refusal-IsOpen a r pkce_missing l w o = emit-IsOpen _ _ _ _ l w o
record_refusal-IsOpen a r exchange_failed l w o = emit-IsOpen _ _ _ _ l w o
record_refusal-IsOpen a r id_token_missing l w o = emit-IsOpen _ _ _ _ l w o
record_refusal-IsOpen a r verification_failed l w o = emit-IsOpen _ _ _ _ l w o
record_refusal-IsOpen a r nonce_mismatch l w o = emit-IsOpen _ _ _ _ l w o
record_refusal-IsOpen a r undecodable_claims l w o = emit-IsOpen _ _ _ _ l w o
record_refusal-IsOpen a r (provider_error c d) l w o = emit-IsOpen _ _ _ _ l w o
record_refusal-IsOpen a r (email_not_verified m) l w o = log-IsOpen _ r _ _ _ l w o
record_refusal-IsOpen a r email_missing l w o = log-IsOpen _ r _ _ _ l w o
record_refusal-IsOpen a r (mfa_missing m c) l w o = log-IsOpen _ r _ _ _ l w o
record_refusal-IsOpen a r (auth_too_old m) l w o = log-IsOpen _ r _ _ _ l w o

-- The cookies that remove the flow's cookies.
abbrev pub flow_cleared : OidcAuth → List Cookie
flow_cleared a =
    cleared a cookie_state
    ∷ cleared a cookie_nonce
    ∷ cleared a cookie_pkce
    ∷ cleared a cookie_next_path
    ∷ []

clear_flow_cookies-IsOpen :
    (a : OidcAuth) (w : Out)
    → w.status ≡ none
    → w.cookies ≡ []
    → IsOpen (flow_cleared a) (clear_flow_cookies a w)
unfolding clear_flow_cookies
clear_flow_cookies-IsOpen a w s c = set_cookie-IsOpen _ _ _ (
    set_cookie-IsOpen _ _ _
      (set_cookie-IsOpen _ _ _ (set_cookie-IsOpen _ _ w (record { unwritten = s; holds = c }))))

module _ (crypto : Crypto) (codec : Codec) (a : OidcAuth) (idp : Idp) (r : Request)
    (checked now now' : Time) (w : Out) where
  -- A refused sign-in, whatever the reason, is answered with a redirect (303) to the error page that
  -- removes the four cookies of the flow and sets no other cookie.
  pub callback_handler-refused :
      (e : Refusal)
      → w.status ≡ none
      → w.cookies ≡ []
      → sign_in a idp r checked ≡ err e
      → IsRedirect 303 error_path
          (flow_cleared a)
          (callback_handler a crypto codec idp r checked now now' w)
  unfolding callback_handler finish_callback auth_error
  callback_handler-refused e s c h = rw h (
      redirect-IsRedirect error_path 303 _ _
        (record_refusal-IsOpen a r e _ _ (clear_flow_cookies-IsOpen a w s c)))

  -- A sign-in whose session cookie can be made is answered with a redirect (302) to the path kept at
  -- its start, made safe once more, that removes the cookies of the flow and sets the session cookie.
  pub callback_handler-signed_in :
      (s : SignedIn) (session : Cookie)
      → w.status ≡ none
      → w.cookies ≡ []
      → sign_in a idp r checked ≡ ok s
      → create_session_cookie crypto codec a s.claims.email s.raw_id_token now now' ≡ some session
      → IsRedirect 302
          (next_of_cookie (cookie r cookie_next_path))
          (flow_cleared a ++ session ∷ [])
          (callback_handler a crypto codec idp r checked now now' w)
  unfolding callback_handler finish_callback start_session
  callback_handler-signed_in s session u c h made =
      rw (h, made)
        (redirect-IsRedirect _ 302 _ _ (
          log-IsOpen _ r _ _ _ _ _ (
            subst
              (λ k. IsOpen (flow_cleared a ++ k ∷ []) (set_cookie session (clear_flow_cookies a w)))
              (create_session_cookie-written crypto codec a s.claims.email s.raw_id_token now now'
                session made)
              (set_cookie-IsOpen session _ _ (clear_flow_cookies-IsOpen a w u c)))))
