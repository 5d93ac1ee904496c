-- ===== src/Tests/Harness.antt =====
-- The end-to-end harness and the mock provider of the unit tests at concrete inputs.
use atrium_core.Base.{◌≡◌, refl, ◌==◌, none, some, [], txt, pos}
use atrium_core.Http.{str, null, fresh, write_header}
use atrium_core.Config.Vars.{parse_int, digits}
use atrium_core.E2e.Harness.{getenv, upload_cap, root}
use atrium_core.Authtest.{merged}
use atrium_core.Tests.{anonymous}

small_cap : upload_cap (parse_int (txt "5")) ≡ pos 5
unfolding upload_cap digits txt
small_cap = refl

negative_cap : upload_cap (parse_int (txt "-5")) ≡ pos 104857600
unfolding upload_cap digits txt
negative_cap = refl

malformed_cap : upload_cap (parse_int (txt "5 MB")) ≡ pos 104857600
unfolding upload_cap digits txt
malformed_cap = refl

defaulted : getenv (λ name. []) (txt "ATRIUM_ADDR") (txt ":8080") ≡ txt ":8080"
unfolding getenv
defaulted = refl

-- Only a POST resets the store.
read_of_seed :
    root (λ s r w. (s, write_header 404 w)) [] [] [] (anonymous (txt "/_e2e/seed")) fresh
    ≡ ([], write_header 404 fresh)
unfolding root ◌==◌ txt
read_of_seed = refl

-- The claims of a test replace those of every token.
replaced : merged (λ k. some (str (txt "x"))) (λ k. some null) (txt "sub") ≡ some (str (txt "x"))
replaced = refl

kept : merged (λ k. none) (λ k. some null) (txt "sub") ≡ some null
kept = refl
