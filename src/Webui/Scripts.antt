-- ===== src/Webui/Scripts.antt =====
-- The script of the configuration is the first inline script of the shell, so its token is among those
-- of the content security policy.
use mathlib.Core.List.{append_assoc, append-nil}
use atrium_core.Base.{
  ℕ, suc, ◌≡◌, refl, ◌∙◌, ap, true, false, none, some, List, [], ◌∷◌, ◌++◌, Text, txt, ◌==◌, All,
  Option-cases, inl, inr, length, arith,
}
use atrium_core.Strings.{has_prefix, contains, cut, cut_text}
use atrium_core.Webui.{
  ShellConfig, ShellCodec, Dist, splice_after, splice_before, accent_style, config_script,
  inject_config, spliced_style, spliced_script, next_script, script_content, hash_token,
  hashes_from, inline_script_hashes, handler,
}
use atrium_core.Webui.Splice.{NoAngle, prefixed, cut_text-append, cut_text-NoAngle}

abbrev pub opening : Text → Text
opening s = txt "<head>\n    <script>window.__ATRIUM__=" ++ s

-- A shell with the configuration `json` behind its head tag.
abbrev pub shell : Text → Text → Text → Text
shell before json t = before ++ opening (json ++ (txt "</script>" ++ t))

first_script :
    (s : Text)
    → cut_text (txt "<script") (opening s)
      ≡ some (txt "<head>\n    ", txt ">window.__ATRIUM__=" ++ s)
unfolding cut_text has_prefix txt
first_script s = refl

no_head_end :
    (s : Text)
    → cut_text (txt "</head>") (opening s)
      ≡ prefixed (txt "<head>\n    <script>window.__ATRIUM__=") (cut_text (txt "</head>") s)
unfolding cut_text has_prefix txt
no_head_end s = elim (Option-cases (cut_text (txt "</head>") s)) [
  | inl e ↦ rw e refl
  | inr (parts, e) ↦ rw e refl
]

no_head_end_script :
    (s : Text)
    → cut_text (txt "</head>") (txt "</script>" ++ s)
      ≡ prefixed (txt "</script>") (cut_text (txt "</head>") s)
unfolding cut_text has_prefix txt
no_head_end_script s = elim (Option-cases (cut_text (txt "</head>") s)) [
  | inl e ↦ rw e refl
  | inr (parts, e) ↦ rw e refl
]

-- The first script of a shell: that of the configuration.
shell-script :
    (before json t : Text)
    → cut_text (txt "<script") before ≡ none
    → cut_text (txt "<script") (shell before json t)
      ≡ some (
        before ++ txt "<head>\n    ",
        txt ">window.__ATRIUM__=" ++ (json ++ (txt "</script>" ++ t)),
      )
unfolding txt
shell-script before json t e =
    cut_text-append (txt "script") before
      (txt "head>\n    <script>window.__ATRIUM__=" ++ (json ++ (txt "</script>" ++ t)))
      (omega arith) e
    ∙ ap (prefixed before) (first_script (json ++ (txt "</script>" ++ t)))

-- The end of the head is looked for behind the configuration.
shell-head_end :
    (before json t : Text)
    → cut_text (txt "</head>") before ≡ none
    → All NoAngle json
    → cut_text (txt "</head>") (shell before json t)
      ≡ prefixed before (
          prefixed
            (txt "<head>\n    <script>window.__ATRIUM__=")
            (prefixed json (prefixed (txt "</script>") (cut_text (txt "</head>") t))))
unfolding txt
shell-head_end before json t e h =
    cut_text-append (txt "/head>") before
      (txt "head>\n    <script>window.__ATRIUM__=" ++ (json ++ (txt "</script>" ++ t)))
      (omega arith) e
    ∙ ap (prefixed before) (
        no_head_end (json ++ (txt "</script>" ++ t))
        ∙ ap (prefixed (txt "<head>\n    <script>window.__ATRIUM__=")) (
            cut_text-append (txt "/head>") json (txt "/script>" ++ t) (omega arith)
              (cut_text-NoAngle (txt "/head>") json h)
            ∙ ap (prefixed json) (no_head_end_script t)))

-- What stands in a shell behind the configuration, with more at the end.
shell-append :
    (before json t more : Text)
    → (before ++ (txt "<head>\n    <script>window.__ATRIUM__=" ++ (json ++ (txt "</script>" ++ t))))
        ++ more
      ≡ shell before json (t ++ more)
unfolding txt
shell-append before json t more =
    append_assoc before (opening (json ++ (txt "</script>" ++ t))) more
    ∙ ap (λ s. before ++ opening s) (append_assoc json (txt "</script>" ++ t) more)

spliced_style-shell :
    (before json t style : Text)
    → cut_text (txt "</head>") before ≡ none
    → All NoAngle json
    → (t' : Text) × (spliced_style (shell before json t) style ≡ shell before json t')
unfolding splice_before
spliced_style-shell before json t [] e h = (t, refl)
spliced_style-shell before json t (c ∷ style) e h =
    elim (Option-cases (cut_text (txt "</head>") t)) [
      | inl none_left ↦ (t, rw (shell-head_end before json t e h, splice_before, none_left) refl)
      | inr ((first, last), found) ↦ (
        first ++ (c ∷ style ++ (txt "</head>" ++ last)),
        rw (shell-head_end before json t e h, splice_before, found)
            (shell-append before json first (c ∷ style ++ (txt "</head>" ++ last))),
      )
    ]

spliced_script-shell :
    (index before after json : Text)
    → cut_text (txt "<head>") index ≡ some (before, after)
    → spliced_script index (txt "\n    <script>window.__ATRIUM__=" ++ (json ++ txt "</script>"))
      ≡ shell before json after
unfolding splice_after txt
spliced_script-shell index before after json e =
    rw (e, splice_after) (ap (λ s. before ++ opening s) (append_assoc json (txt "</script>") after))

at_once : (t : Text) → cut_text (txt "</script>") (txt "</script>" ++ t) ≡ some ([], t)
unfolding cut_text has_prefix txt
at_once t = refl

closing :
    (json t : Text)
    → All NoAngle json
    → cut_text (txt "</script>") (json ++ (txt "</script>" ++ t)) ≡ some (json, t)
unfolding txt
closing json t h =
    cut_text-append (txt "/script>") json (txt "/script>" ++ t) (omega arith)
      (cut_text-NoAngle (txt "/script>") json h)
    ∙ ap (prefixed json) (at_once t)
    ∙ ap (λ s. some (s, t)) (append-nil json)

script_end :
    (json t : Text)
    → All NoAngle json
    → cut_text (txt "</script>") (txt "window.__ATRIUM__=" ++ (json ++ (txt "</script>" ++ t)))
      ≡ some (txt "window.__ATRIUM__=" ++ json, t)
unfolding cut_text has_prefix txt
script_end json t h = rw (closing json t h) refl

script_tag :
    (s : Text)
    → cut b'>' (txt "<script" ++ (txt ">window.__ATRIUM__=" ++ s))
      ≡ some (txt "<script", txt "window.__ATRIUM__=" ++ s)
unfolding cut txt
script_tag s = refl

next_script-shell :
    (before json t : Text)
    → cut_text (txt "<script") before ≡ none
    → All NoAngle json
    → next_script (shell before json t) ≡ some (txt "<script", txt "window.__ATRIUM__=" ++ json, t)
unfolding next_script
next_script-shell before json t e h =
    rw
      (
        shell-script before json t e,
        script_tag (json ++ (txt "</script>" ++ t)),
        script_content,
        script_end json t h,
      )
      refl

no_source : contains (txt "<script") (txt "src=") ≡ false
unfolding contains has_prefix txt
no_source = refl

module _ (codec : ShellCodec) where
  hashes_from-shell :
      (fuel : ℕ) (before json t : Text)
      → cut_text (txt "<script") before ≡ none
      → All NoAngle json
      → hashes_from codec (suc fuel) (shell before json t)
        ≡ hash_token codec (txt "window.__ATRIUM__=" ++ json) ∷ hashes_from codec fuel t
  unfolding hashes_from hash_token
  hashes_from-shell fuel before json t e h =
      rw (next_script-shell before json t e h, hashes_from, no_source) refl

  config_script_set :
      (cfg : ShellConfig) (json : Text)
      → codec.marshal cfg ≡ some json
      → (json == txt "{}") ≡ false
      → config_script codec cfg
        ≡ txt "\n    <script>window.__ATRIUM__=" ++ (json ++ txt "</script>")
  unfolding config_script
  config_script_set cfg json m set = rw (m, config_script, set) refl

  pub inject_config-shell :
      (index before after json : Text) (cfg : ShellConfig)
      → cut_text (txt "<head>") index ≡ some (before, after)
      → cut_text (txt "</head>") before ≡ none
      → codec.marshal cfg ≡ some json
      → (json == txt "{}") ≡ false
      → All NoAngle json
      → (t : Text) × (inject_config codec index cfg ≡ shell before json t)
  unfolding inject_config
  inject_config-shell index before after json cfg head no_end m set h =
      let style = accent_style cfg.brand.accent_color in
      let (t, e) = spliced_style-shell before json after style no_end h in
      (
        t,
        ap (λ s. spliced_style (spliced_script index s) style) (config_script_set cfg json m set)
            ∙ ap (λ s. spliced_style s style) (spliced_script-shell index before after json head)
            ∙ e,
      )

  -- For an index.html with a "<head>" tag and no script and no "</head>" before it: when a
  -- configuration is set, so encoded that no "<" stands in it (as encoding/json escapes it), the hashes that
  -- the handler hands to the content security policy begin with that of the script that it injects.
  pub handler-config_hash :
      (dist : Dist) (before after json : Text) (cfg : ShellConfig)
      → dist.has (txt "index.html") ≡ true
      → cut_text (txt "<head>") (dist.read (txt "index.html")) ≡ some (before, after)
      → cut_text (txt "<script") before ≡ none
      → cut_text (txt "</head>") before ≡ none
      → codec.marshal cfg ≡ some json
      → (json == txt "{}") ≡ false
      → All NoAngle json
      → (hashes : List Text) × ((handler codec (some dist) cfg).1
          ≡ hash_token codec (txt "window.__ATRIUM__=" ++ json) ∷ hashes)
  unfolding handler inline_script_hashes
  handler-config_hash dist before after json cfg there head no_script no_end m set h =
      let (t, e) =
        inject_config-shell (dist.read (txt "index.html")) before after json cfg head no_end m set
          h in
      (
        hashes_from codec (length (shell before json t)) t,
        rw (there, e) (hashes_from-shell (length (shell before json t)) before json t no_script h),
      )
