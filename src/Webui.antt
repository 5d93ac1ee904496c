-- ===== src/Webui.antt =====
-- internal/webui: the compiled frontend as a single-page app, the configuration that is spliced into
-- its index.html, and the hashes of its inline scripts. The embedded files, the file server on them, the
-- JSON encoder and SHA-256 are parameters.
pub mod Occurs
pub mod Scan
pub mod Splice
pub mod Scripts
use atrium_core.Base.{
  ℕ, zero, suc, ◌+◌, Bool, true, false, not, ◌&&◌, ◌||◌, Option, none, some, List, [], ◌∷◌, ◌++◌,
  Text, txt, ◌==◌, length, if◌then◌else◌, is_empty, eqb, ℤ,
}
use atrium_core.Strings.{has_prefix, contains, cut, cut_text, trim_prefix}
use atrium_core.Path.{clean}
use atrium_core.Base64.{encode_std}
use atrium_core.Http.{Request, Run, raw, write, write_header, set_header, error}

pub record Brand : Type 0 where
  pub name : Text
  pub sub : Text
  pub default_theme : Text
  pub accent_color : Text

pub record ShellConfig : Type 0 where
  pub brand : Brand
  pub max_upload_size : ℤ
  pub session_idle_ttl : ℤ

-- The embedded files below dist: what there is, what is read of it (nothing on an error), and the
-- file server.
pub record Dist : Type 0 where
  pub has : Text → Bool
  pub read : Text → Text
  pub file_server : Request → Run

-- json.Marshal of the configuration, `none` on an error, and the 32 bytes of a SHA-256 sum.
pub record ShellCodec : Type 0 where
  pub marshal : ShellConfig → Option Text
  pub sha256 : Text → Text

-- spliceAfter
unfoldable pub splice_after : Text → Text → Text → Text
splice_after s anchor ins = elim (cut_text anchor s) [
  | none ↦ s
  | some (before, after) ↦ before ++ (anchor ++ (ins ++ after))
]

-- spliceBefore
unfoldable pub splice_before : Text → Text → Text → Text
splice_before s anchor ins = elim (cut_text anchor s) [
  | none ↦ s
  | some (before, after) ↦ before ++ (ins ++ (anchor ++ after))
]

-- accentStyle
unfoldable pub accent_style : Text → Text
accent_style accent =
    if is_empty accent
    then []
    else let tint = if eqb (length accent) 7 then accent ++ txt "1f" else accent in
      txt "\n    <style>:root{--primary:"
      ++ (accent
          ++ (txt ";--primary-hover:"
              ++ (accent
                  ++ (txt ";--accent-foreground:"
                      ++ (accent
                          ++ (txt ";--ring:"
                              ++ (accent ++ (txt ";--accent:" ++ (tint ++ txt "}</style>")))))))))

-- shellStatus
unfoldable pub shell_status : Text → ℕ
shell_status p =
    let cleaned = clean p in
    if cleaned == txt "/" || has_prefix cleaned (txt "/share/")
    then 200
    else if cleaned == txt "/auth/error"
    then 403
    else 404

-- serveShell
unfoldable pub serve_shell : Text → ℕ → Run
serve_shell index status w = write (raw index) (
    write_header status (
      set_header (txt "Cache-Control") (txt "no-cache")
        (set_header (txt "Content-Type") (txt "text/html; charset=utf-8") w)))

abbrev pub not_found : Request → Run
not_found r = error (txt "404 page not found") 404

-- What the loop of inlineScriptHashes finds of one script: the opening tag without its ">", the content,
-- and the text behind the closing tag; `none` where the loop stops.
abbrev pub script_content : Option (Text × Text) → Option (Text × Text × Text)
script_content none = none
script_content (some (open_tag, s)) = elim (cut_text (txt "</script>") s) [
  | none ↦ none
  | some (content, rest) ↦ some (open_tag, content, rest)
]

abbrev pub tag_of : Option (Text × Text) → Option (Text × Text × Text)
tag_of none = none
tag_of (some (before, s)) = script_content (cut b'>' (txt "<script" ++ s))

unfoldable pub next_script : Text → Option (Text × Text × Text)
next_script s = tag_of (cut_text (txt "<script") s)

-- The two parts of injectConfig: each is a no-op when unset.
abbrev pub spliced_script : Text → Text → Text
spliced_script s script = if is_empty script then s else splice_after s (txt "<head>") script

abbrev pub spliced_style : Text → Text → Text
spliced_style s style = if is_empty style then s else splice_before s (txt "</head>") style

module _ (codec : ShellCodec) where
  -- The token of a script in the content security policy.
  unfoldable pub hash_token : Text → Text
  hash_token content = txt "'sha256-" ++ (encode_std (codec.sha256 content) ++ txt "'")

  -- The token of an inline script, none for an external one.
  abbrev pub with_token : Text → Text → List Text → List Text
  with_token open_tag content hashes =
      if contains open_tag (txt "src=") then hashes else hash_token content ∷ hashes

  -- The loop of inlineScriptHashes; any fuel above the length of the text is enough.
  unfoldable pub hashes_from : ℕ → Text → List Text
  hashes_from zero s = []
  hashes_from (suc fuel) s = elim (next_script s) [
    | none ↦ []
    | some (open_tag, content, rest) ↦ with_token open_tag content (hashes_from fuel rest)
  ]

  -- inlineScriptHashes
  unfoldable pub inline_script_hashes : Text → List Text
  inline_script_hashes html = hashes_from (suc (length html)) html

  -- configScript
  unfoldable pub config_script : ShellConfig → Text
  config_script cfg = elim (codec.marshal cfg) [
    | none ↦ []
    | some json ↦
        if json == txt "{}"
        then []
        else txt "\n    <script>window.__ATRIUM__=" ++ (json ++ txt "</script>")
  ]

  -- injectConfig
  unfoldable pub inject_config : Text → ShellConfig → Text
  inject_config index cfg =
      spliced_style (spliced_script index (config_script cfg)) (accent_style cfg.brand.accent_color)

  -- The handler, for the files and the spliced shell.
  unfoldable pub serve_app : Dist → Text → Request → Run
  serve_app dist index r w =
      let name = trim_prefix (clean r.path) (txt "/") in
      if not (is_empty name) && dist.has name
      then dist.file_server r (
          if has_prefix name (txt "assets/")
          then set_header (txt "Cache-Control") (txt "public, max-age=31536000, immutable") w
          else w)
      else serve_shell index (shell_status r.path) w

  -- Handler: what serves the shell, and the hashes of its scripts; `none` where there is no dist.
  unfoldable pub handler : Option Dist → ShellConfig → (Request → Run) × List Text
  handler none cfg = (not_found, [])
  handler (some dist) cfg =
      let index = inject_config (dist.read (txt "index.html")) cfg in
      if dist.has (txt "index.html")
      then (serve_app dist index, inline_script_hashes index)
      else (not_found, [])
