-- ===== src/Branding.antt =====
-- internal/branding: the files below /branding/, mounted or embedded. The two file systems and
-- http.ServeContent are parameters.
pub mod Valid
use atrium_core.Base.{
  Bool, true, false, not, ◌&&◌, ◌||◌, Option, none, some, List, [], ◌∷◌, Text, txt, ◌==◌, is_empty,
  if◌then◌else◌,
}
use atrium_core.Strings.{has_prefix, trim_prefix}
use atrium_core.Path.{clean}
use atrium_core.Http.{Request, Run, set_header, error}

pub record Info : Type 0 where
  pub is_dir : Bool
  pub mod_time : Text

-- An open file, with what Stat returns of it, `none` for its error.
pub record File : Type 0 where
  pub info : Option Info
  pub bytes : Text

-- os.OpenRoot, then Root.Open; the Open of the embedded files; the zero time; and
-- http.ServeContent, with the name and the modification time.
pub record Files : Type 0 where
  pub open_root : Text → Option (Text → Option File)
  pub open_default : Text → Option File
  pub zero_time : Text
  pub serve_content : Request → Text → Text → File → Run

abbrev pub not_found : Run
not_found = error (txt "404 page not found") 404

-- The file that Open gives, and its modification time, unless it is a directory or cannot be opened.
unfoldable pub regular : Option File → Option (File × Text)
regular none = none
regular (some f) = elim f.info [
  | none ↦ none
  | some info ↦ if info.is_dir then none else some (f, info.mod_time)
]

abbrev pub opened : Option (Text → Option File) → Text → Option (File × Text)
opened none name = none
opened (some root) name = regular (root name)

-- The name that a path asks for, `none` for an escape attempt.
unfoldable pub requested : Text → Option Text
requested path =
    let name = clean (trim_prefix path (txt "/")) in
    if name == txt "." || has_prefix name (txt "..") || has_prefix name (txt "/")
    then none
    else some name

module _ (files : Files) where
  -- serveMounted: `none` where it does not handle the request.
  unfoldable pub serve_mounted : Request → Text → Text → Option Run
  serve_mounted r dir name = elim (opened (files.open_root dir) name) [
    | none ↦ none
    | some (f, mod_time) ↦ some (files.serve_content r name mod_time f)
  ]

  -- serveDefault
  unfoldable pub serve_default : Request → Text → Run
  serve_default r name = elim (regular (files.open_default name)) [
    | none ↦ not_found
    | some (f, mod_time) ↦ files.serve_content r name files.zero_time f
  ]

  -- The mounted file if there is one, else the default.
  abbrev pub mounted_or : Option Run → Run → Run
  mounted_or none default = default
  mounted_or (some mounted) default = mounted

  -- The handler below the prefix, for the name that is asked for.
  abbrev pub serve_name : Text → Option Text → Request → Run
  serve_name dir none r w = not_found w
  serve_name dir (some name) r w =
      mounted_or (if is_empty dir then none else serve_mounted r dir name) (serve_default r name)
        (set_header (txt "Cache-Control") (txt "no-cache") w)

  -- http.StripPrefix, with r.URL.RawPath.
  abbrev pub strip_prefix : Text → Text → (Request → Run) → Request → Run
  strip_prefix prefix raw_path next r w =
      if has_prefix r.path prefix && (is_empty raw_path || has_prefix raw_path prefix)
      then next (record r { path = trim_prefix r.path prefix }) w
      else not_found w

  -- Handler
  unfoldable pub handler : Text → Text → Request → Run
  handler dir raw_path =
      strip_prefix (txt "/branding/") raw_path (λ r. serve_name dir (requested r.path) r)
