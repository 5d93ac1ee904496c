-- ===== src/E2e/Reply.antt =====
-- What the handlers of the stub provider (cmd/atrium-e2e/stubprovider.go) share: the bearer token, the verb
-- %q, serveFile and io.ReadAll.
use atrium_core.Base.{
  ℕ, ◌-◌, ◌/◌, ◌%◌, leb, ltb, ◌&&◌, ◌||◌, Option, none, some, [], ◌∷◌, ◌++◌, Text, txt,
  if◌then◌else◌, eqb,
}
use atrium_core.Strings.{has_prefix}
use atrium_core.Path.{lower_hex}
use atrium_core.Http.{
  Stream, eof, broken, too_large, chunk, Run, raw, write, write_header, set_header,
}

-- strings.TrimPrefix(s, "Bearer "): the prefix has seven bytes.
abbrev pub trim_bearer : Text → Text
trim_bearer s = if has_prefix s (txt "Bearer ") then drop_seven s else s
  where
    drop_seven : Text → Text
    drop_seven (a ∷ b ∷ c ∷ d ∷ e ∷ f ∷ g ∷ s) = s
    drop_seven s = s

-- One byte under the verb %q, for texts of printable characters and ASCII control characters.
unfoldable pub quote_byte : ℕ → Text → Text
quote_byte c rest =
    if eqb c 34 || eqb c 92
    then 92 ∷ c ∷ rest
    else if leb 7 c && leb c 13
    then 92 ∷ nth_control (c - 7) ∷ rest
    else if ltb c 32 || eqb c 127
    then 92 ∷ b'x' ∷ lower_hex (c / 16) ∷ lower_hex (c % 16) ∷ rest
    else c ∷ rest
  where
    nth_control : ℕ → ℕ
    nth_control n =
        if eqb n 0
        then b'a'
        else if eqb n 1
        then b'b'
        else if eqb n 2
        then b't'
        else if eqb n 3
        then b'n'
        else if eqb n 4
        then b'v'
        else if eqb n 5
        then b'f'
        else b'r'

unfoldable pub quoted : Text → Text
quoted [] = []
quoted (c ∷ s) = quote_byte c (quoted s)

-- serveFile
unfoldable pub serve_file : Text → Text → Run
serve_file name content w = write (raw content) (
    write_header 200 (
      set_header (txt "Content-Disposition")
        (txt "attachment; filename=\"" ++ (quoted name ++ txt "\""))
        (set_header (txt "Content-Type") (txt "application/octet-stream") w)))

-- io.ReadAll
unfoldable pub read_all : Stream → Option Text
read_all eof = some []
read_all broken = none
read_all too_large = none
read_all (chunk c s) = elim (read_all s) [ none ↦ none | some t ↦ some (c ++ t) ]
