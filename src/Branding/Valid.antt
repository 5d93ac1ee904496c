-- ===== src/Branding/Valid.antt =====
-- The names that the branding handler opens.
use mathlib.Core.Path.{subst}
use atrium_core.Base.{
  ℕ, ◌≡◌, ◌≢◌, inl, inr, refl, Bool, true, false, ◌||◌, none, some, List, [], ◌∷◌, Text, txt, ◌==◌,
  All, eqb, if◌then◌else◌, Bool-cases,
}
use atrium_core.Strings.{has_prefix, trim_prefix, split, join}
use atrium_core.Path.{clean, clean_from, or_dot}
use atrium_core.Path.Relative.{IsItem, NotUp, StartsUp, IsRelative, split-IsRelative, split-join}
use atrium_core.Branding.{requested}

-- fs.ValidPath, of a name other than ".": no element is empty, "." or "..".
abbrev pub IsValidPath : Text → Type 0
IsValidPath name = All (λ e. IsItem e × NotUp e) (split b'/' name)

both :
    (parts : List Text) → All IsItem parts → All NotUp parts → All (λ e. IsItem e × NotUp e) parts
both [] h k = tt
both (e ∷ parts) (p, h) (q, k) = ((p, q), both parts h k)

-- What the guard lets through.
abbrev Passes : Text → Type 0
Passes name = ((name == txt ".") || has_prefix name (txt "..") || has_prefix name (txt "/")) ≡ false

or_dot-join :
    (e : Text) (parts : List Text)
    → e ≢ []
    → or_dot (join (b'/' ∷ []) (e ∷ parts)) ≡ join (b'/' ∷ []) (e ∷ parts)
unfolding join
or_dot-join [] parts n = absurd (n refl)
or_dot-join (c ∷ e) [] n = refl
or_dot-join (c ∷ e) (next ∷ parts) n = refl

dots_first :
    (parts : List Text) → StartsUp parts → has_prefix (join (b'/' ∷ []) parts) (txt "..") ≡ true
unfolding join has_prefix txt
dots_first [] h = elim h [ ]
dots_first (e ∷ []) h = rw h refl
dots_first (e ∷ next ∷ parts) h = rw h refl

dot_refused : ¬ Passes (b'.' ∷ [])
unfolding ◌==◌ txt
dot_refused g = cc (g)

none_of : (a b c : Bool) → (a || b || c) ≡ false → (b ≡ false) × (c ≡ false)
none_of true b c e = absurd (cc (e))
none_of false true c e = absurd (cc (e))
none_of false false c e = (refl, e)

up_refused : (name : Text) → Passes name → has_prefix name (txt "..") ≢ true
up_refused name g e =
    let no : has_prefix name (txt "..") ≡ false = (none_of (name == txt ".") _ _ g).0 in cc (no, e)

has_prefix_slash : (s : Text) → has_prefix (b'/' ∷ s) (txt "/") ≡ true
unfolding has_prefix txt
has_prefix_slash [] = refl
has_prefix_slash (c ∷ s) = refl

slash_refused : (s : Text) → ¬ Passes (b'/' ∷ s)
slash_refused s g =
    let no : has_prefix (b'/' ∷ s) (txt "/") ≡ false =
      (none_of (b'/' ∷ s == txt ".") (has_prefix (b'/' ∷ s) (txt "..")) _ g).1 in
    cc (no, has_prefix_slash s)

rooted :
    (c : ℕ) (s : Text)
    → eqb c b'/' ≡ true
    → clean (c ∷ s) ≡ b'/' ∷ join (b'/' ∷ []) (clean_from true [] (split b'/' s))
unfolding clean
rooted c s e = rw e refl

relative :
    (c : ℕ) (s : Text)
    → eqb c b'/' ≡ false
    → clean (c ∷ s) ≡ or_dot (join (b'/' ∷ []) (clean_from false [] (split b'/' (c ∷ s))))
unfolding clean
relative c s e = rw e refl

join-IsValidPath :
    (parts : List Text)
    → IsRelative parts
    → Passes (or_dot (join (b'/' ∷ []) parts))
    → IsValidPath (or_dot (join (b'/' ∷ []) parts))
unfolding join
join-IsValidPath [] r g = absurd (dot_refused g)
join-IsValidPath (e ∷ parts) (items, inr up) g =
    absurd
      (up_refused _ (subst Passes (or_dot-join e parts items.0.0) g) (dots_first (e ∷ parts) up))
join-IsValidPath (e ∷ parts) (items, inl plain) g =
    rw (or_dot-join e parts items.0.0, split-join e parts items) (both (e ∷ parts) items plain)

clean-IsValidPath : (s : Text) → Passes (clean s) → IsValidPath (clean s)
unfolding clean
clean-IsValidPath [] g = absurd (dot_refused g)
clean-IsValidPath (c ∷ s) g = elim (Bool-cases (eqb c b'/')) [
  | inl e ↦ absurd (slash_refused _ (subst Passes (rooted c s e) g))
  | inr e ↦ rw e (
      join-IsValidPath (clean_from false [] (split b'/' (c ∷ s))) (split-IsRelative (c ∷ s))
        (subst Passes (relative c s e) g))
]

chosen :
    (b : Bool) (n name : Text) → (if b then none else some n) ≡ some name → (b ≡ false) × (n ≡ name)
chosen true n name e = absurd (cc (e))
chosen false n name e = (refl, cc (e))

-- For every path of a request: a name that the handler opens, in the mount or among the defaults, has only
-- elements that are neither empty nor "." nor "..".
pub requested-IsValidPath : (path name : Text) → requested path ≡ some name → IsValidPath name
unfolding requested
requested-IsValidPath path name e =
    let (passes, same) = chosen _ _ name e in
    subst IsValidPath same (clean-IsValidPath (trim_prefix path (txt "/")) passes)
