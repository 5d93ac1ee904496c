-- ===== src/Path/Laws.antt =====
-- The target of a redirect to a rooted path stays on the site: it has one leading slash, and
-- neither a slash nor a backslash behind that.
use mathlib.Core.List.{reverse_aux}
use atrium_core.Base.{
  ℕ, ◌≡◌, refl, ◌≢◌, Bool-cases, inl, inr, eqb, true, false, none, some, List, [], ◌∷◌, ◌++◌, arith,
}
use atrium_core.Base.{Text, All, Option}
use atrium_core.Strings.{cut, has_prefix, cons_fst, split, split_byte, join}
use atrium_core.Path.{
  pop, step, clean_from, clean, ends_with_slash, escape_non_ascii, clean_target, clean_cut,
  clean_keeping_slash, redirect_target, rooted_target, is_hostless,
}

abbrev pub IsPlain : ℕ → Type 0
IsPlain c = (c ≢ b'/') × (c ≢ b'\\')

-- A path element: not empty, and free of slashes and backslashes.
abbrev IsElement : Text → Type 0
IsElement [] = ⊥
IsElement (c ∷ s) = All IsPlain (c ∷ s)

-- One leading slash, and neither a slash nor a backslash behind it.
abbrev pub IsLocal : Text → Type 0
IsLocal [] = ⊥
IsLocal (c ∷ []) = c ≡ b'/'
IsLocal (c ∷ d ∷ s) = (c ≡ b'/') × IsPlain d

abbrev pub NoBackslash : ℕ → Type 0
NoBackslash c = c ≢ b'\\'

split_byte-All :
    (c : ℕ) (parts : List Text)
    → NoBackslash c
    → All (All IsPlain) parts
    → All (All IsPlain) (split_byte b'/' c parts)
unfolding split_byte
split_byte-All c [] p h = (tt, tt)
split_byte-All c (part ∷ parts) p h = ground arith

split-All : (s : Text) → All NoBackslash s → All (All IsPlain) (split b'/' s)
unfolding split
split-All [] h = (tt, tt)
split-All (c ∷ s) (p, h) = split_byte-All c (split b'/' s) p (split-All s h)

step-All :
    (stack : List Text) (part : Text)
    → All IsElement stack
    → All IsPlain part
    → All IsElement (step true stack part)
unfolding step pop
step-All stack [] h k = h
step-All [] (c ∷ s) h k = ground arith
step-All (top ∷ below) (c ∷ s) h k = ground arith

All-reverse_aux :
    (xs ys : List Text) → All IsElement xs → All IsElement ys → All IsElement (reverse_aux xs ys)
All-reverse_aux [] ys h k = k
All-reverse_aux (x ∷ xs) ys (p, h) k = All-reverse_aux xs (x ∷ ys) h (p, k)

clean_from-All :
    (stack parts : List Text)
    → All IsElement stack
    → All (All IsPlain) parts
    → All IsElement (clean_from true stack parts)
unfolding clean_from
clean_from-All stack [] h k = All-reverse_aux stack [] h tt
clean_from-All stack (part ∷ parts) h (p, k) =
    clean_from-All (step true stack part) parts (step-All stack part h p) k

join-IsLocal : (parts : List Text) → All IsElement parts → IsLocal (b'/' ∷ join (b'/' ∷ []) parts)
unfolding join
join-IsLocal [] h = refl
join-IsLocal ([] ∷ parts) h = elim h.0 [ ]
join-IsLocal ((c ∷ s) ∷ []) h = (refl, h.0.0)
join-IsLocal ((c ∷ s) ∷ next ∷ parts) h = (refl, h.0.0)

clean-IsLocal : (s : Text) → All NoBackslash s → IsLocal (clean (b'/' ∷ s))
unfolding clean
clean-IsLocal s h =
    join-IsLocal (clean_from true [] (split b'/' s))
      (clean_from-All [] (split b'/' s) tt (split-All s h))

append-IsLocal_slash : (s : Text) → ends_with_slash s ≡ false → IsLocal s → IsLocal (s ++ b'/' ∷ [])
unfolding ends_with_slash
append-IsLocal_slash [] e h = elim h [ ]
append-IsLocal_slash (c ∷ []) e h = ground arith
append-IsLocal_slash (c ∷ d ∷ s) e h = h

clean_keeping_slash-IsLocal :
    (s : Text) → All NoBackslash s → IsLocal (clean_keeping_slash (b'/' ∷ s))
unfolding clean_keeping_slash
clean_keeping_slash-IsLocal s h =
    ground (arith, clean-IsLocal s h, append-IsLocal_slash (clean (b'/' ∷ s)))

append-IsLocal_query : (s query : Text) → IsLocal s → IsLocal (s ++ b'?' ∷ query)
append-IsLocal_query [] query h = elim h [ ]
append-IsLocal_query (c ∷ []) query h = (h, (λ e. omega arith, λ e. omega arith))
append-IsLocal_query (c ∷ d ∷ s) query h = h

escape_non_ascii-IsLocal : (s : Text) → IsLocal s → IsLocal (escape_non_ascii s)
unfolding escape_non_ascii
escape_non_ascii-IsLocal [] h = h
escape_non_ascii-IsLocal (c ∷ []) h = ground arith
escape_non_ascii-IsLocal (c ∷ d ∷ s) h = ground arith

abbrev before_query : Text → Option (Text × Text) → Text
before_query s none = s
before_query s (some (before, query)) = before

-- The bytes before the first question mark.
abbrev pub path_part : Text → Text
path_part s = before_query s (cut b'?' s)

clean_cut-IsLocal :
    (s : Text) (o : Option (Text × Text))
    → All NoBackslash (before_query s o)
    → IsLocal (clean_cut (b'/' ∷ s) (cons_fst b'/' o))
unfolding clean_cut
clean_cut-IsLocal s none h = clean_keeping_slash-IsLocal s h
clean_cut-IsLocal s (some (before, query)) h =
    append-IsLocal_query _ query (clean_keeping_slash-IsLocal before h)

clean_target-IsLocal :
    (s : Text) → All NoBackslash (path_part s) → IsLocal (clean_target (b'/' ∷ s))
unfolding clean_target cut
clean_target-IsLocal s h = clean_cut-IsLocal s (cut b'?' s) h

unclean-IsLocal :
    (s : Text)
    → has_prefix s (b'/' ∷ []) ≡ false
    → All NoBackslash (path_part s)
    → IsLocal (b'/' ∷ s)
unfolding has_prefix cut
unclean-IsLocal [] e h = refl
unclean-IsLocal (c ∷ s) e h = elim (Bool-cases (eqb c b'?')) [
  | inl q ↦ (refl, (ground arith, ground arith))
  | inr q ↦ (refl, (ground arith, behind (cut b'?' s) (rw q at h)))
]
  where
    behind :
        (o : Option (Text × Text))
        → All NoBackslash (before_query (c ∷ s) (cons_fst c o))
        → NoBackslash c
    behind none k = k.0
    behind (some (before, query)) k = k.0

rooted_target-IsLocal :
    (s : Text)
    → has_prefix s (b'/' ∷ []) ≡ false
    → All NoBackslash (path_part s)
    → IsLocal (rooted_target (b'/' ∷ s))
unfolding rooted_target
rooted_target-IsLocal s e h = elim (Bool-cases (is_hostless (b'/' ∷ s))) [
  | inl k ↦ rw k (clean_target-IsLocal s h)
  | inr k ↦ rw k (unclean-IsLocal s e h)
]

-- Whatever text with one leading slash and not two http.Redirect is given, if no backslash stands before
-- its query.
pub redirect_target-IsLocal :
    (s : Text)
    → has_prefix s (b'/' ∷ []) ≡ false
    → All NoBackslash (path_part s)
    → IsLocal (redirect_target (b'/' ∷ s))
unfolding redirect_target
redirect_target-IsLocal s e h = escape_non_ascii-IsLocal _ (rooted_target-IsLocal s e h)
