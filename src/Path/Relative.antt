-- ===== src/Path/Relative.antt =====
-- A relative path, cleaned: it is made of proper elements, or begins with "..".
use mathlib.Core.List.{reverse_aux}
use atrium_core.Base.{
  ℕ, ◌≡◌, ◌≢◌, ◌⊎◌, inl, inr, refl, ◌∙◌, ap, true, false, List, [], ◌∷◌, Text, txt, ◌==◌, ==_iff,
  All, Bool-cases, arith,
}
use atrium_core.Strings.{split, split_byte, join}
use atrium_core.Strings.Laws.{split-append, split-eq_single}
use atrium_core.Path.{pop, step, clean_from}

-- Neither empty nor ".", and without a slash.
abbrev pub IsItem : Text → Type 0
IsItem e = (e ≢ []) × (e ≢ txt ".") × All (λ c. c ≢ b'/') e

abbrev pub NotUp : Text → Type 0
NotUp e = e ≢ txt ".."

abbrev pub EndsUp : List Text → Type 0
EndsUp [] = ⊥
EndsUp (e ∷ []) = e ≡ txt ".."
EndsUp (e ∷ next ∷ stack) = EndsUp (next ∷ stack)

abbrev pub StartsUp : List Text → Type 0
StartsUp [] = ⊥
StartsUp (e ∷ parts) = e ≡ txt ".."

-- A stack without "..", or with ".." at its bottom.
abbrev pub IsBased : List Text → Type 0
IsBased stack = All NotUp stack ⊎ EndsUp stack

dots-IsItem : IsItem (txt "..")
unfolding txt
dots-IsItem = (λ e. cc (e), λ e. cc (e), omega arith)

differ : (s t : Text) → (s == t) ≡ false → s ≢ t
differ s t e p = let b : (s == t) ≡ true = (==_iff s t).1 p in cc (b, e)

split_byte-NoSlash :
    (c : ℕ) (parts : List Text)
    → All (All (λ d. d ≢ b'/')) parts
    → All (All (λ d. d ≢ b'/')) (split_byte b'/' c parts)
unfolding split_byte
split_byte-NoSlash c [] h = (tt, tt)
split_byte-NoSlash c (part ∷ parts) h = ground arith

split-NoSlash : (s : Text) → All (All (λ d. d ≢ b'/')) (split b'/' s)
unfolding split
split-NoSlash [] = (tt, tt)
split-NoSlash (c ∷ s) = split_byte-NoSlash c (split b'/' s) (split-NoSlash s)

pop-IsItem : (stack : List Text) → All IsItem stack → All IsItem (pop false stack)
unfolding pop
pop-IsItem [] h = (dots-IsItem, tt)
pop-IsItem (top ∷ below) (p, h) = elim (Bool-cases (top == txt "..")) [
  | inl e ↦ rw e (dots-IsItem, (p, h))
  | inr e ↦ rw e h
]

push-EndsUp : (e : Text) (stack : List Text) → EndsUp stack → EndsUp (e ∷ stack)
push-EndsUp e [] h = elim h [ ]
push-EndsUp e (next ∷ stack) h = h

below-EndsUp : (e : Text) (stack : List Text) → NotUp e → EndsUp (e ∷ stack) → EndsUp stack
below-EndsUp e [] n h = absurd (n h)
below-EndsUp e (next ∷ stack) n h = h

pop-IsBased : (stack : List Text) → IsBased stack → IsBased (pop false stack)
unfolding pop
pop-IsBased [] h = inr refl
pop-IsBased (top ∷ below) h = elim (Bool-cases (top == txt "..")) [
  | inl e ↦ elim h [ inl k ↦ absurd (k.0 ((==_iff top (txt "..")).0 e)) | inr k ↦ rw e (inr k) ]
  | inr e ↦ elim h [
    | inl k ↦ rw e (inl k.1)
    | inr k ↦ rw e (inr (below-EndsUp top below (differ top (txt "..") e) k))
  ]
]

step-IsItem :
    (stack : List Text) (part : Text)
    → All IsItem stack
    → All (λ d. d ≢ b'/') part
    → All IsItem (step false stack part)
unfolding step
step-IsItem stack [] h k = h
step-IsItem stack (c ∷ s) h k = elim (Bool-cases (c ∷ s == txt ".")) [
  | inl one ↦ rw one h
  | inr one ↦ elim (Bool-cases (c ∷ s == txt "..")) [
    | inl two ↦ rw (one, two) (pop-IsItem stack h)
    | inr two ↦ rw (one, two) ((λ e. cc (e), differ (c ∷ s) (txt ".") one, k), h)
  ]
]

step-IsBased : (stack : List Text) (part : Text) → IsBased stack → IsBased (step false stack part)
unfolding step
step-IsBased stack [] h = h
step-IsBased stack (c ∷ s) h = elim (Bool-cases (c ∷ s == txt ".")) [
  | inl one ↦ rw one h
  | inr one ↦ elim (Bool-cases (c ∷ s == txt "..")) [
    | inl two ↦ rw (one, two) (pop-IsBased stack h)
    | inr two ↦ elim h [
      | inl k ↦ rw (one, two) (inl (differ (c ∷ s) (txt "..") two, k))
      | inr k ↦ rw (one, two) (inr (push-EndsUp (c ∷ s) stack k))
    ]
  ]
]

reverse_aux-IsItem :
    (xs ys : List Text) → All IsItem xs → All IsItem ys → All IsItem (reverse_aux xs ys)
reverse_aux-IsItem [] ys h k = k
reverse_aux-IsItem (x ∷ xs) ys (p, h) k = reverse_aux-IsItem xs (x ∷ ys) h (p, k)

reverse_aux-NotUp :
    (xs ys : List Text) → All NotUp xs → All NotUp ys → All NotUp (reverse_aux xs ys)
reverse_aux-NotUp [] ys h k = k
reverse_aux-NotUp (x ∷ xs) ys (p, h) k = reverse_aux-NotUp xs (x ∷ ys) h (p, k)

reverse_aux-StartsUp : (xs ys : List Text) → EndsUp xs → StartsUp (reverse_aux xs ys)
reverse_aux-StartsUp [] ys h = elim h [ ]
reverse_aux-StartsUp (x ∷ []) ys h = h
reverse_aux-StartsUp (x ∷ next ∷ xs) ys h = reverse_aux-StartsUp (next ∷ xs) (x ∷ ys) h

-- The elements of a relative path, cleaned.
abbrev pub IsRelative : List Text → Type 0
IsRelative parts = All IsItem parts × (All NotUp parts ⊎ StartsUp parts)

reverse-IsRelative :
    (stack : List Text) → All IsItem stack → IsBased stack → IsRelative (reverse_aux stack [])
reverse-IsRelative stack h (inl k) =
    (reverse_aux-IsItem stack [] h tt, inl (reverse_aux-NotUp stack [] k tt))
reverse-IsRelative stack h (inr k) =
    (reverse_aux-IsItem stack [] h tt, inr (reverse_aux-StartsUp stack [] k))

clean_from-IsRelative :
    (stack parts : List Text)
    → All IsItem stack
    → IsBased stack
    → All (All (λ d. d ≢ b'/')) parts
    → IsRelative (clean_from false stack parts)
unfolding clean_from
clean_from-IsRelative stack [] h b k = reverse-IsRelative stack h b
clean_from-IsRelative stack (part ∷ parts) h b (p, k) =
    clean_from-IsRelative (step false stack part) parts (step-IsItem stack part h p)
      (step-IsBased stack part b) k

pub split-IsRelative : (s : Text) → IsRelative (clean_from false [] (split b'/' s))
split-IsRelative s = clean_from-IsRelative [] (split b'/' s) tt (inl tt) (split-NoSlash s)

pub split-join :
    (part : Text) (parts : List Text)
    → All IsItem (part ∷ parts)
    → split b'/' (join (b'/' ∷ []) (part ∷ parts)) ≡ part ∷ parts
unfolding join
split-join part [] (p, h) = split-eq_single b'/' part p.2
split-join part (next ∷ parts) (p, h) =
    split-append b'/' part (join (b'/' ∷ []) (next ∷ parts)) p.2
    ∙ ap (λ t. part ∷ t) (split-join next parts h)
