-- ===== src/Webui/Occurs.antt =====
-- The first place of a text in another, without reference to how it is searched for.
use atrium_core.Base.{
  ℕ, suc, ◌≤◌, ◌≡◌, refl, ap, true, false, Option, none, some, [], ◌∷◌, ◌++◌, Text, length,
  Bool-cases, inl, inr, eqb, arith,
}
use atrium_core.Strings.{has_prefix, cut, cut_text, cons_fst, drop}

-- `sub` stands nowhere in `s`.
abbrev pub IsAbsent : Text → Text → Type 0
IsAbsent sub s = (u v : Text) → s ≡ u ++ (sub ++ v) → ⊥

-- `sub` stands in `s` between `before` and `after`, and nowhere earlier.
pub record IsFirst (sub s before after : Text) : Type 0 where
  pub same : s ≡ before ++ (sub ++ after)
  pub first : (u v : Text) → s ≡ u ++ (sub ++ v) → length before ≤ length u

-- What a search for `sub` in `s` returns.
abbrev pub IsFound : Text → Text → Option (Text × Text) → Type 0
IsFound sub s none = IsAbsent sub s
IsFound sub s (some (before, after)) = IsFirst sub s before after

rest : Text → Text
rest [] = []
rest (c ∷ s) = s

has_prefix-append : (sub v : Text) → has_prefix (sub ++ v) sub ≡ true
unfolding has_prefix
has_prefix-append [] v = refl
has_prefix-append (c ∷ sub) v = ground (arith, has_prefix-append sub v)

has_prefix-drop : (sub s : Text) → has_prefix s sub ≡ true → s ≡ sub ++ drop sub s
unfolding has_prefix
has_prefix-drop [] s h = refl
has_prefix-drop (p ∷ ps) [] h = absurd (cc (h))
has_prefix-drop (p ∷ ps) (c ∷ s) h =
    let same : c ≡ p = ground arith in
    rw same (ap (λ t. p ∷ t) (has_prefix-drop ps s (ground arith)))

-- At the head of the text `sub` does not stand; so what is found in the rest is what is found in the whole.
cons-IsFound :
    (sub s : Text) (c : ℕ) (o : Option (Text × Text))
    → ((v : Text) → c ∷ s ≡ sub ++ v → ⊥)
    → IsFound sub s o
    → IsFound sub (c ∷ s) (cons_fst c o)
unfolding rest
cons-IsFound sub s c none k h = absent
  where
    absent : (u v : Text) → c ∷ s ≡ u ++ (sub ++ v) → ⊥
    absent [] v e = k v e
    absent (d ∷ u) v e = h u v (ap rest e)
cons-IsFound sub s c (some (before, after)) k h = record {
  same = ap (λ t. c ∷ t) h.same;
  first = later;
}
  where
    later : (u v : Text) → c ∷ s ≡ u ++ (sub ++ v) → suc (length before) ≤ length u
    later [] v e = absurd (k v e)
    later (d ∷ u) v e = let n = h.first u v (ap rest e) in omega arith

not_prefix : (sub s : Text) → has_prefix s sub ≡ false → (v : Text) → s ≡ sub ++ v → ⊥
not_prefix sub s h v e = cc (has_prefix-append sub v, h, e)

empty_prefix : (sub : Text) → has_prefix [] sub ≡ true → [] ≡ sub ++ []
unfolding has_prefix
empty_prefix [] h = refl
empty_prefix (p ∷ ps) h = absurd (cc (h))

nil-IsAbsent : (sub : Text) → has_prefix [] sub ≡ false → IsAbsent sub []
nil-IsAbsent sub h [] v e = not_prefix sub [] h v e
nil-IsAbsent sub h (d ∷ u) v e = cc (e)

pub cut_text-IsFound : (sub s : Text) → IsFound sub s (cut_text sub s)
unfolding cut_text
cut_text-IsFound sub [] = elim (Bool-cases (has_prefix [] sub)) [
  | inl e ↦ rw e (record { same = empty_prefix sub e; first = λ u v h. omega arith })
  | inr e ↦ rw e (nil-IsAbsent sub e)
]
cut_text-IsFound sub (c ∷ s) = elim (Bool-cases (has_prefix (c ∷ s) sub)) [
  | inl e ↦ rw e (record { same = has_prefix-drop sub (c ∷ s) e; first = λ u v h. omega arith })
  | inr e ↦
      rw e
        (cons-IsFound sub s c (cut_text sub s) (not_prefix sub (c ∷ s) e) (cut_text-IsFound sub s))
]

pub cut-IsFound : (b : ℕ) (s : Text) → IsFound (b ∷ []) s (cut b s)
unfolding cut has_prefix
cut-IsFound b [] = nil-IsAbsent (b ∷ []) refl
cut-IsFound b (c ∷ s) = elim (Bool-cases (eqb c b)) [
  | inl e ↦ rw e (record { same = ground arith; first = λ u v h. omega arith })
  | inr e ↦ rw e (
      cons-IsFound (b ∷ []) s c (cut b s) (not_prefix (b ∷ []) (c ∷ s) (ground arith))
        (cut-IsFound b s))
]
