-- ===== src/Strings/Laws.antt =====
-- Cutting a text at a byte.
use atrium_core.Base.{
  ℕ, ◌≡◌, refl, ◌≢◌, false, none, some, [], ◌∷◌, ◌++◌, Option, eqb, Bool-cases, inl, inr,
}
use atrium_core.Base.{Text, List, eqb_refl, arith, All}
use atrium_core.Strings.{cut, cut_or, cut_results, cons_fst, contains_byte, split, split_byte}

-- A text cut at a byte that its first part does not hold.
pub cut-append : (b : ℕ) (s t : Text) → contains_byte b s ≡ false → cut b (s ++ b ∷ t) ≡ some (s, t)
unfolding cut contains_byte
cut-append b [] t h = ground (arith, eqb_refl b)
cut-append b (c ∷ s) t h = ground (arith, cut-append b s t)

pub cut-eq-none : (b : ℕ) (s : Text) → contains_byte b s ≡ false → cut b s ≡ none
unfolding cut contains_byte
cut-eq-none b [] h = refl
cut-eq-none b (c ∷ s) h = ground (arith, cut-eq-none b s)

pub cut_or-append :
    (b : ℕ) (s t : Text) → contains_byte b s ≡ false → cut_or b (s ++ b ∷ t) ≡ (s, t)
unfolding cut_or
cut_or-append b s t h = rw (cut-append b s t h)

pub cut_or_absent : (b : ℕ) (s : Text) → contains_byte b s ≡ false → cut_or b s ≡ (s, [])
unfolding cut_or
cut_or_absent b s h = rw (cut-eq-none b s h)

pub contains_byte-All : (b : ℕ) (s : Text) → All (λ c. c ≢ b) s → contains_byte b s ≡ false
unfolding contains_byte
contains_byte-All b [] h = refl
contains_byte-All b (c ∷ s) (p, h) = ground (arith, contains_byte-All b s h)

module _ {ℓ} (P : ℕ → Type ℓ) (b : ℕ) where
  cons_fst-All :
      (c : ℕ) (s : Text) (o : Option (Text × Text))
      → P c
      → All P (cut_results s o).0 × All P (cut_results s o).1
      → All P (cut_results (c ∷ s) (cons_fst c o)).0 × All P (cut_results (c ∷ s) (cons_fst c o)).1
  cons_fst-All c s none p h = ((p, h.0), h.1)
  cons_fst-All c s (some (before, after)) p h = ((p, h.0), h.1)

  -- What holds of every byte holds of the bytes of both parts.
  pub cut_or-All : (s : Text) → All P s → All P (cut_or b s).0 × All P (cut_or b s).1
  unfolding cut_or
  cut_or-All [] h = (tt, tt)
  cut_or-All (c ∷ s) (p, h) = elim (Bool-cases (eqb c b)) [
    | inl e ↦ rw e (tt, h)
    | inr e ↦ rw e (cons_fst-All c s (cut b s) p (cut_or-All s h))
  ]

cons_fst-ne :
    (b c : ℕ) (s : Text) (o : Option (Text × Text))
    → c ≢ b
    → All (λ d. d ≢ b) (cut_results s o).0
    → All (λ d. d ≢ b) (cut_results (c ∷ s) (cons_fst c o)).0
cons_fst-ne b c s none p h = (p, h)
cons_fst-ne b c s (some (before, after)) p h = (p, h)

-- The first part does not hold the byte.
pub cut_or-ne : (b : ℕ) (s : Text) → All (λ d. d ≢ b) (cut_or b s).0
unfolding cut_or
cut_or-ne b [] = tt
cut_or-ne b (c ∷ s) = elim (Bool-cases (eqb c b)) [
  | inl e ↦ rw e tt
  | inr e ↦ rw e (cons_fst-ne b c s (cut b s) (ground arith) (cut_or-ne b s))
]

pub cut_or-cons :
    (b c : ℕ) (s : Text) → c ≢ b → cut_or b (c ∷ s) ≡ (c ∷ (cut_or b s).0, (cut_or b s).1)
unfolding cut_or
cut_or-cons b c s h = cons (cut b s) (ground arith)
  where
    cons :
        (o : Option (Text × Text))
        → cut b (c ∷ s) ≡ cons_fst c o
        → cut_results (c ∷ s) (cut b (c ∷ s)) ≡ (c ∷ (cut_results s o).0, (cut_results s o).1)
    cons none e = rw e
    cons (some (before, after)) e = rw e

pub split-eq_single : (b : ℕ) (s : Text) → All (λ c. c ≢ b) s → split b s ≡ s ∷ []
unfolding split split_byte
split-eq_single b [] h = refl
split-eq_single b (c ∷ s) (p, h) = rw (split-eq_single b s h) (ground arith)

split_byte-ne-nil : (b c : ℕ) (parts : List Text) → split_byte b c parts ≢ []
unfolding split_byte
split_byte-ne-nil b c [] = ground arith
split_byte-ne-nil b c (part ∷ parts) = ground arith

pub split-ne-nil : (b : ℕ) (s : Text) → split b s ≢ []
unfolding split
split-ne-nil b [] = ground arith
split-ne-nil b (c ∷ s) = split_byte-ne-nil b c (split b s)

split_byte_at : (b : ℕ) (parts : List Text) → parts ≢ [] → split_byte b b parts ≡ [] ∷ parts
unfolding split_byte
split_byte_at b [] h = absurd (h refl)
split_byte_at b (part ∷ parts) h = ground (arith, eqb_refl b)

-- A text whose first part does not hold the byte is split behind that part.
pub split-append : (b : ℕ) (s t : Text) → All (λ c. c ≢ b) s → split b (s ++ b ∷ t) ≡ s ∷ split b t
unfolding split split_byte
split-append b [] t h = split_byte_at b (split b t) (split-ne-nil b t)
split-append b (c ∷ s) t (p, h) = rw (split-append b s t h) (ground arith)
