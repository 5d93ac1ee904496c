-- ===== src/Webui/Splice.antt =====
-- Where a tag is first found: behind a text that does not hold it, if what follows begins with "<".
use atrium_core.Base.{
  ℕ, ◌≡◌, ◌≢◌, refl, sym, Bool, true, false, Option, none, some, [], ◌∷◌, ◌++◌, Text, All,
  if◌then◌else◌, arith,
}
use atrium_core.Strings.{has_prefix, cut_text, cons_fst}

abbrev pub NoAngle : ℕ → Type 0
NoAngle c = c ≢ b'<'

-- A cut, behind a text.
abbrev pub prefixed : Text → Option (Text × Text) → Option (Text × Text)
prefixed p none = none
prefixed p (some (before, after)) = some (p ++ before, after)

prefixed_nil : (o : Option (Text × Text)) → prefixed [] o ≡ o
prefixed_nil none = refl
prefixed_nil (some (before, after)) = refl

cons_fst-prefixed :
    (c : ℕ) (p : Text) (o : Option (Text × Text)) → cons_fst c (prefixed p o) ≡ prefixed (c ∷ p) o
cons_fst-prefixed c p none = refl
cons_fst-prefixed c p (some (before, after)) = refl

has_prefix-append_angle :
    (sub q t : Text) → All NoAngle sub → has_prefix (q ++ b'<' ∷ t) sub ≡ has_prefix q sub
unfolding has_prefix
has_prefix-append_angle [] [] t h = refl
has_prefix-append_angle [] (c ∷ q) t h = refl
has_prefix-append_angle (p ∷ sub) [] t (n, h) = ground arith
has_prefix-append_angle (p ∷ sub) (c ∷ q) t (n, h) = rw (has_prefix-append_angle sub q t h) refl

has_prefix-cons_angle :
    (sub q t : Text) (c : ℕ)
    → All NoAngle sub
    → has_prefix (c ∷ q ++ b'<' ∷ t) (b'<' ∷ sub) ≡ has_prefix (c ∷ q) (b'<' ∷ sub)
unfolding has_prefix
has_prefix-cons_angle sub q t c h = rw (has_prefix-append_angle sub q t h) refl

cons_fst-eq-none : (c : ℕ) (o : Option (Text × Text)) → cons_fst c o ≡ none → o ≡ none
cons_fst-eq-none c none e = refl
cons_fst-eq-none c (some (before, after)) e = absurd (cc (e))

unchosen :
    (b : Bool) (found : Text × Text) (o : Option (Text × Text))
    → (if b then some found else o) ≡ none
    → (b ≡ false) × (o ≡ none)
unchosen true found o e = absurd (cc (e))
unchosen false found o e = (refl, e)

-- A text that does not hold a tag, and does not begin with it.
absent-cons :
    (sub s : Text) (c : ℕ)
    → cut_text sub (c ∷ s) ≡ none
    → (has_prefix (c ∷ s) sub ≡ false) × (cut_text sub s ≡ none)
unfolding cut_text
absent-cons sub s c e =
    let (first, later) = unchosen (has_prefix (c ∷ s) sub) _ _ e in
    (first, cons_fst-eq-none c _ later)

pub cut_text-append :
    (sub p t : Text)
    → All NoAngle sub
    → cut_text (b'<' ∷ sub) p ≡ none
    → cut_text (b'<' ∷ sub) (p ++ b'<' ∷ t) ≡ prefixed p (cut_text (b'<' ∷ sub) (b'<' ∷ t))
unfolding cut_text
cut_text-append sub [] t h e = sym (prefixed_nil _)
cut_text-append sub (c ∷ p) t h e =
    let (first, later) = absent-cons (b'<' ∷ sub) p c e in
    rw (cut_text, has_prefix-cons_angle sub p t c h, first, cut_text-append sub p t h later)
      (cons_fst-prefixed c p _)

pub cut_text-NoAngle : (sub p : Text) → All NoAngle p → cut_text (b'<' ∷ sub) p ≡ none
unfolding cut_text has_prefix
cut_text-NoAngle sub [] h = refl
cut_text-NoAngle sub (c ∷ p) (n, h) = rw (cut_text-NoAngle sub p h) (ground arith)
