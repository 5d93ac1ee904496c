-- ===== src/Url/Reparse.antt =====
-- Parsing and escaping a path a second time changes nothing.
use atrium_core.Base.{
  ℕ, ◌<◌, ◌/◌, ◌%◌, false, is_empty, ◌≡◌, refl, true, arith, Text, All, [], ◌∷◌, ◌==◌, ==_refl,
  ==_iff, ◌⊎◌, ◌∙◌, txt,
}
use atrium_core.Base.{some, Bool-cases, inl, inr}
use atrium_core.Url.{
  url_of, path, escape, escape_byte, unescape, set_path, escaped_path, valid_encoded, valid_byte,
  upper_hex, should_escape, is_unreserved,
}
use atrium_core.Url.Bytes.{IsByte, IsPathByte}
use atrium_core.Url.Escape.{unescape-escape, escape-IsPathByte, valid_encoded-IsPathByte}

pub set_path-eq :
    (p query u : Text) → unescape p ≡ some u → set_path p query ≡ some (url_of p query u)
unfolding set_path
set_path-eq p query u e = rw (e, set_path)

star : (u : Text) → (u == b'*' ∷ []) ≡ true → txt "%2A" ≡ escape path u
unfolding txt escape escape_byte
star u h = rw ((==_iff u (b'*' ∷ [])).0 h)

-- The escaped path of a raw path is the raw path itself where that is validly escaped, or the
-- default escaping of the decoded path.
pub escaped_path-cases :
    (p query u : Text)
    → ((escaped_path (url_of p query u) ≡ p) × (valid_encoded p ≡ true))
      ⊎ (escaped_path (url_of p query u) ≡ escape path u)
unfolding escaped_path
escaped_path-cases p query u = elim (Bool-cases (escape path u == p)) [
  | inl e ↦ inr (ground (arith, star u))
  | inr e ↦ ground (arith, star u)
]

pub escaped_path-IsPathByte :
    (p query u : Text) → All IsByte u → All IsPathByte (escaped_path (url_of p query u))
escaped_path-IsPathByte p query u b = elim (escaped_path-cases p query u) [
  | inl (e, valid) ↦ rw e (valid_encoded-IsPathByte p valid)
  | inr e ↦ rw e (escape-IsPathByte u b)
]

escaped_path-query :
    (p query query' u : Text) → escaped_path (url_of p query u) ≡ escaped_path (url_of p query' u)
unfolding escaped_path
escaped_path-query p query query' u = refl

escaped_path_default :
    (query u : Text) → escaped_path (url_of (escape path u) query u) ≡ escape path u
unfolding escaped_path
escaped_path_default query u = ground (arith, ==_refl (escape path u), star u)

-- An escaped path, parsed again, is its own escaped path.
pub escaped_path_twice :
    (p query query' u : Text)
    → unescape p ≡ some u
    → All IsByte u
    → let o = escaped_path (url_of p query u) in
      (unescape o ≡ some u) × (escaped_path (url_of o query' u) ≡ o)
escaped_path_twice p query query' u e b = elim (escaped_path-cases p query u) [
  | inl (kept, valid) ↦ rw kept (e, escaped_path-query p query' query u ∙ kept)
  | inr fresh ↦ rw fresh (unescape-escape path u (λ q. cc) b, escaped_path_default query' u)
]

-- A validly escaped path is kept as it is.
pub escaped_path_valid :
    (p query u : Text)
    → is_empty p ≡ false
    → valid_encoded p ≡ true
    → escaped_path (url_of p query u) ≡ p
unfolding escaped_path
escaped_path_valid p query u n h = elim (Bool-cases (escape path u == p)) [
  | inl e ↦ ground (arith, star u, (==_iff (escape path u) p).0 e)
  | inr e ↦ ground arith
]

upper_hex-valid_byte : (d : ℕ) → d < 16 → valid_byte (upper_hex d) ≡ true
unfolding upper_hex valid_byte should_escape is_unreserved
upper_hex-valid_byte d h = ground arith

valid_byte_kept : (c : ℕ) → should_escape path c ≡ false → valid_byte c ≡ true
unfolding valid_byte
valid_byte_kept c e = rw e (ground arith)

-- The default escaping of a path is valid.
pub valid_encoded-escape : (u : Text) → All IsByte u → valid_encoded (escape path u) ≡ true
unfolding valid_encoded escape escape_byte valid_byte
valid_encoded-escape [] h = refl
valid_encoded-escape (c ∷ u) (b, h) =
    let rest = valid_encoded-escape u h in
    elim (Bool-cases (should_escape path c)) [
      | inl e ↦
          let hi = upper_hex-valid_byte (c / 16) (omega arith) in
          let lo = upper_hex-valid_byte (c % 16) (omega arith) in rw e (rw (hi, lo, rest) refl)
      | inr e ↦ rw e (ground (arith, valid_byte_kept c e, rest))
    ]
