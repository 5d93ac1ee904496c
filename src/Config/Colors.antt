-- ===== src/Config/Colors.antt =====
-- Which texts pass as a colour.
use atrium_core.Base.{ℕ, ◌≡◌, ◌↔◌, ◌⊎◌, refl, ap, ◌∙◌, true, [], ◌∷◌, Text, length, All, arith}
use atrium_core.Config.Vars.{is_hex_color, is_hex_digit, all_hex}

abbrev pub IsHexDigit : ℕ → Type 0
IsHexDigit c = is_hex_digit c ≡ true

all_hex_sound : (s : Text) → all_hex s ≡ true → All IsHexDigit s
unfolding all_hex
all_hex_sound [] h = tt
all_hex_sound (c ∷ s) h = (ground arith, all_hex_sound s (ground arith))

all_hex_complete : (s : Text) → All IsHexDigit s → all_hex s ≡ true
unfolding all_hex
all_hex_complete [] h = refl
all_hex_complete (c ∷ s) (p, h) = let rest = all_hex_complete s h in ground arith

-- A colour is "#" and three, four, six or eight hexadecimal digits.
pub record IsColor (s : Text) : Type 0 where
  pub digits : Text
  pub shape : s ≡ b'#' ∷ digits
  pub count :
      (length digits ≡ 3) ⊎ ((length digits ≡ 4) ⊎ ((length digits ≡ 6) ⊎ (length digits ≡ 8)))
  pub hex : All IsHexDigit digits

-- isHexColor accepts exactly the texts of "#" and three, four, six or eight hexadecimal digits.
pub is_hex_color_iff : (s : Text) → (is_hex_color s ≡ true) ↔ IsColor s
unfolding is_hex_color
is_hex_color_iff [] = (λ h. absurd (cc), λ c. absurd (cc (c.shape)))
is_hex_color_iff (c ∷ s) = (
  λ h. record {
    digits = s;
    shape = ground arith;
    count = ground arith;
    hex = all_hex_sound s (ground arith);
  },
  λ k. complete k,
)
  where
    shown :
        (digits : Text)
        → (length digits ≡ 3) ⊎ ((length digits ≡ 4) ⊎ ((length digits ≡ 6) ⊎ (length digits ≡ 8)))
        → all_hex digits ≡ true
        → is_hex_color (b'#' ∷ digits) ≡ true
    shown digits n h = ground arith

    complete : IsColor (c ∷ s) → is_hex_color (c ∷ s) ≡ true
    complete k = ap is_hex_color k.shape ∙ shown k.digits k.count (all_hex_complete k.digits k.hex)
