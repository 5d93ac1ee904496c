-- ===== src/Base/Bytes.antt =====
-- A Go string or byte slice is the list of its bytes. `txt` gives the bytes of a literal; it is
-- shut, so that proofs never spell a literal out, and tests unfold it.
use Prim.Native.Nat.{ℕ}
use Prim.Native.Char.{code}
use Prim.Native.String.{String}
use mathlib.Core.Path.{◌≡◌, refl}
use mathlib.Core.Logic.{◌↔◌}
use mathlib.Core.Bool.{Bool, true, false, ◌&&◌}
use mathlib.Core.Option.{Option, none, some}
use mathlib.Core.List.{List, [], ◌∷◌}
use native.Mathlib.Omega.{arith}
use atrium_core.Base.Tests.{eqb, eqb_iff, if◌then◌else◌}

abbrev pub Text : Type 0
Text = List ℕ

unfoldable pub txt : String → Text
txt String.[] = []
txt (String.◌∷◌ c s) = code c ∷ txt s

infix 50 ◌==◌
unfoldable pub ◌==◌ : Text → Text → Bool
[] == [] = true
(x ∷ xs) == (y ∷ ys) = eqb x y && xs == ys
_ == _ = false

pub ==_iff : (s t : Text) → ((s == t) ≡ true) ↔ (s ≡ t)
unfolding ◌==◌
==_iff [] [] = ground arith
==_iff (x ∷ xs) [] = ground arith
==_iff [] (y ∷ ys) = ground arith
==_iff (x ∷ xs) (y ∷ ys) = ground (arith, ==_iff xs ys, eqb_iff x y)

pub ==_refl : (s : Text) → (s == s) ≡ true
==_refl s = (==_iff s s).1 refl

-- The value stored first under a key.
unfoldable pub lookup {ℓ} : {A : Type ℓ} → Text → List (Text × A) → Option A
lookup k [] = none
lookup k ((j, v) ∷ m) = if j == k then some v else lookup k m

-- The value stored under a key, or the empty text, as `Header.Get` and `Query().Get` return it.
unfoldable pub get : Text → List (Text × Text) → Text
unfolding lookup
get k m = elim (lookup k m) [ none ↦ [] | some v ↦ v ]

-- The test `s == ""`.
abbrev pub is_empty : Text → Bool
is_empty [] = true
is_empty (c ∷ s) = false
