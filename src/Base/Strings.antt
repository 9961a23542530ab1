-- ===== src/Base/Strings.antt =====
-- A Rust `String` or `&str` as the list of its Unicode scalar values, and `==` on it.
use Prim.Native.Nat.{ℕ}
use Prim.Native.Char.{code}
use Prim.Native.String.{String}
use mathlib.Core.Path.{◌≡◌, refl}
use mathlib.Core.Logic.{◌↔◌}
use mathlib.Core.Bool.{Bool, true, false, ◌&&◌, ◌||◌}
use mathlib.Core.List.{List, [], ◌∷◌}
use native.Mathlib.Omega.{arith}
use voindns_desktop.Base.Tests.{◌==◌}

abbrev pub Text : Type 0
Text = List ℕ

-- The scalar values of a literal.
unfoldable pub codes : String → Text
codes String.[] = []
codes (String.◌∷◌ c s) = code c ∷ codes s

unfoldable pub text_eq : Text → Text → Bool
text_eq [] [] = true
text_eq [] (d ∷ t) = false
text_eq (c ∷ s) [] = false
text_eq (c ∷ s) (d ∷ t) = c == d && text_eq s t

text_eq-to : (s t : Text) → text_eq s t ≡ true → s ≡ t
unfolding text_eq
text_eq-to [] [] h = refl
text_eq-to [] (d ∷ t) h = ground arith
text_eq-to (c ∷ s) [] h = ground arith
text_eq-to (c ∷ s) (d ∷ t) h = ground (arith, text_eq-to s t)

pub text_eq_refl : (s : Text) → text_eq s s ≡ true
unfolding text_eq
text_eq_refl [] = refl
text_eq_refl (c ∷ s) = ground (arith, text_eq_refl s)

pub text_eq_iff : (s t : Text) → (text_eq s t ≡ true) ↔ (s ≡ t)
text_eq_iff s t = (text_eq-to s t, λ e. rw (← e) (text_eq_refl s))

-- Whether the text is in the list.
unfoldable pub elem : Text → List Text → Bool
elem b [] = false
elem b (n ∷ ns) = text_eq b n || elem b ns
