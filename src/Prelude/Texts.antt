-- ===== src/Prelude/Texts.antt =====
-- Equality of texts, as the program compares its identifiers.
use mathlib.Core.Path.{◌≡◌, refl}
use mathlib.Core.Bool.{Bool, true, false, ◌&&◌}
use mathlib.Core.List.{[], ◌∷◌}
use native.Mathlib.Omega.{arith}
use electionguard_python.Prelude.Tests.{◌==◌, ==_self, ==→eq}
use electionguard_python.Prelude.Digits.{Text}

unfoldable pub eq_text : Text → Text → Bool
eq_text [] [] = true
eq_text (c ∷ s) (d ∷ t) = c == d && eq_text s t
eq_text _ _ = false

pub eq_text_self : (s : Text) → eq_text s s ≡ true
unfolding eq_text
eq_text_self [] = refl
eq_text_self (c ∷ s) = ground (arith, ==_self c, eq_text_self s)

pub eq_text→eq : (s t : Text) → eq_text s t ≡ true → s ≡ t
unfolding eq_text
eq_text→eq [] [] h = refl
eq_text→eq [] (d ∷ t) h = ground arith
eq_text→eq (c ∷ s) [] h = ground arith
eq_text→eq (c ∷ s) (d ∷ t) h = ground (arith, ==→eq c d, eq_text→eq s t)
