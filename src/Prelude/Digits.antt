-- ===== src/Prelude/Digits.antt =====
-- Digits of natural numbers in a base, as Python's format and str print them and int reads them.
-- A text is the list of its code points.
use Prim.Native.Char.{code}
use Prim.Native.String.{String}
use Prim.Native.Nat.{ℕ, zero, suc, ◌+◌, ◌*◌, ◌/◌, ◌%◌, ◌≤◌, ◌<◌}
use mathlib.Core.Path.{◌≡◌, refl, ap, ◌∙◌}
use mathlib.Core.Bool.{true, false}
use mathlib.Core.Logic.{inl, inr}
use mathlib.Core.List.{List, [], ◌∷◌, ◌++◌}
use native.Mathlib.Omega.{arith}
use native.Mathlib.Nat.{div-add-mod, mod-lt, div-lt_self}
use electionguard_python.Prelude.Tests.{ltb, Bool-cases, ltb→lt, not-ltb→le}

abbrev pub Text : Type 0
Text = List ℕ

-- The code points of a text of the source.
abbrev pub codes : String → Text
codes String.[] = []
codes (String.◌∷◌ c s) = code c ∷ codes s

-- The digits of n, the highest first. Fuel n is enough, since n / base < n.
unfoldable pub digits : ℕ → ℕ → ℕ → List ℕ
digits base zero n = n ∷ []
digits base (suc fuel) n = elim (ltb n base) [
  | true ↦ n ∷ []
  | false ↦ digits base fuel (n / base) ++ (n % base) ∷ []
]

-- What digits stand for, after those read before.
unfoldable pub from_digits : ℕ → ℕ → List ℕ → ℕ
from_digits base acc [] = acc
from_digits base acc (d ∷ ds) = from_digits base (acc * base + d) ds

pub from_digits-append :
    (base acc : ℕ) (xs ys : List ℕ)
    → from_digits base acc (xs ++ ys) ≡ from_digits base (from_digits base acc xs) ys
unfolding from_digits
from_digits-append base acc [] ys = refl
from_digits-append base acc (x ∷ xs) ys = from_digits-append base (acc * base + x) xs ys

-- Reading the digits of a number gives the number.
pub from_digits-digits : (base fuel n : ℕ) → 1 < base → from_digits base 0 (digits base fuel n) ≡ n
unfolding digits from_digits
from_digits-digits base zero n h = omega arith
from_digits-digits base (suc fuel) n h = elim (Bool-cases (ltb n base)) [
  | inl small ↦ rw (small, digits) (omega arith)
  | inr large ↦
      rw (large, digits)
        (from_digits-append base 0 (digits base fuel (n / base)) ((n % base) ∷ [])
          ∙ ap (λ t. t * base + n % base) (from_digits-digits base fuel (n / base) h)
          ∙ omega (arith, div-add-mod n base))
]

-- Every digit is below the base.
abbrev pub Below : ℕ → List ℕ → Type 0
Below b [] = Unit
Below b (d ∷ ds) = (d < b) × Below b ds

pub Below-append : (b : ℕ) (xs ys : List ℕ) → Below b xs → Below b ys → Below b (xs ++ ys)
Below-append b [] ys h k = k
Below-append b (x ∷ xs) ys h k = (h.0, Below-append b xs ys h.1 k)

pub digits-Below : (base fuel n : ℕ) → 1 < base → n ≤ fuel → Below base (digits base fuel n)
unfolding digits
digits-Below base zero n h k = (omega arith, tt)
digits-Below base (suc fuel) n h k = elim (Bool-cases (ltb n base)) [
  | inl small ↦ rw (small, digits) (ltb→lt n base small, tt)
  | inr large ↦
      rw (large, digits)
        (Below-append base _ _
          (digits-Below base fuel (n / base) h (
            omega
              (arith, div-lt_self {n = n} {k = base} (omega (arith, not-ltb→le n base large)) h)))
          (mod-lt n (omega arith), tt))
]

pub digits-cons : (base fuel n : ℕ) → (d : ℕ) × (ds : List ℕ) × (digits base fuel n ≡ d ∷ ds)
unfolding digits
digits-cons base zero n = (n, [], refl)
digits-cons base (suc fuel) n = elim (Bool-cases (ltb n base)) [
  | inl small ↦ (n, [], rw (small, digits))
  | inr large ↦
      let (d, ds, e) = digits-cons base fuel (n / base) in
      (d, ds ++ (n % base) ∷ [], rw (large, digits, e))
]
