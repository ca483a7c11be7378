-- ===== src/Examples/StandIns.antt =====
-- Functions with the documented behaviour of gmpy2 and hashlib, to instantiate the models with.
use electionguard_python.Prelude.{
  ℕ, zero, suc, ◌*◌, ◌%◌, ◌^◌, ◌≤◌, ◌<◌, ◌≡◌, refl, sym, ap, ◌∙◌, inl, inr, true, false, List, [],
  ◌∷◌, arith, ◌==◌, ==→eq, Bool-cases, dec_lt,
}
use native.Mathlib.Nat.{mod-lt}
use electionguard_python.Prelude.Int.{ℤ, pos, negsuc}
use electionguard_python.Prelude.Result.{Result, ok, raise, zero_division_error}
use electionguard_python.Modular.{mod-mul_right}
use electionguard_python.External.{Gmp, GmpLaws, Sha256}

-- The largest y below k with b * y = 1 modulo m.
find_inverse : ℕ → ℕ → ℕ → Result ℤ
find_inverse zero b m = raise zero_division_error
find_inverse (suc k) b m = elim (b * k % m == 1) [ true ↦ ok (pos k) | false ↦ find_inverse k b m ]

below_rest : (k b c m : ℕ) → b * c % m ≡ 1 → c < suc k → (b * k % m == 1) ≡ false → c < k
below_rest k b c m h below miss = elim (dec_lt c k) [
  | yes lt ↦ lt
  | no ge ↦
      let same : c ≡ k = omega arith in
      absurd (cc (sym miss ∙ ap (λ t. b * t % m == 1) (sym same) ∙ ap (λ t. t == 1) h))
]

find_inverse_lem :
    (k b c m : ℕ)
    → b * c % m ≡ 1
    → c < k
    → k ≤ m
    → (y : ℕ) × (find_inverse k b m ≡ ok (pos y)) × (y < m) × (b * y % m ≡ 1)
unfolding find_inverse
find_inverse_lem zero b c m h below le = absurd (omega arith)
find_inverse_lem (suc k) b c m h below le = elim (Bool-cases (b * k % m == 1)) [
  | inl hit ↦ (k, rw (hit, find_inverse), omega arith, ==→eq (b * k % m) 1 hit)
  | inr miss ↦
      rw (miss, find_inverse)
        (find_inverse_lem k b c m h (below_rest k b c m h below miss) (omega arith))
]

abbrev pub powmod_of : ℤ → ℤ → ℕ → ℤ
powmod_of (pos b) (pos e) m = pos (b ^ e % m)
powmod_of _ _ m = pos 0

abbrev invert_of : ℤ → ℕ → Result ℤ
invert_of (pos b) m = find_inverse m b m
invert_of (negsuc b) m = raise zero_division_error

abbrev to_binary_of : ℤ → List ℕ
to_binary_of (pos n) = 0 ∷ n ∷ []
to_binary_of (negsuc n) = 1 ∷ n ∷ []

abbrev from_binary_of : List ℕ → ℤ
from_binary_of (zero ∷ n ∷ []) = pos n
from_binary_of (suc _ ∷ n ∷ []) = negsuc n
from_binary_of _ = pos 0

-- It is shut: a proof uses its laws, and computes no power.
pub gmp : Gmp
gmp = record {
  powmod = powmod_of;
  invert = invert_of;
  to_binary = to_binary_of;
  from_binary = from_binary_of;
}

binary_round_trip : (x : ℤ) → from_binary_of (to_binary_of x) ≡ x
binary_round_trip (pos n) = refl
binary_round_trip (negsuc n) = refl

invert_of_lem :
    (b c m : ℕ)
    → 1 < m
    → b * c % m ≡ 1
    → (y : ℕ) × (invert_of (pos b) m ≡ ok (pos y)) × (y < m) × (b * y % m ≡ 1)
invert_of_lem b c m h inverse =
    find_inverse_lem m b (c % m) m (mod-mul_right b c m ∙ inverse) (mod-lt c (omega arith))
      (omega arith)

pub gmp_laws : GmpLaws gmp
unfolding gmp
gmp_laws = record {
  powmod_lem = λ b e m h. refl;
  invert_lem = invert_of_lem;
  from_binary-to_binary = binary_round_trip;
}

pub sha256 : Sha256
sha256 = record { digest = λ bytes. bytes }
