-- ===== src/External.antt =====
-- The third-party calls of the program, as records of operations and of their documented laws.
-- gmpy2 (group.py): arbitrary-precision arithmetic. hashlib's sha256 (hash.py) is a function from
-- bytes to bytes. The laws speak of the calls that do not raise.
use electionguard_python.Prelude.{ℕ, ◌*◌, ◌%◌, ◌^◌, ◌<◌, ◌≡◌, List}
use electionguard_python.Prelude.Int.{ℤ, pos}
use electionguard_python.Prelude.Result.{Result, ok}

pub record Gmp : Type 0 where
  -- powmod(b, e, m) at an exponent that is not negative
  pub powmod : ℤ → ℤ → ℕ → ℤ
  -- invert(b, m), which is also powmod(b, -1, m): ZeroDivisionError where there is no inverse
  pub invert : ℤ → ℕ → Result ℤ
  pub to_binary : ℤ → List ℕ
  pub from_binary : List ℕ → ℤ

pub record GmpLaws (gmp : Gmp) : Type 0 where
  -- "powmod(x, y, m) returns (x ** y) mod m"
  pub powmod_lem : (b e m : ℕ) → 1 < m → gmp.powmod (pos b) (pos e) m ≡ pos (b ^ e % m)
  -- "invert(x, m) returns y such that x * y == 1 modulo m", if there is such a y
  pub invert_lem :
      (b c m : ℕ)
      → 1 < m
      → b * c % m ≡ 1
      → (y : ℕ) × (gmp.invert (pos b) m ≡ ok (pos y)) × (y < m) × (b * y % m ≡ 1)
  -- "from_binary(to_binary(x)) is x"
  pub from_binary-to_binary : (x : ℤ) → gmp.from_binary (gmp.to_binary x) ≡ x

-- hashlib.sha256: the digest of a byte string.
pub record Sha256 : Type 0 where
  pub digest : List ℕ → List ℕ
