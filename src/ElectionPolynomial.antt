-- ===== src/ElectionPolynomial.antt =====
-- election_polynomial.py: the polynomials by which guardians share their secret keys.
pub mod Verify
use electionguard_python.Prelude.{
  ℕ, zero, suc, ◌+◌, Bool, true, false, Option, none, some, List, [], ◌∷◌, map, if◌then◌else◌,
}
use electionguard_python.Prelude.Int.{ℤ, pos, ◌-ℤ◌, in_range, to_ℕ}
use electionguard_python.Prelude.Result.{Result, ok, raise, assertion_error, ◌>>=◌}
use electionguard_python.External.{Gmp, Sha256}
use electionguard_python.Group.Constants.{Q}
use electionguard_python.Group.{
  ElementModQ, ElementModP, of_p, of_q, of_int, int_to_p_unchecked, zero_mod_q, one_mod_p, rand_q,
  eq_p, add_q, mult_p, mult_q, pow_p, pow_q, g_pow_p, div_q,
}
use electionguard_python.Elgamal.{ElGamalKeyPair}
use electionguard_python.Schnorr.{SchnorrProof, make_schnorr_proof}

pub record ElectionPolynomial : Type 0 where
  pub coefficients : List ElementModQ
  pub coefficient_commitments : List ElementModP
  pub coefficient_proofs : List SchnorrProof

-- The coefficient in a round: from the nonce, or else drawn.
unfoldable pub coefficient_of : Option ElementModQ → ℕ → ℕ → ElementModQ
coefficient_of (some n) i drawn = add_q (of_q n ∷ of_int (pos i) ∷ [])
coefficient_of none i drawn = rand_q drawn

module _ (gmp : Gmp) (sha256 : Sha256) where
  -- The rounds of the loop from a number on. What randbelow(Q) returns in a round for the coefficient
  -- and for the proof are `drawn` and `drawn_proof` at the round's number.
  unfoldable pub generate_from : Option ElementModQ → (ℕ → ℕ) → (ℕ → ℕ) → ℕ → ℕ → ElectionPolynomial
  unfolding coefficient_of
  generate_from seed drawn drawn_proof i zero = record {
    coefficients = [];
    coefficient_commitments = [];
    coefficient_proofs = [];
  }
  generate_from seed drawn drawn_proof i (suc rounds) =
      let coefficient = coefficient_of seed i (drawn i) in
      let commitment = g_pow_p gmp (of_q coefficient) in
      let proof =
        make_schnorr_proof gmp sha256 (record { secret_key = coefficient; public_key = commitment })
          (rand_q (drawn_proof i)) in
      let rest = generate_from seed drawn drawn_proof (i + 1) rounds in
      record {
        coefficients = coefficient ∷ rest.coefficients;
        coefficient_commitments = commitment ∷ rest.coefficient_commitments;
        coefficient_proofs = proof ∷ rest.coefficient_proofs;
      }

  unfoldable pub generate_polynomial :
      ℤ → Option ElementModQ → (ℕ → ℕ) → (ℕ → ℕ) → ElectionPolynomial
  unfolding generate_from
  generate_polynomial number_of_coefficients seed drawn drawn_proof =
      generate_from seed drawn drawn_proof 0 (to_ℕ number_of_coefficients)

module _ (gmp : Gmp) where
  -- The loop, from the i-th coefficient.
  unfoldable pub compute_from : ℤ → ℕ → ElementModQ → List ElementModQ → ElementModQ
  compute_from exponent_modifier i computed [] = computed
  compute_from exponent_modifier i computed (coefficient ∷ coefficients) =
      let exponent = pow_q gmp (of_int exponent_modifier) (of_int (pos i)) in
      let factor = mult_q (of_q coefficient ∷ of_q exponent ∷ []) in
      compute_from exponent_modifier (i + 1) (add_q (of_q computed ∷ of_q factor ∷ [])) coefficients

  unfoldable pub compute_polynomial_coordinate : ℤ → ElectionPolynomial → Result ElementModQ
  unfolding compute_from
  compute_polynomial_coordinate exponent_modifier polynomial =
      if in_range exponent_modifier Q
      then ok (compute_from exponent_modifier 0 zero_mod_q polynomial.coefficients)
      else raise assertion_error

  pub compute_lagrange_coefficient : ℤ → List ℤ → Result ElementModQ
  compute_lagrange_coefficient coordinate degrees =
      let numerator = mult_q (map of_int degrees) in
      let denominator = mult_q (map (λ degree. of_int (degree -ℤ coordinate)) degrees) in
      div_q gmp (of_q numerator) (of_q denominator)

  -- The loop, from the i-th commitment.
  unfoldable pub commitments_from : ℤ → ℕ → ElementModP → List ElementModP → ElementModP
  commitments_from exponent_modifier i output [] = output
  commitments_from exponent_modifier i output (commitment ∷ commitments) =
      let exponent =
        pow_p gmp (of_p (int_to_p_unchecked exponent_modifier))
          (of_p (int_to_p_unchecked (pos i))) in
      let factor = pow_p gmp (of_p commitment) (of_p exponent) in
      commitments_from exponent_modifier (i + 1) (mult_p (of_p output ∷ of_p factor ∷ []))
        commitments

  unfoldable pub verify_polynomial_coordinate : ElementModQ → ℤ → List ElementModP → Bool
  unfolding commitments_from
  verify_polynomial_coordinate coordinate exponent_modifier commitments =
      eq_p (g_pow_p gmp (of_q coordinate))
        (commitments_from exponent_modifier 0 one_mod_p commitments)
