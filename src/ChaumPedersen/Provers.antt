-- ===== src/ChaumPedersen/Provers.antt =====
-- chaum_pedersen.py: the provers of the three kinds of Chaum-Pedersen proofs.
use electionguard_python.Prelude.{zero, suc, none, some, List, [], ◌∷◌}
use electionguard_python.Prelude.Int.{ℤ, pos}
use electionguard_python.Prelude.Result.{Result, ok, raise, assertion_error, value_error, ◌>>=◌}
use electionguard_python.Prelude.Digits.{codes}
use electionguard_python.External.{Gmp, Sha256}
use electionguard_python.Group.{
  ElementModQ, ElementModP, of_p, of_q, g_pow_p, pow_p, mult_p, a_plus_bc_q, a_minus_b_q, negate_q,
}
use electionguard_python.Hash.{text, end, item, new_nonces, get_item, get_slice}
use electionguard_python.Elgamal.{ElGamalCiphertext}
use electionguard_python.ChaumPedersen.{
  DisjunctiveChaumPedersenProof, ChaumPedersenProof, ConstantChaumPedersenProof, challenge_of,
}

module _ (gmp : Gmp) (sha256 : Sha256) where
  -- From the three nonces of the seed. A slice of three never has another length.
  unfoldable pub disjunctive_zero_from :
      ElGamalCiphertext
      → ElementModQ
      → ElementModP
      → ElementModQ
      → List ElementModQ
      → Result DisjunctiveChaumPedersenProof
  disjunctive_zero_from message r k q (c1 ∷ v1 ∷ u0 ∷ []) =
      let alpha = message.pad in
      let beta = message.encrypted_data in
      let a0 = g_pow_p gmp (of_q u0) in
      let b0 = pow_p gmp (of_p k) (of_q u0) in
      let q_minus_c1 = negate_q (of_q c1) in
      let a1 =
        mult_p
          (of_p (g_pow_p gmp (of_q v1)) ∷ of_p (pow_p gmp (of_p alpha) (of_q q_minus_c1)) ∷ []) in
      let b1 = mult_p (
        of_p (pow_p gmp (of_p k) (of_q v1))
        ∷ of_p (g_pow_p gmp (of_q c1))
        ∷ of_p (pow_p gmp (of_p beta) (of_q q_minus_c1))
        ∷ []) in
      let c = challenge_of sha256 q (alpha ∷ beta ∷ a0 ∷ b0 ∷ a1 ∷ b1 ∷ []) in
      let c0 = a_minus_b_q (of_q c) (of_q c1) in
      let v0 = a_plus_bc_q (of_q u0) (of_q c0) (of_q r) in
      ok (record {
        proof_zero_pad = a0;
        proof_zero_data = b0;
        proof_one_pad = a1;
        proof_one_data = b1;
        proof_zero_challenge = c0;
        proof_one_challenge = c1;
        challenge = c;
        proof_zero_response = v0;
        proof_one_response = v1;
      })
  disjunctive_zero_from message r k q _ = raise value_error

  unfoldable pub disjunctive_one_from :
      ElGamalCiphertext
      → ElementModQ
      → ElementModP
      → ElementModQ
      → List ElementModQ
      → Result DisjunctiveChaumPedersenProof
  disjunctive_one_from message r k q (c0 ∷ v0 ∷ u1 ∷ []) =
      let alpha = message.pad in
      let beta = message.encrypted_data in
      let q_minus_c0 = negate_q (of_q c0) in
      let a0 =
        mult_p
          (of_p (g_pow_p gmp (of_q v0)) ∷ of_p (pow_p gmp (of_p alpha) (of_q q_minus_c0)) ∷ []) in
      let b0 = mult_p (
        of_p (pow_p gmp (of_p k) (of_q v0))
        ∷ of_p (pow_p gmp (of_p beta) (of_q q_minus_c0))
        ∷ []) in
      let a1 = g_pow_p gmp (of_q u1) in
      let b1 = pow_p gmp (of_p k) (of_q u1) in
      let c = challenge_of sha256 q (alpha ∷ beta ∷ a0 ∷ b0 ∷ a1 ∷ b1 ∷ []) in
      let c1 = a_minus_b_q (of_q c) (of_q c0) in
      let v1 = a_plus_bc_q (of_q u1) (of_q c1) (of_q r) in
      ok (record {
        proof_zero_pad = a0;
        proof_zero_data = b0;
        proof_one_pad = a1;
        proof_one_data = b1;
        proof_zero_challenge = c0;
        proof_one_challenge = c1;
        challenge = c;
        proof_zero_response = v0;
        proof_one_response = v1;
      })
  disjunctive_one_from message r k q _ = raise value_error

  -- Nonces(seed, "disjoint-chaum-pedersen-proof")[0:3]
  unfoldable pub disjunctive_nonces : ElementModQ → Result (List ElementModQ)
  disjunctive_nonces seed =
      get_slice sha256
        (new_nonces sha256 seed (item (text (codes "disjoint-chaum-pedersen-proof")) end)) (some 0)
        (some 3) none

  unfoldable pub make_disjunctive_chaum_pedersen_zero :
      ElGamalCiphertext
      → ElementModQ
      → ElementModP
      → ElementModQ
      → ElementModQ
      → Result DisjunctiveChaumPedersenProof
  make_disjunctive_chaum_pedersen_zero message r k q seed = do
    nonces ← disjunctive_nonces seed
    disjunctive_zero_from message r k q nonces

  unfoldable pub make_disjunctive_chaum_pedersen_one :
      ElGamalCiphertext
      → ElementModQ
      → ElementModP
      → ElementModQ
      → ElementModQ
      → Result DisjunctiveChaumPedersenProof
  make_disjunctive_chaum_pedersen_one message r k q seed = do
    nonces ← disjunctive_nonces seed
    disjunctive_one_from message r k q nonces

  -- assert 0 <= plaintext <= 1
  unfoldable pub make_disjunctive_chaum_pedersen :
      ElGamalCiphertext
      → ElementModQ
      → ElementModP
      → ElementModQ
      → ElementModQ
      → ℤ
      → Result DisjunctiveChaumPedersenProof
  make_disjunctive_chaum_pedersen message r k q seed (pos zero) =
      make_disjunctive_chaum_pedersen_zero message r k q seed
  make_disjunctive_chaum_pedersen message r k q seed (pos (suc zero)) =
      make_disjunctive_chaum_pedersen_one message r k q seed
  make_disjunctive_chaum_pedersen message r k q seed _ = raise assertion_error

  -- Nonces(seed, "constant-chaum-pedersen-proof")[0]
  unfoldable pub constant_nonce : ElementModQ → Result ElementModQ
  constant_nonce seed =
      get_item sha256
        (new_nonces sha256 seed (item (text (codes "constant-chaum-pedersen-proof")) end)) (pos 0)

  unfoldable pub make_chaum_pedersen :
      ElGamalCiphertext
      → ElementModQ
      → ElementModP
      → ElementModQ
      → ElementModQ
      → Result ChaumPedersenProof
  make_chaum_pedersen message s m seed hash_header = do
    u ← constant_nonce seed
    let alpha = message.pad
    let a = g_pow_p gmp (of_q u)
    let b = pow_p gmp (of_p alpha) (of_q u)
    let c = challenge_of sha256 hash_header (alpha ∷ message.encrypted_data ∷ a ∷ b ∷ m ∷ [])
    let v = a_plus_bc_q (of_q u) (of_q c) (of_q s)
    ok (record { pad = a; encrypted_data = b; challenge = c; response = v })

  unfoldable pub make_constant_chaum_pedersen :
      ElGamalCiphertext
      → ℤ
      → ElementModQ
      → ElementModP
      → ElementModQ
      → ElementModQ
      → Result ConstantChaumPedersenProof
  make_constant_chaum_pedersen message constant r k seed hash_header = do
    u ← constant_nonce seed
    let alpha = message.pad
    let a = g_pow_p gmp (of_q u)
    let b = pow_p gmp (of_p k) (of_q u)
    let c = challenge_of sha256 hash_header (alpha ∷ message.encrypted_data ∷ a ∷ b ∷ [])
    let v = a_plus_bc_q (of_q u) (of_q c) (of_q r)
    ok (record { pad = a; encrypted_data = b; challenge = c; response = v; constant = constant })
