-- ===== src/Examples/Crypto.antt =====
-- Examples for the arithmetic, the encryption and the proofs, with the secret key 2.
use electionguard_python.Prelude.{
  ℕ, zero, suc, ◌≤◌, ◌<◌, ◌^◌, ◌%◌, ◌≡◌, refl, sym, ap, ◌∙◌, true, false, some, List, [], ◌∷◌,
  arith, ◌==◌, lt→ltb, ==_self,
}
use electionguard_python.Prelude.Int.{pos}
use electionguard_python.Prelude.Result.{ok}
use electionguard_python.Modular.{square_multiply, square_multiply_lem}
use electionguard_python.Group.Constants.{P, Q, G}
use electionguard_python.Group.{
  of_p, of_q, mk_q, zero_mod_q, one_mod_p, is_in_bounds_q, eq_q, mult_p, pow_p, g_pow_p,
  is_valid_residue, int_to_q,
}
use electionguard_python.Group.Residues.{mk-is_valid_residue, IsResidue-one, residues_closed}
use electionguard_python.Dlog.{initial, discrete_log}
use electionguard_python.Dlog.Laws.{
  IsValid, Distinct, power, larger, initial-IsValid, discrete_log-power,
}
use electionguard_python.Elgamal.{
  ElGamalKeyPair, ElGamalCiphertext, elgamal_keypair_from_secret, elgamal_encrypt, elgamal_add,
  decrypt, decrypt_known_nonce, partial_decrypt,
}
use electionguard_python.Elgamal.Decrypt.{decrypt-elgamal_encrypt}
use electionguard_python.Elgamal.Homomorphic.{Vote, total, decrypt-elgamal_add}
use electionguard_python.Schnorr
use electionguard_python.Schnorr.Complete.{make_schnorr_proof-is_valid}
use electionguard_python.ChaumPedersen.{
  DisjunctiveChaumPedersenProof, ConstantChaumPedersenProof, ChaumPedersenProof, generic_is_valid,
  constant_is_valid, disjunctive_is_valid,
}
use electionguard_python.ChaumPedersen.Provers.{
  make_chaum_pedersen, make_constant_chaum_pedersen, make_disjunctive_chaum_pedersen,
}
use electionguard_python.ChaumPedersen.Generic.{make_chaum_pedersen-is_valid}
use electionguard_python.ChaumPedersen.Constant.{make_constant_chaum_pedersen-is_valid}
use electionguard_python.ChaumPedersen.Disjunctive.{make_disjunctive_chaum_pedersen-is_valid}
use electionguard_python.Examples.StandIns.{gmp, gmp_laws, sha256}

-- The first three powers of G differ.
power_ne :
    (i j : ℕ)
    → i < 4
    → j < 4
    → (square_multiply 2 G i P == square_multiply 2 G j P) ≡ false
    → G ^ i % P ≡ G ^ j % P
    → ⊥
power_ne i j hi hj differ same = cc (
  sym differ,
  ap (λ t. t == square_multiply 2 G j P)
      (square_multiply_lem 2 G i P hi ∙ same ∙ sym (square_multiply_lem 2 G j P hj)),
  ==_self (square_multiply 2 G j P),
)

pub Distinct-three : Distinct 3
unfolding square_multiply P G
Distinct-three zero zero hi hj same = refl
Distinct-three zero (suc zero) hi hj same =
    absurd (power_ne 0 1 (omega arith) (omega arith) refl same)
Distinct-three zero (suc (suc zero)) hi hj same =
    absurd (power_ne 0 2 (omega arith) (omega arith) refl same)
Distinct-three (suc zero) zero hi hj same =
    absurd (power_ne 1 0 (omega arith) (omega arith) refl same)
Distinct-three (suc zero) (suc zero) hi hj same = refl
Distinct-three (suc zero) (suc (suc zero)) hi hj same =
    absurd (power_ne 1 2 (omega arith) (omega arith) refl same)
Distinct-three (suc (suc zero)) zero hi hj same =
    absurd (power_ne 2 0 (omega arith) (omega arith) refl same)
Distinct-three (suc (suc zero)) (suc zero) hi hj same =
    absurd (power_ne 2 1 (omega arith) (omega arith) refl same)
Distinct-three (suc (suc zero)) (suc (suc zero)) hi hj same = refl
Distinct-three (suc (suc (suc i))) j hi hj same = absurd (omega arith)
Distinct-three i (suc (suc (suc j))) hi hj same = absurd (omega arith)

in_bounds : (n : ℕ) → n < Q → is_in_bounds_q (mk_q n) ≡ true
unfolding is_in_bounds_q
in_bounds n h = lt→ltb n Q h

pub two-in_bounds : is_in_bounds_q (mk_q 2) ≡ true
unfolding is_in_bounds_q Q
two-in_bounds = refl

pub zero-in_bounds : is_in_bounds_q zero_mod_q ≡ true
unfolding is_in_bounds_q Q
zero-in_bounds = refl

abbrev pub pair : ElGamalKeyPair
pair = record { secret_key = mk_q 2; public_key = g_pow_p gmp (of_q (mk_q 2)) }

pub pair-made : elgamal_keypair_from_secret gmp (mk_q 2) ≡ some pair
unfolding elgamal_keypair_from_secret
pair-made = refl

pub key-is_valid_residue : is_valid_residue gmp pair.public_key ≡ true
key-is_valid_residue =
    (residues_closed gmp_laws one_mod_p one_mod_p (mk_q 2) one-is_valid_residue one-is_valid_residue
      two-in_bounds).2
  where
    one-is_valid_residue : is_valid_residue gmp one_mod_p ≡ true
    one-is_valid_residue = mk-is_valid_residue gmp_laws 1 IsResidue-one

-- A ciphertext of valid residues.
abbrev pub keys : ElGamalCiphertext
keys = record { pad = pair.public_key; encrypted_data = pair.public_key }

-- A vote of m with the nonce 2.
abbrev pub vote : ℕ → ElGamalCiphertext
vote m = record {
  pad = g_pow_p gmp (of_q (mk_q 2));
  encrypted_data = mult_p (
      of_p (g_pow_p gmp (of_q (mk_q m)))
      ∷ of_p (pow_p gmp (of_p pair.public_key) (of_q (mk_q 2)))
      ∷ []);
}

pub one-encrypted : elgamal_encrypt gmp (pos 1) (mk_q 2) pair.public_key ≡ some (vote 1)
unfolding elgamal_encrypt eq_q int_to_q Q
one-encrypted = refl

discrete_log-power_example :
    ((discrete_log 1 (power 1) initial).0 ≡ ok 1)
    × IsValid (discrete_log 1 (power 1) initial).1
    × ((discrete_log 1 (power 1) initial).1.max_exp ≤ larger initial.max_exp 1)
unfolding initial
discrete_log-power_example =
    discrete_log-power 3 1 1 initial initial-IsValid Distinct-three (omega arith) (omega arith)
      (omega arith)

decrypt-elgamal_encrypt_example :
    ((decrypt gmp 1 (vote 1) (mk_q 2) initial).0 ≡ ok 1)
    × ((decrypt_known_nonce gmp 1 (vote 1) pair.public_key (mk_q 2) initial).0 ≡ ok 1)
unfolding initial
decrypt-elgamal_encrypt_example =
    decrypt-elgamal_encrypt gmp_laws 3 1 1 (mk_q 2) (mk_q 2) initial two-in_bounds two-in_bounds
      pair-made one-encrypted initial-IsValid Distinct-three (omega arith) (omega arith)
      (omega arith)

abbrev two_votes : List Vote
two_votes = (1, mk_q 2) ∷ []

decrypt-elgamal_add_example :
    (c : ElGamalCiphertext) × (elgamal_add (vote 1 ∷ vote 1 ∷ []) ≡ ok c)
    × ((decrypt gmp 2 c (mk_q 2) initial).0 ≡ ok (total ((1, mk_q 2) ∷ two_votes)))
unfolding initial total
decrypt-elgamal_add_example =
    decrypt-elgamal_add gmp_laws 3 2 (mk_q 2) (1, mk_q 2) two_votes (vote 1 ∷ vote 1 ∷ []) initial
      two-in_bounds pair-made (one-encrypted, two-in_bounds, (one-encrypted, two-in_bounds, tt))
      initial-IsValid Distinct-three (omega arith) (omega arith) (omega arith)

make_schnorr_proof-is_valid_example :
    Schnorr.is_valid gmp sha256 (Schnorr.make_schnorr_proof gmp sha256 pair (mk_q 2)) ≡ true
make_schnorr_proof-is_valid_example =
    make_schnorr_proof-is_valid gmp_laws sha256 (mk_q 2) (mk_q 2) two-in_bounds two-in_bounds
      pair-made

make_chaum_pedersen-is_valid_example :
    (proof : ChaumPedersenProof) × (make_chaum_pedersen gmp sha256 keys
        (mk_q 2)
        (partial_decrypt gmp keys (mk_q 2))
        (mk_q 2)
        (mk_q 2)
      ≡ ok proof)
    × (generic_is_valid gmp sha256 proof keys
          (g_pow_p gmp (of_q (mk_q 2)))
          (partial_decrypt gmp keys (mk_q 2))
          (mk_q 2)
        ≡ true)
make_chaum_pedersen-is_valid_example =
    make_chaum_pedersen-is_valid gmp_laws sha256 keys (mk_q 2) (mk_q 2) (mk_q 2)
      key-is_valid_residue key-is_valid_residue two-in_bounds two-in_bounds

make_constant_chaum_pedersen-is_valid_example :
    (proof : ConstantChaumPedersenProof) × (make_constant_chaum_pedersen gmp sha256
        (vote 1)
        (pos 1)
        (mk_q 2)
        pair.public_key
        (mk_q 2)
        (mk_q 2)
      ≡ ok proof)
    × (constant_is_valid gmp sha256 proof (vote 1) pair.public_key (mk_q 2) ≡ true)
make_constant_chaum_pedersen-is_valid_example =
    make_constant_chaum_pedersen-is_valid gmp_laws sha256 1 (mk_q 2) (mk_q 2) (mk_q 2)
      pair.public_key (omega arith) two-in_bounds key-is_valid_residue one-encrypted

make_disjunctive_chaum_pedersen-is_valid_example :
    (proof : DisjunctiveChaumPedersenProof) × (make_disjunctive_chaum_pedersen gmp sha256
        (vote 1)
        (mk_q 2)
        pair.public_key
        (mk_q 2)
        (mk_q 2)
        (pos 1)
      ≡ ok proof)
    × (disjunctive_is_valid gmp sha256 proof (vote 1) pair.public_key (mk_q 2) ≡ true)
make_disjunctive_chaum_pedersen-is_valid_example =
    make_disjunctive_chaum_pedersen-is_valid gmp_laws sha256 1 (mk_q 2) (mk_q 2) (mk_q 2)
      pair.public_key (omega arith) two-in_bounds key-is_valid_residue one-encrypted
