-- ===== src/Schnorr.antt =====
-- schnorr.py: proofs that the prover holds the secret key of a public key.
-- The field `usage` has one value for each kind of proof and is left out.
pub mod Complete
use electionguard_python.Prelude.{ℕ, Bool, ◌&&◌, List, [], ◌∷◌}
use electionguard_python.External.{Gmp, Sha256}
use electionguard_python.Group.{
  ElementModQ, ElementModP, of_p, of_q, is_in_bounds_p, is_in_bounds_q, eq_p, g_pow_p, pow_p,
  mult_p, is_valid_residue, a_plus_bc_q,
}
use electionguard_python.Hash.{elem_p, end, item, hash_elems}
use electionguard_python.Elgamal.{ElGamalKeyPair}

pub record SchnorrProof : Type 0 where
  pub public_key : ElementModP
  pub commitment : ElementModP
  pub challenge : ElementModQ
  pub response : ElementModQ

module _ (gmp : Gmp) (sha256 : Sha256) where
  unfoldable pub is_valid : SchnorrProof → Bool
  is_valid proof =
      let k = proof.public_key in
      let h = proof.commitment in
      let u = proof.response in
      let c = hash_elems sha256 (item (elem_p k) (item (elem_p h) end)) in
      is_valid_residue gmp k
      && is_in_bounds_p h
      && is_in_bounds_q u
      && eq_p (g_pow_p gmp (of_q u)) (mult_p (of_p h ∷ of_p (pow_p gmp (of_p k) (of_q c)) ∷ []))

  unfoldable pub make_schnorr_proof : ElGamalKeyPair → ElementModQ → SchnorrProof
  make_schnorr_proof keypair r =
      let k = keypair.public_key in
      let h = g_pow_p gmp (of_q r) in
      let c = hash_elems sha256 (item (elem_p k) (item (elem_p h) end)) in
      record {
        public_key = k;
        commitment = h;
        challenge = c;
        response = a_plus_bc_q (of_q r) (of_q keypair.secret_key) (of_q c);
      }
