-- ===== src/ChaumPedersen.antt =====
-- chaum_pedersen.py: the three kinds of Chaum-Pedersen proofs, and their verifiers.
-- The field `usage` has one value for each kind and is left out; `data` is `encrypted_data` here.
pub mod Provers
pub mod Generic
pub mod Constant
pub mod DisjunctiveZero
pub mod DisjunctiveOne
pub mod Disjunctive
use electionguard_python.Prelude.{
  ℕ, zero, suc, Bool, true, false, ◌&&◌, Option, none, some, List, [], ◌∷◌, ltb, if◌then◌else◌,
}
use electionguard_python.Prelude.Int.{ℤ, pos, negsuc, in_range}
use electionguard_python.Prelude.Result.{Result, ok, raise, assertion_error, value_error, ◌>>=◌}
use electionguard_python.Prelude.Digits.{codes}
use electionguard_python.External.{Gmp, Sha256}
use electionguard_python.Group.{
  ElementModQ, ElementModP, of_p, of_q, is_in_bounds_q, eq_p, eq_q, g_pow_p, pow_p, mult_p,
  is_valid_residue, a_plus_bc_q, a_minus_b_q, add_q, negate_q, int_to_q, zero_mod_q,
}
use electionguard_python.Hash.{
  Hashables, elem_p, elem_q, text, end, item, hash_elems, Nonces, new_nonces, get_item, get_slice,
}
use electionguard_python.Elgamal.{ElGamalCiphertext}

pub record DisjunctiveChaumPedersenProof : Type 0 where
  pub proof_zero_pad : ElementModP
  pub proof_zero_data : ElementModP
  pub proof_one_pad : ElementModP
  pub proof_one_data : ElementModP
  pub proof_zero_challenge : ElementModQ
  pub proof_one_challenge : ElementModQ
  pub challenge : ElementModQ
  pub proof_zero_response : ElementModQ
  pub proof_one_response : ElementModQ

pub record ChaumPedersenProof : Type 0 where
  pub pad : ElementModP
  pub encrypted_data : ElementModP
  pub challenge : ElementModQ
  pub response : ElementModQ

pub record ConstantChaumPedersenProof : Type 0 where
  pub pad : ElementModP
  pub encrypted_data : ElementModP
  pub challenge : ElementModQ
  pub response : ElementModQ
  pub constant : ℤ

abbrev pub items : List ElementModP → Hashables
items [] = end
items (e ∷ es) = item (elem_p e) (items es)

-- hash_elems of elements modulo P after one modulo Q.
abbrev pub challenge_of : Sha256 → ElementModQ → List ElementModP → ElementModQ
challenge_of sha256 q elems = hash_elems sha256 (item (elem_q q) (items elems))

-- The two readings of tmp = int_to_q(constant).
abbrev or_zero : Option ElementModQ → ElementModQ
or_zero none = zero_mod_q
or_zero (some e) = e

abbrev is_some : Option ElementModQ → Bool
is_some none = false
is_some (some e) = true

module _ (gmp : Gmp) (sha256 : Sha256) where
  unfoldable pub disjunctive_is_valid :
      DisjunctiveChaumPedersenProof → ElGamalCiphertext → ElementModP → ElementModQ → Bool
  disjunctive_is_valid proof message k q =
      let alpha = message.pad in
      let beta = message.encrypted_data in
      let a0 = proof.proof_zero_pad in
      let b0 = proof.proof_zero_data in
      let a1 = proof.proof_one_pad in
      let b1 = proof.proof_one_data in
      let c0 = proof.proof_zero_challenge in
      let c1 = proof.proof_one_challenge in
      let c = proof.challenge in
      let v0 = proof.proof_zero_response in
      let v1 = proof.proof_one_response in
      let consistent_c =
        eq_q (add_q (of_q c0 ∷ of_q c1 ∷ [])) c
        && eq_q c (challenge_of sha256 q (alpha ∷ beta ∷ a0 ∷ b0 ∷ a1 ∷ b1 ∷ [])) in
      let consistent_gv0 =
        eq_p (g_pow_p gmp (of_q v0))
          (mult_p (of_p a0 ∷ of_p (pow_p gmp (of_p alpha) (of_q c0)) ∷ [])) in
      let consistent_gv1 =
        eq_p (g_pow_p gmp (of_q v1))
          (mult_p (of_p a1 ∷ of_p (pow_p gmp (of_p alpha) (of_q c1)) ∷ [])) in
      let consistent_kv0 =
        eq_p (pow_p gmp (of_p k) (of_q v0))
          (mult_p (of_p b0 ∷ of_p (pow_p gmp (of_p beta) (of_q c0)) ∷ [])) in
      let consistent_gc1kv1 =
        eq_p (mult_p (of_p (g_pow_p gmp (of_q c1)) ∷ of_p (pow_p gmp (of_p k) (of_q v1)) ∷ []))
          (mult_p (of_p b1 ∷ of_p (pow_p gmp (of_p beta) (of_q c1)) ∷ [])) in
      is_valid_residue gmp alpha
      && is_valid_residue gmp beta
      && is_valid_residue gmp a0
      && is_valid_residue gmp b0
      && is_valid_residue gmp a1
      && is_valid_residue gmp b1
      && is_in_bounds_q c0
      && is_in_bounds_q c1
      && is_in_bounds_q v0
      && is_in_bounds_q v1
      && consistent_c
      && consistent_gv0
      && consistent_gv1
      && consistent_kv0
      && consistent_gc1kv1

  unfoldable pub generic_is_valid :
      ChaumPedersenProof → ElGamalCiphertext → ElementModP → ElementModP → ElementModQ → Bool
  generic_is_valid proof message k m q =
      let alpha = message.pad in
      let beta = message.encrypted_data in
      let a = proof.pad in
      let b = proof.encrypted_data in
      let c = proof.challenge in
      let v = proof.response in
      let in_bounds_alpha = is_valid_residue gmp alpha in
      let in_bounds_a = is_valid_residue gmp a in
      let in_bounds_b = is_valid_residue gmp b in
      let in_bounds_c = is_in_bounds_q c in
      let in_bounds_v = is_in_bounds_q v in
      let same_c = eq_q c (challenge_of sha256 q (alpha ∷ beta ∷ a ∷ b ∷ m ∷ [])) in
      let consistent_gv =
        in_bounds_v
        && in_bounds_a
        && in_bounds_c
        && in_bounds_v
        && eq_p (g_pow_p gmp (of_q v))
            (mult_p (of_p a ∷ of_p (pow_p gmp (of_p k) (of_q c)) ∷ [])) in
      let consistent_av =
        in_bounds_alpha
        && in_bounds_b
        && in_bounds_c
        && in_bounds_v
        && eq_p (pow_p gmp (of_p alpha) (of_q v))
            (mult_p (of_p b ∷ of_p (pow_p gmp (of_p m) (of_q c)) ∷ [])) in
      in_bounds_alpha
      && is_valid_residue gmp beta
      && is_valid_residue gmp k
      && is_valid_residue gmp m
      && in_bounds_a
      && in_bounds_b
      && in_bounds_c
      && in_bounds_v
      && is_in_bounds_q q
      && same_c
      && consistent_gv
      && consistent_av

  unfoldable pub constant_is_valid :
      ConstantChaumPedersenProof → ElGamalCiphertext → ElementModP → ElementModQ → Bool
  constant_is_valid proof message k q =
      let alpha = message.pad in
      let beta = message.encrypted_data in
      let a = proof.pad in
      let b = proof.encrypted_data in
      let c = proof.challenge in
      let v = proof.response in
      let tmp = int_to_q proof.constant in
      let constant_q = or_zero tmp in
      let in_bounds_constant = is_some tmp in
      let sane_constant = in_range proof.constant 1_000_000_000 in
      let in_bounds_alpha = is_valid_residue gmp alpha in
      let in_bounds_a = is_valid_residue gmp a in
      let in_bounds_c = is_in_bounds_q c in
      let in_bounds_v = is_in_bounds_q v in
      let same_c = eq_q c (challenge_of sha256 q (alpha ∷ beta ∷ a ∷ b ∷ [])) in
      let consistent_gv =
        in_bounds_v
        && in_bounds_a
        && in_bounds_alpha
        && in_bounds_c
        && eq_p (g_pow_p gmp (of_q v))
            (mult_p (of_p a ∷ of_p (pow_p gmp (of_p alpha) (of_q c)) ∷ [])) in
      let consistent_kv =
        in_bounds_constant
        && eq_p
            (mult_p (
              of_p (g_pow_p gmp (of_p (mult_p (of_q c ∷ of_q constant_q ∷ []))))
              ∷ of_p (pow_p gmp (of_p k) (of_q v))
              ∷ []))
            (mult_p (of_p b ∷ of_p (pow_p gmp (of_p beta) (of_q c)) ∷ [])) in
      in_bounds_alpha
      && is_valid_residue gmp beta
      && in_bounds_a
      && is_valid_residue gmp b
      && in_bounds_c
      && in_bounds_v
      && same_c
      && in_bounds_constant
      && sane_constant
      && consistent_gv
      && consistent_kv
