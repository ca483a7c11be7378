-- ===== src/ChaumPedersen/DisjunctiveOne.antt =====
-- The disjunctive proof of an encryption of one (chaum_pedersen.py): what the prover makes is accepted.
use electionguard_python.Prelude.{
  ℕ, ◌-◌, sym, ◌+◌, ◌*◌, ◌%◌, ◌^◌, ◌<◌, ◌≡◌, ap, ◌∙◌, true, [], ◌∷◌, arith,
}
use native.Mathlib.Nat.{mod-lt, mod-mod, mul-one}
use electionguard_python.Prelude.Result.{ok}
use electionguard_python.External.{Gmp, GmpLaws, Sha256}
use electionguard_python.Group.Constants.{P, Q, G}
use electionguard_python.Group.Residues.{
  zero-lt-Q, IsResidue, IsResidue-G, IsResidue-G-pow, IsResidue-pow, IsResidue-mul,
  mk-is_valid_residue,
}
use electionguard_python.Group.Elements.{
  pow_p-pq, g_pow_p-q, add_q-qq, negate_q-mk, a_minus_b_q-mk, mult_p-pp, a_plus_bc_q-mk,
  mk_q-is_in_bounds_q, eq_p_self, eq_q_self,
}
use electionguard_python.Group.Equations.{open_response, open_encryption, open_simulated}
use electionguard_python.Group.{ElementModQ, mk_q, mk_p}
use electionguard_python.Elgamal.Decrypt.{ciphertext}
use electionguard_python.ChaumPedersen.{
  DisjunctiveChaumPedersenProof, challenge_of, disjunctive_is_valid,
}
use electionguard_python.ChaumPedersen.Provers.{disjunctive_one_from}
use electionguard_python.ChaumPedersen.DisjunctiveZero.{cancel_right}

-- The second equation for the claim that is true of an encryption of one.
open_one :
    (u c r k : ℕ)
    → IsResidue k
    → (G ^ c % P * (k ^ ((u + c * r) % Q) % P)) % P
      ≡ (k ^ u % P * (((G ^ 1 % P * (k ^ r % P)) % P) ^ c % P)) % P
open_one u c r k rk =
    ap (λ t. (G ^ t % P * (k ^ ((u + c * r) % Q) % P)) % P) (sym (mul-one c))
    ∙ open_encryption 1 u c r k rk

module _ {gmp : Gmp} (laws : GmpLaws gmp) (sha256 : Sha256) (r k : ℕ) (q : ElementModQ) where
  -- An encryption of one.
  module _ (c0 v0 u1 c : ℕ) where
    abbrev pub one_second : ℕ
    one_second = (G ^ 1 % P * (k ^ r % P)) % P

    abbrev pub one_c1 : ℕ
    one_c1 = (c + (Q - c0)) % Q

    abbrev pub one_a0 : ℕ
    one_a0 = (G ^ v0 % P * ((G ^ r % P) ^ (Q - c0) % P)) % P

    abbrev pub one_b0 : ℕ
    one_b0 = (k ^ v0 % P * (one_second ^ (Q - c0) % P)) % P

    abbrev pub one_proof : DisjunctiveChaumPedersenProof
    one_proof = record {
      proof_zero_pad = mk_p one_a0;
      proof_zero_data = mk_p one_b0;
      proof_one_pad = mk_p (G ^ u1 % P);
      proof_one_data = mk_p (k ^ u1 % P);
      proof_zero_challenge = mk_q c0;
      proof_one_challenge = mk_q one_c1;
      challenge = mk_q c;
      proof_zero_response = mk_q v0;
      proof_one_response = mk_q ((u1 + one_c1 * r) % Q);
    }

    abbrev pub IsOneChallenge : Type 0
    IsOneChallenge =
        challenge_of sha256 q (
          mk_p (G ^ r % P)
          ∷ mk_p one_second
          ∷ mk_p one_a0
          ∷ mk_p one_b0
          ∷ mk_p (G ^ u1 % P)
          ∷ mk_p (k ^ u1 % P)
          ∷ [])
        ≡ mk_q c

    pub one_made :
        c0 < Q
        → IsOneChallenge
        → disjunctive_one_from gmp sha256
            (ciphertext 1 r k)
            (mk_q r)
            (mk_p k)
            q
            (mk_q c0 ∷ mk_q v0 ∷ mk_q u1 ∷ [])
          ≡ ok one_proof
    unfolding disjunctive_one_from
    one_made h0 h = simp (
      negate_q-mk c0 (omega arith),
      a_minus_b_q-mk c c0 (omega arith),
      g_pow_p-q laws,
      pow_p-pq laws,
      mult_p-pp,
      h,
      a_plus_bc_q-mk,
    )

    pub one_accepted :
        IsResidue k
        → c0 < Q
        → v0 < Q
        → c < Q
        → IsOneChallenge
        → disjunctive_is_valid gmp sha256 one_proof (ciphertext 1 r k) (mk_p k) q ≡ true
    unfolding disjunctive_is_valid
    one_accepted rk h0 hv hc h =
        let second = IsResidue-mul _ _ (IsResidue-G-pow 1) (IsResidue-pow k r rk) in
        simp (
          h,
          add_q-qq,
          cancel_right c c0 hc h0,
          g_pow_p-q laws,
          pow_p-pq laws,
          mult_p-pp,
          open_response G u1 one_c1 r IsResidue-G,
          open_one u1 one_c1 r k rk,
          open_simulated (G ^ v0 % P) (G ^ r % P) c0 (IsResidue-G-pow r) (omega arith),
          open_simulated (k ^ v0 % P) one_second c0 second (omega arith),
          mod-mod (G ^ v0) P,
          mod-mod (k ^ v0) P,
          mk-is_valid_residue laws (G ^ r % P) (IsResidue-G-pow r),
          mk-is_valid_residue laws one_second second,
          mk-is_valid_residue laws (G ^ u1 % P) (IsResidue-G-pow u1),
          mk-is_valid_residue laws (k ^ u1 % P) (IsResidue-pow k u1 rk),
          mk-is_valid_residue laws one_a0 (
              IsResidue-mul _ _ (IsResidue-G-pow v0)
                (IsResidue-pow (G ^ r % P) (Q - c0) (IsResidue-G-pow r))),
          mk-is_valid_residue laws one_b0 (
              IsResidue-mul _ _ (IsResidue-pow k v0 rk) (IsResidue-pow one_second (Q - c0) second)),
          mk_q-is_in_bounds_q one_c1 (mod-lt (c + (Q - c0)) zero-lt-Q),
          mk_q-is_in_bounds_q c0 h0,
          mk_q-is_in_bounds_q v0 hv,
          mk_q-is_in_bounds_q ((u1 + one_c1 * r) % Q) (mod-lt (u1 + one_c1 * r) zero-lt-Q),
          eq_p_self,
          eq_q_self,
        )
