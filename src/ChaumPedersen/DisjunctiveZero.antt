-- ===== src/ChaumPedersen/DisjunctiveZero.antt =====
-- The disjunctive proof of an encryption of zero (chaum_pedersen.py): what the prover makes is accepted.
use electionguard_python.Prelude.{
  ℕ, ◌-◌, ◌+◌, ◌*◌, ◌%◌, ◌^◌, ◌<◌, ◌≡◌, ap, subst, ◌∙◌, true, [], ◌∷◌, arith,
}
use native.Mathlib.Nat.{mod-lt, mod-mod, mul_comm, add_comm}
use electionguard_python.Prelude.Result.{ok}
use electionguard_python.Modular.{mod-mul_left}
use electionguard_python.External.{Gmp, GmpLaws, Sha256}
use electionguard_python.Group.Constants.{P, Q, G}
use electionguard_python.Group.Residues.{
  zero-lt-Q, IsResidue, IsResidue-G, IsResidue-G-pow, IsResidue-pow, IsResidue-mul,
  mk-is_valid_residue,
}
use electionguard_python.Group.Elements.{
  pow_p-pq, g_pow_p-q, mult_p-ppp, add_q-qq, negate_q-mk, a_minus_b_q-mk, mult_p-pp, a_plus_bc_q-mk,
  mk_q-is_in_bounds_q, eq_p_self, eq_q_self,
}
use electionguard_python.Group.Equations.{open_response, open_simulated}
use electionguard_python.Group.{ElementModQ, mk_q, mk_p}
use electionguard_python.Elgamal.{ElGamalCiphertext}
use electionguard_python.Group.Bounds.{cancel_left}
use electionguard_python.ChaumPedersen.{
  DisjunctiveChaumPedersenProof, challenge_of, disjunctive_is_valid,
}
use electionguard_python.ChaumPedersen.Provers.{disjunctive_zero_from}

-- A product of three residues is one.
pub IsResidue-mul3 :
    (a b c : ℕ) → IsResidue a → IsResidue b → IsResidue c → IsResidue ((a * b * c) % P)
IsResidue-mul3 a b c ra rb rc =
    subst IsResidue (mod-mul_left (a * b) c P)
      (IsResidue-mul (a * b % P) c (IsResidue-mul a b ra rb) rc)

pub cancel_right : (m n : ℕ) → m < Q → n < Q → (n + (m + (Q - n)) % Q) % Q ≡ m
cancel_right m n hm hn = ap (λ t. t % Q) (add_comm n ((m + (Q - n)) % Q)) ∙ cancel_left m n Q hm hn

module _ {gmp : Gmp} (laws : GmpLaws gmp) (sha256 : Sha256) (r k : ℕ) (q : ElementModQ) where
  -- An encryption of zero. The first three numbers are the nonces.
  module _ (c1 v1 u0 c : ℕ) where
    abbrev pub zero_message : ElGamalCiphertext
    zero_message = record { pad = mk_p (G ^ r % P); encrypted_data = mk_p (k ^ r % P) }

    abbrev pub zero_c0 : ℕ
    zero_c0 = (c + (Q - c1)) % Q

    abbrev pub zero_a1 : ℕ
    zero_a1 = (G ^ v1 % P * ((G ^ r % P) ^ (Q - c1) % P)) % P

    abbrev pub zero_b1 : ℕ
    zero_b1 = (k ^ v1 % P * (G ^ c1 % P) * ((k ^ r % P) ^ (Q - c1) % P)) % P

    abbrev pub zero_proof : DisjunctiveChaumPedersenProof
    zero_proof = record {
      proof_zero_pad = mk_p (G ^ u0 % P);
      proof_zero_data = mk_p (k ^ u0 % P);
      proof_one_pad = mk_p zero_a1;
      proof_one_data = mk_p zero_b1;
      proof_zero_challenge = mk_q zero_c0;
      proof_one_challenge = mk_q c1;
      challenge = mk_q c;
      proof_zero_response = mk_q ((u0 + zero_c0 * r) % Q);
      proof_one_response = mk_q v1;
    }

    abbrev pub IsZeroChallenge : Type 0
    IsZeroChallenge =
        challenge_of sha256 q (
          mk_p (G ^ r % P)
          ∷ mk_p (k ^ r % P)
          ∷ mk_p (G ^ u0 % P)
          ∷ mk_p (k ^ u0 % P)
          ∷ mk_p zero_a1
          ∷ mk_p zero_b1
          ∷ [])
        ≡ mk_q c

    pub zero_made :
        c1 < Q
        → IsZeroChallenge
        → disjunctive_zero_from gmp sha256 zero_message
            (mk_q r)
            (mk_p k)
            q
            (mk_q c1 ∷ mk_q v1 ∷ mk_q u0 ∷ [])
          ≡ ok zero_proof
    unfolding disjunctive_zero_from
    zero_made h1 h = simp (
      negate_q-mk c1 (omega arith),
      a_minus_b_q-mk c c1 (omega arith),
      g_pow_p-q laws,
      pow_p-pq laws,
      mult_p-pp,
      mult_p-ppp,
      h,
      a_plus_bc_q-mk,
    )

    pub zero_accepted :
        IsResidue k
        → c1 < Q
        → v1 < Q
        → c < Q
        → IsZeroChallenge
        → disjunctive_is_valid gmp sha256 zero_proof zero_message (mk_p k) q ≡ true
    unfolding disjunctive_is_valid
    zero_accepted rk h1 hv hc h = simp (
      h,
      add_q-qq,
      cancel_left c c1 Q hc h1,
      g_pow_p-q laws,
      pow_p-pq laws,
      mult_p-pp,
      open_response G u0 zero_c0 r IsResidue-G,
      open_response k u0 zero_c0 r rk,
      open_simulated (G ^ v1 % P) (G ^ r % P) c1 (IsResidue-G-pow r) (omega arith),
      open_simulated (k ^ v1 % P * (G ^ c1 % P)) (k ^ r % P) c1 (IsResidue-pow k r rk)
          (omega arith),
      mod-mod (G ^ v1) P,
      mul_comm (G ^ c1 % P) (k ^ v1 % P),
      mk-is_valid_residue laws (G ^ r % P) (IsResidue-G-pow r),
      mk-is_valid_residue laws (k ^ r % P) (IsResidue-pow k r rk),
      mk-is_valid_residue laws (G ^ u0 % P) (IsResidue-G-pow u0),
      mk-is_valid_residue laws (k ^ u0 % P) (IsResidue-pow k u0 rk),
      mk-is_valid_residue laws zero_a1 (
          IsResidue-mul _ _ (IsResidue-G-pow v1)
            (IsResidue-pow (G ^ r % P) (Q - c1) (IsResidue-G-pow r))),
      mk-is_valid_residue laws zero_b1 (
          IsResidue-mul3 _ _ _ (IsResidue-pow k v1 rk) (IsResidue-G-pow c1)
            (IsResidue-pow (k ^ r % P) (Q - c1) (IsResidue-pow k r rk))),
      mk_q-is_in_bounds_q zero_c0 (mod-lt (c + (Q - c1)) zero-lt-Q),
      mk_q-is_in_bounds_q c1 h1,
      mk_q-is_in_bounds_q v1 hv,
      mk_q-is_in_bounds_q ((u0 + zero_c0 * r) % Q) (mod-lt (u0 + zero_c0 * r) zero-lt-Q),
      eq_p_self,
      eq_q_self,
    )
