-- ===== src/ChaumPedersen/Constant.antt =====
-- The verifier of chaum_pedersen.py accepts the constant proofs that its prover makes.
use electionguard_python.Prelude.{
  ℕ, ◌+◌, ◌*◌, ◌%◌, ◌^◌, ◌<◌, ◌≡◌, true, [], ◌∷◌, some, arith, lt→ltb,
}
use native.Mathlib.Nat.{mod-lt, mod-eq_of_lt}
use electionguard_python.Prelude.Int.{pos}
use electionguard_python.Prelude.Result.{ok}
use electionguard_python.External.{Gmp, GmpLaws, Sha256}
use electionguard_python.Group.Constants.{billion-lt-Q, square-Q-lt-P, P, Q, G}
use electionguard_python.Group.Residues.{
  zero-lt-Q, IsResidue, IsResidue-G, IsResidue-G-pow, IsResidue-pow, IsResidue-mul,
  mk-is_valid_residue, is_valid_residue-mk,
}
use electionguard_python.Group.Elements.{
  is_in_bounds_q-mk, pow_p-pq, g_pow_p-q, g_pow_p-p, mult_p-qq, mult_p-pp, a_plus_bc_q-mk,
  mk_q-is_in_bounds_q, eq_p_self, eq_q_self,
}
use electionguard_python.Group.Equations.{open_response, open_encryption}
use electionguard_python.Group.{
  int_to_q, ElementModQ, ElementModP, mk_q, mk_p, is_in_bounds_q, is_valid_residue,
}
use electionguard_python.Hash.Laws.{hash_elems-in_Q, nonce}
use electionguard_python.Elgamal.{ElGamalCiphertext}
use electionguard_python.Elgamal.{elgamal_encrypt}
use electionguard_python.Elgamal.Decrypt.{ciphertext, elgamal_encrypt-mk}
use electionguard_python.ChaumPedersen.Generic.{constant_nonce-mk}
use electionguard_python.ChaumPedersen.{ConstantChaumPedersenProof, challenge_of, constant_is_valid}
use electionguard_python.ChaumPedersen.Provers.{make_constant_chaum_pedersen, constant_nonce}

product-lt-P : (c m : ℕ) → c < Q → m < Q → c * m < P
product-lt-P c m hc hm = grind (arith, square-Q-lt-P)

module _ {gmp : Gmp} (laws : GmpLaws gmp) (sha256 : Sha256) where
  -- The constant as an element.
  constant_q : (m : ℕ) → m < Q → int_to_q (pos m) ≡ some (mk_q m)
  unfolding int_to_q
  constant_q m h = rw (lt→ltb m Q h)

  module _ (m r k : ℕ) (q : ElementModQ) where
    abbrev second : ℕ
    second = (G ^ m % P * (k ^ r % P)) % P

    abbrev proof_of : ℕ → ℕ → ConstantChaumPedersenProof
    proof_of u c = record {
      pad = mk_p (G ^ u % P);
      encrypted_data = mk_p (k ^ u % P);
      challenge = mk_q c;
      response = mk_q ((u + c * r) % Q);
      constant = pos m;
    }

    -- The challenge for the commitments to a nonce.
    abbrev IsChallenge : ℕ → ℕ → Type 0
    IsChallenge u c =
        challenge_of sha256 q
          (mk_p (G ^ r % P) ∷ mk_p second ∷ mk_p (G ^ u % P) ∷ mk_p (k ^ u % P) ∷ [])
        ≡ mk_q c

    made :
        (u c : ℕ) (seed : ElementModQ)
        → constant_nonce gmp sha256 seed ≡ ok (mk_q u)
        → IsChallenge u c
        → make_constant_chaum_pedersen gmp sha256
            (ciphertext m r k)
            (pos m)
            (mk_q r)
            (mk_p k)
            seed
            q
          ≡ ok (proof_of u c)
    unfolding make_constant_chaum_pedersen
    made u c seed e h = simp (e, g_pow_p-q laws, pow_p-pq laws, h, a_plus_bc_q-mk)

    accepted :
        (u c : ℕ)
        → IsResidue k
        → m < 1_000_000_000
        → c < Q
        → IsChallenge u c
        → constant_is_valid gmp sha256 (proof_of u c) (ciphertext m r k) (mk_p k) q ≡ true
    unfolding constant_is_valid
    accepted u c rk hm hc h = simp (
      h,
      constant_q m (omega (arith, billion-lt-Q)),
      lt→ltb m 1_000_000_000 hm,
      g_pow_p-q laws,
      g_pow_p-p laws,
      pow_p-pq laws,
      mult_p-pp,
      mult_p-qq,
      mod-eq_of_lt (product-lt-P c m hc (omega (arith, billion-lt-Q))),
      open_response G u c r IsResidue-G,
      open_encryption m u c r k rk,
      mk-is_valid_residue laws (G ^ r % P) (IsResidue-G-pow r),
      mk-is_valid_residue laws second
          (IsResidue-mul _ _ (IsResidue-G-pow m) (IsResidue-pow k r rk)),
      mk-is_valid_residue laws (G ^ u % P) (IsResidue-G-pow u),
      mk-is_valid_residue laws (k ^ u % P) (IsResidue-pow k u rk),
      mk_q-is_in_bounds_q c hc,
      mk_q-is_in_bounds_q ((u + c * r) % Q) (mod-lt (u + c * r) zero-lt-Q),
      eq_p_self,
      eq_q_self,
    )

  -- The encryption of a constant, under natural numbers, has a proof that the verifier accepts.
  pub constant_complete :
      (m r k : ℕ) (seed q : ElementModQ)
      → m < 1_000_000_000
      → IsResidue k
      → (proof : ConstantChaumPedersenProof) × (make_constant_chaum_pedersen gmp sha256
            (ciphertext m r k)
            (pos m)
            (mk_q r)
            (mk_p k)
            seed
            q
          ≡ ok proof)
        × (constant_is_valid gmp sha256 proof (ciphertext m r k) (mk_p k) q ≡ true)
  constant_complete m r k seed q hm rk =
      let (u, drawn, _) = constant_nonce-mk laws sha256 seed in
      let (c, challenged, c_below) = hash_elems-in_Q sha256 _ in
      (
        proof_of m r k q u c,
        made m r k q u c seed drawn challenged,
        accepted m r k q u c rk hm c_below challenged,
      )

  -- The encryption of a constant below 1,000,000,000, made with any nonce in bounds and any public
  -- key that is a valid residue, always has a proof of its constant, whatever the seed and the base
  -- hash, and the verifier accepts it.
  pub make_constant_chaum_pedersen-is_valid :
      (constant : ℕ) (nonce seed q : ElementModQ) (k : ElementModP) {message : ElGamalCiphertext}
      → constant < 1_000_000_000
      → is_in_bounds_q nonce ≡ true
      → is_valid_residue gmp k ≡ true
      → elgamal_encrypt gmp (pos constant) nonce k ≡ some message
      → (proof : ConstantChaumPedersenProof) × (make_constant_chaum_pedersen gmp sha256 message
            (pos constant)
            nonce
            k
            seed
            q
          ≡ ok proof)
        × (constant_is_valid gmp sha256 proof message k q ≡ true)
  make_constant_chaum_pedersen-is_valid m nonce seed q key {message} hm hr hk he =
      let (k, key_k, rk) = is_valid_residue-mk laws key hk in
      let (r, nonce_r, _) = is_in_bounds_q-mk nonce hr in
      let same : message ≡ ciphertext m r k =
        elgamal_encrypt-mk laws m r k (rw (nonce_r, key_k) at he) in
      rw (same, nonce_r, key_k) (constant_complete m r k seed q hm rk)
