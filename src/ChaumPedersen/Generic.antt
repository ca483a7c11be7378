-- ===== src/ChaumPedersen/Generic.antt =====
-- The verifier of chaum_pedersen.py accepts the generic proofs that its prover makes.
use electionguard_python.Prelude.{ℕ, ◌+◌, ◌*◌, ◌%◌, ◌^◌, ◌<◌, ◌≡◌, ap, ◌∙◌, true, [], ◌∷◌}
use native.Mathlib.Nat.{mod-lt}
use electionguard_python.Prelude.Result.{ok}
use electionguard_python.External.{Gmp, GmpLaws, Sha256}
use electionguard_python.Group.Constants.{P, Q, G}
use electionguard_python.Group.Residues.{
  zero-lt-Q, IsResidue, IsResidue-G, IsResidue-G-pow, IsResidue-pow, mk-is_valid_residue,
  is_valid_residue-mk,
}
use electionguard_python.Group.Elements.{
  is_in_bounds_q-mk, pow_p-pq, g_pow_p-q, mult_p-pp, a_plus_bc_q-mk, mk_q-is_in_bounds_q, eq_p_self,
  eq_q_self,
}
use electionguard_python.Group.Equations.{open_response}
use electionguard_python.Group.{
  ElementModQ, of_q, mk_q, mk_p, is_in_bounds_q, g_pow_p, is_valid_residue,
}
use electionguard_python.Hash.Laws.{hash_elems-in_Q, nonce_at, nonce-in_Q}
use electionguard_python.Elgamal.{ElGamalCiphertext, partial_decrypt}
use electionguard_python.ChaumPedersen.{ChaumPedersenProof, challenge_of, generic_is_valid}
use electionguard_python.ChaumPedersen.Provers.{make_chaum_pedersen, constant_nonce}

module _ {gmp : Gmp} (laws : GmpLaws gmp) (sha256 : Sha256) where
  -- The nonce of a seed is an element in bounds.
  pub constant_nonce-mk :
      (seed : ElementModQ) → (u : ℕ) × (constant_nonce gmp sha256 seed ≡ ok (mk_q u)) × (u < Q)
  unfolding constant_nonce
  constant_nonce-mk seed =
      let (u, e, below) = nonce-in_Q sha256 _ 0 in (u, nonce_at sha256 _ 0 ∙ ap ok e, below)

  module _ (x a b q : ℕ) where
    abbrev message : ElGamalCiphertext
    message = record { pad = mk_p a; encrypted_data = mk_p b }

    abbrev proof_of : ℕ → ℕ → ChaumPedersenProof
    proof_of u c = record {
      pad = mk_p (G ^ u % P);
      encrypted_data = mk_p (a ^ u % P);
      challenge = mk_q c;
      response = mk_q ((u + c * x) % Q);
    }

    -- The challenge for the commitments to a nonce.
    abbrev IsChallenge : ℕ → ℕ → Type 0
    IsChallenge u c =
        challenge_of sha256 (mk_q q)
          (mk_p a ∷ mk_p b ∷ mk_p (G ^ u % P) ∷ mk_p (a ^ u % P) ∷ mk_p (a ^ x % P) ∷ [])
        ≡ mk_q c

    made :
        (u c : ℕ) (seed : ElementModQ)
        → constant_nonce gmp sha256 seed ≡ ok (mk_q u)
        → IsChallenge u c
        → make_chaum_pedersen gmp sha256 message (mk_q x) (mk_p (a ^ x % P)) seed (mk_q q)
          ≡ ok (proof_of u c)
    unfolding make_chaum_pedersen
    made u c seed e h = simp (e, g_pow_p-q laws, pow_p-pq laws, h, a_plus_bc_q-mk)

    accepted :
        (u c : ℕ)
        → IsResidue a
        → IsResidue b
        → q < Q
        → c < Q
        → IsChallenge u c
        → generic_is_valid gmp sha256
            (proof_of u c)
            message
            (mk_p (G ^ x % P))
            (mk_p (a ^ x % P))
            (mk_q q)
          ≡ true
    unfolding generic_is_valid
    accepted u c ra rb hq hc h = simp (
      h,
      g_pow_p-q laws,
      pow_p-pq laws,
      mult_p-pp,
      open_response G u c x IsResidue-G,
      open_response a u c x ra,
      mk-is_valid_residue laws a ra,
      mk-is_valid_residue laws b rb,
      mk-is_valid_residue laws (G ^ x % P) (IsResidue-G-pow x),
      mk-is_valid_residue laws (a ^ x % P) (IsResidue-pow a x ra),
      mk-is_valid_residue laws (G ^ u % P) (IsResidue-G-pow u),
      mk-is_valid_residue laws (a ^ u % P) (IsResidue-pow a u ra),
      mk_q-is_in_bounds_q q hq,
      mk_q-is_in_bounds_q c hc,
      mk_q-is_in_bounds_q ((u + c * x) % Q) (mod-lt (u + c * x) zero-lt-Q),
      eq_p_self,
      eq_q_self,
    )

  -- For a ciphertext of valid residues, a secret in bounds and a base hash in bounds, the partial
  -- decryption of the ciphertext with the secret has a proof, whatever the seed, and the verifier
  -- accepts it for the public key of the secret and that base hash.
  pub make_chaum_pedersen-is_valid :
      (message : ElGamalCiphertext) (secret seed q : ElementModQ)
      → is_valid_residue gmp message.pad ≡ true
      → is_valid_residue gmp message.encrypted_data ≡ true
      → is_in_bounds_q secret ≡ true
      → is_in_bounds_q q ≡ true
      → let m = partial_decrypt gmp message secret in
        (proof : ChaumPedersenProof) × (make_chaum_pedersen gmp sha256 message secret m seed q
          ≡ ok proof)
        × (generic_is_valid gmp sha256 proof message (g_pow_p gmp (of_q secret)) m q ≡ true)
  unfolding partial_decrypt
  make_chaum_pedersen-is_valid msg secret seed q ha hb hs hq =
      let (a, pad_a, ra) = is_valid_residue-mk laws msg.pad ha in
      let (b, data_b, rb) = is_valid_residue-mk laws msg.encrypted_data hb in
      let (x, secret_x, _) = is_in_bounds_q-mk secret hs in
      let (n, q_n, below) = is_in_bounds_q-mk q hq in
      let (u, drawn, _) = constant_nonce-mk seed in
      let (c, challenged, c_below) = hash_elems-in_Q sha256 _ in
      let same : msg ≡ message x a b n = λ i. record { pad = pad_a i; encrypted_data = data_b i } in
      rw (same, secret_x, q_n, pow_p-pq laws a x, g_pow_p-q laws x)
        (
          proof_of x a b n u c,
          made x a b n u c seed drawn challenged,
          accepted x a b n u c ra rb below c_below challenged,
        )
