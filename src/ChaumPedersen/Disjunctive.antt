-- ===== src/ChaumPedersen/Disjunctive.antt =====
-- The verifier of chaum_pedersen.py accepts the disjunctive proofs that its prover makes.
use electionguard_python.Prelude.{
  ℕ, zero, suc, ◌≤◌, ◌%◌, ◌^◌, ◌<◌, ◌≡◌, ap, ◌∙◌, true, [], ◌∷◌, some, arith,
}
use electionguard_python.Prelude.Int.{pos}
use electionguard_python.Prelude.Result.{Result, ok}
use electionguard_python.Prelude.Digits.{codes}
use electionguard_python.External.{Gmp, GmpLaws, Sha256}
use electionguard_python.Group.Constants.{P, Q, G}
use electionguard_python.Group.Residues.{IsResidue, is_valid_residue-mk}
use electionguard_python.Group.Elements.{is_in_bounds_q-mk}
use electionguard_python.Group.Equations.{zero_encryption}
use electionguard_python.Group.{
  ElementModQ, ElementModP, mk_q, mk_p, is_in_bounds_q, is_valid_residue,
}
use electionguard_python.Hash.{text, end, item, new_nonces}
use electionguard_python.Hash.Laws.{hash_elems-in_Q, nonce, nonce-in_Q, first_three}
use electionguard_python.Elgamal.{ElGamalCiphertext}
use electionguard_python.Elgamal.{elgamal_encrypt}
use electionguard_python.Elgamal.Decrypt.{ciphertext, elgamal_encrypt-mk}
use electionguard_python.ChaumPedersen.{DisjunctiveChaumPedersenProof, disjunctive_is_valid}
use electionguard_python.ChaumPedersen.Provers.{
  make_disjunctive_chaum_pedersen_zero, make_disjunctive_chaum_pedersen_one,
  make_disjunctive_chaum_pedersen, disjunctive_nonces,
}
use electionguard_python.ChaumPedersen.DisjunctiveZero.{
  zero_message, zero_proof, zero_made, zero_accepted, IsZeroChallenge,
}
use electionguard_python.ChaumPedersen.DisjunctiveOne.{one_proof, one_made, one_accepted}

module _ {gmp : Gmp} (laws : GmpLaws gmp) (sha256 : Sha256) where
  -- The three nonces of a seed are elements in bounds.
  record Drawn (seed : ElementModQ) : Type 0 where
    first : ℕ
    second : ℕ
    third : ℕ
    slice : disjunctive_nonces gmp sha256 seed ≡ ok (mk_q first ∷ mk_q second ∷ mk_q third ∷ [])
    first_below : first < Q
    second_below : second < Q

  draw : (seed : ElementModQ) → Drawn seed
  unfolding disjunctive_nonces
  draw seed =
      let nonces =
        new_nonces sha256 seed (item (text (codes "disjoint-chaum-pedersen-proof")) end) in
      let (a, ea, ha) = nonce-in_Q sha256 nonces 0 in
      let (b, eb, hb) = nonce-in_Q sha256 nonces 1 in
      let (c, ec, hc) = nonce-in_Q sha256 nonces 2 in
      record {
        first = a;
        second = b;
        third = c;
        slice = first_three sha256 nonces ∙ ap ok (λ i. ea i ∷ eb i ∷ ec i ∷ []);
        first_below = ha;
        second_below = hb;
      }

  -- The result that the prover must give: a proof, and one that the verifier accepts.
  record Proves (message : ElGamalCiphertext) (k : ElementModP) (q : ElementModQ)
      (result : Result DisjunctiveChaumPedersenProof) : Type 0 where
    pub proof : DisjunctiveChaumPedersenProof
    pub made : result ≡ ok proof
    pub accepted : disjunctive_is_valid gmp sha256 proof message k q ≡ true

  zero_challenge :
      (r k : ℕ) (q : ElementModQ) (c1 v1 u0 : ℕ)
      → (c : ℕ) × IsZeroChallenge laws sha256 r k q c1 v1 u0 c × (c < Q)
  zero_challenge r k q c1 v1 u0 = hash_elems-in_Q sha256 _

  zero_Proves :
      (r k : ℕ) (q seed : ElementModQ)
      → IsResidue k
      → Proves (ciphertext 0 r k) (mk_p k) q (
          make_disjunctive_chaum_pedersen_zero gmp sha256
            (ciphertext 0 r k)
            (mk_q r)
            (mk_p k)
            q
            seed)
  unfolding make_disjunctive_chaum_pedersen_zero
  zero_Proves r k q seed rk =
      let d = draw seed in
      let (c, challenged, below) = zero_challenge r k q d.first d.second d.third in
      let same : ciphertext 0 r k ≡ zero_message laws sha256 r k q d.first d.second d.third c =
        λ i. record { pad = mk_p (G ^ r % P); encrypted_data = mk_p (zero_encryption r k i) } in
      rw (same, d.slice)
        (record {
          proof = zero_proof laws sha256 r k q d.first d.second d.third c;
          made = zero_made laws sha256 r k q d.first d.second d.third c d.first_below challenged;
          accepted =
              zero_accepted laws sha256 r k q d.first d.second d.third c rk d.first_below
                d.second_below below challenged;
        })

  one_Proves :
      (r k : ℕ) (q seed : ElementModQ)
      → IsResidue k
      → Proves (ciphertext 1 r k) (mk_p k) q (
          make_disjunctive_chaum_pedersen_one gmp sha256
            (ciphertext 1 r k)
            (mk_q r)
            (mk_p k)
            q
            seed)
  unfolding make_disjunctive_chaum_pedersen_one
  one_Proves r k q seed rk =
      let d = draw seed in
      let (c, challenged, below) = hash_elems-in_Q sha256 _ in
      rw d.slice (record {
        proof = one_proof laws sha256 r k q d.first d.second d.third c;
        made = one_made laws sha256 r k q d.first d.second d.third c d.first_below challenged;
        accepted =
            one_accepted laws sha256 r k q d.first d.second d.third c rk d.first_below
              d.second_below below challenged;
      })

  Proves-plaintext :
      (m r k : ℕ) (q seed : ElementModQ)
      → m ≤ 1
      → IsResidue k
      → Proves (ciphertext m r k) (mk_p k) q (
          make_disjunctive_chaum_pedersen gmp sha256
            (ciphertext m r k)
            (mk_q r)
            (mk_p k)
            q
            seed
            (pos m))
  unfolding make_disjunctive_chaum_pedersen
  Proves-plaintext zero r k q seed h rk = zero_Proves r k q seed rk
  Proves-plaintext (suc zero) r k q seed h rk = one_Proves r k q seed rk
  Proves-plaintext (suc (suc m)) r k q seed h rk = absurd (omega arith)

  -- An encryption of zero or of one, made with any nonce in bounds and any public key that is a
  -- valid residue, always has a disjunctive proof, whatever the seed and the base hash, and the
  -- verifier accepts it.
  pub make_disjunctive_chaum_pedersen-is_valid :
      (plaintext : ℕ) (nonce seed q : ElementModQ) (k : ElementModP) {message : ElGamalCiphertext}
      → plaintext ≤ 1
      → is_in_bounds_q nonce ≡ true
      → is_valid_residue gmp k ≡ true
      → elgamal_encrypt gmp (pos plaintext) nonce k ≡ some message
      → (proof : DisjunctiveChaumPedersenProof) × (make_disjunctive_chaum_pedersen gmp sha256
            message nonce k q seed
            (pos plaintext)
          ≡ ok proof)
        × (disjunctive_is_valid gmp sha256 proof message k q ≡ true)
  make_disjunctive_chaum_pedersen-is_valid m nonce seed q key {message} hm hr hk he =
      let (k, key_k, rk) = is_valid_residue-mk laws key hk in
      let (r, nonce_r, _) = is_in_bounds_q-mk nonce hr in
      let same : message ≡ ciphertext m r k =
        elgamal_encrypt-mk laws m r k (rw (nonce_r, key_k) at he) in
      let p = Proves-plaintext m r k q seed hm rk in
      rw (same, nonce_r, key_k) (p.proof, p.made, p.accepted)
