-- ===== src/KeyCeremony/Backups.antt =====
-- The backups that a guardian makes of its key are verified by the guardians they are for
-- (key_ceremony.py).
use electionguard_python.Prelude.{
  arith, ℕ, ◌+◌, ◌^◌, ◌<◌, ◌≡◌, refl, ap, ◌∙◌, Bool, true, Option, none, some, Option-cases, inl,
  inr, ◌⊎◌, List, [], ◌∷◌,
}
use electionguard_python.Prelude.Int.{ℤ, pos}
use electionguard_python.Prelude.Result.{ok}
use electionguard_python.Prelude.Digits.{Text}
use electionguard_python.External.{Gmp, GmpLaws, Sha256}
use electionguard_python.Group.Constants.{P, Q}
use electionguard_python.Group.{
  ElementModQ, of_q, of_int, is_in_bounds_q, zero_mod_q, add_q, mult_q, pow_q,
}
use electionguard_python.Group.Bounds.{arithmetic_in_bounds}
use electionguard_python.Group.Hex.{to_hex_q, hex_to_q}
use electionguard_python.ElectionPolynomial.{
  ElectionPolynomial, compute_from, compute_polynomial_coordinate, generate_polynomial,
}
use electionguard_python.ElectionPolynomial.Verify.{verify-compute_polynomial_coordinate}
use electionguard_python.KeyCeremony.{
  AuxiliaryPublicKey, ElectionPartialKeyChallenge, AuxiliaryKeyPair, ElectionPartialKeyBackup,
  ElectionPartialKeyVerification, backup_of, generate_election_partial_key_backup, verification,
  verify_decrypted, verify_election_partial_key_backup, generate_election_partial_key_challenge,
  verify_election_partial_key_challenge,
}

compute_from-is_in_bounds_q :
    (gmp : Gmp) (x : ℤ) (i : ℕ) (v : ElementModQ) (cs : List ElementModQ)
    → is_in_bounds_q v ≡ true
    → is_in_bounds_q (compute_from gmp x i v cs) ≡ true
unfolding compute_from
compute_from-is_in_bounds_q gmp x i v [] h = h
compute_from-is_in_bounds_q gmp x i v (c ∷ cs) h =
    let factor = mult_q (of_q c ∷ of_q (pow_q gmp (of_int x) (of_int (pos i))) ∷ []) in
    let sum = of_q v ∷ of_q factor ∷ [] in
    compute_from-is_in_bounds_q gmp x (i + 1) (add_q sum) cs
      (arithmetic_in_bounds (of_q v) (of_q v) (of_q v) sum).0

pub computed-is_in_bounds_q :
    (gmp : Gmp) (x : ℤ) (polynomial : ElectionPolynomial) (coordinate : ElementModQ)
    → compute_polynomial_coordinate gmp x polynomial ≡ ok coordinate
    → is_in_bounds_q coordinate ≡ true
unfolding compute_polynomial_coordinate is_in_bounds_q Q
computed-is_in_bounds_q gmp x polynomial coordinate h =
    ground (arith, compute_from-is_in_bounds_q gmp x 0 zero_mod_q polynomial.coefficients refl)

-- An auxiliary scheme that may fail to encrypt. Where it has encrypted an element in bounds, in
-- hexadecimal, it decrypts what it has made to a text that hex_to_q reads as the element: the text may
-- be in the lower case of bytes.hex, as that of rsa_decrypt is.
pub record Decrypts (encrypt decrypt : Text → Text → Option Text) (public_key secret_key : Text)
    : Type 0 where
  pub decrypts :
      (c : ElementModQ) (encrypted : Text)
      → is_in_bounds_q c ≡ true
      → encrypt (to_hex_q c) public_key ≡ some encrypted
      → (text : Text) × (decrypt encrypted secret_key ≡ some text) × (hex_to_q text ≡ ok (some c))

module _ (gmp : Gmp) (sha256 : Sha256) (seed : Option ElementModQ) (drawn drawn_proof : ℕ → ℕ) where
  -- For every polynomial that generate_polynomial makes and every sequence order below Q whose powers
  -- up to the number of coefficients are below P, where the auxiliary scheme decrypts, with the
  -- designated guardian's secret key, each element in bounds that it has encrypted with its public key,
  -- in hexadecimal, to a text that hex_to_q reads as the element: either the scheme does not encrypt
  -- the polynomial's coordinate at the sequence order, and no backup is made, or the backup is made of
  -- what it encrypts, and its verification, which does not raise, has the result that it is verified.
  pub verify-generate_election_partial_key_backup :
      GmpLaws gmp
      → (x number : ℕ) → x < Q
      → ((j : ℕ) → j < number → x ^ j < P)
      → (owner_id designated_id verifier_id key : Text) (pair : AuxiliaryKeyPair)
      → (encrypt decrypt : Text → Text → Option Text) → Decrypts encrypt decrypt key pair.secret_key
      → let polynomial = generate_polynomial gmp sha256 (pos number) seed drawn drawn_proof in
        let auxiliary : AuxiliaryPublicKey = record {
          owner_id = designated_id;
          sequence_order = pos x;
          key = key;
        } in
        let generated =
          generate_election_partial_key_backup gmp owner_id polynomial auxiliary encrypt in
        (coordinate : ElementModQ) × (compute_polynomial_coordinate gmp (pos x) polynomial
          ≡ ok coordinate)
        × (((encrypt (to_hex_q coordinate) key ≡ none) × (generated ≡ ok none))
            ⊎ ((backup : ElectionPartialKeyBackup) × (encrypt (to_hex_q coordinate) key
                  ≡ some backup.encrypted_value)
                × (generated ≡ ok (some backup))
                × (verify_election_partial_key_backup gmp verifier_id backup pair decrypt
                    ≡ ok (record {
                      owner_id = owner_id;
                      designated_id = designated_id;
                      verifier_id = verifier_id;
                      verified = true;
                    }))))
  unfolding generate_election_partial_key_backup backup_of verify_election_partial_key_backup
      verify_decrypted
  verify-generate_election_partial_key_backup laws x number hx hp owner_id designated_id verifier_id
        key pair encrypt decrypt scheme =
      let polynomial : ElectionPolynomial =
        generate_polynomial gmp sha256 (pos number) seed drawn drawn_proof in
      let (c, computed, verified) =
        verify-compute_polynomial_coordinate gmp sha256 seed drawn drawn_proof laws x number hx
          hp in
      (
        c,
        computed,
        elim (Option-cases (encrypt (to_hex_q c) key)) [
          | inl failed ↦ inl (failed, rw (computed, failed) refl)
          | inr (encrypted, made) ↦
              let backup : ElectionPartialKeyBackup = record {
                owner_id = owner_id;
                designated_id = designated_id;
                designated_sequence_order = pos x;
                encrypted_value = encrypted;
                coefficient_commitments = polynomial.coefficient_commitments;
                coefficient_proofs = polynomial.coefficient_proofs;
              } in
              let bounded = computed-is_in_bounds_q gmp (pos x) polynomial c computed in
              let (text, decrypted, read) = scheme.decrypts c encrypted bounded made in
              inr (
                backup,
                made,
                rw (computed, made) refl,
                ap (verify_decrypted gmp verifier_id backup) decrypted
                    ∙ rw read (ap (λ t. ok (verification verifier_id backup t)) verified),
              )
        ],
      )

  -- For every polynomial that generate_polynomial makes, and every backup of it for a sequence order
  -- below Q whose powers up to the number of coefficients are below P, whatever its encrypted value:
  -- the challenge is generated from it, and its verification has the result that it is verified.
  pub verify-generate_election_partial_key_challenge :
      GmpLaws gmp
      → (x number : ℕ) → x < Q
      → ((j : ℕ) → j < number → x ^ j < P)
      → (owner_id designated_id verifier_id encrypted : Text)
      → let polynomial = generate_polynomial gmp sha256 (pos number) seed drawn drawn_proof in
        (challenge : ElectionPartialKeyChallenge) × (generate_election_partial_key_challenge gmp
            (record {
              owner_id = owner_id;
              designated_id = designated_id;
              designated_sequence_order = pos x;
              encrypted_value = encrypted;
              coefficient_commitments = polynomial.coefficient_commitments;
              coefficient_proofs = polynomial.coefficient_proofs;
            })
            polynomial
          ≡ ok challenge)
        × (verify_election_partial_key_challenge gmp verifier_id challenge ≡ record {
          owner_id = owner_id;
          designated_id = designated_id;
          verifier_id = verifier_id;
          verified = true;
        })
  unfolding generate_election_partial_key_challenge verify_election_partial_key_challenge
  verify-generate_election_partial_key_challenge laws x number hx hp owner_id designated_id
        verifier_id encrypted =
      let polynomial : ElectionPolynomial =
        generate_polynomial gmp sha256 (pos number) seed drawn drawn_proof in
      let (c, computed, verified) =
        verify-compute_polynomial_coordinate gmp sha256 seed drawn drawn_proof laws x number hx
          hp in
      let result : Bool → ElectionPartialKeyVerification = λ t. record {
        owner_id = owner_id;
        designated_id = designated_id;
        verifier_id = verifier_id;
        verified = t;
      } in
      (
        record {
          owner_id = owner_id;
          designated_id = designated_id;
          designated_sequence_order = pos x;
          value = c;
          coefficient_commitments = polynomial.coefficient_commitments;
          coefficient_proofs = polynomial.coefficient_proofs;
        },
        rw computed refl,
        ap result verified,
      )
