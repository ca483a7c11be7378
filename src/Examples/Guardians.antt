-- ===== src/Examples/Guardians.antt =====
-- Examples for guardians: two of them, each with the secret key 2.
use electionguard_python.Prelude.{◌≡◌, refl, true, false, none, some, List, [], ◌∷◌, map, arith}
use electionguard_python.Prelude.Int.{pos}
use electionguard_python.Prelude.Result.{ok}
use electionguard_python.Prelude.Digits.{codes}
use electionguard_python.Group.Constants.{Q, one-lt-Q}
use electionguard_python.Group.{
  ElementModQ, ElementModP, of_p, of_q, mk_q, zero_mod_q, mult_p, pow_p, g_pow_p, eq_q, int_to_q,
}
use electionguard_python.Group.Hex.{to_hex_q}
use electionguard_python.Group.Hex.RoundTrip.{lower_case, hex_to_q-lower_case}
use electionguard_python.KeyCeremony.Backups.{computed-is_in_bounds_q}
use electionguard_python.Dlog.{initial}
use electionguard_python.Dlog.Laws.{initial-IsValid}
use electionguard_python.Elgamal.{
  ElGamalKeyPair, ElGamalCiphertext, decrypt_known_product, partial_decrypt, elgamal_encrypt,
  elgamal_combine_public_keys,
}
use electionguard_python.Elgamal.Joint.{AreKeyPairs, decrypt_known_product-shares}
use electionguard_python.ChaumPedersen.{ChaumPedersenProof, generic_is_valid}
use electionguard_python.ElectionPolynomial.{compute_from, compute_polynomial_coordinate}
use electionguard_python.Prelude.Texts.{eq_text}
use electionguard_python.Prelude.Dict
use electionguard_python.DataStore.{get}
use electionguard_python.KeyCeremony.{ElectionPartialKeyBackup, ElectionPartialKeyVerification}
use electionguard_python.Guardian.{
  Guardian, new_store, save_election_partial_key_verification,
  all_election_partial_key_backups_verified, publish_joint_key,
}
use electionguard_python.Guardian.Decrypt.{
  partially_decrypt, compensate_decrypt, recovery_public_key_for,
}
use electionguard_python.Guardian.Laws.{publish_joint_key-save_failed, partially_decrypt-is_valid}
use electionguard_python.Guardian.Compensate.{compensate_decrypt-is_valid}
use electionguard_python.Guardian.Recovery.{recovery_public_key_for-compute_polynomial_coordinate}
use electionguard_python.Examples.StandIns.{gmp, gmp_laws, sha256}
use electionguard_python.Examples.Crypto.{
  pair, keys, Distinct-three, two-in_bounds, key-is_valid_residue,
}
use electionguard_python.Examples.Ceremony.{polynomial, decrypt}

abbrev pairs : List ElGamalKeyPair
pairs = pair ∷ pair ∷ []

abbrev joint : ElementModP
joint = elgamal_combine_public_keys (map (λ pair. pair.public_key) pairs)

-- A vote of 1 with the nonce 2, for both guardians.
abbrev joint_vote : ElGamalCiphertext
joint_vote = record {
  pad = g_pow_p gmp (of_q (mk_q 2));
  encrypted_data =
      mult_p
        (of_p (g_pow_p gmp (of_q (mk_q 1))) ∷ of_p (pow_p gmp (of_p joint) (of_q (mk_q 2))) ∷ []);
}

joint_vote-encrypted : elgamal_encrypt gmp (pos 1) (mk_q 2) joint ≡ some joint_vote
unfolding elgamal_encrypt eq_q int_to_q Q
joint_vote-encrypted = refl

pairs-AreKeyPairs : AreKeyPairs gmp pairs
pairs-AreKeyPairs = (two-in_bounds, refl, (two-in_bounds, refl, tt))

decrypt_known_product-shares_example :
    (decrypt_known_product gmp 1 joint_vote
      (mult_p (map (λ pair. of_p (partial_decrypt gmp joint_vote pair.secret_key)) pairs))
      initial).0
    ≡ ok 1
unfolding initial
decrypt_known_product-shares_example =
    decrypt_known_product-shares gmp_laws 3 1 1 pairs (mk_q 2) initial pairs-AreKeyPairs
      two-in_bounds joint_vote-encrypted initial-IsValid Distinct-three (omega arith) (omega arith)
      (omega arith)

-- What the polynomial is at the sequence order 1.
abbrev coordinate : ElementModQ
coordinate = compute_from gmp (pos 1) 0 zero_mod_q polynomial.coefficients

coordinate-computed : compute_polynomial_coordinate gmp (pos 1) polynomial ≡ ok coordinate
unfolding compute_polynomial_coordinate Q
coordinate-computed = refl

-- A backup with the commitments of the polynomial, and one verification that failed.
abbrev pub backup : ElectionPartialKeyBackup
backup = record {
  owner_id = codes "g0";
  designated_id = codes "g1";
  designated_sequence_order = pos 1;
  encrypted_value = 7 ∷ to_hex_q coordinate;
  coefficient_commitments = polynomial.coefficient_commitments;
  coefficient_proofs = polynomial.coefficient_proofs;
}

abbrev pub failure : ElectionPartialKeyVerification
failure = record {
  owner_id = codes "g0";
  designated_id = codes "g1";
  verifier_id = codes "g1";
  verified = false;
}

abbrev pub guardian : Guardian
guardian = record {
  object_id = codes "g1";
  sequence_order = pos 1;
  ceremony_details = record { number_of_guardians = pos 2; quorum = pos 2 };
  auxiliary_keys = record { secret_key = codes "secret"; public_key = codes "public" };
  election_keys = record {
    key_pair = pair;
    proof = record {
      public_key = pair.public_key;
      commitment = pair.public_key;
      challenge = mk_q 0;
      response = mk_q 0;
    };
    polynomial = polynomial;
  };
  backups_to_share = new_store;
  auxiliary_public_keys = new_store;
  election_public_keys = new_store;
  election_partial_key_backups = record { store = (codes "g0", backup) ∷ [] };
  election_partial_key_verifications = new_store;
}

publish_joint_key-save_failed_example :
    let verified = record failure { verified = true } in
    (all_election_partial_key_backups_verified
        (save_election_partial_key_verification verified guardian)
      ≡ all_election_partial_key_backups_verified
          (save_election_partial_key_verification failure guardian))
    × (publish_joint_key (save_election_partial_key_verification verified guardian)
        ≡ publish_joint_key (save_election_partial_key_verification failure guardian))
publish_joint_key-save_failed_example = publish_joint_key-save_failed failure guardian true

partially_decrypt-is_valid_example :
    (proof : ChaumPedersenProof) × (partially_decrypt gmp sha256 keys (mk_q 2) none 2 guardian
      ≡ ok (partial_decrypt gmp keys (mk_q 2), proof))
    × (generic_is_valid gmp sha256 proof keys pair.public_key
          (partial_decrypt gmp keys (mk_q 2))
          (mk_q 2)
        ≡ true)
partially_decrypt-is_valid_example =
    partially_decrypt-is_valid gmp_laws sha256 keys (mk_q 2) none 2 guardian key-is_valid_residue
      key-is_valid_residue two-in_bounds two-in_bounds refl

backup-there : get (codes "g0") guardian.election_partial_key_backups ≡ some backup
unfolding get Dict.lookup eq_text
backup-there = refl

recovery_public_key_for-compute_polynomial_coordinate_example :
    (coordinate : ElementModQ) × (compute_polynomial_coordinate gmp (pos 1) polynomial
      ≡ ok coordinate)
    × (recovery_public_key_for gmp (codes "g0") guardian ≡ some (g_pow_p gmp (of_q coordinate)))
recovery_public_key_for-compute_polynomial_coordinate_example =
    recovery_public_key_for-compute_polynomial_coordinate gmp_laws sha256 (some (mk_q 2)) (λ i. 2)
      (λ i. 2) 1 2 (codes "g0") backup guardian one-lt-Q refl backup-there refl

compensate_decrypt-is_valid_example :
    (proof : ChaumPedersenProof) × (recovery_key : ElementModP) × (compensate_decrypt gmp sha256
        (codes "g0")
        keys
        (mk_q 2)
        none
        2
        decrypt
        guardian
      ≡ ok (some (partial_decrypt gmp keys coordinate, proof)))
    × (recovery_public_key_for gmp (codes "g0") guardian ≡ some recovery_key)
    × (generic_is_valid gmp sha256 proof keys recovery_key
          (partial_decrypt gmp keys coordinate)
          (mk_q 2)
        ≡ true)
compensate_decrypt-is_valid_example =
    compensate_decrypt-is_valid gmp_laws sha256 (some (mk_q 2)) (λ i. 2) (λ i. 2) 1 2 (codes "g0")
      backup guardian coordinate decrypt keys (mk_q 2) none 2 (map lower_case (to_hex_q coordinate))
      one-lt-Q refl backup-there refl coordinate-computed refl
      (hex_to_q-lower_case coordinate
        (computed-is_in_bounds_q gmp (pos 1) polynomial coordinate coordinate-computed))
      key-is_valid_residue key-is_valid_residue two-in_bounds
