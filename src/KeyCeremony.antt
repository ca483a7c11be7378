-- ===== src/KeyCeremony.antt =====
-- key_ceremony.py: what guardians exchange to share their secret keys, and the key pairs of
-- auxiliary.py. The auxiliary encryption and decryption are arguments, as in the source.
pub mod Backups
use electionguard_python.Prelude.{ℕ, Bool, true, false, Option, none, some, List, [], ◌∷◌, map}
use electionguard_python.Prelude.Int.{ℤ}
use electionguard_python.Prelude.Result.{Result, ok, raise, index_error, get_optional, ◌>>=◌}
use electionguard_python.Prelude.Digits.{Text}
use electionguard_python.External.{Gmp, Sha256}
use electionguard_python.Group.{ElementModQ, ElementModP, rand_q}
use electionguard_python.Group.Hex.{to_hex_q, to_hex_p, hex_to_q}
use electionguard_python.Elgamal.{
  ElGamalKeyPair, elgamal_keypair_random, elgamal_combine_public_keys,
}
use electionguard_python.Schnorr.{SchnorrProof, make_schnorr_proof}
use electionguard_python.ElectionPolynomial.{
  ElectionPolynomial, generate_polynomial, compute_polynomial_coordinate,
  verify_polynomial_coordinate,
}
use electionguard_python.DataStore.{DataStore, values}

pub record AuxiliaryKeyPair : Type 0 where
  pub secret_key : Text
  pub public_key : Text

pub record AuxiliaryPublicKey : Type 0 where
  pub owner_id : Text
  pub sequence_order : ℤ
  pub key : Text

pub record ElectionKeyPair : Type 0 where
  pub key_pair : ElGamalKeyPair
  pub proof : SchnorrProof
  pub polynomial : ElectionPolynomial

pub record ElectionPublicKey : Type 0 where
  pub owner_id : Text
  pub proof : SchnorrProof
  pub key : ElementModP

pub record ElectionPartialKeyBackup : Type 0 where
  pub owner_id : Text
  pub designated_id : Text
  pub designated_sequence_order : ℤ
  pub encrypted_value : Text
  pub coefficient_commitments : List ElementModP
  pub coefficient_proofs : List SchnorrProof

pub record CoefficientValidationSet : Type 0 where
  pub owner_id : Text
  pub coefficient_commitments : List ElementModP
  pub coefficient_proofs : List SchnorrProof

pub record ElectionPartialKeyVerification : Type 0 where
  pub owner_id : Text
  pub designated_id : Text
  pub verifier_id : Text
  pub verified : Bool

pub record ElectionPartialKeyChallenge : Type 0 where
  pub owner_id : Text
  pub designated_id : Text
  pub designated_sequence_order : ℤ
  pub value : ElementModQ
  pub coefficient_commitments : List ElementModP
  pub coefficient_proofs : List SchnorrProof

-- xs[0]
abbrev pub first {ℓ} : {A : Type ℓ} → List A → Result A
first [] = raise index_error
first (x ∷ xs) = ok x

unfoldable pub get_coefficient_validation_set : Text → ElectionPolynomial → CoefficientValidationSet
get_coefficient_validation_set owner_id polynomial = record {
  owner_id = owner_id;
  coefficient_commitments = polynomial.coefficient_commitments;
  coefficient_proofs = polynomial.coefficient_proofs;
}

unfoldable pub get_coefficient_validation_set_from_backup :
    ElectionPartialKeyBackup → CoefficientValidationSet
get_coefficient_validation_set_from_backup backup = record {
  owner_id = backup.owner_id;
  coefficient_commitments = backup.coefficient_commitments;
  coefficient_proofs = backup.coefficient_proofs;
}

unfoldable pub combine_election_public_keys : DataStore ElectionPublicKey → ElementModP
combine_election_public_keys election_public_keys =
    elgamal_combine_public_keys (map (λ public_key. public_key.key) (values election_public_keys))

module _ (gmp : Gmp) (sha256 : Sha256) where
  -- What randbelow(Q) returns for the coefficients and their proofs is `drawn` and `drawn_proof` at
  -- the number of the coefficient, and for the proof of the key pair `drawn_key`.
  unfoldable pub generate_election_key_pair :
      ℤ → Option ElementModQ → (ℕ → ℕ) → (ℕ → ℕ) → ℕ → Result ElectionKeyPair
  generate_election_key_pair quorum nonce drawn drawn_proof drawn_key =
      let polynomial = generate_polynomial gmp sha256 quorum nonce drawn drawn_proof in
      do
        secret ← first polynomial.coefficients
        commitment ← first polynomial.coefficient_commitments
        ok (record {
          key_pair = record { secret_key = secret; public_key = commitment };
          proof =
              make_schnorr_proof gmp sha256
                (record { secret_key = secret; public_key = commitment }) (rand_q drawn_key);
          polynomial = polynomial;
        })

-- The backup of a coordinate that the auxiliary scheme has encrypted, where it has.
unfoldable pub backup_of :
    Text → ElectionPolynomial → AuxiliaryPublicKey → Option Text → Option ElectionPartialKeyBackup
backup_of owner_id polynomial auxiliary none = none
backup_of owner_id polynomial auxiliary (some encrypted) = some (record {
  owner_id = owner_id;
  designated_id = auxiliary.owner_id;
  designated_sequence_order = auxiliary.sequence_order;
  encrypted_value = encrypted;
  coefficient_commitments = polynomial.coefficient_commitments;
  coefficient_proofs = polynomial.coefficient_proofs;
})

abbrev pub verification : Text → ElectionPartialKeyBackup → Bool → ElectionPartialKeyVerification
verification verifier_id backup verified = record {
  owner_id = backup.owner_id;
  designated_id = backup.designated_id;
  verifier_id = verifier_id;
  verified = verified;
}

module _ (gmp : Gmp) where
  unfoldable pub generate_elgamal_auxiliary_key_pair : List ℕ → Result AuxiliaryKeyPair
  generate_elgamal_auxiliary_key_pair draws = do
    pair ← elgamal_keypair_random gmp draws
    ok (record { secret_key = to_hex_q pair.secret_key; public_key = to_hex_p pair.public_key })

  unfoldable pub generate_election_partial_key_backup :
      Text
      → ElectionPolynomial
      → AuxiliaryPublicKey
      → (Text → Text → Option Text)
      → Result (Option ElectionPartialKeyBackup)
  unfolding backup_of
  generate_election_partial_key_backup owner_id polynomial auxiliary encrypt = do
    value ← compute_polynomial_coordinate gmp auxiliary.sequence_order polynomial
    ok (backup_of owner_id polynomial auxiliary (encrypt (to_hex_q value) auxiliary.key))

  -- What is made of the text that the auxiliary scheme has decrypted.
  unfoldable pub verify_decrypted :
      Text → ElectionPartialKeyBackup → Option Text → Result ElectionPartialKeyVerification
  verify_decrypted verifier_id backup none = ok (verification verifier_id backup false)
  verify_decrypted verifier_id backup (some decrypted) = do
    read ← hex_to_q decrypted
    value ← get_optional read
    ok (
        verification verifier_id backup (
          verify_polynomial_coordinate gmp value backup.designated_sequence_order
            backup.coefficient_commitments))

  unfoldable pub verify_election_partial_key_backup :
      Text
      → ElectionPartialKeyBackup
      → AuxiliaryKeyPair
      → (Text → Text → Option Text)
      → Result ElectionPartialKeyVerification
  unfolding verify_decrypted
  verify_election_partial_key_backup verifier_id backup pair decrypt =
      verify_decrypted verifier_id backup (decrypt backup.encrypted_value pair.secret_key)

  unfoldable pub generate_election_partial_key_challenge :
      ElectionPartialKeyBackup → ElectionPolynomial → Result ElectionPartialKeyChallenge
  generate_election_partial_key_challenge backup polynomial = do
    value ← compute_polynomial_coordinate gmp backup.designated_sequence_order polynomial
    ok (record {
      owner_id = backup.owner_id;
      designated_id = backup.designated_id;
      designated_sequence_order = backup.designated_sequence_order;
      value = value;
      coefficient_commitments = backup.coefficient_commitments;
      coefficient_proofs = backup.coefficient_proofs;
    })

  unfoldable pub verify_election_partial_key_challenge :
      Text → ElectionPartialKeyChallenge → ElectionPartialKeyVerification
  verify_election_partial_key_challenge verifier_id challenge = record {
    owner_id = challenge.owner_id;
    designated_id = challenge.designated_id;
    verifier_id = verifier_id;
    verified =
        verify_polynomial_coordinate gmp challenge.value challenge.designated_sequence_order
          challenge.coefficient_commitments;
  }
