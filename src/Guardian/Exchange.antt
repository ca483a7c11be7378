-- ===== src/Guardian/Exchange.antt =====
-- guardian.py: the methods that make keys, backups, verifications and challenges. The auxiliary
-- encryption and decryption are arguments, and so is the auxiliary key pair that is generated.
use electionguard_python.Prelude.{
  ℕ, Bool, true, false, not, Option, none, some, List, [], ◌∷◌, if◌then◌else◌,
}
use electionguard_python.Prelude.Int.{ℤ}
use electionguard_python.Prelude.Result.{Result, ok, raise}
use electionguard_python.Prelude.Digits.{Text}
use electionguard_python.External.{Gmp, Sha256}
use electionguard_python.Group.{ElementModQ}
use electionguard_python.DataStore.{DataStore, clear, get, set, values}
use electionguard_python.KeyCeremony.{
  AuxiliaryKeyPair, AuxiliaryPublicKey, ElectionKeyPair, ElectionPartialKeyBackup,
  ElectionPartialKeyVerification, ElectionPartialKeyChallenge, generate_election_partial_key_backup,
  generate_election_partial_key_challenge,
}
use electionguard_python.KeyCeremony
use electionguard_python.Guardian.{
  CeremonyDetails, Guardian, new_store, set_ceremony_details, save_auxiliary_public_key,
  share_auxiliary_public_key, save_election_public_key, share_election_public_key,
  all_auxiliary_public_keys_received, generate_auxiliary_key_pair,
}

-- A result that is a value or None, out of one that may be None already.
abbrev as_optional {ℓ} : {A : Type ℓ} → Result A → Result (Option A)
as_optional (ok a) = ok (some a)
as_optional (raise e) = raise e

-- What randbelow(Q) returns for the coefficients of the polynomial, for their proofs and for the proof
-- of the key pair.
pub record Draws : Type 0 where
  pub drawn : ℕ → ℕ
  pub drawn_proof : ℕ → ℕ
  pub drawn_key : ℕ

module _ (gmp : Gmp) (sha256 : Sha256) where
  unfoldable pub new_election_keys :
      CeremonyDetails → Option ElementModQ → Draws → Result ElectionKeyPair
  new_election_keys details nonce d =
      KeyCeremony.generate_election_key_pair gmp sha256 details.quorum nonce d.drawn d.drawn_proof
        d.drawn_key

  -- A guardian whose key pair could not be made keeps the one it had.
  unfoldable pub generate_election_key_pair :
      Option ElementModQ → Draws → Guardian → Result (Unit {0}) × Guardian
  unfolding new_election_keys
  generate_election_key_pair nonce draws g =
      elim (new_election_keys g.ceremony_details nonce draws) [
        | raise e ↦ (Result.raise e, g)
        | ok keys ↦
            let g' = record g { election_keys = keys } in
            (ok tt, save_election_public_key (share_election_public_key g') g')
      ]

  -- A guardian with both key pairs, whose own public keys are the first that it saves.
  unfoldable pub new_guardian :
      Text → ℤ → ℤ → ℤ → Option ElementModQ → AuxiliaryKeyPair → Draws → Result Guardian
  unfolding new_election_keys
  new_guardian id sequence_order number_of_guardians quorum nonce_seed auxiliary draws =
      let details : CeremonyDetails = record {
        number_of_guardians = number_of_guardians;
        quorum = quorum;
      } in
      elim (new_election_keys details nonce_seed draws) [
        | raise e ↦ Result.raise e
        | ok keys ↦
            let g : Guardian = record {
              object_id = id;
              sequence_order = sequence_order;
              ceremony_details = details;
              auxiliary_keys = auxiliary;
              election_keys = keys;
              backups_to_share = new_store;
              auxiliary_public_keys = new_store;
              election_public_keys = new_store;
              election_partial_key_backups = new_store;
              election_partial_key_verifications = new_store;
            } in
            ok (
              save_election_public_key (share_election_public_key g)
                (save_auxiliary_public_key (share_auxiliary_public_key g) g))
      ]

  unfoldable pub reset : ℤ → ℤ → AuxiliaryKeyPair → Draws → Guardian → Result (Unit {0}) × Guardian
  unfolding generate_election_key_pair
  reset number_of_guardians quorum auxiliary draws g =
      let cleared = record g {
        backups_to_share = clear g.backups_to_share;
        auxiliary_public_keys = clear g.auxiliary_public_keys;
        election_public_keys = clear g.election_public_keys;
        election_partial_key_backups = clear g.election_partial_key_backups;
        election_partial_key_verifications = clear g.election_partial_key_verifications;
      } in
      generate_election_key_pair none draws (
        generate_auxiliary_key_pair auxiliary
          (set_ceremony_details number_of_guardians quorum cleared))

module _ (gmp : Gmp) where
  -- The loop over the auxiliary keys, which fills the store of backups.
  unfoldable pub generate_backups :
      (Text → Text → Option Text)
      → Guardian
      → List AuxiliaryPublicKey
      → DataStore ElectionPartialKeyBackup
      → Result Bool × DataStore ElectionPartialKeyBackup
  generate_backups encrypt g [] backups = (ok true, backups)
  generate_backups encrypt g (key ∷ keys) backups =
      elim (generate_election_partial_key_backup gmp g.object_id g.election_keys.polynomial key
        encrypt) [
          | raise e ↦ (Result.raise e, backups)
          | ok made ↦ elim made [
            | none ↦ (ok false, backups)
            | some backup ↦ generate_backups encrypt g keys (set key.owner_id backup backups)
          ]
        ]

  unfoldable pub generate_election_partial_key_backups :
      (Text → Text → Option Text) → Guardian → Result Bool × Guardian
  unfolding generate_backups
  generate_election_partial_key_backups encrypt g =
      if not (all_auxiliary_public_keys_received g)
      then (ok false, g)
      else let (result, backups) =
          generate_backups encrypt g (values g.auxiliary_public_keys) g.backups_to_share in
        (result, record g { backups_to_share = backups })

  unfoldable pub verify_election_partial_key_backup :
      Text → (Text → Text → Option Text) → Guardian → Result (Option ElectionPartialKeyVerification)
  verify_election_partial_key_backup guardian_id decrypt g =
      elim (get guardian_id g.election_partial_key_backups) [
        | none ↦ ok none
        | some backup ↦ as_optional (
            KeyCeremony.verify_election_partial_key_backup gmp g.object_id backup g.auxiliary_keys
              decrypt)
      ]

  unfoldable pub publish_election_backup_challenge :
      Text → Guardian → Result (Option ElectionPartialKeyChallenge)
  publish_election_backup_challenge guardian_id g = elim (get guardian_id g.backups_to_share) [
    | none ↦ ok none
    | some backup ↦
        as_optional (generate_election_partial_key_challenge gmp backup g.election_keys.polynomial)
  ]

  unfoldable pub verify_election_partial_key_challenge :
      ElectionPartialKeyChallenge → Guardian → ElectionPartialKeyVerification
  verify_election_partial_key_challenge challenge g =
      KeyCeremony.verify_election_partial_key_challenge gmp g.object_id challenge
