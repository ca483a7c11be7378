-- ===== src/Guardian.antt =====
-- guardian.py: the state of a guardian and the exchange of keys, backups and verifications. A method
-- that changes the guardian returns it after its result.
pub mod Exchange
pub mod Decrypt
pub mod Laws
pub mod Recovery
pub mod Compensate
use electionguard_python.Prelude.{
  ℕ, Bool, true, false, not, ◌&&◌, Option, none, some, List, [], ◌∷◌, all, if◌then◌else◌,
}
use electionguard_python.Prelude.Int.{ℤ, pos, ◌-ℤ◌, ◌==ℤ◌}
use electionguard_python.Prelude.Result.{Result, ok, raise, ◌>>=◌}
use electionguard_python.Prelude.Digits.{Text}
use electionguard_python.External.{Gmp, Sha256}
use electionguard_python.Group.{ElementModQ, ElementModP}
use electionguard_python.Schnorr.{SchnorrProof}
use electionguard_python.DataStore.{DataStore, clear, get, set, values, size}
use electionguard_python.KeyCeremony.{
  AuxiliaryKeyPair, AuxiliaryPublicKey, ElectionKeyPair, ElectionPublicKey,
  ElectionPartialKeyBackup, CoefficientValidationSet, ElectionPartialKeyVerification,
  ElectionPartialKeyChallenge, get_coefficient_validation_set, combine_election_public_keys,
  generate_election_key_pair, generate_election_partial_key_backup,
  generate_election_partial_key_challenge,
}
use electionguard_python.KeyCeremony

pub record CeremonyDetails : Type 0 where
  pub number_of_guardians : ℤ
  pub quorum : ℤ

pub record PublicKeySet : Type 0 where
  pub owner_id : Text
  pub sequence_order : ℤ
  pub auxiliary_public_key : Text
  pub election_public_key : ElementModP
  pub election_public_key_proof : SchnorrProof

pub record Guardian : Type 0 where
  pub object_id : Text
  pub sequence_order : ℤ
  pub ceremony_details : CeremonyDetails
  pub auxiliary_keys : AuxiliaryKeyPair
  pub election_keys : ElectionKeyPair
  pub backups_to_share : DataStore ElectionPartialKeyBackup
  pub auxiliary_public_keys : DataStore AuxiliaryPublicKey
  pub election_public_keys : DataStore ElectionPublicKey
  pub election_partial_key_backups : DataStore ElectionPartialKeyBackup
  pub election_partial_key_verifications : DataStore ElectionPartialKeyVerification

abbrev pub new_store {ℓ} : {A : Type ℓ} → DataStore A
new_store = record { store = [] }

-- The parts of a key set.
abbrev pub auxiliary_of : PublicKeySet → AuxiliaryPublicKey
auxiliary_of s = record {
  owner_id = s.owner_id;
  sequence_order = s.sequence_order;
  key = s.auxiliary_public_key;
}

abbrev pub election_of : PublicKeySet → ElectionPublicKey
election_of s = record {
  owner_id = s.owner_id;
  proof = s.election_public_key_proof;
  key = s.election_public_key;
}

unfoldable pub set_ceremony_details : ℤ → ℤ → Guardian → Guardian
set_ceremony_details number_of_guardians quorum g = record g {
  ceremony_details = record { number_of_guardians = number_of_guardians; quorum = quorum };
}

unfoldable pub share_public_keys : Guardian → PublicKeySet
share_public_keys g = record {
  owner_id = g.object_id;
  sequence_order = g.sequence_order;
  auxiliary_public_key = g.auxiliary_keys.public_key;
  election_public_key = g.election_keys.key_pair.public_key;
  election_public_key_proof = g.election_keys.proof;
}

unfoldable pub save_auxiliary_public_key : AuxiliaryPublicKey → Guardian → Guardian
save_auxiliary_public_key key g = record g {
  auxiliary_public_keys = set key.owner_id key g.auxiliary_public_keys;
}

unfoldable pub save_election_public_key : ElectionPublicKey → Guardian → Guardian
save_election_public_key key g = record g {
  election_public_keys = set key.owner_id key g.election_public_keys;
}

unfoldable pub save_guardian_public_keys : PublicKeySet → Guardian → Guardian
unfolding save_auxiliary_public_key save_election_public_key
save_guardian_public_keys s g =
    save_election_public_key (election_of s) (save_auxiliary_public_key (auxiliary_of s) g)

unfoldable pub all_auxiliary_public_keys_received : Guardian → Bool
all_auxiliary_public_keys_received g =
    pos (size g.auxiliary_public_keys) ==ℤ g.ceremony_details.number_of_guardians

unfoldable pub all_election_public_keys_received : Guardian → Bool
all_election_public_keys_received g =
    pos (size g.election_public_keys) ==ℤ g.ceremony_details.number_of_guardians

unfoldable pub all_public_keys_received : Guardian → Bool
unfolding all_auxiliary_public_keys_received all_election_public_keys_received
all_public_keys_received g =
    all_auxiliary_public_keys_received g && all_election_public_keys_received g

unfoldable pub share_auxiliary_public_key : Guardian → AuxiliaryPublicKey
share_auxiliary_public_key g = record {
  owner_id = g.object_id;
  sequence_order = g.sequence_order;
  key = g.auxiliary_keys.public_key;
}

unfoldable pub share_election_public_key : Guardian → ElectionPublicKey
share_election_public_key g = record {
  owner_id = g.object_id;
  proof = g.election_keys.proof;
  key = g.election_keys.key_pair.public_key;
}

-- `generated` is what the function that generates key pairs returns.
unfoldable pub generate_auxiliary_key_pair : AuxiliaryKeyPair → Guardian → Guardian
unfolding save_auxiliary_public_key share_auxiliary_public_key
generate_auxiliary_key_pair generated g =
    let g' = record g { auxiliary_keys = generated } in
    save_auxiliary_public_key (share_auxiliary_public_key g') g'

unfoldable pub share_coefficient_validation_set : Guardian → CoefficientValidationSet
share_coefficient_validation_set g =
    get_coefficient_validation_set g.object_id g.election_keys.polynomial

unfoldable pub share_election_partial_key_backup : Text → Guardian → Option ElectionPartialKeyBackup
share_election_partial_key_backup designated_id g = get designated_id g.backups_to_share

unfoldable pub save_election_partial_key_backup : ElectionPartialKeyBackup → Guardian → Guardian
save_election_partial_key_backup backup g = record g {
  election_partial_key_backups = set backup.owner_id backup g.election_partial_key_backups;
}

unfoldable pub all_election_partial_key_backups_received : Guardian → Bool
all_election_partial_key_backups_received g =
    pos (size g.election_partial_key_backups) ==ℤ (g.ceremony_details.number_of_guardians -ℤ pos 1)

unfoldable pub save_election_partial_key_verification :
    ElectionPartialKeyVerification → Guardian → Guardian
save_election_partial_key_verification v g = record g {
  election_partial_key_verifications = set v.designated_id v g.election_partial_key_verifications;
}

-- `if not verified`, of a verification: a named tuple with fields, which is always true.
unfoldable pub is_truthy : ElectionPartialKeyVerification → Bool
is_truthy v = true

unfoldable pub all_election_partial_key_backups_verified : Guardian → Bool
unfolding is_truthy
all_election_partial_key_backups_verified g =
    let required = g.ceremony_details.number_of_guardians -ℤ pos 1 in
    if not (pos (size g.election_partial_key_verifications) ==ℤ required)
    then false
    else all is_truthy (values g.election_partial_key_verifications)

unfoldable pub publish_joint_key : Guardian → Option ElementModP
unfolding all_election_public_keys_received all_election_partial_key_backups_verified
publish_joint_key g =
    if not (all_election_public_keys_received g)
    then none
    else if not (all_election_partial_key_backups_verified g)
    then none
    else some (combine_election_public_keys g.election_public_keys)
