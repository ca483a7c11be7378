-- ===== src/KeyCeremonyMediator.antt =====
-- key_ceremony_mediator.py: the state of a mediator, what it receives and what it publishes. A method
-- that changes the mediator returns it after its result. The list of guardians is an attribute of the
-- class: it is that of the one mediator here, and its entries are distinct objects.
pub mod PairStore
pub mod Rounds
pub mod Filed
pub mod Missing
pub mod Counting
pub mod Square
pub mod Consistent
pub mod Reachable
pub mod Joint
use electionguard_python.Prelude.{
  ℕ, Bool, true, false, not, ◌&&◌, Option, none, some, List, [], ◌∷◌, ◌++◌, map, all, length,
  if◌then◌else◌,
}
use electionguard_python.Prelude.Int.{ℤ, pos, ◌-ℤ◌, ◌*ℤ◌, ◌==ℤ◌}
use electionguard_python.Prelude.Result.{Result, ok, raise, value_error, ◌>>=◌}
use electionguard_python.Prelude.Digits.{Text}
use electionguard_python.Prelude.Texts.{eq_text}
use electionguard_python.Group.{ElementModP}
use electionguard_python.DataStore.{DataStore, clear, keys, set, size, values}
use electionguard_python.KeyCeremony.{
  AuxiliaryPublicKey, ElectionPublicKey, ElectionPartialKeyBackup, ElectionPartialKeyVerification,
  ElectionPartialKeyChallenge, combine_election_public_keys,
}
use electionguard_python.Guardian.{
  CeremonyDetails, PublicKeySet, Guardian, new_store, auxiliary_of, election_of,
}
use electionguard_python.KeyCeremonyMediator.PairStore.{
  GuardianPair, Pairs, eq_pair, set_pair, get_pair, pair_values,
}

pub record KeyCeremonyMediator : Type 0 where
  pub ceremony_details : CeremonyDetails
  pub auxiliary_public_keys : DataStore AuxiliaryPublicKey
  pub election_public_keys : DataStore ElectionPublicKey
  pub election_partial_key_backups : Pairs ElectionPartialKeyBackup
  pub election_partial_key_challenges : Pairs ElectionPartialKeyChallenge
  pub election_partial_key_verifications : Pairs ElectionPartialKeyVerification
  pub guardians : List Guardian

-- A new mediator, with the guardians that the class has.
unfoldable pub new_mediator : CeremonyDetails → List Guardian → KeyCeremonyMediator
new_mediator details guardians = record {
  ceremony_details = details;
  auxiliary_public_keys = new_store;
  election_public_keys = new_store;
  election_partial_key_backups = [];
  election_partial_key_challenges = [];
  election_partial_key_verifications = [];
  guardians = guardians;
}

unfoldable pub reset : CeremonyDetails → KeyCeremonyMediator → KeyCeremonyMediator
reset details m = record {
  ceremony_details = details;
  auxiliary_public_keys = clear m.auxiliary_public_keys;
  election_public_keys = clear m.election_public_keys;
  election_partial_key_backups = [];
  election_partial_key_challenges = [];
  election_partial_key_verifications = [];
  guardians = [];
}

unfoldable pub receive_auxiliary_public_key :
    AuxiliaryPublicKey → KeyCeremonyMediator → KeyCeremonyMediator
receive_auxiliary_public_key key m = record m {
  auxiliary_public_keys = set key.owner_id key m.auxiliary_public_keys;
}

unfoldable pub receive_election_public_key :
    ElectionPublicKey → KeyCeremonyMediator → KeyCeremonyMediator
receive_election_public_key key m = record m {
  election_public_keys = set key.owner_id key m.election_public_keys;
}

unfoldable pub confirm_presence_of_guardian :
    PublicKeySet → KeyCeremonyMediator → KeyCeremonyMediator
unfolding receive_auxiliary_public_key receive_election_public_key
confirm_presence_of_guardian s m =
    receive_election_public_key (election_of s) (receive_auxiliary_public_key (auxiliary_of s) m)

unfoldable pub all_auxiliary_public_keys_available : KeyCeremonyMediator → Bool
all_auxiliary_public_keys_available m =
    pos (size m.auxiliary_public_keys) ==ℤ m.ceremony_details.number_of_guardians

unfoldable pub all_election_public_keys_available : KeyCeremonyMediator → Bool
all_election_public_keys_available m =
    pos (size m.election_public_keys) ==ℤ m.ceremony_details.number_of_guardians

unfoldable pub all_guardians_in_attendance : KeyCeremonyMediator → Bool
unfolding all_auxiliary_public_keys_available all_election_public_keys_available
all_guardians_in_attendance m =
    all_auxiliary_public_keys_available m && all_election_public_keys_available m

unfoldable pub share_guardians_in_attendance : KeyCeremonyMediator → List Text
share_guardians_in_attendance m = keys m.election_public_keys

unfoldable pub share_auxiliary_public_keys : KeyCeremonyMediator → List AuxiliaryPublicKey
share_auxiliary_public_keys m = values m.auxiliary_public_keys

unfoldable pub share_election_public_keys : KeyCeremonyMediator → List ElectionPublicKey
share_election_public_keys m = values m.election_public_keys

unfoldable pub receive_election_partial_key_backup :
    ElectionPartialKeyBackup → KeyCeremonyMediator → Bool × KeyCeremonyMediator
receive_election_partial_key_backup b m =
    if eq_text b.owner_id b.designated_id then (false, m) else (
      true,
      record m {
        election_partial_key_backups =
            set_pair (record { owner_id = b.owner_id; designated_id = b.designated_id }) b
              m.election_partial_key_backups;
      },
    )

-- (number_of_guardians - 1) * number_of_guardians
unfoldable pub required_pairs : CeremonyDetails → ℤ
required_pairs d = (d.number_of_guardians -ℤ pos 1) *ℤ d.number_of_guardians

unfoldable pub all_election_partial_key_backups_available : KeyCeremonyMediator → Bool
unfolding required_pairs
all_election_partial_key_backups_available m =
    pos (length m.election_partial_key_backups) ==ℤ required_pairs m.ceremony_details

-- The loop over the guardians in attendance.
unfoldable pub backups_for :
    Text → Pairs ElectionPartialKeyBackup → List Text → List ElectionPartialKeyBackup
backups_for guardian_id backups [] = []
backups_for guardian_id backups (current ∷ attendance) =
    let rest = backups_for guardian_id backups attendance in
    if eq_text guardian_id current
    then rest
    else elim (get_pair (record { owner_id = current; designated_id = guardian_id }) backups) [
      | none ↦ rest
      | some backup ↦ backup ∷ rest
    ]

unfoldable pub share_election_partial_key_backups_to_guardian :
    Text → KeyCeremonyMediator → List ElectionPartialKeyBackup
unfolding backups_for share_guardians_in_attendance
share_election_partial_key_backups_to_guardian guardian_id m =
    backups_for guardian_id m.election_partial_key_backups (share_guardians_in_attendance m)

unfoldable pub receive_election_partial_key_verification :
    ElectionPartialKeyVerification → KeyCeremonyMediator → KeyCeremonyMediator
receive_election_partial_key_verification v m =
    if eq_text v.owner_id v.designated_id then m else record m {
      election_partial_key_verifications =
          set_pair (record { owner_id = v.owner_id; designated_id = v.designated_id }) v
            m.election_partial_key_verifications;
    }

unfoldable pub all_election_partial_key_verifications_received : KeyCeremonyMediator → Bool
unfolding required_pairs
all_election_partial_key_verifications_received m =
    pos (length m.election_partial_key_verifications) ==ℤ required_pairs m.ceremony_details

unfoldable pub all_election_partial_key_backups_verified : KeyCeremonyMediator → Bool
unfolding all_election_partial_key_verifications_received
all_election_partial_key_backups_verified m =
    if not (all_election_partial_key_verifications_received m)
    then false
    else all (λ v. v.verified) (pair_values m.election_partial_key_verifications)

-- The loop over the verifications.
unfoldable pub failed : Pairs ElectionPartialKeyVerification → List GuardianPair
failed [] = []
failed ((pair, v) ∷ verifications) =
    let rest = failed verifications in if not v.verified then pair ∷ rest else rest

unfoldable pub share_failed_partial_key_verifications : KeyCeremonyMediator → List GuardianPair
unfolding failed
share_failed_partial_key_verifications m = failed m.election_partial_key_verifications

-- list.remove: the first one, which must be there.
unfoldable pub remove_pair : GuardianPair → List GuardianPair → Result (List GuardianPair)
remove_pair p [] = raise value_error
remove_pair p (q ∷ pairs) =
    let rest = (do removed ← remove_pair p pairs; ok (q ∷ removed)) in
    if eq_pair q p then ok pairs else rest

-- The loop over the pairs that have a challenge.
unfoldable pub remove_all : List GuardianPair → List GuardianPair → Result (List GuardianPair)
unfolding remove_pair
remove_all [] pairs = ok pairs
remove_all (p ∷ challenged) pairs = do rest ← remove_pair p pairs; remove_all challenged rest

unfoldable pub share_missing_election_partial_key_challenges :
    KeyCeremonyMediator → Result (List GuardianPair)
unfolding remove_all
share_missing_election_partial_key_challenges m =
    remove_all (map (λ entry. entry.0) m.election_partial_key_challenges)
      (share_failed_partial_key_verifications m)

unfoldable pub receive_election_partial_key_challenge :
    ElectionPartialKeyChallenge → KeyCeremonyMediator → KeyCeremonyMediator
receive_election_partial_key_challenge c m = record m {
  election_partial_key_challenges =
      set_pair (record { owner_id = c.owner_id; designated_id = c.designated_id }) c
        m.election_partial_key_challenges;
}

unfoldable pub share_open_election_partial_key_challenges :
    KeyCeremonyMediator → List ElectionPartialKeyChallenge
share_open_election_partial_key_challenges m = pair_values m.election_partial_key_challenges

unfoldable pub publish_joint_key : KeyCeremonyMediator → Option ElementModP
unfolding all_election_public_keys_available all_election_partial_key_backups_verified
publish_joint_key m =
    if not (all_election_public_keys_available m)
    then none
    else if not (all_election_partial_key_backups_verified m)
    then none
    else some (combine_election_public_keys m.election_public_keys)
