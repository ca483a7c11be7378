-- ===== src/Examples/Mediator.antt =====
-- Examples for the mediator: two guardians, of which one verification failed at first.
use electionguard_python.Prelude.{◌≡◌, ◌↔◌, refl, true, false, some, [], all}
use electionguard_python.Prelude.Int.{pos}
use electionguard_python.Prelude.Result.{raise, value_error}
use electionguard_python.Prelude.Digits.{Text, codes}
use electionguard_python.Prelude.Texts.{eq_text}
use electionguard_python.Prelude.Dict.{put}
use electionguard_python.Group.{mk_q}
use electionguard_python.DataStore.{keys, set, size}
use electionguard_python.KeyCeremony.{
  ElectionPublicKey, ElectionPartialKeyChallenge, ElectionPartialKeyVerification,
  combine_election_public_keys,
}
use electionguard_python.Guardian.{CeremonyDetails}
use electionguard_python.KeyCeremonyMediator.{
  KeyCeremonyMediator, new_mediator, receive_election_public_key,
  receive_election_partial_key_verification, receive_election_partial_key_challenge,
  all_election_public_keys_available, all_election_partial_key_verifications_received,
  all_election_partial_key_backups_verified, share_failed_partial_key_verifications,
  share_missing_election_partial_key_challenges, required_pairs, publish_joint_key,
}
use electionguard_python.KeyCeremonyMediator.PairStore.{eq_pair, set_pair, get_pair}
use electionguard_python.KeyCeremonyMediator.Filed.{has_pair, pair_keys}
use electionguard_python.KeyCeremonyMediator.Square.{pair, has_id}
use electionguard_python.KeyCeremonyMediator.Missing.{verified_pair, share_missing-after_verified}
use electionguard_python.KeyCeremonyMediator.Consistent.{IsConsistent}
use electionguard_python.KeyCeremonyMediator.Reachable.{
  Steps, start, and_election_key, and_verification, and_challenge, Steps-IsConsistent,
}
use electionguard_python.KeyCeremonyMediator.Joint.{
  AreKnown, all_verified_iff_none_failed, publish_joint_key-verified,
}
use electionguard_python.Examples.StandIns.{gmp}
use electionguard_python.Examples.Guardians.{guardian, failure}

abbrev two_guardians : CeremonyDetails
two_guardians = record { number_of_guardians = pos 2; quorum = pos 2 }

abbrev key_of : Text → ElectionPublicKey
key_of id = record {
  owner_id = id;
  proof = guardian.election_keys.proof;
  key = guardian.election_keys.key_pair.public_key;
}

abbrev verification_of : Text → Text → ElectionPartialKeyVerification
verification_of owner designated = record {
  owner_id = owner;
  designated_id = designated;
  verifier_id = designated;
  verified = true;
}

abbrev challenge : ElectionPartialKeyChallenge
challenge = record {
  owner_id = codes "g0";
  designated_id = codes "g1";
  designated_sequence_order = pos 1;
  value = mk_q 2;
  coefficient_commitments = [];
  coefficient_proofs = [];
}

-- Both keys are there, one verification failed, and it was challenged.
abbrev challenged : KeyCeremonyMediator
challenged = receive_election_partial_key_challenge challenge (
    receive_election_partial_key_verification failure (
      receive_election_public_key (key_of (codes "g1"))
        (receive_election_public_key (key_of (codes "g0")) (new_mediator two_guardians []))))

challenged-Steps : Steps gmp challenged
challenged-Steps =
    and_challenge
      (and_verification
        (and_election_key (and_election_key (start two_guardians []) (key_of (codes "g0")))
          (key_of (codes "g1")))
        failure)
      challenge

Steps-IsConsistent_example : IsConsistent challenged
Steps-IsConsistent_example = Steps-IsConsistent gmp challenged-Steps

all_verified_iff_none_failed_example :
    (all_election_partial_key_backups_verified challenged ≡ true) ↔ (
      (all_election_partial_key_verifications_received challenged ≡ true)
      × (share_failed_partial_key_verifications challenged ≡ []))
all_verified_iff_none_failed_example = all_verified_iff_none_failed challenged

challenged-pair :
    has_pair (pair (codes "g0") (codes "g1")) (pair_keys challenged.election_partial_key_challenges)
    ≡ true
unfolding has_pair eq_pair eq_text set_pair receive_election_partial_key_challenge
    receive_election_partial_key_verification receive_election_public_key new_mediator
challenged-pair = refl

two : eq_text (codes "g0") (codes "g1") ≡ false
unfolding eq_text
two = refl

share_missing-after_verified_example :
    share_missing_election_partial_key_challenges (
      receive_election_partial_key_verification
        (verification_of (codes "g0") (codes "g1"))
        challenged)
    ≡ raise value_error
share_missing-after_verified_example =
    share_missing-after_verified (verification_of (codes "g0") (codes "g1")) challenged
      (Steps-IsConsistent gmp challenged-Steps).verifications two refl challenged-pair

-- With both verifications.
abbrev verified : KeyCeremonyMediator
verified = receive_election_partial_key_verification (verification_of (codes "g1") (codes "g0")) (
    receive_election_partial_key_verification (verification_of (codes "g0") (codes "g1"))
      challenged)

verified-Steps : Steps gmp verified
verified-Steps =
    and_verification (and_verification challenged-Steps (verification_of (codes "g0") (codes "g1")))
      (verification_of (codes "g1") (codes "g0"))

verified-known :
    AreKnown (keys verified.election_public_keys) verified.election_partial_key_verifications
unfolding keys set put has_id eq_pair eq_text set_pair receive_election_partial_key_challenge
    receive_election_partial_key_verification receive_election_public_key new_mediator
verified-known = (refl, refl, (refl, refl, tt))

verified-published :
    publish_joint_key verified ≡ some (combine_election_public_keys verified.election_public_keys)
unfolding publish_joint_key all_election_public_keys_available
    all_election_partial_key_backups_verified all_election_partial_key_verifications_received
    required_pairs size all keys set put has_id eq_pair eq_text set_pair
    receive_election_partial_key_challenge receive_election_partial_key_verification
    receive_election_public_key new_mediator
verified-published = refl

publish_joint_key-verified_example :
    (combine_election_public_keys verified.election_public_keys
      ≡ combine_election_public_keys verified.election_public_keys)
    × ((i j : Text)
        → has_id i (keys verified.election_public_keys) ≡ true
        → has_id j (keys verified.election_public_keys) ≡ true
        → eq_text i j ≡ false
        → (v : ElectionPartialKeyVerification) × (get_pair
              (pair i j)
              verified.election_partial_key_verifications
            ≡ some v)
          × (v.verified ≡ true)
          × (verified_pair v ≡ pair i j))
publish_joint_key-verified_example =
    publish_joint_key-verified gmp (combine_election_public_keys verified.election_public_keys)
      verified-Steps verified-known verified-published
