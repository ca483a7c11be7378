-- ===== src/DecryptWithSecrets/Secret.antt =====
-- decrypt_with_secrets.py: decryption with the secret key of the election.
use electionguard_python.Prelude.{ℕ, Bool}
use electionguard_python.Prelude.Result.{ok, get_optional}
use electionguard_python.External.{Gmp, Sha256}
use electionguard_python.Group.{ElementModQ, ElementModP}
use electionguard_python.Elgamal.{decrypt}
use electionguard_python.Election.{
  SelectionDescription, ContestDescriptionWithPlaceholders, selection_hash, contest_hash,
}
use electionguard_python.Election.Internal.{InternalElectionDescription, contest_for}
use electionguard_python.Ballot.Plaintext.{
  PlaintextBallotSelection, PlaintextBallotContest, PlaintextBallot,
}
use electionguard_python.Ballot.Selection.{CiphertextBallotSelection}
use electionguard_python.Ballot.Selection
use electionguard_python.Ballot.Contest.{CiphertextBallotContest}
use electionguard_python.Ballot.Contest
use electionguard_python.Ballot.Ciphertext.{CiphertextBallot}
use electionguard_python.Ballot.Ciphertext
use electionguard_python.DecryptWithSecrets.Actions.{
  Action, ◌>>=◌, done, lift, called, plaintext_of, decrypt_selections, decrypt_contests, if_valid,
}

module _ (gmp : Gmp) (sha256 : Sha256) (fuel : ℕ) where
  unfoldable pub decrypt_selection_with_secret :
      CiphertextBallotSelection
      → SelectionDescription
      → ElementModP
      → ElementModQ
      → ElementModQ
      → Bool
      → Action PlaintextBallotSelection
  unfolding if_valid plaintext_of
  decrypt_selection_with_secret selection description public_key secret_key base_hash
        suppress_validity_check =
      if_valid suppress_validity_check
        (ok (
          Selection.is_valid_encryption gmp sha256 selection (selection_hash sha256 description)
            public_key base_hash))
        (do
          plaintext_vote ← called (decrypt gmp fuel selection.ciphertext secret_key)
          done (plaintext_of selection plaintext_vote))

  unfoldable pub decrypt_contest_with_secret :
      CiphertextBallotContest
      → ContestDescriptionWithPlaceholders
      → ElementModP
      → ElementModQ
      → ElementModQ
      → Bool
      → Bool
      → Action PlaintextBallotContest
  unfolding if_valid
  decrypt_contest_with_secret contest described public_key secret_key base_hash
        suppress_validity_check remove_placeholders =
      if_valid suppress_validity_check
        (Contest.is_valid_encryption gmp sha256 contest (contest_hash sha256 described.description)
          public_key base_hash)
        (do
          selections ←
              decrypt_selections
                (λ s d.
                  decrypt_selection_with_secret s d public_key secret_key base_hash
                    suppress_validity_check)
                described remove_placeholders contest.ballot_selections
          done (record { object_id = contest.object_id; ballot_selections = selections }))

  unfoldable pub decrypt_ballot_with_secret :
      CiphertextBallot
      → InternalElectionDescription
      → ElementModQ
      → ElementModP
      → ElementModQ
      → Bool
      → Bool
      → Action PlaintextBallot
  unfolding if_valid
  decrypt_ballot_with_secret ballot metadata base_hash public_key secret_key suppress_validity_check
        remove_placeholders =
      if_valid suppress_validity_check
        (Ciphertext.is_valid_encryption gmp sha256 ballot metadata.description_hash public_key
          base_hash)
        (do
          contests ←
              decrypt_contests
                (λ c. do
                  described ← lift (get_optional (contest_for metadata c.object_id))
                  decrypt_contest_with_secret c described public_key secret_key base_hash
                      suppress_validity_check remove_placeholders)
                ballot.contests
          done (record {
            object_id = ballot.object_id;
            ballot_style = ballot.ballot_style;
            contests = contests;
          }))
