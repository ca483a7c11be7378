-- ===== src/DecryptWithSecrets/Nonce.antt =====
-- decrypt_with_secrets.py: decryption with the nonces of a ballot.
use electionguard_python.Prelude.{ℕ, Bool, not, Option, none, some, if◌then◌else◌}
use electionguard_python.Prelude.Result.{Result, ok, raise, get_optional}
use electionguard_python.Prelude.Int.{ℤ}
use electionguard_python.External.{Gmp, Sha256}
use electionguard_python.Group.{ElementModQ, ElementModP, eq_q}
use electionguard_python.Hash.{get_item}
use electionguard_python.Elgamal.{decrypt_known_nonce}
use electionguard_python.Election.{
  SelectionDescription, ContestDescriptionWithPlaceholders, selection_hash, contest_hash,
}
use electionguard_python.Election.Internal.{InternalElectionDescription, contest_for}
use electionguard_python.Ballot.Plaintext.{
  PlaintextBallotSelection, PlaintextBallotContest, PlaintextBallot,
}
use electionguard_python.Ballot.Selection.{CiphertextBallotSelection}
use electionguard_python.Ballot.Selection
use electionguard_python.Ballot.Contest.{CiphertextBallotContest}
use electionguard_python.Ballot.Contest
use electionguard_python.Ballot.Ciphertext.{CiphertextBallot, hashed_ballot_nonce, nonce_seed}
use electionguard_python.Ballot.Ciphertext
use electionguard_python.Encrypt.Selections.{nonces_for}
use electionguard_python.DecryptWithSecrets.Actions.{
  Action, ◌>>=◌, done, nothing, lift, called, plaintext_of, decrypt_selections, decrypt_contests,
  if_valid,
}

-- The nonce that is kept, or else one derived from the seed.
unfoldable pub nonce_of :
    Sha256 → Option ElementModQ → ElementModQ → ℤ → Option ElementModQ → Result (Option ElementModQ)
nonce_of sha256 kept description_hash sequence_order none = ok kept
nonce_of sha256 kept description_hash sequence_order (some seed) =
    elim (get_item sha256 (nonces_for sha256 description_hash seed) sequence_order) [
      | ok nonce ↦ ok (some nonce)
      | raise e ↦ raise e
    ]

-- The nonce, if there is one and it is the one that is kept, where one is kept.
unfoldable pub checked_nonce : Option ElementModQ → Option ElementModQ → Option ElementModQ
checked_nonce kept none = none
checked_nonce none (some nonce) = some nonce
checked_nonce (some kept) (some nonce) = if not (eq_q nonce kept) then none else some nonce

-- An optional that is there.
abbrev there : {A : Type 0} → Option A → Action A
there none = nothing
there (some a) = done a

module _ (gmp : Gmp) (sha256 : Sha256) (fuel : ℕ) where
  unfoldable pub decrypt_selection_with_nonce :
      CiphertextBallotSelection
      → SelectionDescription
      → ElementModP
      → ElementModQ
      → Option ElementModQ
      → Bool
      → Action PlaintextBallotSelection
  unfolding if_valid plaintext_of nonce_of checked_nonce
  decrypt_selection_with_nonce selection description public_key base_hash seed
        suppress_validity_check =
      if_valid suppress_validity_check
        (ok (
          Selection.is_valid_encryption gmp sha256 selection (selection_hash sha256 description)
            public_key base_hash))
        (do
          derived ← lift (
              nonce_of sha256 selection.nonce (selection_hash sha256 description)
                description.sequence_order seed)
          nonce ← there (checked_nonce selection.nonce derived)
          plaintext_vote ←
              called (decrypt_known_nonce gmp fuel selection.ciphertext public_key nonce)
          done (plaintext_of selection plaintext_vote))

  unfoldable pub decrypt_contest_with_nonce :
      CiphertextBallotContest
      → ContestDescriptionWithPlaceholders
      → ElementModP
      → ElementModQ
      → Option ElementModQ
      → Bool
      → Bool
      → Action PlaintextBallotContest
  unfolding if_valid nonce_of checked_nonce
  decrypt_contest_with_nonce contest described public_key base_hash seed suppress_validity_check
        remove_placeholders =
      let d = described.description in
      if_valid suppress_validity_check
        (Contest.is_valid_encryption gmp sha256 contest (contest_hash sha256 d) public_key
          base_hash)
        (do
          derived ←
              lift (nonce_of sha256 contest.nonce (contest_hash sha256 d) d.sequence_order seed)
          nonce ← there (checked_nonce contest.nonce derived)
          selections ←
              decrypt_selections
                (λ s d.
                  decrypt_selection_with_nonce s d public_key base_hash (some nonce)
                    suppress_validity_check)
                described remove_placeholders contest.ballot_selections
          done (record { object_id = contest.object_id; ballot_selections = selections }))

  unfoldable pub decrypt_ballot_with_nonce :
      CiphertextBallot
      → InternalElectionDescription
      → ElementModQ
      → ElementModP
      → Option ElementModQ
      → Bool
      → Bool
      → Action PlaintextBallot
  unfolding if_valid
  decrypt_ballot_with_nonce ballot metadata base_hash public_key nonce suppress_validity_check
        remove_placeholders =
      let hashed : Option ElementModQ = elim nonce [
        | none ↦ hashed_ballot_nonce sha256 ballot
        | some n ↦ some (nonce_seed sha256 metadata.description_hash ballot.object_id n)
      ] in
      if_valid suppress_validity_check
        (Ciphertext.is_valid_encryption gmp sha256 ballot metadata.description_hash public_key
          base_hash)
        (do
          seed ← there hashed
          contests ←
              decrypt_contests
                (λ c. do
                  described ← lift (get_optional (contest_for metadata c.object_id))
                  decrypt_contest_with_nonce c described public_key base_hash (some seed)
                      suppress_validity_check remove_placeholders)
                ballot.contests
          done (record {
            object_id = ballot.object_id;
            ballot_style = ballot.ballot_style;
            contests = contests;
          }))
