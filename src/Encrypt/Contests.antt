-- ===== src/Encrypt/Contests.antt =====
-- encrypt.py: encrypt_contest. It returns None where it logs a warning.
use electionguard_python.Prelude.{
  ℕ, ◌+◌, Bool, true, false, not, Option, none, some, List, [], ◌∷◌, ◌++◌, length, if◌then◌else◌,
}
use electionguard_python.Prelude.Int.{ℤ, pos, leb_ℤ}
use electionguard_python.Prelude.Result.{Result, ok, ◌>>=◌, if_some}
use electionguard_python.Prelude.Digits.{Text}
use electionguard_python.Prelude.Texts.{eq_text}
use electionguard_python.External.{Gmp, Sha256}
use electionguard_python.Group.{ElementModQ, ElementModP}
use electionguard_python.Hash.{get_item}
use electionguard_python.Election.{
  SelectionDescription, ContestDescriptionWithPlaceholders, contest_hash, is_valid,
}
use electionguard_python.Ballot.Plaintext.{
  PlaintextBallotSelection, PlaintextBallotContest, to_int, is_valid_contest,
}
use electionguard_python.Ballot.Selection.{CiphertextBallotSelection}
use electionguard_python.Ballot.Contest.{CiphertextBallotContest, make_ciphertext_ballot_contest}
use electionguard_python.Ballot.Contest
use electionguard_python.Encrypt.Selections.{selection_from, nonces_for, encrypt_selection}

-- The voter's selection with an id: the first one.
unfoldable pub selection_with :
    Text → List PlaintextBallotSelection → Option PlaintextBallotSelection
selection_with object_id [] = none
selection_with object_id (s ∷ selections) =
    if eq_text s.object_id object_id then some s else selection_with object_id selections

-- The selection that is encrypted for a description: the voter's, or else an explicit false.
unfoldable pub chosen :
    SelectionDescription → Option PlaintextBallotSelection → PlaintextBallotSelection
unfolding selection_from
chosen description none = selection_from description false false
chosen description (some s) = s

-- What it adds to the count of selections.
unfoldable pub counted : Option PlaintextBallotSelection → ℕ
counted none = 0
counted (some s) = to_int s

-- selection_count < number_elected
unfoldable pub is_below : ℕ → ℤ → Bool
is_below selection_count number_elected = not (leb_ℤ number_elected (pos selection_count))

module _ (gmp : Gmp) (sha256 : Sha256) where
  -- The loop over the descriptions, with the count of selections so far.
  unfoldable pub encrypt_selections :
      List PlaintextBallotSelection
      → ElementModP
      → ElementModQ
      → ElementModQ
      → List SelectionDescription
      → ℕ
      → Result (Option (List CiphertextBallotSelection × ℕ))
  unfolding selection_with chosen counted
  encrypt_selections selections public_key base_hash seed [] selection_count =
      ok (some ([], selection_count))
  encrypt_selections selections public_key base_hash seed (d ∷ descriptions) selection_count =
      let found = selection_with d.object_id selections in
      if_some (encrypt_selection gmp sha256 (chosen d found) d public_key base_hash seed false true)
        (λ s.
          if_some
            (encrypt_selections selections public_key base_hash seed descriptions
              (selection_count + counted found))
            (λ rest. ok (some (s ∷ rest.0, rest.1))))

  -- The loop over the placeholders, with the count of selections so far.
  unfoldable pub encrypt_placeholders :
      ℤ
      → ElementModP
      → ElementModQ
      → ElementModQ
      → List SelectionDescription
      → ℕ
      → Result (Option (List CiphertextBallotSelection × ℕ))
  unfolding selection_from is_below
  encrypt_placeholders number_elected public_key base_hash seed [] selection_count =
      ok (some ([], selection_count))
  encrypt_placeholders number_elected public_key base_hash seed (d ∷ placeholders) selection_count =
      let select_placeholder = is_below selection_count number_elected in
      let selection_count' = if select_placeholder then selection_count + 1 else selection_count in
      if_some
        (encrypt_selection gmp sha256 (selection_from d true select_placeholder) d public_key
          base_hash seed true true)
        (λ s.
          if_some
            (encrypt_placeholders number_elected public_key base_hash seed placeholders
              selection_count')
            (λ rest. ok (some (s ∷ rest.0, rest.1))))

  unfoldable pub verified_contest :
      ElementModQ
      → ElementModP
      → ElementModQ
      → Bool
      → CiphertextBallotContest
      → Result (Option CiphertextBallotContest)
  verified_contest description_hash public_key base_hash should_verify_proofs c = elim c.proof [
    | none ↦ ok none
    | some proof ↦ if not should_verify_proofs then ok (some c) else do
      valid ← Contest.is_valid_encryption gmp sha256 c description_hash public_key base_hash
      ok (if valid then some c else none)
  ]

  unfoldable pub encrypt_contest :
      PlaintextBallotContest
      → ContestDescriptionWithPlaceholders
      → ElementModP
      → ElementModQ
      → ElementModQ
      → Bool
      → Result (Option CiphertextBallotContest)
  unfolding encrypt_selections encrypt_placeholders verified_contest
  encrypt_contest contest described public_key base_hash seed should_verify_proofs =
      let d = described.description in
      if not (
        is_valid_contest contest d.object_id (length d.ballot_selections) d.number_elected
          d.votes_allowed)
      then ok none
      else if not (is_valid described)
      then ok none
      else let description_hash = contest_hash sha256 d in
        let nonce_sequence = nonces_for sha256 description_hash seed in
        do
          contest_nonce ← get_item sha256 nonce_sequence d.sequence_order
          proof_nonce ← get_item sha256 nonce_sequence (pos 0)
          if_some
              (encrypt_selections contest.ballot_selections public_key base_hash contest_nonce
                d.ballot_selections 0)
              (λ real.
                if_some
                  (encrypt_placeholders d.number_elected public_key base_hash contest_nonce
                    described.placeholder_selections real.1)
                  (λ placeholders. do
                    c ←
                        make_ciphertext_ballot_contest gmp sha256 contest.object_id description_hash
                          (real.0 ++ placeholders.0) public_key base_hash proof_nonce
                          d.number_elected none none (some contest_nonce)
                    verified_contest description_hash public_key base_hash should_verify_proofs c))
