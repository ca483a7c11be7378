-- ===== src/Encrypt/Selections.antt =====
-- encrypt.py: encrypt_selection and what selection it is given. It returns None where it logs a warning.
use electionguard_python.Prelude.{Bool, true, false, not, Option, none, some, if◌then◌else◌}
use electionguard_python.Prelude.Int.{pos}
use electionguard_python.Prelude.Result.{Result, ok, ◌>>=◌}
use electionguard_python.Prelude.Digits.{Text, codes}
use electionguard_python.External.{Gmp, Sha256}
use electionguard_python.Group.{ElementModQ, ElementModP}
use electionguard_python.Hash.{elem_q, end, item, Nonces, new_nonces, get_item}
use electionguard_python.Elgamal.{ElGamalCiphertext, elgamal_encrypt}
use electionguard_python.Election.{SelectionDescription, selection_hash}
use electionguard_python.Ballot.Plaintext.{PlaintextBallotSelection, to_int, is_valid_selection}
use electionguard_python.Ballot.Selection.{
  CiphertextBallotSelection, make_ciphertext_ballot_selection,
}
use electionguard_python.Ballot.Selection

-- str(b)
abbrev pub bool_text : Bool → Text
bool_text true = codes "True"
bool_text false = codes "False"

unfoldable pub selection_from : SelectionDescription → Bool → Bool → PlaintextBallotSelection
selection_from description is_placeholder is_affirmative = record {
  object_id = description.object_id;
  vote = bool_text is_affirmative;
  is_placeholder_selection = is_placeholder;
  extended_data = none;
}

-- Nonces(description_hash, seed)
abbrev pub nonces_for : Sha256 → ElementModQ → ElementModQ → Nonces
nonces_for sha256 description_hash seed =
    new_nonces sha256 description_hash (item (elem_q seed) end)

module _ (gmp : Gmp) (sha256 : Sha256) where
  -- The selection if it has a proof, and one that is valid if that is to be verified.
  unfoldable pub verified_selection :
      ElementModQ
      → ElementModP
      → ElementModQ
      → Bool
      → CiphertextBallotSelection
      → Option CiphertextBallotSelection
  verified_selection description_hash public_key base_hash should_verify_proofs s = elim s.proof [
    | none ↦ none
    | some proof ↦
        if not should_verify_proofs
        then some s
        else if Selection.is_valid_encryption gmp sha256 s description_hash public_key base_hash
        then some s
        else none
  ]

  -- From the encryption on, where there is one.
  unfoldable pub encrypted_selection :
      PlaintextBallotSelection
      → ElementModQ
      → ElementModP
      → ElementModQ
      → ElementModQ
      → ElementModQ
      → Bool
      → Bool
      → Option ElGamalCiphertext
      → Result (Option CiphertextBallotSelection)
  unfolding verified_selection
  encrypted_selection selection description_hash public_key base_hash proof_nonce nonce
        is_placeholder should_verify_proofs none =
      ok none
  encrypted_selection selection description_hash public_key base_hash proof_nonce nonce
        is_placeholder should_verify_proofs (some encryption) =
      do
        s ←
            make_ciphertext_ballot_selection gmp sha256 selection.object_id description_hash
              encryption public_key base_hash proof_nonce (pos (to_int selection)) is_placeholder
              (some nonce) none none none
        ok (verified_selection description_hash public_key base_hash should_verify_proofs s)

  unfoldable pub encrypt_selection :
      PlaintextBallotSelection
      → SelectionDescription
      → ElementModP
      → ElementModQ
      → ElementModQ
      → Bool
      → Bool
      → Result (Option CiphertextBallotSelection)
  unfolding encrypted_selection
  encrypt_selection selection description public_key base_hash seed is_placeholder
        should_verify_proofs =
      if not (is_valid_selection selection description.object_id)
      then ok none
      else let description_hash = selection_hash sha256 description in
        let nonce_sequence = nonces_for sha256 description_hash seed in
        do
          nonce ← get_item sha256 nonce_sequence description.sequence_order
          proof_nonce ← get_item sha256 nonce_sequence (pos 0)
          encrypted_selection selection description_hash public_key base_hash proof_nonce nonce
              is_placeholder should_verify_proofs
              (elgamal_encrypt gmp (pos (to_int selection)) nonce public_key)
