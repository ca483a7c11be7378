-- ===== src/Ballot/Contest.antt =====
-- ballot.py: an encrypted contest, how it is made and how it is verified.
pub mod Complete
use electionguard_python.Prelude.{
  Bool, true, false, not, Option, none, some, List, [], ◌∷◌, map, if◌then◌else◌,
}
use electionguard_python.Prelude.Int.{ℤ}
use electionguard_python.Prelude.Result.{Result, ok, raise, ◌>>=◌}
use electionguard_python.Prelude.Digits.{Text}
use electionguard_python.External.{Gmp, Sha256}
use electionguard_python.Group.{ElementModQ, ElementModP, of_q, eq_q, add_q, zero_mod_q}
use electionguard_python.Hash.{Hashables, elem_q, text, end, item, hash_elems}
use electionguard_python.Elgamal.{ElGamalCiphertext, elgamal_add}
use electionguard_python.ChaumPedersen.{ConstantChaumPedersenProof, constant_is_valid}
use electionguard_python.ChaumPedersen.Provers.{make_constant_chaum_pedersen}
use electionguard_python.Ballot.Selection.{CiphertextBallotSelection, hash_or}

pub record CiphertextBallotContest : Type 0 where
  pub object_id : Text
  pub description_hash : ElementModQ
  pub ballot_selections : List CiphertextBallotSelection
  pub crypto_hash : ElementModQ
  pub nonce : Option ElementModQ
  pub proof : Option ConstantChaumPedersenProof

-- Hashes as arguments of hash_elems.
abbrev pub hashes : List ElementModQ → Hashables
hashes [] = end
hashes (h ∷ hs) = item (elem_q h) (hashes hs)

-- _ciphertext_ballot_elgamal_accumulate
unfoldable pub accumulate : List CiphertextBallotSelection → Result ElGamalCiphertext
accumulate selections = elgamal_add (map (λ s. s.ciphertext) selections)

unfoldable pub elgamal_accumulate : CiphertextBallotContest → Result ElGamalCiphertext
elgamal_accumulate c = accumulate c.ballot_selections

-- The loop of _ciphertext_ballot_contest_aggregate_nonce.
unfoldable pub selection_nonces : List CiphertextBallotSelection → Option (List ElementModQ)
selection_nonces [] = some []
selection_nonces (s ∷ selections) =
    let rest = selection_nonces selections in
    elim s.nonce [ none ↦ none | some n ↦ elim rest [ none ↦ none | some ns ↦ some (n ∷ ns) ] ]

unfoldable pub aggregate_of : List CiphertextBallotSelection → Option ElementModQ
aggregate_of selections = elim (selection_nonces selections) [
  | none ↦ none
  | some nonces ↦ some (add_q (map of_q nonces))
]

unfoldable pub aggregate_nonce : CiphertextBallotContest → Option ElementModQ
aggregate_nonce c = aggregate_of c.ballot_selections

-- The proof that is given, or else one from the aggregate nonce, if there is one.
unfoldable pub contest_proof :
    Option ConstantChaumPedersenProof
    → Option ElementModQ
    → (ElementModQ → Result ConstantChaumPedersenProof)
    → Result (Option ConstantChaumPedersenProof)
contest_proof (some proof) aggregate prove = ok (some proof)
contest_proof none none prove = ok none
contest_proof none (some n) prove = do proof ← prove n; ok (some proof)

module _ (sha256 : Sha256) where
  -- _ciphertext_ballot_context_crypto_hash
  unfoldable pub crypto_hash_of : Text → List CiphertextBallotSelection → ElementModQ → ElementModQ
  crypto_hash_of object_id [] seed_hash = zero_mod_q
  crypto_hash_of object_id (s ∷ selections) seed_hash = hash_elems sha256 (
      item (text object_id)
        (item (elem_q seed_hash) (hashes (map (λ s. s.crypto_hash) (s ∷ selections)))))

  unfoldable pub crypto_hash_with : CiphertextBallotContest → ElementModQ → ElementModQ
  crypto_hash_with c seed_hash = crypto_hash_of c.object_id c.ballot_selections seed_hash

module _ (gmp : Gmp) (sha256 : Sha256) where
  -- The sum of no selections fails the assertion of elgamal_add.
  unfoldable pub is_valid_encryption :
      CiphertextBallotContest → ElementModQ → ElementModP → ElementModQ → Result Bool
  is_valid_encryption c seed_hash public_key base_hash =
      if not (eq_q seed_hash c.description_hash)
      then ok false
      else if not (eq_q c.crypto_hash (crypto_hash_with sha256 c seed_hash))
      then ok false
      else elim c.proof [
        | none ↦ ok false
        | some proof ↦ do
          accumulation ← elgamal_accumulate c
          ok (constant_is_valid gmp sha256 proof accumulation public_key base_hash)
      ]

  unfoldable pub make_ciphertext_ballot_contest :
      Text
      → ElementModQ
      → List CiphertextBallotSelection
      → ElementModP
      → ElementModQ
      → ElementModQ
      → ℤ
      → Option ElementModQ
      → Option ConstantChaumPedersenProof
      → Option ElementModQ
      → Result CiphertextBallotContest
  make_ciphertext_ballot_contest object_id description_hash selections public_key base_hash
        proof_seed number_elected crypto_hash proof nonce =
      do
        proof' ← contest_proof proof (aggregate_of selections) (λ aggregate. do
          message ← accumulate selections
          make_constant_chaum_pedersen gmp sha256 message number_elected aggregate public_key
              proof_seed base_hash)
        ok (record {
          object_id = object_id;
          description_hash = description_hash;
          ballot_selections = selections;
          crypto_hash =
              hash_or crypto_hash (crypto_hash_of sha256 object_id selections description_hash);
          nonce = nonce;
          proof = proof';
        })
