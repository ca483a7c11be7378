-- ===== src/Ballot/Selection.antt =====
-- ballot.py: an encrypted selection, how it is made and how it is verified.
pub mod Complete
use electionguard_python.Prelude.{Bool, true, false, not, Option, none, some, if◌then◌else◌}
use electionguard_python.Prelude.Int.{ℤ}
use electionguard_python.Prelude.Result.{Result, ok, raise, ◌>>=◌}
use electionguard_python.Prelude.Digits.{Text}
use electionguard_python.External.{Gmp, Sha256}
use electionguard_python.Group.{ElementModQ, ElementModP, eq_q}
use electionguard_python.Hash.{elem_q, text, end, item, hash_elems}
use electionguard_python.Elgamal.{ElGamalCiphertext}
use electionguard_python.Elgamal
use electionguard_python.ChaumPedersen.{DisjunctiveChaumPedersenProof, disjunctive_is_valid}
use electionguard_python.ChaumPedersen.Provers.{make_disjunctive_chaum_pedersen}

pub record CiphertextBallotSelection : Type 0 where
  pub object_id : Text
  pub description_hash : ElementModQ
  pub ciphertext : ElGamalCiphertext
  pub crypto_hash : ElementModQ
  pub is_placeholder_selection : Bool
  pub nonce : Option ElementModQ
  pub proof : Option DisjunctiveChaumPedersenProof
  pub extended_data : Option ElGamalCiphertext

-- A hash that is given, or else the one computed.
abbrev pub hash_or : Option ElementModQ → ElementModQ → ElementModQ
hash_or none computed = computed
hash_or (some given) computed = given

-- The proof that is given, or else one from the nonce, if there is one.
unfoldable pub selection_proof :
    Option DisjunctiveChaumPedersenProof
    → Option ElementModQ
    → (ElementModQ → Result DisjunctiveChaumPedersenProof)
    → Result (Option DisjunctiveChaumPedersenProof)
selection_proof (some proof) _ prove = ok (some proof)
selection_proof none none prove = ok none
selection_proof none (some n) prove = do proof ← prove n; ok (some proof)

module _ (sha256 : Sha256) where
  -- _ciphertext_ballot_selection_crypto_hash_with
  unfoldable pub crypto_hash_of : Text → ElementModQ → ElGamalCiphertext → ElementModQ
  crypto_hash_of object_id seed_hash ciphertext = hash_elems sha256 (
      item (text object_id)
        (item (elem_q seed_hash) (item (elem_q (Elgamal.crypto_hash sha256 ciphertext)) end)))

  unfoldable pub crypto_hash_with : CiphertextBallotSelection → ElementModQ → ElementModQ
  crypto_hash_with s seed_hash = crypto_hash_of s.object_id seed_hash s.ciphertext

module _ (gmp : Gmp) (sha256 : Sha256) where
  unfoldable pub is_valid_encryption :
      CiphertextBallotSelection → ElementModQ → ElementModP → ElementModQ → Bool
  is_valid_encryption s seed_hash public_key base_hash =
      if not (eq_q seed_hash s.description_hash)
      then false
      else if not (eq_q s.crypto_hash (crypto_hash_with sha256 s seed_hash))
      then false
      else elim s.proof [
        | none ↦ false
        | some proof ↦ disjunctive_is_valid gmp sha256 proof s.ciphertext public_key base_hash
      ]

  unfoldable pub make_ciphertext_ballot_selection :
      Text
      → ElementModQ
      → ElGamalCiphertext
      → ElementModP
      → ElementModQ
      → ElementModQ
      → ℤ
      → Bool
      → Option ElementModQ
      → Option ElementModQ
      → Option DisjunctiveChaumPedersenProof
      → Option ElGamalCiphertext
      → Result CiphertextBallotSelection
  make_ciphertext_ballot_selection object_id description_hash ciphertext public_key base_hash
        proof_seed selection_representation is_placeholder_selection nonce crypto_hash proof
        extended_data =
      do
        proof' ← selection_proof proof nonce (λ n.
            make_disjunctive_chaum_pedersen gmp sha256 ciphertext n public_key base_hash proof_seed
              selection_representation)
        ok (record {
          object_id = object_id;
          description_hash = description_hash;
          ciphertext = ciphertext;
          crypto_hash =
              hash_or crypto_hash (crypto_hash_of sha256 object_id description_hash ciphertext);
          is_placeholder_selection = is_placeholder_selection;
          nonce = nonce;
          proof = proof';
          extended_data = extended_data;
        })
