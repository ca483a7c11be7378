-- ===== src/Ballot/Accepted/Strip.antt =====
-- Nothing that a verifier reads changes where the nonces of a ballot are removed (ballot.py).
use electionguard_python.Prelude.{◌≡◌, refl, ap, Bool, none, some, List, [], ◌∷◌, map}
use electionguard_python.Prelude.Result.{Result, ok, ◌>>=◌}
use electionguard_python.External.{Gmp, Sha256}
use electionguard_python.Group.{ElementModQ, ElementModP, eq_q}
use electionguard_python.Ballot.Selection.{CiphertextBallotSelection}
use electionguard_python.Ballot.Selection
use electionguard_python.Prelude.Digits.{Text}
use electionguard_python.Elgamal.{ElGamalCiphertext, elgamal_add}
use electionguard_python.ChaumPedersen.{constant_is_valid}
use electionguard_python.Prelude.{if◌then◌else◌, not, false}
use electionguard_python.Hash.{elem_q, text, item, hash_elems}
use electionguard_python.Ballot.Contest.{
  CiphertextBallotContest, hashes, accumulate, elgamal_accumulate,
}
use electionguard_python.Ballot.Contest
use electionguard_python.Ballot.Ciphertext.{contests_hash, selection_proofs, valid_proofs}
use electionguard_python.Ballot.Accepted.{strip_selection, strip_contest}

strip-ciphertexts :
    (ss : List CiphertextBallotSelection)
    → map (λ s. s.ciphertext) (map strip_selection ss) ≡ map (λ s. s.ciphertext) ss
unfolding strip_selection
strip-ciphertexts [] = refl
strip-ciphertexts (s ∷ ss) = ap (λ t. s.ciphertext ∷ t) (strip-ciphertexts ss)

strip-hashes :
    (ss : List CiphertextBallotSelection)
    → map (λ s. s.crypto_hash) (map strip_selection ss) ≡ map (λ s. s.crypto_hash) ss
unfolding strip_selection
strip-hashes [] = refl
strip-hashes (s ∷ ss) = ap (λ t. s.crypto_hash ∷ t) (strip-hashes ss)

contest-hashes :
    (cs : List CiphertextBallotContest)
    → map (λ c. c.crypto_hash) (map strip_contest cs) ≡ map (λ c. c.crypto_hash) cs
unfolding strip_contest
contest-hashes [] = refl
contest-hashes (c ∷ cs) = ap (λ t. c.crypto_hash ∷ t) (contest-hashes cs)

accumulate-strip :
    (ss : List CiphertextBallotSelection) → accumulate (map strip_selection ss) ≡ accumulate ss
unfolding accumulate
accumulate-strip ss = ap elgamal_add (strip-ciphertexts ss)

module _ (sha256 : Sha256) where
  contest-crypto_hash-strip :
      (c : CiphertextBallotContest) (seed : ElementModQ)
      → Contest.crypto_hash_with sha256 (strip_contest c) seed
        ≡ Contest.crypto_hash_with sha256 c seed
  unfolding Contest.crypto_hash_with Contest.crypto_hash_of strip_contest
  contest-crypto_hash-strip c seed = go c.object_id c.ballot_selections
    where
      go :
          (object_id : Text) (ss : List CiphertextBallotSelection)
          → Contest.crypto_hash_of sha256 object_id (map strip_selection ss) seed
            ≡ Contest.crypto_hash_of sha256 object_id ss seed
      go object_id [] = refl
      go object_id (s ∷ ss) =
          ap (λ hs. hash_elems sha256 (item (text object_id) (item (elem_q seed) (hashes hs))))
            (strip-hashes (s ∷ ss))

  pub contests_hash-strip :
      (object_id : Text) (seed : ElementModQ) (cs : List CiphertextBallotContest)
      → contests_hash sha256 object_id seed (map strip_contest cs)
        ≡ contests_hash sha256 object_id seed cs
  unfolding contests_hash
  contests_hash-strip object_id seed cs =
      ap (λ hs. hash_elems sha256 (item (text object_id) (item (elem_q seed) (hashes hs))))
        (contest-hashes cs)

module _ (gmp : Gmp) (sha256 : Sha256) (key : ElementModP) (base_hash : ElementModQ) where
  pub selection_proofs-strip :
      (ss : List CiphertextBallotSelection)
      → selection_proofs gmp sha256 (map strip_selection ss) key base_hash
        ≡ selection_proofs gmp sha256 ss key base_hash
  unfolding selection_proofs strip_selection Selection.is_valid_encryption
      Selection.crypto_hash_with
  selection_proofs-strip [] = refl
  selection_proofs-strip (s ∷ ss) =
      ap (λ t. Selection.is_valid_encryption gmp sha256 s s.description_hash key base_hash ∷ t)
        (selection_proofs-strip ss)

  -- What the verifier of a contest says, by the hash and the sum that it computes.
  abbrev verdict : CiphertextBallotContest → ElementModQ → Result ElGamalCiphertext → Result Bool
  verdict c recalculated accumulated =
      if not (eq_q c.description_hash c.description_hash)
      then ok false
      else if not (eq_q c.crypto_hash recalculated)
      then ok false
      else elim c.proof [
        | none ↦ ok false
        | some proof ↦ do
          accumulation ← accumulated
          ok (constant_is_valid gmp sha256 proof accumulation key base_hash)
      ]

  contest-strip :
      (c : CiphertextBallotContest)
      → Contest.is_valid_encryption gmp sha256 (strip_contest c) c.description_hash key base_hash
        ≡ Contest.is_valid_encryption gmp sha256 c c.description_hash key base_hash
  unfolding Contest.is_valid_encryption elgamal_accumulate strip_contest
  contest-strip c = λ i.
      verdict c (contest-crypto_hash-strip sha256 c c.description_hash i)
        (accumulate-strip c.ballot_selections i)

  pub valid_proofs-strip :
      (cs : List CiphertextBallotContest)
      → valid_proofs gmp sha256 (map strip_contest cs) key base_hash
        ≡ valid_proofs gmp sha256 cs key base_hash
  unfolding valid_proofs strip_contest
  valid_proofs-strip [] = refl
  valid_proofs-strip (c ∷ cs) =
      rw (contest-strip c, selection_proofs-strip c.ballot_selections, valid_proofs-strip cs)
