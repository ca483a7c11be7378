-- ===== src/Ballot/Ciphertext.antt =====
-- ballot.py: an encrypted ballot, how it is made and how it is verified.
pub mod Complete
use electionguard_python.Prelude.{
  Bool, true, false, not, Option, none, some, List, [], ◌∷◌, ◌++◌, map, all, if◌then◌else◌,
}
use electionguard_python.Prelude.Int.{ℤ}
use electionguard_python.Prelude.Result.{Result, ok, raise, ◌>>=◌}
use electionguard_python.Prelude.Digits.{Text}
use electionguard_python.External.{Gmp, Sha256}
use electionguard_python.Group.{ElementModQ, ElementModP, eq_q, zero_mod_q}
use electionguard_python.Hash.{elem_q, text, end, item, hash_elems}
use electionguard_python.Tracker.{get_rotating_tracker_hash}
use electionguard_python.Ballot.Selection.{CiphertextBallotSelection, hash_or}
use electionguard_python.Ballot.Selection
use electionguard_python.Ballot.Contest.{CiphertextBallotContest, hashes}
use electionguard_python.Ballot.Contest

pub record CiphertextBallot : Type 0 where
  pub object_id : Text
  pub ballot_style : Text
  pub description_hash : ElementModQ
  pub previous_tracking_hash : ElementModQ
  pub contests : List CiphertextBallotContest
  pub tracking_hash : Option ElementModQ
  pub timestamp : ℤ
  pub crypto_hash : ElementModQ
  pub nonce : Option ElementModQ

-- The time that is given, or else now.
abbrev pub time_or : Option ℤ → ℤ → ℤ
time_or none now = now
time_or (some timestamp) now = timestamp

module _ (sha256 : Sha256) where
  unfoldable pub nonce_seed : ElementModQ → Text → ElementModQ → ElementModQ
  nonce_seed description_hash object_id nonce =
      hash_elems sha256
        (item (elem_q description_hash) (item (text object_id) (item (elem_q nonce) end)))

  unfoldable pub hashed_ballot_nonce : CiphertextBallot → Option ElementModQ
  hashed_ballot_nonce b = elim b.nonce [
    | none ↦ none
    | some n ↦ some (nonce_seed b.description_hash b.object_id n)
  ]

  -- hash_elems(object_id, seed_hash, *contest_hashes)
  unfoldable pub contests_hash : Text → ElementModQ → List CiphertextBallotContest → ElementModQ
  contests_hash object_id seed_hash contests =
      hash_elems sha256 (
        item (text object_id)
          (item (elem_q seed_hash) (hashes (map (λ c. c.crypto_hash) contests))))

  unfoldable pub crypto_hash_with : CiphertextBallot → ElementModQ → ElementModQ
  crypto_hash_with b seed_hash = elim b.contests [
    | [] ↦ zero_mod_q
    | c ∷ cs ↦ contests_hash b.object_id seed_hash b.contests
  ]

  -- `now` is what the clock says.
  unfoldable pub make_ciphertext_ballot :
      ℤ
      → Text
      → Text
      → ElementModQ
      → Option ElementModQ
      → List CiphertextBallotContest
      → Option ElementModQ
      → Option ℤ
      → Option ElementModQ
      → CiphertextBallot
  make_ciphertext_ballot now object_id ballot_style description_hash previous_tracking_hash contests
        nonce timestamp tracking_hash =
      let contest_hash = contests_hash object_id description_hash contests in
      let time = time_or timestamp now in
      let previous = hash_or previous_tracking_hash description_hash in
      record {
        object_id = object_id;
        ballot_style = ballot_style;
        description_hash = description_hash;
        previous_tracking_hash = previous;
        contests = contests;
        tracking_hash =
            some
              (hash_or tracking_hash (get_rotating_tracker_hash sha256 previous time contest_hash));
        timestamp = time;
        crypto_hash = contest_hash;
        nonce = nonce;
      }

module _ (gmp : Gmp) (sha256 : Sha256) where
  -- The verdicts on the selections of a contest, and on each contest after its selections.
  unfoldable pub selection_proofs :
      List CiphertextBallotSelection → ElementModP → ElementModQ → List Bool
  selection_proofs selections public_key base_hash =
      map (λ s. Selection.is_valid_encryption gmp sha256 s s.description_hash public_key base_hash)
        selections

  unfoldable pub valid_proofs :
      List CiphertextBallotContest → ElementModP → ElementModQ → Result (List Bool)
  valid_proofs [] public_key base_hash = ok []
  valid_proofs (c ∷ contests) public_key base_hash = do
    verdict ← Contest.is_valid_encryption gmp sha256 c c.description_hash public_key base_hash
    rest ← valid_proofs contests public_key base_hash
    ok (selection_proofs c.ballot_selections public_key base_hash ++ verdict ∷ rest)

  unfoldable pub is_valid_encryption :
      CiphertextBallot → ElementModQ → ElementModP → ElementModQ → Result Bool
  is_valid_encryption b seed_hash public_key base_hash =
      if not (eq_q seed_hash b.description_hash)
      then ok false
      else if not (eq_q b.crypto_hash (crypto_hash_with sha256 b seed_hash))
      then ok false
      else do proofs ← valid_proofs b.contests public_key base_hash; ok (all (λ p. p) proofs)
