-- ===== src/Ballot/Ciphertext/Complete.antt =====
-- A ballot made from valid contests of valid selections is valid (ballot.py).
use electionguard_python.Prelude.{◌≡◌, refl, Bool, true, Option, List, [], ◌∷◌, ◌++◌, all, arith}
use electionguard_python.Prelude.Int.{ℤ}
use electionguard_python.Prelude.Result.{ok}
use electionguard_python.Prelude.Digits.{Text}
use electionguard_python.External.{Gmp, Sha256}
use electionguard_python.Group.{ElementModQ, ElementModP}
use electionguard_python.Group.Elements.{eq_q_self}
use electionguard_python.Ballot.Selection.{CiphertextBallotSelection}
use electionguard_python.Ballot.Selection
use electionguard_python.Ballot.Contest.{CiphertextBallotContest}
use electionguard_python.Ballot.Contest
use electionguard_python.Ballot.Ciphertext.{
  crypto_hash_with, selection_proofs, valid_proofs, is_valid_encryption, make_ciphertext_ballot,
}

pub all-append :
    (xs ys : List Bool)
    → all (λ p. p) xs ≡ true
    → all (λ p. p) ys ≡ true
    → all (λ p. p) (xs ++ ys) ≡ true
unfolding all
all-append [] ys h k = k
all-append (x ∷ xs) ys h k = ground (arith, all-append xs ys)

module _ (gmp : Gmp) (sha256 : Sha256) (key : ElementModP) (base_hash : ElementModQ) where
  -- Each selection is valid for its own description's hash.
  abbrev pub Selections : List CiphertextBallotSelection → Type 0
  Selections [] = Unit
  Selections (s ∷ ss) =
      (Selection.is_valid_encryption gmp sha256 s s.description_hash key base_hash ≡ true)
      × Selections ss

  -- Each contest is valid for its own description's hash, and so are its selections.
  abbrev pub Contests : List CiphertextBallotContest → Type 0
  Contests [] = Unit
  Contests (c ∷ cs) =
      Selections c.ballot_selections
      × (Contest.is_valid_encryption gmp sha256 c c.description_hash key base_hash ≡ ok true)
      × Contests cs

  Selections-all :
      (ss : List CiphertextBallotSelection)
      → Selections ss
      → all (λ p. p) (selection_proofs gmp sha256 ss key base_hash) ≡ true
  unfolding all selection_proofs
  Selections-all [] h = refl
  Selections-all (s ∷ ss) h = rw (h.0) (Selections-all ss h.1)

  Contests-all :
      (cs : List CiphertextBallotContest)
      → Contests cs
      → (proofs : List Bool) × (valid_proofs gmp sha256 cs key base_hash ≡ ok proofs)
        × (all (λ p. p) proofs ≡ true)
  unfolding all valid_proofs
  Contests-all [] h = ([], refl, refl)
  Contests-all (c ∷ cs) h =
      let (proofs, e, valid) = Contests-all cs h.2 in
      (
        selection_proofs gmp sha256 c.ballot_selections key base_hash ++ true ∷ proofs,
        rw (h.1, e) refl,
        all-append (selection_proofs gmp sha256 c.ballot_selections key base_hash) (true ∷ proofs)
            (Selections-all c.ballot_selections h.0) valid,
      )

  -- A ballot made from one or more contests, each of them valid for its own description's hash and
  -- with every selection valid for its own, is valid for the hash of its description, whatever the
  -- clock says and whether or not its nonce, its time and its tracking hashes are given.
  pub make_ciphertext_ballot-is_valid_encryption :
      (now : ℤ) (object_id ballot_style : Text) (description_hash : ElementModQ)
      (previous_tracking_hash : Option ElementModQ) (c : CiphertextBallotContest)
      (cs : List CiphertextBallotContest) (ballot_nonce : Option ElementModQ) (timestamp : Option ℤ)
      (tracking_hash : Option ElementModQ)
      → Contests (c ∷ cs)
      → is_valid_encryption gmp sha256
          (make_ciphertext_ballot sha256 now object_id ballot_style description_hash
            previous_tracking_hash
            (c ∷ cs)
            ballot_nonce
            timestamp
            tracking_hash)
          description_hash
          key
          base_hash
        ≡ ok true
  unfolding is_valid_encryption make_ciphertext_ballot crypto_hash_with
  make_ciphertext_ballot-is_valid_encryption now object_id ballot_style description_hash
        previous_tracking_hash c cs ballot_nonce timestamp tracking_hash h =
      let (proofs, e, valid) = Contests-all (c ∷ cs) h in simp (eq_q_self, e, valid)
