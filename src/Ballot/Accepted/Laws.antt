-- ===== src/Ballot/Accepted/Laws.antt =====
-- An accepted ballot carries no nonces and verifies as the ballot that it was made from (ballot.py).
use electionguard_python.Prelude.{
  ◌≡◌, refl, sym, ap, ◌∙◌, Bool, true, none, List, [], ◌∷◌, all, map, arith,
}
use electionguard_python.Prelude.Int.{ℤ}
use electionguard_python.Prelude.Result.{Result, ok, ◌>>=◌}
use electionguard_python.External.{Gmp, Sha256}
use electionguard_python.Group.{ElementModQ, ElementModP}
use electionguard_python.Group.Elements.{eq_q→eq, eq_q_self}
use electionguard_python.Ballot.Selection.{CiphertextBallotSelection}
use electionguard_python.Ballot.Contest.{CiphertextBallotContest}
use electionguard_python.Ballot.Ciphertext.{
  CiphertextBallot, contests_hash, crypto_hash_with, valid_proofs, is_valid_encryption,
}
use electionguard_python.Ballot.Accepted.{
  BallotBoxState, strip_selection, strip_contest, make_ciphertext_accepted_ballot,
  from_ciphertext_ballot,
}
use electionguard_python.Ballot.Accepted.Strip.{valid_proofs-strip, contests_hash-strip}

-- No nonce is left in the contests or in their selections.
abbrev pub NoSelectionNonces : List CiphertextBallotSelection → Type 0
NoSelectionNonces [] = Unit
NoSelectionNonces (s ∷ ss) = (s.nonce ≡ none) × NoSelectionNonces ss

abbrev pub NoNonces : List CiphertextBallotContest → Type 0
NoNonces [] = Unit
NoNonces (c ∷ cs) = (c.nonce ≡ none) × NoSelectionNonces c.ballot_selections × NoNonces cs

strip_selection-NoSelectionNonces :
    (ss : List CiphertextBallotSelection) → NoSelectionNonces (map strip_selection ss)
unfolding strip_selection
strip_selection-NoSelectionNonces [] = tt
strip_selection-NoSelectionNonces (s ∷ ss) = (refl, strip_selection-NoSelectionNonces ss)

strip_contest-NoNonces : (cs : List CiphertextBallotContest) → NoNonces (map strip_contest cs)
unfolding strip_contest
strip_contest-NoNonces [] = tt
strip_contest-NoNonces (c ∷ cs) =
    (refl, strip_selection-NoSelectionNonces c.ballot_selections, strip_contest-NoNonces cs)

module _ (gmp : Gmp) (sha256 : Sha256) where
  proofs_verdict : List CiphertextBallotContest → ElementModP → ElementModQ → Result Bool
  proofs_verdict contests key base_hash = do
    proofs ← valid_proofs gmp sha256 contests key base_hash
    ok (all (λ p. p) proofs)

  -- What the validity of a ballot says.
  valid-parts :
      (b : CiphertextBallot) (seed_hash : ElementModQ) (key : ElementModP) (base_hash : ElementModQ)
      → is_valid_encryption gmp sha256 b seed_hash key base_hash ≡ ok true
      → (seed_hash ≡ b.description_hash) × (proofs_verdict b.contests key base_hash ≡ ok true)
  unfolding is_valid_encryption proofs_verdict
  valid-parts b seed_hash key base_hash h = ground (arith, eq_q→eq seed_hash b.description_hash)

  crypto_hash_with-contests :
      (b : CiphertextBallot) (seed : ElementModQ) (c : CiphertextBallotContest)
      (cs : List CiphertextBallotContest)
      → b.contests ≡ c ∷ cs
      → crypto_hash_with sha256 b seed ≡ contests_hash sha256 b.object_id seed b.contests
  unfolding crypto_hash_with
  crypto_hash_with-contests b seed c cs h =
      rw (h, crypto_hash_with) (ap (contests_hash sha256 b.object_id seed) h)

  stripped-valid :
      (b : CiphertextBallot) (key : ElementModP) (base_hash : ElementModQ)
      (c : CiphertextBallotContest) (cs : List CiphertextBallotContest)
      → b.contests ≡ map strip_contest (c ∷ cs)
      → b.crypto_hash ≡ contests_hash sha256 b.object_id b.description_hash (c ∷ cs)
      → proofs_verdict (c ∷ cs) key base_hash ≡ ok true
      → is_valid_encryption gmp sha256 b b.description_hash key base_hash ≡ ok true
  unfolding is_valid_encryption proofs_verdict
  stripped-valid b key base_hash c cs hc hh hp =
      rw
        (
          crypto_hash_with-contests b b.description_hash (strip_contest c) (map strip_contest cs)
              hc,
          hh,
          hc,
          contests_hash-strip sha256 b.object_id b.description_hash (c ∷ cs),
          eq_q_self b.description_hash,
          eq_q_self (contests_hash sha256 b.object_id b.description_hash (c ∷ cs)),
          valid_proofs-strip gmp sha256 key base_hash (c ∷ cs),
        )
        hp

  -- What the ballot box makes of a ballot of one or more contests carries no nonce, neither its own
  -- nor one of a contest or a selection, and keeps the ballot's id, style, description hash and time.
  -- If the ballot is valid for a hash, a key and a base hash, so is what is made of it, in any state.
  pub from_ciphertext_ballot-is_valid_encryption :
      (now : ℤ) (b : CiphertextBallot) (state : BallotBoxState) (seed_hash : ElementModQ)
      (key : ElementModP) (base_hash : ElementModQ) (c : CiphertextBallotContest)
      (cs : List CiphertextBallotContest)
      → b.contests ≡ c ∷ cs
      → is_valid_encryption gmp sha256 b seed_hash key base_hash ≡ ok true
      → let accepted = (from_ciphertext_ballot sha256 now b state).ballot in
        (accepted.nonce ≡ none)
        × NoNonces accepted.contests
        × (accepted.object_id ≡ b.object_id)
        × (accepted.ballot_style ≡ b.ballot_style)
        × (accepted.description_hash ≡ b.description_hash)
        × (accepted.timestamp ≡ b.timestamp)
        × (is_valid_encryption gmp sha256 accepted seed_hash key base_hash ≡ ok true)
  unfolding from_ciphertext_ballot make_ciphertext_accepted_ballot
  from_ciphertext_ballot-is_valid_encryption now b state seed_hash key base_hash c cs hc h =
      let (seed, proofs) = valid-parts b seed_hash key base_hash h in
      (
        refl,
        strip_contest-NoNonces b.contests,
        refl,
        refl,
        refl,
        refl,
        rw seed (
            stripped-valid (from_ciphertext_ballot sha256 now b state).ballot key base_hash c cs
              (ap (map strip_contest) hc)
              (ap (contests_hash sha256 b.object_id b.description_hash) hc)
              (ap (λ t. proofs_verdict t key base_hash) (sym hc) ∙ proofs)),
      )

pub from_ciphertext_ballot-state :
    (sha256 : Sha256) (now : ℤ) (b : CiphertextBallot) (state : BallotBoxState)
    → (from_ciphertext_ballot sha256 now b state).state ≡ state
unfolding from_ciphertext_ballot make_ciphertext_accepted_ballot
from_ciphertext_ballot-state sha256 now b state = refl

pub from_ciphertext_ballot-object_id :
    (sha256 : Sha256) (now : ℤ) (b : CiphertextBallot) (state : BallotBoxState)
    → (from_ciphertext_ballot sha256 now b state).ballot.object_id ≡ b.object_id
unfolding from_ciphertext_ballot make_ciphertext_accepted_ballot
from_ciphertext_ballot-object_id sha256 now b state = refl

pub from_ciphertext_ballot-NoNonces :
    (sha256 : Sha256) (now : ℤ) (b : CiphertextBallot) (state : BallotBoxState)
    → NoNonces (from_ciphertext_ballot sha256 now b state).ballot.contests
unfolding from_ciphertext_ballot make_ciphertext_accepted_ballot
from_ciphertext_ballot-NoNonces sha256 now b state = strip_contest-NoNonces b.contests
