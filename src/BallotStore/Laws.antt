-- ===== src/BallotStore/Laws.antt =====
-- What ballot_store.py finds after it stored a ballot.
use electionguard_python.Prelude.{
  ◌≡◌, true, false, not, Option, some, inl, inr, Bool-cases, if◌then◌else◌,
}
use electionguard_python.Prelude.Digits.{Text}
use electionguard_python.Prelude.Texts.{eq_text, eq_text_self}
use electionguard_python.Prelude.Result.{Result}
use electionguard_python.Prelude.Dict.{put, lookup-put}
use electionguard_python.Ballot.Accepted.{CiphertextAcceptedBallot}
use electionguard_python.BallotStore.{BallotStore, has_unknown, is_unknown, set, get, exists}

-- The store after a ballot was set that is not in the state UNKNOWN.
abbrev pub stored : Text → CiphertextAcceptedBallot → BallotStore → BallotStore
stored ballot_id b s = record { ballot_store = put ballot_id (some b) s.ballot_store }

pub set-known :
    (ballot_id : Text) (b : CiphertextAcceptedBallot) (s : BallotStore)
    → is_unknown b.state ≡ false
    → set ballot_id (some b) s ≡ (true, stored ballot_id b s)
unfolding set has_unknown
set-known ballot_id b s h = rw (h, set)

pub get-stored :
    (ballot_id other : Text) (b : CiphertextAcceptedBallot) (s : BallotStore)
    → get other (stored ballot_id b s) ≡ (if eq_text ballot_id other then some b else get other s)
unfolding get
get-stored ballot_id other b s = elim (Bool-cases (eq_text ballot_id other)) [
  | inl same ↦ rw (lookup-put ballot_id other (some b) s.ballot_store, get, same)
  | inr differ ↦ rw (lookup-put ballot_id other (some b) s.ballot_store, get, differ)
]

pub exists-some :
    (ballot_id : Text) (b : CiphertextAcceptedBallot) (s : BallotStore)
    → get ballot_id s ≡ some b
    → exists ballot_id s ≡ (not (is_unknown b.state), some b)
unfolding exists
exists-some ballot_id b s h = rw (h, exists)

-- Storing a ballot and getting it back.
pub get-set :
    (ballot_id : Text) (b : CiphertextAcceptedBallot) (s : BallotStore)
    → is_unknown b.state ≡ false
    → let after = (set ballot_id (some b) s).1 in
      ◌≡◌ {A = Result (Option CiphertextAcceptedBallot) × BallotStore}
        (Result.ok (get ballot_id after), after)
        (Result.ok (some b), stored ballot_id b s)
get-set ballot_id b s h =
    rw (set-known ballot_id b s h, get-stored ballot_id ballot_id b s, eq_text_self ballot_id)
