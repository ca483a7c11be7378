-- ===== src/BallotStore.antt =====
-- ballot_store.py: the ballots of an election by their ids.
pub mod Laws
use electionguard_python.Prelude.{Bool, true, false, not, Option, none, some, List, [], ◌∷◌}
use electionguard_python.Prelude.Digits.{Text}
use electionguard_python.Prelude.Dict.{Dict, put, values}
use electionguard_python.Prelude.Dict
use electionguard_python.Ballot.Accepted.{BallotBoxState, CiphertextAcceptedBallot}

pub record BallotStore : Type 0 where
  pub ballot_store : Dict (Option CiphertextAcceptedBallot)

abbrev pub new : BallotStore
new = record { ballot_store = [] }

unfoldable pub is_unknown : BallotBoxState → Bool
is_unknown BallotBoxState.unknown = true
is_unknown BallotBoxState.cast = false
is_unknown BallotBoxState.spoiled = false

unfoldable pub has_unknown : Option CiphertextAcceptedBallot → Bool
unfolding is_unknown
has_unknown none = false
has_unknown (some b) = is_unknown b.state

-- A ballot in the state UNKNOWN is refused.
unfoldable pub set : Text → Option CiphertextAcceptedBallot → BallotStore → Bool × BallotStore
unfolding has_unknown
set ballot_id ballot s = elim (has_unknown ballot) [
  | true ↦ (false, s)
  | false ↦ (true, record { ballot_store = put ballot_id ballot s.ballot_store })
]

abbrev pub present {ℓ} : {A : Type ℓ} → List (Option A) → List A
present [] = []
present (none ∷ xs) = present xs
present (some x ∷ xs) = x ∷ present xs

unfoldable pub all_ballots : BallotStore → List CiphertextAcceptedBallot
all_ballots s = present (values s.ballot_store)

unfoldable pub get : Text → BallotStore → Option CiphertextAcceptedBallot
get ballot_id s = elim (Dict.lookup ballot_id s.ballot_store) [ none ↦ none | some b ↦ b ]

unfoldable pub exists : Text → BallotStore → Bool × Option CiphertextAcceptedBallot
unfolding get is_unknown
exists ballot_id s = elim (get ballot_id s) [
  | none ↦ (false, none)
  | some b ↦ (not (is_unknown b.state), some b)
]
