-- ===== src/DecryptWithSecrets/Actions.antt =====
-- Calls that keep the cache of the discrete logarithm, may raise and may return None, and the chain of
-- such calls in decrypt_with_secrets.py; the parts that its functions share.
use electionguard_python.Prelude.{
  ℕ, zero, suc, Bool, true, false, ◌||◌, not, Option, none, some, List, [], ◌∷◌, if◌then◌else◌,
}
use electionguard_python.Prelude.Result.{Result, ok, raise, get_optional}
use electionguard_python.Dlog.{Dlog}
use electionguard_python.Ballot.Plaintext.{PlaintextBallotSelection, PlaintextBallotContest}
use electionguard_python.Ballot.Selection.{CiphertextBallotSelection}
use electionguard_python.Ballot.Contest.{CiphertextBallotContest}
use electionguard_python.Election.{
  ContestDescriptionWithPlaceholders, SelectionDescription, selection_for,
}
use electionguard_python.Encrypt.Selections.{bool_text}

abbrev pub Action : Type 0 → Type 0
Action A = Dlog → Result (Option A) × Dlog

abbrev pub after :
    {A B : Type 0} → Result (Option A) × Dlog → (A → Action B) → Result (Option B) × Dlog
after (raise e, s) f = (raise e, s)
after (ok none, s) f = (ok none, s)
after (ok (some a), s) f = f a s

infixl 5 ◌>>=◌
abbrev pub ◌>>=◌ : {A B : Type 0} → Action A → (A → Action B) → Action B
◌>>=◌ m f s = after (m s) f

abbrev pub done : {A : Type 0} → A → Action A
done a s = (ok (some a), s)

-- return None
abbrev pub nothing : {A : Type 0} → Action A
nothing s = (ok none, s)

-- A call that leaves the cache alone.
abbrev pub lift : {A : Type 0} → Result A → Action A
lift (ok a) s = (ok (some a), s)
lift (raise e) s = (raise e, s)

-- A call that returns a value or raises.
abbrev pub called : {A : Type 0} → (Dlog → Result A × Dlog) → Action A
called m s = lift (m s).0 (m s).1

-- f"{bool(plaintext_vote)}", and the other fields as they were encrypted.
unfoldable pub plaintext_of : CiphertextBallotSelection → ℕ → PlaintextBallotSelection
plaintext_of selection plaintext_vote = record {
  object_id = selection.object_id;
  vote = bool_text (elim plaintext_vote [ zero ↦ false | suc n ↦ true ]);
  is_placeholder_selection = selection.is_placeholder_selection;
  extended_data = none;
}

-- The selections that are kept, with one more in front if it is not removed as a placeholder.
unfoldable pub kept :
    Bool → PlaintextBallotSelection → List PlaintextBallotSelection → List PlaintextBallotSelection
kept remove_placeholders s selections =
    if not remove_placeholders || not s.is_placeholder_selection then s ∷ selections else selections

-- The loop over the encrypted selections of a contest.
unfoldable pub decrypt_selections :
    (CiphertextBallotSelection → SelectionDescription → Action PlaintextBallotSelection)
    → ContestDescriptionWithPlaceholders
    → Bool
    → List CiphertextBallotSelection
    → Action (List PlaintextBallotSelection)
unfolding kept
decrypt_selections decrypt_one described remove_placeholders [] = done []
decrypt_selections decrypt_one described remove_placeholders (s ∷ selections) = do
  description ← lift (get_optional (selection_for described s.object_id))
  plaintext ← decrypt_one s description
  rest ← decrypt_selections decrypt_one described remove_placeholders selections
  done (kept remove_placeholders plaintext rest)

-- The loop over the encrypted contests of a ballot.
unfoldable pub decrypt_contests :
    (CiphertextBallotContest → Action PlaintextBallotContest)
    → List CiphertextBallotContest
    → Action (List PlaintextBallotContest)
decrypt_contests decrypt_one [] = done []
decrypt_contests decrypt_one (c ∷ contests) = do
  plaintext ← decrypt_one c
  rest ← decrypt_contests decrypt_one contests
  done (plaintext ∷ rest)

-- What follows unless the validity is checked and fails: the check is not made if it is suppressed.
unfoldable pub if_valid : {A : Type 0} → Bool → Result Bool → Action A → Action A
if_valid true verdict next = next
if_valid false (ok true) next = next
if_valid false (ok false) next = nothing
if_valid false (raise e) next = lift (raise e)
