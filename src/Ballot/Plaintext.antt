-- ===== src/Ballot/Plaintext.antt =====
-- ballot.py: the plaintext votes of a ballot and the tests of their form.
use electionguard_python.Prelude.{
  ℕ, ◌+◌, ◌&&◌, Bool, true, false, not, Option, none, some, List, [], ◌∷◌, map, any, length, leb,
  ltb, if◌then◌else◌,
}
use electionguard_python.Prelude.Int.{ℤ, pos, leb_ℤ}
use electionguard_python.Prelude.Digits.{Text, codes}
use electionguard_python.Prelude.Texts.{eq_text}

pub record ExtendedData : Type 0 where
  pub value : Text
  pub length : ℤ

pub record PlaintextBallotSelection : Type 0 where
  pub object_id : Text
  pub vote : Text
  pub is_placeholder_selection : Bool
  pub extended_data : Option ExtendedData

pub record PlaintextBallotContest : Type 0 where
  pub object_id : Text
  pub ballot_selections : List PlaintextBallotSelection

pub record PlaintextBallot : Type 0 where
  pub object_id : Text
  pub ballot_style : Text
  pub contests : List PlaintextBallotContest

-- str.lower, on the letters of ASCII: no other character has a lower case that occurs in the words
-- of strtobool.
abbrev pub lower : Text → Text
lower = map (λ c. if leb b'A' c && leb c b'Z' then c + 32 else c)

-- distutils.util.strtobool; none is its ValueError.
unfoldable pub strtobool : Text → Option Bool
strtobool val =
    if any (λ word. eq_text val (codes word)) ("y" ∷ "yes" ∷ "t" ∷ "true" ∷ "on" ∷ "1" ∷ [])
    then some true
    else if any (λ word. eq_text val (codes word)) ("n" ∷ "no" ∷ "f" ∷ "false" ∷ "off" ∷ "0" ∷ [])
    then some false
    else none

-- int(as_bool)
unfoldable pub as_int : Option Bool → ℕ
as_int none = 0
as_int (some false) = 0
as_int (some true) = 1

unfoldable pub to_int : PlaintextBallotSelection → ℕ
unfolding as_int strtobool
to_int s = as_int (strtobool (lower s.vote))

-- A choice is a natural number here, so that the test for one below 0 has no counterpart.
unfoldable pub is_valid_selection : PlaintextBallotSelection → Text → Bool
is_valid_selection s expected_object_id =
    if not (eq_text s.object_id expected_object_id) then false else not (ltb 1 (to_int s))

-- The loop: the number of selections that are elected, and the votes.
unfoldable pub count_from : ℕ → ℕ → List PlaintextBallotSelection → ℕ × ℕ
count_from number_elected votes [] = (number_elected, votes)
count_from number_elected votes (s ∷ selections) =
    let selection_count = to_int s in
    count_from (if leb 1 selection_count then number_elected + 1 else number_elected)
      (votes + selection_count) selections

unfoldable pub votes_fit : Option ℤ → ℕ → Bool
votes_fit none votes = true
votes_fit (some votes_allowed) votes = leb_ℤ (pos votes) votes_allowed

unfoldable pub is_valid_contest : PlaintextBallotContest → Text → ℕ → ℤ → Option ℤ → Bool
unfolding count_from votes_fit
is_valid_contest c expected_object_id expected_number_selections expected_number_elected
      votes_allowed =
    let (number_elected, votes) = count_from 0 0 c.ballot_selections in
    if not (eq_text c.object_id expected_object_id)
    then false
    else if ltb expected_number_selections (length c.ballot_selections)
    then false
    else if not (leb_ℤ (pos number_elected) expected_number_elected)
    then false
    else votes_fit votes_allowed votes

unfoldable pub is_valid_ballot : PlaintextBallot → Text → Bool
is_valid_ballot b expected_ballot_style_id = eq_text b.ballot_style expected_ballot_style_id
