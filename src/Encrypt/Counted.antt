-- ===== src/Encrypt/Counted.antt =====
-- The votes that are encrypted for a contest: no more than the voter cast, and with the placeholders as
-- many as are elected (encrypt.py).
use electionguard_python.Prelude.{
  ℕ, ◌+◌, ◌≤◌, ◌≡◌, refl, Bool, true, false, Option, none, some, List, [], ◌∷◌, map, any, length,
  leb, arith, Bool-cases, inl, inr, if◌then◌else◌,
}
use electionguard_python.Prelude.Int.{ℤ, pos}
use electionguard_python.Prelude.Digits.{Text}
use electionguard_python.Prelude.Texts.{eq_text, eq_text_self, eq_text→eq}
use electionguard_python.Election.{SelectionDescription}
use electionguard_python.Election.Distinct.{AreNew}
use electionguard_python.Ballot.Plaintext.{
  PlaintextBallotSelection, PlaintextBallotContest, strtobool, to_int, as_int, count_from,
  is_valid_selection, is_valid_contest,
}
use electionguard_python.Encrypt.Selections.{selection_from}
use electionguard_python.Encrypt.Contests.{selection_with, chosen, counted, is_below}
use electionguard_python.Encrypt.Valid.{to_int-le-one}

unfoldable pub votes : List PlaintextBallotSelection → ℕ
votes [] = 0
votes (s ∷ selections) = to_int s + votes selections

-- The selection that is encrypted for each description.
abbrev pub choice : List PlaintextBallotSelection → SelectionDescription → PlaintextBallotSelection
choice selections d = chosen d (selection_with d.object_id selections)

pub to_int-selection_from :
    (d : SelectionDescription) (placeholder affirmative : Bool)
    → to_int (selection_from d placeholder affirmative) ≡ (if affirmative then 1 else 0)
unfolding to_int selection_from as_int strtobool any eq_text
to_int-selection_from d placeholder true = refl
to_int-selection_from d placeholder false = refl

pub selection_from-is_valid :
    (d : SelectionDescription) (placeholder affirmative : Bool)
    → is_valid_selection (selection_from d placeholder affirmative) d.object_id ≡ true
unfolding is_valid_selection selection_from
selection_from-is_valid d placeholder affirmative =
    ground
      (arith, eq_text_self d.object_id, to_int-le-one (selection_from d placeholder affirmative))

selection_with-id :
    (object_id : Text) (selections : List PlaintextBallotSelection) {s : PlaintextBallotSelection}
    → selection_with object_id selections ≡ some s
    → eq_text s.object_id object_id ≡ true
unfolding selection_with
selection_with-id object_id [] {s} h = ground arith
selection_with-id object_id (t ∷ selections) {s} h =
    ground (arith, selection_with-id object_id selections {s = s})

pub choice-is_valid :
    (selections : List PlaintextBallotSelection) (d : SelectionDescription)
    → is_valid_selection (choice selections d) d.object_id ≡ true
unfolding chosen is_valid_selection
choice-is_valid selections d = go (selection_with d.object_id selections) refl
  where
    go :
        (found : Option PlaintextBallotSelection)
        → selection_with d.object_id selections ≡ found
        → is_valid_selection (chosen d found) d.object_id ≡ true
    go none e = selection_from-is_valid d false false
    go (some s) e = ground (arith, selection_with-id d.object_id selections e, to_int-le-one s)

pub counted-chosen :
    (d : SelectionDescription) (found : Option PlaintextBallotSelection)
    → counted found ≡ to_int (chosen d found)
unfolding counted chosen
counted-chosen d none = ground (arith, to_int-selection_from d false false)
counted-chosen d (some s) = refl

-- A voter's selection more adds to the choice of its own description only.
choice-other :
    (s : PlaintextBallotSelection) (selections : List PlaintextBallotSelection) (ids : List Text)
    (descriptions : List SelectionDescription)
    → AreNew eq_text ids (map (λ d. d.object_id) descriptions)
    → any (eq_text s.object_id) ids ≡ true
    → votes (map (choice (s ∷ selections)) descriptions)
      ≡ votes (map (choice selections) descriptions)
unfolding votes selection_with any
choice-other s selections ids [] new among = refl
choice-other s selections ids (d ∷ descriptions) new among = ground (
  arith,
  eq_text→eq s.object_id d.object_id,
  choice-other s selections (d.object_id ∷ ids) descriptions new.1,
)

choice-one_more :
    (s : PlaintextBallotSelection) (selections : List PlaintextBallotSelection) (ids : List Text)
    (descriptions : List SelectionDescription)
    → AreNew eq_text ids (map (λ d. d.object_id) descriptions)
    → votes (map (choice (s ∷ selections)) descriptions)
      ≤ to_int s + votes (map (choice selections) descriptions)
unfolding votes selection_with chosen any
choice-one_more s selections ids [] new = omega arith
choice-one_more s selections ids (d ∷ descriptions) new =
    elim (Bool-cases (eq_text s.object_id d.object_id)) [
      | inl same ↦ rw same (
          omega (arith, choice-other s selections (d.object_id ∷ ids) descriptions new.1 (rw same)))
      | inr differ ↦
          rw differ
            (omega (arith, choice-one_more s selections (d.object_id ∷ ids) descriptions new.1))
    ]

no_choice : (descriptions : List SelectionDescription) → votes (map (choice []) descriptions) ≡ 0
unfolding votes selection_with chosen
no_choice [] = refl
no_choice (d ∷ descriptions) =
    omega (arith, to_int-selection_from d false false, no_choice descriptions)

-- No more votes are encrypted than the voter cast, if the descriptions have distinct ids.
pub choice-le-votes :
    (selections : List PlaintextBallotSelection) (descriptions : List SelectionDescription)
    → AreNew eq_text [] (map (λ d. d.object_id) descriptions)
    → votes (map (choice selections) descriptions) ≤ votes selections
unfolding votes
choice-le-votes [] descriptions new = omega (arith, no_choice descriptions)
choice-le-votes (s ∷ selections) descriptions new = omega (
  arith,
  choice-one_more s selections [] descriptions new,
  choice-le-votes selections descriptions new,
)

count_from-votes :
    (elected cast : ℕ) (selections : List PlaintextBallotSelection)
    → (count_from elected cast selections).0 ≡ elected + votes selections
unfolding count_from votes
count_from-votes elected cast [] = omega arith
count_from-votes elected cast (s ∷ selections) = ground (
  arith,
  to_int-le-one s,
  count_from-votes (elected + 1) (cast + to_int s) selections,
  count_from-votes elected (cast + to_int s) selections,
)

-- A valid contest has no more votes than are elected.
pub votes-le-elected :
    (c : PlaintextBallotContest) (object_id : Text) (number n : ℕ) (allowed : Option ℤ)
    → is_valid_contest c object_id number (pos n) allowed ≡ true
    → votes c.ballot_selections ≤ n
unfolding is_valid_contest
votes-le-elected c object_id number n allowed h =
    ground (arith, count_from-votes 0 0 c.ballot_selections)

-- What is encrypted for the placeholders, from a count of selections on.
unfoldable pub placeholder_choices :
    ℕ → List SelectionDescription → ℕ → List PlaintextBallotSelection
placeholder_choices n [] count = []
placeholder_choices n (d ∷ placeholders) count =
    let selected = is_below count (pos n) in
    selection_from d true selected
    ∷ placeholder_choices n placeholders (if selected then count + 1 else count)

-- Enough placeholders fill the count up to the number elected.
pub placeholders-fill :
    (n count : ℕ) (placeholders : List SelectionDescription)
    → count ≤ n
    → n ≤ count + length placeholders
    → count + votes (placeholder_choices n placeholders count) ≡ n
unfolding votes placeholder_choices is_below
placeholders-fill n count [] below enough = omega arith
placeholders-fill n count (d ∷ placeholders) below enough = elim (Bool-cases (leb n count)) [
  | inl full ↦
      rw full
        (ground (arith, to_int-selection_from d true false, placeholders-fill n count placeholders))
  | inr more ↦ rw more (
      ground
        (arith, to_int-selection_from d true true, placeholders-fill n (count + 1) placeholders))
]
