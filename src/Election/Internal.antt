-- ===== src/Election/Internal.antt =====
-- election.py: placeholders, and what an election keeps of its description: contests, styles and context.
use electionguard_python.Prelude.{
  ℕ, zero, suc, ◌+◌, Option, none, some, List, [], ◌∷◌, ◌++◌, map, any, if◌then◌else◌,
}
use electionguard_python.Prelude.Int.{ℤ, pos, to_ℕ, ◌+ℤ◌, ◌==ℤ◌, max_ℤ}
use electionguard_python.Prelude.Result.{
  Result, ok, raise, type_error, index_error, value_error, ◌>>=◌, get_optional,
}
use electionguard_python.Prelude.Digits.{Text, codes}
use electionguard_python.Prelude.Texts.{eq_text}
use electionguard_python.External.{Sha256}
use electionguard_python.Group.Constants.{P, Q, G}
use electionguard_python.Group.{ElementModQ, ElementModP}
use electionguard_python.Hash.{elem_p, elem_q, int, end, item, hash_elems, decimal}
use electionguard_python.Election.{
  BallotStyle, ContestDescription, ContestDescriptionWithPlaceholders, SelectionDescription,
  list_of,
}

-- The largest of a list that is not empty.
unfoldable pub largest : ℤ → List ℤ → ℤ
largest top [] = top
largest top (i ∷ is) = largest (max_ℤ top i) is

-- max(*ids): of one argument, max wants an iterable.
unfoldable pub max_of_arguments : List ℤ → Result ℤ
unfolding largest
max_of_arguments [] = raise type_error
max_of_arguments (i ∷ []) = raise type_error
max_of_arguments (i ∷ j ∷ is) = ok (largest i (j ∷ is))

-- max(ids)
unfoldable pub max_of_list : List ℤ → Result ℤ
unfolding largest
max_of_list [] = raise value_error
max_of_list (i ∷ is) = ok (largest i is)

unfoldable pub placeholder : ContestDescription → ℤ → SelectionDescription
placeholder c sequence_id =
    let placeholder_object_id = c.object_id ++ codes "-" ++ decimal sequence_id in
    record {
      object_id = placeholder_object_id ++ codes "-placeholder";
      candidate_id = placeholder_object_id ++ codes "-candidate";
      sequence_order = sequence_id;
    }

unfoldable pub generate_placeholder_selection_from :
    ContestDescription → Option ℤ → Result (Option SelectionDescription)
generate_placeholder_selection_from c none = do
  top ← max_of_arguments (map (λ s. s.sequence_order) c.ballot_selections)
  ok (some (placeholder c (top +ℤ pos 1)))
generate_placeholder_selection_from c (some id) =
    if any (λ i. i ==ℤ id) (map (λ s. s.sequence_order) c.ballot_selections)
    then ok none
    else ok (some (placeholder c id))

-- The loop, from a number on.
unfoldable pub placeholders_from :
    ContestDescription → ℤ → ℕ → ℕ → Result (List SelectionDescription)
placeholders_from c top i zero = ok []
placeholders_from c top i (suc count) = do
  made ← generate_placeholder_selection_from c (some (top +ℤ pos 1 +ℤ pos i))
  selection ← get_optional made
  rest ← placeholders_from c top (i + 1) count
  ok (selection ∷ rest)

unfoldable pub generate_placeholder_selections_from :
    ContestDescription → ℤ → Result (List SelectionDescription)
generate_placeholder_selections_from c count = do
  top ← max_of_list (map (λ s. s.sequence_order) c.ballot_selections)
  placeholders_from c top 0 (to_ℕ count)

unfoldable pub contest_description_with_placeholders_from :
    ContestDescription → List SelectionDescription → ContestDescriptionWithPlaceholders
contest_description_with_placeholders_from description placeholders = record {
  description = description;
  placeholder_selections = placeholders;
}

-- What the description keeps of an ElectionDescription; its geopolitical units are not used.
pub record InternalElectionDescription : Type 0 where
  pub contests : List ContestDescriptionWithPlaceholders
  pub ballot_styles : List BallotStyle
  pub description_hash : ElementModQ

-- _generate_contests_with_placeholders
unfoldable pub generate_contests_with_placeholders :
    List ContestDescription → Result (List ContestDescriptionWithPlaceholders)
generate_contests_with_placeholders [] = ok []
generate_contests_with_placeholders (c ∷ contests) = do
  placeholders ← generate_placeholder_selections_from c c.number_elected
  rest ← generate_contests_with_placeholders contests
  ok (contest_description_with_placeholders_from c placeholders ∷ rest)

-- The first contest with an id.
abbrev find_contest :
    Text → List ContestDescriptionWithPlaceholders → Option ContestDescriptionWithPlaceholders
find_contest contest_id [] = none
find_contest contest_id (c ∷ contests) =
    if eq_text c.description.object_id contest_id then some c else find_contest contest_id contests

pub contest_for : InternalElectionDescription → Text → Option ContestDescriptionWithPlaceholders
contest_for d contest_id = find_contest contest_id d.contests

-- The first style with an id: there is none at index 0 of an empty list.
unfoldable pub find_style : Text → List BallotStyle → Result BallotStyle
find_style style_id [] = raise index_error
find_style style_id (s ∷ styles) =
    if eq_text s.object_id style_id then ok s else find_style style_id styles

unfoldable pub get_ballot_style : InternalElectionDescription → Text → Result BallotStyle
unfolding find_style
get_ballot_style d style_id = find_style style_id d.ballot_styles

unfoldable pub contests_in :
    List Text → List ContestDescriptionWithPlaceholders → List ContestDescriptionWithPlaceholders
contests_in gp_unit_ids [] = []
contests_in gp_unit_ids (c ∷ contests) =
    let rest = contests_in gp_unit_ids contests in
    if any (eq_text c.description.electoral_district_id) gp_unit_ids then c ∷ rest else rest

unfoldable pub get_contests_for :
    InternalElectionDescription → Text → Result (List ContestDescriptionWithPlaceholders)
get_contests_for d style_id = do
  style ← get_ballot_style d style_id
  elim style.geopolitical_unit_ids [
    | none ↦ ok []
    | some gp_unit_ids ↦ ok (contests_in gp_unit_ids d.contests)
  ]

pub record CiphertextElectionContext : Type 0 where
  pub number_of_guardians : ℤ
  pub quorum : ℤ
  pub elgamal_public_key : ElementModP
  pub description_hash : ElementModQ
  pub crypto_base_hash : ElementModQ
  pub crypto_extended_base_hash : ElementModQ

unfoldable pub make_ciphertext_election_context :
    Sha256 → ℤ → ℤ → ElementModP → ElementModQ → CiphertextElectionContext
make_ciphertext_election_context sha256 number_of_guardians quorum public_key description_hash =
    let crypto_base_hash = hash_elems sha256 (
      list_of (λ x. x)
        (int (pos P)
          ∷ int (pos Q)
          ∷ int (pos G)
          ∷ int number_of_guardians
          ∷ int quorum
          ∷ elem_q description_hash
          ∷ [])) in
    record {
      number_of_guardians = number_of_guardians;
      quorum = quorum;
      elgamal_public_key = public_key;
      description_hash = description_hash;
      crypto_base_hash = crypto_base_hash;
      crypto_extended_base_hash =
          hash_elems sha256 (item (elem_q crypto_base_hash) (item (elem_p public_key) end));
    }
