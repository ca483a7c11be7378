-- ===== src/Election.antt =====
-- election.py: the descriptions of contests and of their selections, with their hashes and validity.
pub mod Internal
pub mod Distinct
pub mod Found
use electionguard_python.Prelude.{
  ℕ, zero, suc, ◌+◌, ◌==◌, Bool, true, ◌&&◌, Option, none, some, List, [], ◌∷◌, ◌++◌, map, any,
  length, if◌then◌else◌,
}
use electionguard_python.Prelude.Int.{ℤ, pos, to_ℕ, ◌+ℤ◌, ◌==ℤ◌, leb_ℤ, max_ℤ}
use electionguard_python.Prelude.Result.{
  Result, ok, raise, type_error, index_error, value_error, ◌>>=◌, get_optional,
}
use electionguard_python.Prelude.Digits.{Text, codes}
use electionguard_python.Prelude.Texts.{eq_text}
use electionguard_python.External.{Sha256}
use electionguard_python.Group.Constants.{P, Q, G}
use electionguard_python.Group.{ElementModQ, ElementModP}
use electionguard_python.Hash.{
  Hashable, Hashables, null, elem_p, elem_q, hashed, text, int, seq, end, item, hash_elems, decimal,
}

pub data VoteVariationType : Type 0 where
  unknown one_of_m approval borda cumulative majority n_of_m plurality proportional range rcv
        super_majority other :
      VoteVariationType

-- The name of a member of the enumeration.
unfoldable pub variation_name : VoteVariationType → Text
variation_name unknown = codes "unknown"
variation_name one_of_m = codes "one_of_m"
variation_name approval = codes "approval"
variation_name borda = codes "borda"
variation_name cumulative = codes "cumulative"
variation_name majority = codes "majority"
variation_name n_of_m = codes "n_of_m"
variation_name plurality = codes "plurality"
variation_name proportional = codes "proportional"
variation_name range = codes "range"
variation_name rcv = codes "rcv"
variation_name super_majority = codes "super_majority"
variation_name other = codes "other"

pub record Language : Type 0 where
  pub value : Text
  pub language : Text

pub record InternationalizedText : Type 0 where
  pub texts : List Language

pub record BallotStyle : Type 0 where
  pub object_id : Text
  pub geopolitical_unit_ids : Option (List Text)
  pub party_ids : Option (List Text)
  pub image_uri : Option Text

pub record SelectionDescription : Type 0 where
  pub object_id : Text
  pub candidate_id : Text
  pub sequence_order : ℤ

pub record ContestDescription : Type 0 where
  pub object_id : Text
  pub electoral_district_id : Text
  pub sequence_order : ℤ
  pub vote_variation : VoteVariationType
  pub number_elected : ℤ
  pub votes_allowed : Option ℤ
  pub name : Text
  pub ballot_selections : List SelectionDescription
  pub ballot_title : Option InternationalizedText
  pub ballot_subtitle : Option InternationalizedText

-- The fields that the subclass inherits are those of `description`.
pub record ContestDescriptionWithPlaceholders : Type 0 where
  pub description : ContestDescription
  pub placeholder_selections : List SelectionDescription

-- A list and an optional as an argument of hash_elems.
abbrev pub list_of {ℓ} : {A : Type ℓ} → (A → Hashable) → List A → Hashables
list_of f [] = end
list_of f (x ∷ xs) = item (f x) (list_of f xs)

abbrev pub optional {ℓ} : {A : Type ℓ} → (A → Hashable) → Option A → Hashable
optional f none = null
optional f (some x) = f x

module _ (sha256 : Sha256) where
  unfoldable pub language_hash : Language → ElementModQ
  language_hash l = hash_elems sha256 (item (text l.value) (item (text l.language) end))

  unfoldable pub text_hash : InternationalizedText → ElementModQ
  text_hash t = hash_elems sha256 (item (seq (list_of (λ l. hashed (language_hash l)) t.texts)) end)

  unfoldable pub selection_hash : SelectionDescription → ElementModQ
  selection_hash s =
      hash_elems sha256
        (item (text s.object_id) (item (int s.sequence_order) (item (text s.candidate_id) end)))

  unfoldable pub contest_hash : ContestDescription → ElementModQ
  contest_hash c = hash_elems sha256 (
      list_of (λ x. x)
        (text c.object_id
          ∷ int c.sequence_order
          ∷ text c.electoral_district_id
          ∷ text (variation_name c.vote_variation)
          ∷ optional (λ t. hashed (text_hash t)) c.ballot_title
          ∷ optional (λ t. hashed (text_hash t)) c.ballot_subtitle
          ∷ text c.name
          ∷ int c.number_elected
          ∷ optional int c.votes_allowed
          ∷ seq (list_of (λ s. hashed (selection_hash s)) c.ballot_selections)
          ∷ []))

-- A set of identifiers, built in a loop by `if x not in ids: ids.add(x)`.
module _ {ℓ} {A : Type ℓ} (eq : A → A → Bool) where
  unfoldable pub add_new : A → List A → List A
  add_new x ids = if any (eq x) ids then ids else x ∷ ids

  unfoldable pub collect : List A → List A → List A
  unfolding add_new
  collect ids [] = ids
  collect ids (x ∷ xs) = collect (add_new x ids) xs

  -- Whether the set has as many members as the list.
  unfoldable pub all_new : List A → Bool
  unfolding collect
  all_new xs = length (collect [] xs) == length xs

unfoldable pub contest_is_valid : ContestDescription → Bool
contest_is_valid c =
    let selections = c.ballot_selections in
    let contest_has_valid_number_elected = leb_ℤ c.number_elected (pos (length selections)) in
    let contest_has_valid_votes_allowed : Bool = elim c.votes_allowed [
      | none ↦ true
      | some n ↦ leb_ℤ c.number_elected n
    ] in
    contest_has_valid_number_elected
    && contest_has_valid_votes_allowed
    && all_new eq_text (map (λ s. s.candidate_id) selections)
    && all_new eq_text (map (λ s. s.object_id) selections)
    && all_new ◌==ℤ◌ (map (λ s. s.sequence_order) selections)

-- The method of the subclass, which calls that of the class.
unfoldable pub is_valid : ContestDescriptionWithPlaceholders → Bool
unfolding contest_is_valid
is_valid c =
    contest_is_valid c.description
    && pos (length c.placeholder_selections) ==ℤ c.description.number_elected

-- The first of the list with an id.
unfoldable pub find_selection : Text → List SelectionDescription → Option SelectionDescription
find_selection selection_id [] = none
find_selection selection_id (s ∷ selections) =
    if eq_text s.object_id selection_id then some s else find_selection selection_id selections

unfoldable pub selection_for :
    ContestDescriptionWithPlaceholders → Text → Option SelectionDescription
unfolding find_selection
selection_for c selection_id = elim (find_selection selection_id c.description.ballot_selections) [
  | some s ↦ some s
  | none ↦ find_selection selection_id c.placeholder_selections
]

-- Equality of all the fields, as the dataclass defines it.
abbrev eq_selection : SelectionDescription → SelectionDescription → Bool
eq_selection s t =
    eq_text s.object_id t.object_id
    && eq_text s.candidate_id t.candidate_id
    && s.sequence_order ==ℤ t.sequence_order

pub is_placeholder : ContestDescriptionWithPlaceholders → SelectionDescription → Bool
is_placeholder c selection = any (eq_selection selection) c.placeholder_selections
