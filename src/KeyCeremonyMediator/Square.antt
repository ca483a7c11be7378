-- ===== src/KeyCeremonyMediator/Square.antt =====
-- The mediator counts pairs of guardians (key_ceremony_mediator.py): when as many different pairs are
-- there as there are pairs of different guardians, each of these pairs is there.
use electionguard_python.Prelude.{
  ◌+◌, ◌*◌, ◌≡◌, refl, Bool, true, false, ◌||◌, List, [], ◌∷◌, ◌++◌, map, length, length-append,
  arith, Bool-cases, inl, inr,
}
use electionguard_python.Prelude.Digits.{Text}
use electionguard_python.Prelude.Texts.{eq_text, eq_text_self, eq_text→eq}
use electionguard_python.KeyCeremonyMediator.PairStore.{GuardianPair, eq_pair}
use electionguard_python.KeyCeremonyMediator.Filed.{has_pair}
use electionguard_python.KeyCeremonyMediator.Counting.{Distinct, Within, pigeonhole}

abbrev pub pair : Text → Text → GuardianPair
pair i j = record { owner_id = i; designated_id = j }

-- i in ids
unfoldable pub has_id : Text → List Text → Bool
has_id i [] = false
has_id i (j ∷ ids) = eq_text j i || has_id i ids

abbrev pub DistinctIds : List Text → Type 0
DistinctIds [] = Unit {0}
DistinctIds (i ∷ ids) = (has_id i ids ≡ false) × DistinctIds ids

abbrev square_from : List Text → List Text → List GuardianPair
square_from [] ids = []
square_from (i ∷ rows) ids = map (pair i) ids ++ square_from rows ids

abbrev diagonal : List Text → List GuardianPair
diagonal ids = map (λ i. pair i i) ids

pub length-map {ℓ κ} :
    {A : Type ℓ} {B : Type κ} (f : A → B) (xs : List A) → length (map f xs) ≡ length xs
length-map f [] = refl
length-map f (x ∷ xs) = omega (arith, length-map f xs)

length-square_from :
    (rows ids : List Text) → length (square_from rows ids) ≡ length rows * length ids
length-square_from [] ids = omega arith
length-square_from (i ∷ rows) ids = omega (
  arith,
  length-append (map (pair i) ids) (square_from rows ids),
  length-map (pair i) ids,
  length-square_from rows ids,
)

has_pair-append :
    (p : GuardianPair) (xs ys : List GuardianPair)
    → has_pair p (xs ++ ys) ≡ (has_pair p xs || has_pair p ys)
unfolding has_pair
has_pair-append p [] ys = refl
has_pair-append p (q ∷ xs) ys = ground (arith, has_pair-append p xs ys)

has_pair-row :
    (i j : Text) (ids : List Text)
    → has_id j ids ≡ true
    → has_pair (pair i j) (map (pair i) ids) ≡ true
unfolding has_pair has_id eq_pair
has_pair-row i j [] h = cc h
has_pair-row i j (k ∷ ids) h = ground (arith, eq_text_self i, has_pair-row i j ids)

has_pair-square :
    (i j : Text) (rows ids : List Text)
    → has_id i rows ≡ true
    → has_id j ids ≡ true
    → has_pair (pair i j) (square_from rows ids) ≡ true
unfolding has_id
has_pair-square i j [] ids hi hj = cc hi
has_pair-square i j (k ∷ rows) ids hi hj = elim (Bool-cases (eq_text k i)) [
  | inl same ↦
      rw
        (
          has_pair-append (pair i j) (map (pair k) ids) (square_from rows ids),
          eq_text→eq k i same,
          has_pair-row i j ids hj,
        )
        refl
  | inr other ↦ ground (
    arith,
    has_pair-append (pair i j) (map (pair k) ids) (square_from rows ids),
    has_pair-square i j rows ids,
  )
]

-- Pairs of two different guardians out of the list.
abbrev pub Proper : List Text → List GuardianPair → Type 0
Proper ids [] = Unit {0}
Proper ids (p ∷ pairs) =
    (has_id p.owner_id ids ≡ true)
    × (has_id p.designated_id ids ≡ true)
    × (eq_text p.owner_id p.designated_id ≡ false)
    × Proper ids pairs

Within-square :
    (ids : List Text) (pairs : List GuardianPair)
    → Proper ids pairs
    → Within pairs (square_from ids ids)
Within-square ids [] h = tt
Within-square ids (p ∷ pairs) (owner, designated, two, h) =
    (has_pair-square p.owner_id p.designated_id ids ids owner designated, Within-square ids pairs h)

-- The diagonal before the pairs is within the square.
Within-diagonal :
    (rest ids : List Text) (pairs : List GuardianPair)
    → ((i : Text) → has_id i rest ≡ true → has_id i ids ≡ true)
    → Proper ids pairs
    → Within (diagonal rest ++ pairs) (square_from ids ids)
unfolding has_id
Within-diagonal [] ids pairs inside h = Within-square ids pairs h
Within-diagonal (i ∷ rest) ids pairs inside h =
    let known = inside i (rw (eq_text_self i) refl) in
    (
      has_pair-square i i ids ids known known,
      Within-diagonal rest ids pairs (λ j hj. inside j (rw hj (ground arith))) h,
    )

has_pair-diagonal :
    (i j : Text) (ids : List Text)
    → has_pair (pair i j) (diagonal ids) ≡ true
    → (has_id i ids ≡ true) × (eq_text i j ≡ true)
unfolding has_pair has_id eq_pair
has_pair-diagonal i j [] h = cc h
has_pair-diagonal i j (k ∷ ids) h =
    ground (arith, eq_text→eq k i, eq_text→eq k j, eq_text_self k, has_pair-diagonal i j ids)

Proper-not_diagonal :
    (i : Text) (ids : List Text) (pairs : List GuardianPair)
    → Proper ids pairs
    → has_pair (pair i i) pairs ≡ false
unfolding has_pair eq_pair
Proper-not_diagonal i ids [] h = refl
Proper-not_diagonal i ids (p ∷ pairs) (owner, designated, two, h) = ground (
  arith,
  eq_text→eq p.owner_id i,
  eq_text→eq p.designated_id i,
  eq_text_self i,
  Proper-not_diagonal i ids pairs h,
)

Distinct-diagonal :
    (rest ids : List Text) (pairs : List GuardianPair)
    → DistinctIds rest
    → Proper ids pairs
    → Distinct pairs
    → Distinct (diagonal rest ++ pairs)
unfolding has_pair
Distinct-diagonal [] ids pairs new h d = d
Distinct-diagonal (i ∷ rest) ids pairs (fresh, new) h d =
    elim (Bool-cases (has_pair (pair i i) (diagonal rest))) [
      | inl there ↦ absurd (ground (arith, has_pair-diagonal i i rest there))
      | inr absent ↦ (
        rw
            (
              has_pair-append (pair i i) (diagonal rest) pairs,
              absent,
              Proper-not_diagonal i ids pairs h,
            )
            refl,
        Distinct-diagonal rest ids pairs new h d,
      )
    ]

-- A list of n (n - 1) different pairs of different guardians, out of n guardians, has each such pair.
pub all_pairs :
    (ids : List Text) (pairs : List GuardianPair)
    → DistinctIds ids
    → Proper ids pairs
    → Distinct pairs
    → length ids * length ids ≡ length pairs + length ids
    → (i j : Text) → has_id i ids ≡ true
    → has_id j ids ≡ true
    → eq_text i j ≡ false
    → has_pair (pair i j) pairs ≡ true
all_pairs ids pairs distinct h d count i j hi hj other =
    let found : has_pair (pair i j) (diagonal ids ++ pairs) ≡ true =
      pigeonhole (pair i j) (diagonal ids ++ pairs) (square_from ids ids)
        (Distinct-diagonal ids ids pairs distinct h d)
        (Within-diagonal ids ids pairs (λ k hk. hk) h)
        (omega (
          arith,
          length-append (diagonal ids) pairs,
          length-map (λ k. pair k k) ids,
          length-square_from ids ids,
        ))
        (has_pair-square i j ids ids hi hj) in
    ground (arith, has_pair-append (pair i j) (diagonal ids) pairs, has_pair-diagonal i j ids)
