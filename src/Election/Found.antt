-- ===== src/Election/Found.antt =====
-- Where the ids of a contest's selections and placeholders are distinct, selection_for finds each
-- (election.py).
use electionguard_python.Prelude.{
  ◌≡◌, refl, sym, ◌∙◌, true, none, some, List, [], ◌∷◌, ◌++◌, map, any, arith,
}
use electionguard_python.Prelude.Digits.{Text}
use electionguard_python.Prelude.Texts.{eq_text, eq_text_self, eq_text→eq}
use electionguard_python.Election.{
  SelectionDescription, ContestDescriptionWithPlaceholders, find_selection, selection_for,
}
use electionguard_python.Election.Distinct.{AreNew}

abbrev ids : List SelectionDescription → List Text
ids = map (λ d. d.object_id)

-- Each of the descriptions is the first with its id in a list.
abbrev FoundIn : List SelectionDescription → List SelectionDescription → Type 0
FoundIn all [] = Unit
FoundIn all (d ∷ ds) = (find_selection d.object_id all ≡ some d) × FoundIn all ds

-- Each of the descriptions is the one that its contest has for its id.
abbrev pub AreFound : ContestDescriptionWithPlaceholders → List SelectionDescription → Type 0
AreFound c [] = Unit
AreFound c (d ∷ ds) = (selection_for c d.object_id ≡ some d) × AreFound c ds

FoundIn-cons :
    (x : SelectionDescription) (all ds : List SelectionDescription) (old : List Text)
    → AreNew eq_text old (ids ds)
    → any (eq_text x.object_id) old ≡ true
    → FoundIn all ds
    → FoundIn (x ∷ all) ds
unfolding find_selection any
FoundIn-cons x all [] old new among f = tt
FoundIn-cons x all (d ∷ ds) old new among f = (
  ground (arith, eq_text→eq x.object_id d.object_id),
  FoundIn-cons x all ds (d.object_id ∷ old) new.1 (ground arith) f.1,
)

AreNew-FoundIn :
    (ds : List SelectionDescription) (old : List Text) → AreNew eq_text old (ids ds) → FoundIn ds ds
unfolding find_selection any
AreNew-FoundIn [] old new = tt
AreNew-FoundIn (d ∷ ds) old new = (
  ground (arith, eq_text_self d.object_id),
  FoundIn-cons d ds ds (d.object_id ∷ old) new.1 (ground (arith, eq_text_self d.object_id))
      (AreNew-FoundIn ds (d.object_id ∷ old) new.1),
)

find_selection-append :
    (id : Text) (xs ys : List SelectionDescription)
    → find_selection id (xs ++ ys)
      ≡ elim (find_selection id xs) [ some s ↦ some s | none ↦ find_selection id ys ]
unfolding find_selection
find_selection-append id [] ys = refl
find_selection-append id (x ∷ xs) ys = ground (arith, find_selection-append id xs ys)

module _ (c : ContestDescriptionWithPlaceholders) where
  abbrev all : List SelectionDescription
  all = c.description.ballot_selections ++ c.placeholder_selections

  FoundIn-AreFound : (ds : List SelectionDescription) → FoundIn all ds → AreFound c ds
  unfolding selection_for
  FoundIn-AreFound [] f = tt
  FoundIn-AreFound (d ∷ ds) f = (
    sym (find_selection-append d.object_id c.description.ballot_selections c.placeholder_selections)
        ∙ f.0,
    FoundIn-AreFound ds f.1,
  )

  FoundIn-split :
      (ds es : List SelectionDescription) → FoundIn all (ds ++ es) → FoundIn all ds × FoundIn all es
  FoundIn-split [] es f = (tt, f)
  FoundIn-split (d ∷ ds) es f = let (g, h) = FoundIn-split ds es f.1 in ((f.0, g), h)

  -- The ids of all selections of the contest are distinct.
  abbrev pub HasDistinctIds : Type 0
  HasDistinctIds = AreNew eq_text [] (ids all)

  pub HasDistinctIds-AreFound :
      HasDistinctIds
      → AreFound c c.description.ballot_selections × AreFound c c.placeholder_selections
  HasDistinctIds-AreFound h =
      let (real, placeholders) =
        FoundIn-split c.description.ballot_selections c.placeholder_selections
          (AreNew-FoundIn all [] h) in
      (
        FoundIn-AreFound c.description.ballot_selections real,
        FoundIn-AreFound c.placeholder_selections placeholders,
      )
