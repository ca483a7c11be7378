-- ===== src/Election/Distinct.antt =====
-- Where the set of the identifiers has as many members as their list, each one is new: the test for
-- unique identifiers in ContestDescription.is_valid (election.py).
use electionguard_python.Prelude.{
  ◌+◌, ◌≤◌, ◌≡◌, Bool, true, false, List, [], ◌∷◌, any, length, arith, Bool-cases, inl, inr,
}
use electionguard_python.Election.{add_new, collect, all_new}

module _ {ℓ} {A : Type ℓ} (eq : A → A → Bool) where
  -- Each of the list is new against the identifiers and those of the list before it.
  abbrev pub AreNew : List A → List A → Type 0
  AreNew ids [] = Unit
  AreNew ids (x ∷ xs) = (any (eq x) ids ≡ false) × AreNew (x ∷ ids) xs

  length-collect : (ids xs : List A) → length (collect eq ids xs) ≤ length ids + length xs
  unfolding collect add_new
  length-collect ids [] = omega arith
  length-collect ids (x ∷ xs) = ground (arith, length-collect (x ∷ ids) xs, length-collect ids xs)

  collect-AreNew :
      (ids xs : List A) → length (collect eq ids xs) ≡ length ids + length xs → AreNew ids xs
  unfolding collect add_new
  collect-AreNew ids [] h = tt
  collect-AreNew ids (x ∷ xs) h = elim (Bool-cases (any (eq x) ids)) [
    | inl old ↦ absurd (ground (arith, length-collect ids xs, old))
    | inr new ↦ (new, collect-AreNew (x ∷ ids) xs (ground (arith, new)))
  ]

  pub all_new-AreNew : (xs : List A) → all_new eq xs ≡ true → AreNew [] xs
  unfolding all_new
  all_new-AreNew xs h = collect-AreNew [] xs (ground arith)
