-- ===== src/KeyCeremonyMediator/Counting.antt =====
-- Lists of pairs of guardians (key_ceremony_mediator.py): the pigeonhole principle for them.
use electionguard_python.Prelude.{
  suc, ◌≤◌, ◌≡◌, refl, true, false, List, [], ◌∷◌, length, arith, Bool-cases, inl, inr,
  if◌then◌else◌,
}
use electionguard_python.KeyCeremonyMediator.PairStore.{GuardianPair, eq_pair}
use electionguard_python.KeyCeremonyMediator.Filed.{has_pair, eq_pair_self, eq_pair→eq}

abbrev pub Distinct : List GuardianPair → Type 0
Distinct [] = Unit {0}
Distinct (p ∷ pairs) = (has_pair p pairs ≡ false) × Distinct pairs

abbrev pub Within : List GuardianPair → List GuardianPair → Type 0
Within [] all = Unit {0}
Within (p ∷ pairs) all = (has_pair p all ≡ true) × Within pairs all

-- The list without the first pair that equals p.
abbrev without : GuardianPair → List GuardianPair → List GuardianPair
without p [] = []
without p (q ∷ pairs) = let rest = without p pairs in if eq_pair q p then pairs else q ∷ rest

length-without :
    (p : GuardianPair) (pairs : List GuardianPair)
    → has_pair p pairs ≡ true
    → suc (length (without p pairs)) ≡ length pairs
unfolding has_pair
length-without p [] h = cc h
length-without p (q ∷ pairs) h = ground (arith, length-without p pairs)

has_pair-without :
    (p q : GuardianPair) (pairs : List GuardianPair)
    → eq_pair q p ≡ false
    → has_pair q pairs ≡ true
    → has_pair q (without p pairs) ≡ true
unfolding has_pair
has_pair-without p q [] other h = cc h
has_pair-without p q (r ∷ pairs) other h =
    ground (arith, has_pair-without p q pairs, eq_pair→eq r q)

Within-without :
    (p : GuardianPair) (pairs all : List GuardianPair)
    → has_pair p pairs ≡ false
    → Within pairs all
    → Within pairs (without p all)
unfolding has_pair
Within-without p [] all h w = tt
Within-without p (q ∷ pairs) all h (here, w) =
    (has_pair-without p q all (ground arith) here, Within-without p pairs all (ground arith) w)

-- A list of different pairs out of a list that is not longer has each pair of it.
pub pigeonhole :
    (p : GuardianPair) (pairs all : List GuardianPair)
    → Distinct pairs
    → Within pairs all
    → length all ≤ length pairs
    → has_pair p all ≡ true
    → has_pair p pairs ≡ true
unfolding has_pair
pigeonhole p [] [] d w le h = h
pigeonhole p [] (q ∷ all) d w le h = absurd (omega arith)
pigeonhole p (q ∷ pairs) all (new, d) (here, w) le h = elim (Bool-cases (eq_pair q p)) [
  | inl same ↦ rw same refl
  | inr other ↦
      let known : has_pair p (without q all) ≡ true =
        has_pair-without q p all (ground (arith, eq_pair→eq p q, eq_pair_self p)) h in
      rw
        (pigeonhole p pairs (without q all) d (Within-without q pairs all new w)
          (omega (arith, length-without q all here)) known)
        (ground arith)
]
