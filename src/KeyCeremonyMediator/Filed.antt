-- ===== src/KeyCeremonyMediator/Filed.antt =====
-- key_ceremony_mediator.py: the stores under pairs of guardians. Each value is filed once, under its own
-- pair.
use electionguard_python.Prelude.{
  ◌≡◌, refl, Bool, true, false, ◌||◌, List, [], ◌∷◌, map, arith, Bool-cases, inl, inr,
}
use electionguard_python.Prelude.Texts.{eq_text, eq_text_self, eq_text→eq}
use electionguard_python.KeyCeremonyMediator.PairStore.{GuardianPair, Pairs, eq_pair, set_pair}

-- p in pairs
unfoldable pub has_pair : GuardianPair → List GuardianPair → Bool
has_pair p [] = false
has_pair p (q ∷ pairs) = eq_pair q p || has_pair p pairs

pub eq_pair_self : (p : GuardianPair) → eq_pair p p ≡ true
unfolding eq_pair
eq_pair_self p = ground (arith, eq_text_self p.owner_id, eq_text_self p.designated_id)

pub eq_pair→eq : (p q : GuardianPair) → eq_pair p q ≡ true → p ≡ q
unfolding eq_pair
eq_pair→eq p q h =
    let owner : p.owner_id ≡ q.owner_id = ground (arith, eq_text→eq p.owner_id q.owner_id) in
    let designated : p.designated_id ≡ q.designated_id =
      ground (arith, eq_text→eq p.designated_id q.designated_id) in
    λ i. record { owner_id = owner i; designated_id = designated i }

abbrev pub pair_keys : {A : Type 0} → Pairs A → List GuardianPair
pair_keys = map (λ entry. entry.0)

-- A pair of two different guardians, and any pair.
abbrev pub Differ : GuardianPair → Type 0
Differ p = eq_text p.owner_id p.designated_id ≡ false

abbrev pub AnyPair : GuardianPair → Type 0
AnyPair p = Unit {0}

module _ (Allowed : GuardianPair → Type 0) {A : Type 0} (pair_of : A → GuardianPair) where
  -- Each value is filed under its own pair, which is allowed, and no pair is there twice.
  abbrev pub IsFiledBy : Pairs A → Type 0
  IsFiledBy [] = Unit {0}
  IsFiledBy ((p, v) ∷ d) =
      (p ≡ pair_of v) × Allowed p × (has_pair p (pair_keys d) ≡ false) × IsFiledBy d

  has_pair-set_pair :
      (p q : GuardianPair) (value : A) (d : Pairs A)
      → has_pair q (pair_keys (set_pair p value d)) ≡ (eq_pair p q || has_pair q (pair_keys d))
  unfolding has_pair set_pair
  has_pair-set_pair p q value [] = refl
  has_pair-set_pair p q value ((r, v) ∷ d) = elim (Bool-cases (eq_pair r p)) [
    | inl same ↦ let e = eq_pair→eq r p same in ground (arith, e)
    | inr other ↦ ground (arith, has_pair-set_pair p q value d)
  ]

  pub set_pair-IsFiledBy :
      (value : A) (d : Pairs A)
      → Allowed (pair_of value)
      → IsFiledBy d
      → IsFiledBy (set_pair (pair_of value) value d)
  unfolding set_pair has_pair
  set_pair-IsFiledBy value [] h filed = (refl, h, refl, tt)
  set_pair-IsFiledBy value ((q, v) ∷ d) h (own, allowed, once, filed) =
      elim (Bool-cases (eq_pair q (pair_of value))) [
        | inl same ↦ rw (same, set_pair) (eq_pair→eq q (pair_of value) same, allowed, once, filed)
        | inr other ↦
            rw (other, set_pair)
              (
                own,
                allowed,
                rw (has_pair-set_pair (pair_of value) q value d)
                    (ground (arith, eq_pair→eq (pair_of value) q, eq_pair_self q)),
                set_pair-IsFiledBy value d h filed,
              )
      ]

-- Filed under pairs of two different guardians.
abbrev pub IsFiled : {A : Type 0} → (A → GuardianPair) → Pairs A → Type 0
IsFiled pair_of d = IsFiledBy Differ pair_of d
