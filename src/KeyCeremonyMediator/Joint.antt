-- ===== src/KeyCeremonyMediator/Joint.antt =====
-- publish_joint_key of key_ceremony_mediator.py: when a key is published, and what is known by then.
use electionguard_python.Prelude.{
  ℕ, zero, suc, ◌+◌, ◌*◌, ◌≡◌, ◌↔◌, refl, sym, ◌∙◌, true, false, some, List, [], ◌∷◌, all, length,
  arith, Bool-cases, inl, inr, subst,
}
use electionguard_python.Prelude.Int.{pos, ◌-ℤ◌, ◌*ℤ◌, ==ℤ→eq}
use electionguard_python.Prelude.Digits.{Text}
use electionguard_python.Prelude.Texts.{eq_text}
use electionguard_python.DataStore.{keys, size}
use electionguard_python.Group.{ElementModP}
use electionguard_python.External.{Gmp}
use electionguard_python.KeyCeremony.{ElectionPartialKeyVerification, combine_election_public_keys}
use electionguard_python.KeyCeremonyMediator.PairStore.{
  GuardianPair, Pairs, eq_pair, get_pair, pair_values,
}
use electionguard_python.KeyCeremonyMediator.Filed.{has_pair, pair_keys, IsFiled, eq_pair→eq}
use electionguard_python.KeyCeremonyMediator.Counting.{Distinct}
use electionguard_python.KeyCeremonyMediator.Square.{pair, has_id, Proper, length-map, all_pairs}
use electionguard_python.KeyCeremonyMediator.Missing.{verified_pair}
use electionguard_python.KeyCeremonyMediator.Consistent.{IsOwned-DistinctIds}
use electionguard_python.KeyCeremonyMediator.Reachable.{Steps, Steps-IsConsistent}
use electionguard_python.KeyCeremonyMediator.{
  KeyCeremonyMediator, failed, required_pairs, all_election_public_keys_available,
  all_election_partial_key_verifications_received, all_election_partial_key_backups_verified,
  share_failed_partial_key_verifications, publish_joint_key,
}

all_verified-failed :
    (d : Pairs ElectionPartialKeyVerification)
    → all (λ v. v.verified) (pair_values d) ≡ true
    → failed d ≡ []
unfolding all failed
all_verified-failed [] h = refl
all_verified-failed ((p, v) ∷ d) h = ground (arith, all_verified-failed d)

failed-all_verified :
    (d : Pairs ElectionPartialKeyVerification)
    → failed d ≡ []
    → all (λ v. v.verified) (pair_values d) ≡ true
unfolding all failed
failed-all_verified [] h = refl
failed-all_verified ((p, v) ∷ d) h = ground (arith, failed-all_verified d)

-- The mediator says that all backups are verified exactly where it has received as many verifications
-- as it requires and the list of the failed ones that it shares is empty.
pub all_verified_iff_none_failed :
    (m : KeyCeremonyMediator)
    → (all_election_partial_key_backups_verified m ≡ true) ↔ (
        (all_election_partial_key_verifications_received m ≡ true)
        × (share_failed_partial_key_verifications m ≡ []))
unfolding all_election_partial_key_backups_verified share_failed_partial_key_verifications
all_verified_iff_none_failed m = (
  λ h. elim (Bool-cases (all_election_partial_key_verifications_received m)) [
    | inl received ↦
        (received, all_verified-failed m.election_partial_key_verifications (ground arith))
    | inr missing ↦ absurd (ground arith)
  ],
  λ h. rw h.0 (failed-all_verified m.election_partial_key_verifications h.1),
)

-- A pair that is a key has a value that is verified, where all are.
get_pair-verified :
    (p : GuardianPair) (d : Pairs ElectionPartialKeyVerification)
    → has_pair p (pair_keys d) ≡ true
    → all (λ v. v.verified) (pair_values d) ≡ true
    → IsFiled verified_pair d
    → (v : ElectionPartialKeyVerification) × (get_pair p d ≡ some v)
      × (v.verified ≡ true)
      × (verified_pair v ≡ p)
unfolding has_pair get_pair all
get_pair-verified p [] h verified filed = cc h
get_pair-verified p ((q, v) ∷ d) h verified (own, two, once, filed) =
    elim (Bool-cases (eq_pair q p)) [
      | inl same ↦ (v, rw (same, get_pair) refl, ground arith, sym own ∙ eq_pair→eq q p same)
      | inr other ↦
          let (w, found, good, its) = get_pair-verified p d (ground arith) (ground arith) filed in
          (w, rw (other, get_pair) found, good, its)
    ]

IsFiled-Distinct :
    (d : Pairs ElectionPartialKeyVerification) → IsFiled verified_pair d → Distinct (pair_keys d)
IsFiled-Distinct [] h = tt
IsFiled-Distinct ((p, v) ∷ d) (own, two, once, h) = (once, IsFiled-Distinct d h)

-- The verifications are of guardians that have an election key.
abbrev pub AreKnown : List Text → Pairs ElectionPartialKeyVerification → Type 0
AreKnown ids [] = Unit {0}
AreKnown ids ((p, v) ∷ d) =
    (has_id v.owner_id ids ≡ true) × (has_id v.designated_id ids ≡ true) × AreKnown ids d

IsFiled-Proper :
    (ids : List Text) (d : Pairs ElectionPartialKeyVerification)
    → AreKnown ids d
    → IsFiled verified_pair d
    → Proper ids (pair_keys d)
IsFiled-Proper ids [] k h = tt
IsFiled-Proper ids ((p, v) ∷ d) (owner, designated, k) (own, two, once, h) =
    (rw own owner, rw own designated, two, IsFiled-Proper ids d k h)

required-square : (n k : ℕ) → pos k ≡ (pos n -ℤ pos 1) *ℤ pos n → n * n ≡ k + n
required-square zero k h = ground arith
required-square (suc n) k h = ground arith

-- The number of verifications and the number of keys, where the joint key is published.
record Counts (m : KeyCeremonyMediator) (joint : ElementModP) : Type 0 where
  keys_counted : pos (size m.election_public_keys) ≡ m.ceremony_details.number_of_guardians
  pairs_counted :
      pos (length m.election_partial_key_verifications) ≡ required_pairs m.ceremony_details
  verified : all (λ v. v.verified) (pair_values m.election_partial_key_verifications) ≡ true
  combined : joint ≡ combine_election_public_keys m.election_public_keys

publish_joint_key-Counts :
    (m : KeyCeremonyMediator) (joint : ElementModP)
    → publish_joint_key m ≡ some joint
    → Counts m joint
unfolding publish_joint_key all_election_public_keys_available
    all_election_partial_key_backups_verified all_election_partial_key_verifications_received
publish_joint_key-Counts m joint h = record {
  keys_counted = ==ℤ→eq _ _ (ground arith);
  pairs_counted = ==ℤ→eq _ _ (ground arith);
  verified = ground arith;
  combined = ground arith;
}

module _ (gmp : Gmp) where
  -- Where a mediator that was reached by its methods publishes a joint key, and all verifications it
  -- has are of guardians that have an election key there, the joint key is what
  -- combine_election_public_keys makes of the election keys, and for every two different guardians of
  -- these the mediator has a successful verification of the backup that the first one made for the
  -- second.
  pub publish_joint_key-verified :
      {m : KeyCeremonyMediator} (joint : ElementModP)
      → Steps gmp m
      → AreKnown (keys m.election_public_keys) m.election_partial_key_verifications
      → publish_joint_key m ≡ some joint
      → (joint ≡ combine_election_public_keys m.election_public_keys)
        × ((i j : Text)
            → has_id i (keys m.election_public_keys) ≡ true
            → has_id j (keys m.election_public_keys) ≡ true
            → eq_text i j ≡ false
            → (v : ElectionPartialKeyVerification) × (get_pair
                  (pair i j)
                  m.election_partial_key_verifications
                ≡ some v)
              × (v.verified ≡ true)
              × (verified_pair v ≡ pair i j))
  unfolding keys size required_pairs
  publish_joint_key-verified {m} joint steps known h =
      let counts = publish_joint_key-Counts m joint h in
      let consistent = Steps-IsConsistent gmp steps in
      let ids = keys m.election_public_keys in
      let d = m.election_partial_key_verifications in
      let number : length ids ≡ size m.election_public_keys =
        length-map (λ entry. entry.0) m.election_public_keys.store in
      let square : length ids * length ids ≡ length (pair_keys d) + length ids =
        rw (number, length-map (λ entry. entry.0) d)
          (required-square (size m.election_public_keys) (length d) (
            subst (λ n. pos (length d) ≡ (n -ℤ pos 1) *ℤ n) (sym counts.keys_counted)
              counts.pairs_counted)) in
      (
        counts.combined,
        λ i j hi hj other.
            get_pair-verified (pair i j) d
              (all_pairs ids (pair_keys d)
                (IsOwned-DistinctIds (λ k. k.owner_id) m.election_public_keys.store
                  consistent.election_keys)
                (IsFiled-Proper ids d known consistent.verifications)
                (IsFiled-Distinct d consistent.verifications) square i j hi hj other)
              counts.verified consistent.verifications,
      )
