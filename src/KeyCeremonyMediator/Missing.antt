-- ===== src/KeyCeremonyMediator/Missing.antt =====
-- key_ceremony_mediator.py: the failed verifications, and those of them that miss a challenge.
use electionguard_python.Prelude.{
  ◌≡◌, refl, ap, ◌∙◌, true, false, List, [], ◌∷◌, arith, Bool-cases, inl, inr, subst,
}
use electionguard_python.Prelude.Result.{Result, ok, raise, value_error, ◌>>=◌}
use electionguard_python.Prelude.Texts.{eq_text}
use electionguard_python.KeyCeremony.{ElectionPartialKeyVerification}
use electionguard_python.KeyCeremonyMediator.PairStore.{GuardianPair, Pairs, eq_pair, set_pair}
use electionguard_python.KeyCeremonyMediator.Filed.{has_pair, eq_pair→eq, pair_keys, IsFiled}
use electionguard_python.KeyCeremonyMediator.{
  KeyCeremonyMediator, failed, remove_pair, remove_all,
  share_missing_election_partial_key_challenges, receive_election_partial_key_verification,
  share_failed_partial_key_verifications,
}

abbrev pub verified_pair : ElectionPartialKeyVerification → GuardianPair
verified_pair v = record { owner_id = v.owner_id; designated_id = v.designated_id }

remove_pair-absent :
    (p : GuardianPair) (pairs : List GuardianPair)
    → has_pair p pairs ≡ false
    → remove_pair p pairs ≡ raise value_error
unfolding has_pair remove_pair
remove_pair-absent p [] h = refl
remove_pair-absent p (q ∷ pairs) h = ground (arith, remove_pair-absent p pairs)

-- What removing a pair leaves has no pair that was not there.
abbrev KeepsAbsent : GuardianPair → Result (List GuardianPair) → Type 0
KeepsAbsent p (ok rest) = has_pair p rest ≡ false
KeepsAbsent p (raise e) = e ≡ value_error

remove_pair-KeepsAbsent :
    (p q : GuardianPair) (pairs : List GuardianPair)
    → has_pair p pairs ≡ false
    → KeepsAbsent p (remove_pair q pairs)
unfolding has_pair remove_pair
remove_pair-KeepsAbsent p q [] h = refl
remove_pair-KeepsAbsent p q (r ∷ pairs) h = ground (arith, remove_pair-KeepsAbsent p q pairs)

after_removal :
    (p : GuardianPair) (r : Result (List GuardianPair))
    (f : List GuardianPair → Result (List GuardianPair))
    → KeepsAbsent p r
    → ((rest : List GuardianPair) → has_pair p rest ≡ false → f rest ≡ raise value_error)
    → (r >>= f) ≡ raise value_error
after_removal p (ok rest) f h step = step rest h
after_removal p (raise e) f h step = ap raise h

remove_all-absent :
    (p : GuardianPair) (challenged pairs : List GuardianPair)
    → has_pair p challenged ≡ true
    → has_pair p pairs ≡ false
    → remove_all challenged pairs ≡ raise value_error
unfolding has_pair remove_all
remove_all-absent p [] pairs h absent = cc h
remove_all-absent p (q ∷ challenged) pairs h absent = elim (Bool-cases (eq_pair q p)) [
  | inl same ↦
      ap (λ r. r >>= remove_all challenged)
        (ap (λ t. remove_pair t pairs) (eq_pair→eq q p same) ∙ remove_pair-absent p pairs absent)
  | inr other ↦
      after_removal p (remove_pair q pairs) (remove_all challenged)
        (remove_pair-KeepsAbsent p q pairs absent)
        (λ rest. remove_all-absent p challenged rest (ground arith))
]

failed-absent :
    (p : GuardianPair) (d : Pairs ElectionPartialKeyVerification)
    → has_pair p (pair_keys d) ≡ false
    → has_pair p (failed d) ≡ false
unfolding has_pair failed
failed-absent p [] h = refl
failed-absent p ((q, v) ∷ d) h = ground (arith, failed-absent p d)

failed-set_pair :
    (v : ElectionPartialKeyVerification) (d : Pairs ElectionPartialKeyVerification)
    → v.verified ≡ true
    → IsFiled verified_pair d
    → has_pair (verified_pair v) (failed (set_pair (verified_pair v) v d)) ≡ false
unfolding has_pair failed set_pair
failed-set_pair v [] h filed = ground arith
failed-set_pair v ((q, w) ∷ d) h (own, two, once, filed) =
    elim (Bool-cases (eq_pair q (verified_pair v))) [
      | inl same ↦
          let e = eq_pair→eq q (verified_pair v) same in
          let once' = subst (λ p. has_pair p (pair_keys d) ≡ false) e once in
          ground (arith, failed-absent (verified_pair v) d once')
      | inr other ↦ ground (arith, failed-set_pair v d h filed)
    ]

-- Where the mediator's verifications are filed under their own pairs, a pair has a challenge, and the
-- verification of the pair that the mediator receives next is a successful one, the list of missing
-- challenges cannot be made any more: share_missing_election_partial_key_challenges raises ValueError.
pub share_missing-after_verified :
    (v : ElectionPartialKeyVerification) (m : KeyCeremonyMediator)
    → IsFiled verified_pair m.election_partial_key_verifications
    → eq_text v.owner_id v.designated_id ≡ false
    → v.verified ≡ true
    → has_pair (verified_pair v) (pair_keys m.election_partial_key_challenges) ≡ true
    → share_missing_election_partial_key_challenges (receive_election_partial_key_verification v m)
      ≡ raise value_error
unfolding share_missing_election_partial_key_challenges receive_election_partial_key_verification
    share_failed_partial_key_verifications
share_missing-after_verified v m filed two h challenged = rw two (
    remove_all-absent (verified_pair v) (pair_keys m.election_partial_key_challenges)
      (failed (set_pair (verified_pair v) v m.election_partial_key_verifications)) challenged
      (failed-set_pair v m.election_partial_key_verifications h filed))
