-- ===== src/KeyCeremonyMediator/Consistent.antt =====
-- The methods of a mediator keep its stores in order (key_ceremony_mediator.py).
pub mod Rounds
use electionguard_python.Prelude.{
  false, ◌≡◌, refl, ◌||◌, List, [], ◌∷◌, map, arith, Bool-cases, inl, inr,
}
use electionguard_python.Prelude.Digits.{Text}
use electionguard_python.Prelude.Texts.{eq_text, eq_text_self, eq_text→eq}
use electionguard_python.Prelude.Dict.{Dict, put}
use electionguard_python.DataStore.{clear, keys, set}
use electionguard_python.KeyCeremony.{
  AuxiliaryPublicKey, ElectionPublicKey, ElectionPartialKeyBackup, ElectionPartialKeyVerification,
  ElectionPartialKeyChallenge,
}
use electionguard_python.Guardian.{CeremonyDetails, PublicKeySet, Guardian, election_of}
use electionguard_python.KeyCeremonyMediator.PairStore.{GuardianPair}
use electionguard_python.KeyCeremonyMediator.Filed.{
  IsFiled, set_pair-IsFiledBy, Differ, AnyPair, IsFiledBy,
}
use electionguard_python.KeyCeremonyMediator.Square.{DistinctIds, has_id}
use electionguard_python.KeyCeremonyMediator.Missing.{verified_pair}
use electionguard_python.KeyCeremonyMediator.{
  KeyCeremonyMediator, new_mediator, reset, receive_auxiliary_public_key,
  receive_election_public_key, confirm_presence_of_guardian, receive_election_partial_key_backup,
  receive_election_partial_key_verification, receive_election_partial_key_challenge,
}

abbrev backup_pair : ElectionPartialKeyBackup → GuardianPair
backup_pair b = record { owner_id = b.owner_id; designated_id = b.designated_id }

abbrev challenge_pair : ElectionPartialKeyChallenge → GuardianPair
challenge_pair c = record { owner_id = c.owner_id; designated_id = c.designated_id }

-- Each value is filed under its own owner, and no owner is there twice.
abbrev pub IsOwned : {A : Type 0} → (A → Text) → Dict A → Type 0
IsOwned owner_of [] = Unit {0}
IsOwned owner_of ((k, v) ∷ d) =
    (k ≡ owner_of v) × (has_id k (map (λ entry. entry.0) d) ≡ false) × IsOwned owner_of d

-- Keys are filed once under their owners. Backups, verifications and challenges are filed once under
-- their own pairs, those of backups and verifications of two different guardians.
pub record IsConsistent (m : KeyCeremonyMediator) : Type 0 where
  pub auxiliary_keys :
      IsOwned (λ (key : AuxiliaryPublicKey). key.owner_id) m.auxiliary_public_keys.store
  pub election_keys :
      IsOwned (λ (key : ElectionPublicKey). key.owner_id) m.election_public_keys.store
  pub backups : IsFiled backup_pair m.election_partial_key_backups
  pub verifications : IsFiled verified_pair m.election_partial_key_verifications
  pub challenges : IsFiledBy AnyPair challenge_pair m.election_partial_key_challenges

module _ {A : Type 0} where
  has_id-put :
      (key other : Text) (value : A) (d : Dict A)
      → has_id other (map (λ entry. entry.0) (put key value d))
        ≡ (eq_text key other || has_id other (map (λ entry. entry.0) d))
  unfolding has_id put
  has_id-put key other value [] = refl
  has_id-put key other value ((k, v) ∷ d) =
      ground (arith, eq_text→eq k key, has_id-put key other value d)

  put-IsOwned :
      (owner_of : A → Text) (value : A) (d : Dict A)
      → IsOwned owner_of d
      → IsOwned owner_of (put (owner_of value) value d)
  unfolding has_id put
  put-IsOwned owner_of value [] h = (refl, refl, tt)
  put-IsOwned owner_of value ((k, v) ∷ d) (own, once, h) =
      elim (Bool-cases (eq_text k (owner_of value))) [
        | inl same ↦ rw (same, put) (eq_text→eq k (owner_of value) same, once, h)
        | inr other ↦
            rw (other, put)
              (
                own,
                rw (has_id-put (owner_of value) k value d)
                    (ground (arith, eq_text→eq (owner_of value) k, eq_text_self k)),
                put-IsOwned owner_of value d h,
              )
      ]

  pub IsOwned-DistinctIds :
      (owner_of : A → Text) (d : Dict A)
      → IsOwned owner_of d
      → DistinctIds (map (λ entry. entry.0) d)
  IsOwned-DistinctIds owner_of [] h = tt
  IsOwned-DistinctIds owner_of ((k, v) ∷ d) (own, once, h) =
      (once, IsOwned-DistinctIds owner_of d h)

pub new_mediator-IsConsistent :
    (details : CeremonyDetails) (guardians : List Guardian)
    → IsConsistent (new_mediator details guardians)
unfolding new_mediator keys
new_mediator-IsConsistent details guardians = record {
  auxiliary_keys = tt;
  election_keys = tt;
  backups = tt;
  verifications = tt;
  challenges = tt;
}

pub reset-IsConsistent :
    (details : CeremonyDetails) (m : KeyCeremonyMediator) → IsConsistent (reset details m)
unfolding reset keys clear
reset-IsConsistent details m = record {
  auxiliary_keys = tt;
  election_keys = tt;
  backups = tt;
  verifications = tt;
  challenges = tt;
}

pub election_key-IsConsistent :
    (key : ElectionPublicKey) (m : KeyCeremonyMediator)
    → IsConsistent m
    → IsConsistent (receive_election_public_key key m)
unfolding receive_election_public_key keys set
election_key-IsConsistent key m h = record {
  auxiliary_keys = h.auxiliary_keys;
  election_keys = put-IsOwned (λ k. k.owner_id) key m.election_public_keys.store h.election_keys;
  backups = h.backups;
  verifications = h.verifications;
  challenges = h.challenges;
}

pub auxiliary_key-IsConsistent :
    (key : AuxiliaryPublicKey) (m : KeyCeremonyMediator)
    → IsConsistent m
    → IsConsistent (receive_auxiliary_public_key key m)
unfolding receive_auxiliary_public_key set
auxiliary_key-IsConsistent key m h = record {
  auxiliary_keys = put-IsOwned (λ k. k.owner_id) key m.auxiliary_public_keys.store h.auxiliary_keys;
  election_keys = h.election_keys;
  backups = h.backups;
  verifications = h.verifications;
  challenges = h.challenges;
}

pub presence-IsConsistent :
    (s : PublicKeySet) (m : KeyCeremonyMediator)
    → IsConsistent m
    → IsConsistent (confirm_presence_of_guardian s m)
unfolding confirm_presence_of_guardian
presence-IsConsistent s m h =
    election_key-IsConsistent (election_of s) _ (auxiliary_key-IsConsistent _ m h)

pub backup-IsConsistent :
    (b : ElectionPartialKeyBackup) (m : KeyCeremonyMediator)
    → IsConsistent m
    → IsConsistent (receive_election_partial_key_backup b m).1
unfolding receive_election_partial_key_backup
backup-IsConsistent b m h = elim (Bool-cases (eq_text b.owner_id b.designated_id)) [
  | inl same ↦ rw same h
  | inr two ↦ rw two (record {
    auxiliary_keys = h.auxiliary_keys;
    election_keys = h.election_keys;
    backups = set_pair-IsFiledBy Differ backup_pair b m.election_partial_key_backups two h.backups;
    verifications = h.verifications;
    challenges = h.challenges;
  })
]

pub verification-IsConsistent :
    (v : ElectionPartialKeyVerification) (m : KeyCeremonyMediator)
    → IsConsistent m
    → IsConsistent (receive_election_partial_key_verification v m)
unfolding receive_election_partial_key_verification
verification-IsConsistent v m h = elim (Bool-cases (eq_text v.owner_id v.designated_id)) [
  | inl same ↦ rw same h
  | inr two ↦ rw two (record {
    auxiliary_keys = h.auxiliary_keys;
    election_keys = h.election_keys;
    backups = h.backups;
    verifications =
        set_pair-IsFiledBy Differ verified_pair v m.election_partial_key_verifications two
          h.verifications;
    challenges = h.challenges;
  })
]

pub challenge-IsConsistent :
    (c : ElectionPartialKeyChallenge) (m : KeyCeremonyMediator)
    → IsConsistent m
    → IsConsistent (receive_election_partial_key_challenge c m)
unfolding receive_election_partial_key_challenge
challenge-IsConsistent c m h = record {
  auxiliary_keys = h.auxiliary_keys;
  election_keys = h.election_keys;
  backups = h.backups;
  verifications = h.verifications;
  challenges =
      set_pair-IsFiledBy AnyPair challenge_pair c m.election_partial_key_challenges tt h.challenges;
}

pub guardians-IsConsistent :
    (guardians : List Guardian) (m : KeyCeremonyMediator)
    → IsConsistent m
    → IsConsistent (record m { guardians = guardians })
guardians-IsConsistent guardians m h = record {
  auxiliary_keys = h.auxiliary_keys;
  election_keys = h.election_keys;
  backups = h.backups;
  verifications = h.verifications;
  challenges = h.challenges;
}
