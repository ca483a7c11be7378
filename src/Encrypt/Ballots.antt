-- ===== src/Encrypt/Ballots.antt =====
-- encrypt.py: encrypt_ballot, and the mediator that keeps a device's chain of tracking hashes.
use electionguard_python.Prelude.{
  ℕ, Bool, true, false, not, Option, none, some, List, [], ◌∷◌, map, if◌then◌else◌,
}
use electionguard_python.Prelude.Int.{ℤ}
use electionguard_python.Prelude.Result.{Result, ok, raise, ◌>>=◌, if_some}
use electionguard_python.Prelude.Digits.{Text}
use electionguard_python.Prelude.Texts.{eq_text}
use electionguard_python.External.{Gmp, Sha256}
use electionguard_python.Group.{ElementModQ, ElementModP, rand_q}
use electionguard_python.Tracker.{get_hash_for_device}
use electionguard_python.Election.{ContestDescription, ContestDescriptionWithPlaceholders}
use electionguard_python.Election.Internal.{
  InternalElectionDescription, CiphertextElectionContext, get_ballot_style, get_contests_for,
}
use electionguard_python.Ballot.Plaintext.{PlaintextBallotContest, PlaintextBallot, is_valid_ballot}
use electionguard_python.Ballot.Contest.{CiphertextBallotContest}
use electionguard_python.Ballot.Ciphertext.{CiphertextBallot, nonce_seed, make_ciphertext_ballot}
use electionguard_python.Ballot.Ciphertext
use electionguard_python.Encrypt.Selections.{selection_from}
use electionguard_python.Encrypt.Contests.{encrypt_contest}

unfoldable pub contest_from : ContestDescription → PlaintextBallotContest
unfolding selection_from
contest_from description = record {
  object_id = description.object_id;
  ballot_selections = map (λ d. selection_from d false false) description.ballot_selections;
}

-- The voter's contest with an id: the first one.
unfoldable pub contest_with : Text → List PlaintextBallotContest → Option PlaintextBallotContest
contest_with object_id [] = none
contest_with object_id (c ∷ contests) =
    if eq_text c.object_id object_id then some c else contest_with object_id contests

unfoldable pub chosen_contest :
    ContestDescription → Option PlaintextBallotContest → PlaintextBallotContest
unfolding contest_from
chosen_contest description none = contest_from description
chosen_contest description (some c) = c

-- get_or_else_optional_func(nonce, lambda: rand_q())
abbrev pub nonce_or_random : Option ElementModQ → ℕ → ElementModQ
nonce_or_random none drawn = rand_q drawn
nonce_or_random (some nonce) drawn = nonce

module _ (gmp : Gmp) (sha256 : Sha256) where
  unfoldable pub encrypt_contests :
      List PlaintextBallotContest
      → ElementModP
      → ElementModQ
      → ElementModQ
      → List ContestDescriptionWithPlaceholders
      → Result (Option (List CiphertextBallotContest))
  unfolding contest_with chosen_contest
  encrypt_contests contests public_key base_hash seed [] = ok (some [])
  encrypt_contests contests public_key base_hash seed (d ∷ descriptions) =
      if_some
        (encrypt_contest gmp sha256
          (chosen_contest d.description (contest_with d.description.object_id contests)) d
          public_key base_hash seed true)
        (λ c.
          if_some (encrypt_contests contests public_key base_hash seed descriptions)
            (λ rest. ok (some (c ∷ rest))))

  unfoldable pub verified_ballot :
      ElementModQ
      → ElementModP
      → ElementModQ
      → Bool
      → CiphertextBallot
      → Result (Option CiphertextBallot)
  verified_ballot description_hash public_key base_hash should_verify_proofs b =
      elim b.tracking_hash [
        | none ↦ ok none
        | some hash ↦ if not should_verify_proofs then ok (some b) else do
          valid ← Ciphertext.is_valid_encryption gmp sha256 b description_hash public_key base_hash
          ok (if valid then some b else none)
      ]

  -- What the clock says is `now`, and what randbelow(Q) returns `drawn`.
  unfoldable pub encrypt_ballot :
      ℤ
      → ℕ
      → PlaintextBallot
      → InternalElectionDescription
      → CiphertextElectionContext
      → ElementModQ
      → Option ElementModQ
      → Bool
      → Result (Option CiphertextBallot)
  unfolding encrypt_contests verified_ballot
  encrypt_ballot now drawn ballot metadata context seed_hash nonce should_verify_proofs = do
    style ← get_ballot_style metadata ballot.ballot_style
    elim (is_valid_ballot ballot style.object_id) [
      | false ↦ ok none
      | true ↦
          let random_master_nonce = nonce_or_random nonce drawn in
          let seed =
            nonce_seed sha256 metadata.description_hash ballot.object_id random_master_nonce in
          do
            descriptions ← get_contests_for metadata ballot.ballot_style
            if_some
                (encrypt_contests ballot.contests context.elgamal_public_key
                  context.crypto_extended_base_hash seed descriptions)
                (λ contests.
                  verified_ballot metadata.description_hash context.elgamal_public_key
                    context.crypto_extended_base_hash should_verify_proofs
                    (make_ciphertext_ballot sha256 now ballot.object_id ballot.ballot_style
                      metadata.description_hash (some seed_hash) contests (some random_master_nonce)
                      none none))
    ]

-- What getnode() returns is the uuid.
pub record EncryptionDevice : Type 0 where
  pub uuid : ℤ
  pub location : Text

unfoldable pub get_hash : Sha256 → EncryptionDevice → ElementModQ
get_hash sha256 device = get_hash_for_device sha256 device.uuid device.location

pub record EncryptionMediator : Type 0 where
  pub metadata : InternalElectionDescription
  pub encryption : CiphertextElectionContext
  pub seed_hash : ElementModQ

unfoldable pub new_mediator :
    Sha256
    → InternalElectionDescription
    → CiphertextElectionContext
    → EncryptionDevice
    → EncryptionMediator
unfolding get_hash
new_mediator sha256 metadata context device = record {
  metadata = metadata;
  encryption = context;
  seed_hash = get_hash sha256 device;
}

-- The mediator after a call that returned.
unfoldable pub after_encrypt :
    EncryptionMediator → Result (Option CiphertextBallot) → EncryptionMediator
after_encrypt m (raise e) = m
after_encrypt m (ok none) = m
after_encrypt m (ok (some b)) = elim b.tracking_hash [
  | none ↦ m
  | some hash ↦ record m { seed_hash = hash }
]

-- EncryptionMediator.encrypt, with the clock and the random number of encrypt_ballot.
unfoldable pub encrypt :
    Gmp
    → Sha256
    → ℤ
    → ℕ
    → PlaintextBallot
    → EncryptionMediator
    → Result (Option CiphertextBallot) × EncryptionMediator
unfolding after_encrypt
encrypt gmp sha256 now drawn ballot m =
    let encrypted =
      encrypt_ballot gmp sha256 now drawn ballot m.metadata m.encryption m.seed_hash none true in
    (encrypted, after_encrypt m encrypted)
