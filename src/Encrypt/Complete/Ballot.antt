-- ===== src/Encrypt/Complete/Ballot.antt =====
-- A ballot is encrypted into a valid one, and a device's ballots form a chain (encrypt.py).
use electionguard_python.Prelude.{
  ℕ, ◌≡◌, refl, ap, ◌∙◌, Bool, true, Option, none, some, List, [], ◌∷◌, map, arith,
}
use electionguard_python.Prelude.Int.{ℤ}
use electionguard_python.Prelude.Result.{Result, ok, raise, ◌>>=◌}
use electionguard_python.Prelude.Digits.{Text}
use electionguard_python.Prelude.Texts.{eq_text, eq_text_self, eq_text→eq}
use electionguard_python.External.{Gmp, GmpLaws, Sha256}
use electionguard_python.Group.{ElementModQ, ElementModP, is_valid_residue}
use electionguard_python.Election.{BallotStyle, ContestDescriptionWithPlaceholders}
use electionguard_python.Election.Internal.{
  InternalElectionDescription, CiphertextElectionContext, find_style, get_ballot_style,
  get_contests_for,
}
use electionguard_python.Ballot.Plaintext.{PlaintextBallot, is_valid_ballot}
use electionguard_python.Ballot.Contest.{CiphertextBallotContest}
use electionguard_python.Ballot.Ciphertext.{
  CiphertextBallot, nonce_seed, make_ciphertext_ballot, is_valid_encryption,
}
use electionguard_python.Ballot.Ciphertext.Complete.{
  Contests, make_ciphertext_ballot-is_valid_encryption,
}
use electionguard_python.Encrypt.Ballots.{nonce_or_random, encrypt_ballot}
use electionguard_python.Encrypt.Complete.BallotContests.{
  AreEncryptable, encrypt_contests-Contests, verified_ballot-valid,
}

find_style-id :
    (id : Text) (styles : List BallotStyle) {style : BallotStyle}
    → find_style id styles ≡ ok style
    → style.object_id ≡ id
unfolding find_style
find_style-id id [] {style} h = ground arith
find_style-id id (s ∷ styles) {style} h =
    ground (arith, eq_text→eq s.object_id id, find_style-id id styles {style = style})

-- Where a style has contests, it is there and a ballot of it is valid for it.
get_contests_for-style :
    (metadata : InternalElectionDescription) (ballot : PlaintextBallot)
    {ds : List ContestDescriptionWithPlaceholders}
    → get_contests_for metadata ballot.ballot_style ≡ ok ds
    → (style : BallotStyle) × (get_ballot_style metadata ballot.ballot_style ≡ ok style)
      × (is_valid_ballot ballot style.object_id ≡ true)
unfolding get_contests_for get_ballot_style is_valid_ballot
get_contests_for-style metadata ballot {ds} h =
    go (find_style ballot.ballot_style metadata.ballot_styles) refl
  where
    go :
        (r : Result BallotStyle)
        → find_style ballot.ballot_style metadata.ballot_styles ≡ r
        → (style : BallotStyle) × (find_style ballot.ballot_style metadata.ballot_styles ≡ ok style)
          × (eq_text ballot.ballot_style style.object_id ≡ true)
    go (ok style) e = (
      style,
      e,
      ap (eq_text ballot.ballot_style) (find_style-id ballot.ballot_style metadata.ballot_styles e)
          ∙ eq_text_self ballot.ballot_style,
    )
    go (raise error) e = absurd (ground (arith, h, e))

module _ (sha256 : Sha256) (now : ℤ) (object_id style : Text) (hash seed_hash : ElementModQ)
    (kept : Option ElementModQ) where
  made : List CiphertextBallotContest → CiphertextBallot
  made contests =
      make_ciphertext_ballot sha256 now object_id style hash (some seed_hash) contests kept none
        none

  made_fields :
      (contests : List CiphertextBallotContest)
      → (tracking : ElementModQ) × ((made contests).tracking_hash ≡ some tracking)
        × ((made contests).object_id ≡ object_id)
        × ((made contests).ballot_style ≡ style)
        × ((made contests).previous_tracking_hash ≡ seed_hash)
        × ((made contests).contests ≡ contests)
  unfolding made make_ciphertext_ballot
  made_fields contests = (_, refl, refl, refl, refl, refl)

  -- Such a ballot is valid, if it has a contest.
  made_valid :
      (gmp : Gmp) (key : ElementModP) (base_hash : ElementModQ)
      (contests : List CiphertextBallotContest) {id : Text} {ids : List Text}
      → Contests gmp sha256 key base_hash contests
      → map (λ c. c.object_id) contests ≡ id ∷ ids
      → is_valid_encryption gmp sha256 (made contests) hash key base_hash ≡ ok true
  unfolding made
  made_valid gmp key base_hash [] all h = absurd cc
  made_valid gmp key base_hash (c ∷ contests) all h =
      make_ciphertext_ballot-is_valid_encryption gmp sha256 key base_hash now object_id style hash
        (some seed_hash) c contests kept none none all

module _ {gmp : Gmp} (laws : GmpLaws gmp) (sha256 : Sha256) where
  -- A ballot whose style has one or more contests is encrypted, under any public key that is a valid
  -- residue and whether or not its proofs are to be verified, where each of those contests can be
  -- encrypted: its description is valid, has one or more selections and less than 1,000,000,000
  -- placeholders, a nonce derives for it and a nonce that is not zero for each selection and
  -- placeholder, and the voter's contest with its id is valid, where there is one. What is returned is
  -- valid, has the ballot's id and style and the seed hash as its previous tracking hash, and it has
  -- the contests of the style in order, also those that the voter left out.
  pub encrypt_ballot-is_valid_encryption :
      (now : ℤ) (drawn : ℕ) (ballot : PlaintextBallot) (metadata : InternalElectionDescription)
      (context : CiphertextElectionContext) (seed_hash : ElementModQ) (given : Option ElementModQ)
      (verify : Bool) (d : ContestDescriptionWithPlaceholders)
      (ds : List ContestDescriptionWithPlaceholders)
      → is_valid_residue gmp context.elgamal_public_key ≡ true
      → get_contests_for metadata ballot.ballot_style ≡ ok (d ∷ ds)
      → AreEncryptable sha256
          (nonce_seed sha256 metadata.description_hash ballot.object_id
            (nonce_or_random given drawn))
          ballot.contests
          (d ∷ ds)
      → (b : CiphertextBallot) × (encrypt_ballot gmp sha256 now drawn ballot metadata context
            seed_hash given verify
          ≡ ok (some b))
        × (is_valid_encryption gmp sha256 b metadata.description_hash context.elgamal_public_key
              context.crypto_extended_base_hash
            ≡ ok true)
        × (b.object_id ≡ ballot.object_id)
        × (b.ballot_style ≡ ballot.ballot_style)
        × (b.previous_tracking_hash ≡ seed_hash)
        × (map (λ c. c.object_id) b.contests ≡ map (λ c. c.description.object_id) (d ∷ ds))
  unfolding encrypt_ballot made
  encrypt_ballot-is_valid_encryption now drawn ballot metadata context seed_hash given verify d ds
        hk styled encryptable =
      let key = context.elgamal_public_key in
      let base_hash = context.crypto_extended_base_hash in
      let hash = metadata.description_hash in
      let master = nonce_or_random given drawn in
      let seed = nonce_seed sha256 hash ballot.object_id master in
      let (style, found, fits) = get_contests_for-style metadata ballot styled in
      let (cs, encrypted, all, ids) =
        encrypt_contests-Contests laws sha256 key base_hash hk seed ballot.contests (d ∷ ds)
          encryptable in
      let (tracking, tracked, same_id, same_style, same_seed, same_contests) =
        made_fields sha256 now ballot.object_id ballot.ballot_style hash seed_hash (some master)
          cs in
      let valid =
        made_valid sha256 now ballot.object_id ballot.ballot_style hash seed_hash (some master) gmp
          key base_hash cs all ids in
      (
        made sha256 now ballot.object_id ballot.ballot_style hash seed_hash (some master) cs,
        rw (found, ◌>>=◌, fits, styled, encrypted)
            (verified_ballot-valid laws sha256 key base_hash hk hash verify _ tracked valid),
        valid,
        same_id,
        same_style,
        same_seed,
        ap (map (λ c. c.object_id)) same_contests ∙ ids,
      )
