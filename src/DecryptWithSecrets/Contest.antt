-- ===== src/DecryptWithSecrets/Contest.antt =====
-- encrypt_contest, and then decrypt_contest_with_secret or decrypt_contest_with_nonce (encrypt.py,
-- decrypt_with_secrets.py).
use electionguard_python.Prelude.{
  ℕ, ◌≤◌, ◌<◌, ◌≡◌, Bool, true, false, none, some, List, [], ◌++◌, map, length, if◌then◌else◌,
}
use electionguard_python.Prelude.Result.{ok}
use electionguard_python.External.{Gmp, GmpLaws, Sha256}
use electionguard_python.Group.{ElementModQ, is_in_bounds_q}
use electionguard_python.Hash.{get_item}
use electionguard_python.Dlog.Laws.{Distinct}
use electionguard_python.Elgamal.{ElGamalKeyPair, elgamal_keypair_from_secret}
use electionguard_python.Election.{ContestDescriptionWithPlaceholders, contest_hash, is_valid}
use electionguard_python.Election.Found.{HasDistinctIds, HasDistinctIds-AreFound}
use electionguard_python.Ballot.Plaintext.{
  PlaintextBallotSelection, PlaintextBallotContest, is_valid_contest,
}
use electionguard_python.Ballot.Selection.{CiphertextBallotSelection}
use electionguard_python.Ballot.Contest.{CiphertextBallotContest}
use electionguard_python.Encrypt.Selections.{nonces_for}
use electionguard_python.Encrypt.Contests.{encrypt_contest}
use electionguard_python.Encrypt.Counted.{votes, choice, placeholder_choices}
use electionguard_python.Encrypt.Complete.{HaveNonces, AllEncrypted}
use electionguard_python.Encrypt.Complete.Contest.{encrypt_contest-is_valid_encryption}
use electionguard_python.DecryptWithSecrets.Actions.{decrypt_selections}
use electionguard_python.DecryptWithSecrets.Secret.{
  decrypt_selection_with_secret, decrypt_contest_with_secret,
}
use electionguard_python.DecryptWithSecrets.Nonce.{
  decrypt_selection_with_nonce, decrypt_contest_with_nonce,
}
use electionguard_python.DecryptWithSecrets.Selections.{
  plaintext, Returns, nonce_of-derived, decrypt_selection_with_secret-Returns,
  decrypt_selection_with_nonce-Returns,
}
use electionguard_python.DecryptWithSecrets.RoundTrip.{decrypt_all-Returns}
use electionguard_python.DecryptWithSecrets.Opened.{
  public_key-is_valid_residue, nonce_of-kept, with_secret-Returns, with_nonce-Returns,
}

module _ {gmp : Gmp} (laws : GmpLaws gmp) (sha256 : Sha256) {pair : ElGamalKeyPair}
    (secret base_hash : ElementModQ) (bound fuel : ℕ) (distinct : Distinct bound) (hb : 1 < bound)
    (hf : 1 ≤ fuel) (hx : is_in_bounds_q secret ≡ true)
    (hp : elgamal_keypair_from_secret gmp secret ≡ some pair) where
  module _ (seed : ElementModQ) (described : ContestDescriptionWithPlaceholders)
      (suppress remove : Bool) (ids : HasDistinctIds described)
      (ss ps : List PlaintextBallotSelection) (real placeholders : List CiphertextBallotSelection)
      (hr : AllEncrypted gmp sha256 pair.public_key base_hash seed false
        described.description.ballot_selections ss real)
      (hps : AllEncrypted gmp sha256 pair.public_key base_hash seed true
        described.placeholder_selections ps placeholders) where
    abbrev all_opened : List PlaintextBallotSelection
    all_opened = map (plaintext false) ss ++ (if remove then [] else map (plaintext true) ps)

    selections_by_secret :
        Returns bound
          (decrypt_selections
            (λ s d.
              decrypt_selection_with_secret gmp sha256 fuel s d pair.public_key secret base_hash
                suppress)
            described
            remove
            (real ++ placeholders))
          all_opened
    selections_by_secret =
        let (real_found, placeholders_found) = HasDistinctIds-AreFound described ids in
        decrypt_all-Returns pair.public_key base_hash seed bound _
          (λ e n s placeholder one.
            decrypt_selection_with_secret-Returns laws sha256 secret base_hash bound fuel distinct
              hb hf hx hp seed e n s placeholder suppress one)
          described remove described.description.ballot_selections described.placeholder_selections
          ss ps real placeholders real_found placeholders_found hr hps

    selections_by_nonce :
        Returns bound
          (decrypt_selections
            (λ s d.
              decrypt_selection_with_nonce gmp sha256 fuel s d pair.public_key base_hash
                (some seed)
                suppress)
            described
            remove
            (real ++ placeholders))
          all_opened
    selections_by_nonce =
        let (real_found, placeholders_found) = HasDistinctIds-AreFound described ids in
        decrypt_all-Returns pair.public_key base_hash seed bound _
          (λ e n s placeholder one.
            decrypt_selection_with_nonce-Returns laws sha256 secret base_hash bound fuel distinct hb
              hf hx hp seed e n s placeholder suppress one)
          described remove described.description.ballot_selections described.placeholder_selections
          ss ps real placeholders real_found placeholders_found hr hps

  -- A contest that is valid for its description, which is itself valid and has distinct ids, one or
  -- more selections and less than 1,000,000,000 placeholders, is encrypted, where a nonce derives for
  -- the contest and a nonce that is not zero for each selection and placeholder. What is returned is
  -- decrypted, by the secret key of the public key, by the nonce that the contest keeps and by the seed
  -- it was encrypted with, and whether or not proofs are verified. The result has, for each description
  -- in order, the vote of the voter's selection with its id or else a vote of 0, and then the
  -- placeholders, unless they are to be removed. This holds for a secret key in bounds, any fuel but 0,
  -- and every valid cache of logarithms whose largest exponent is below a bound above 1 up to which the
  -- powers of G are distinct; the cache that is left is such a cache again.
  pub decrypt_contest-encrypt_contest :
      (contest : PlaintextBallotContest) (described : ContestDescriptionWithPlaceholders)
      (seed contest_nonce : ElementModQ) (verify suppress remove_placeholders : Bool)
      → let d = described.description in
        is_valid_contest contest d.object_id
            (length d.ballot_selections)
            d.number_elected
            d.votes_allowed
          ≡ true
        → is_valid described ≡ true
        → HasDistinctIds described
        → 0 < length d.ballot_selections
        → length described.placeholder_selections < 1_000_000_000
        → get_item sha256 (nonces_for sha256 (contest_hash sha256 d) seed) d.sequence_order
          ≡ ok contest_nonce
        → HaveNonces sha256 contest_nonce d.ballot_selections
        → HaveNonces sha256 contest_nonce described.placeholder_selections
        → let cast = map (choice contest.ballot_selections) d.ballot_selections in
          let filled =
            placeholder_choices
              (length described.placeholder_selections)
              described.placeholder_selections
              (votes cast) in
          let opened : PlaintextBallotContest = record {
            object_id = contest.object_id;
            ballot_selections =
                map (plaintext false) cast
                ++ (if remove_placeholders then [] else map (plaintext true) filled);
          } in
          (c : CiphertextBallotContest) × (encrypt_contest gmp sha256 contest described
              pair.public_key base_hash seed verify
            ≡ ok (some c))
          × Returns bound
              (decrypt_contest_with_secret gmp sha256 fuel c described pair.public_key secret
                base_hash suppress remove_placeholders)
              opened
          × Returns bound
              (decrypt_contest_with_nonce gmp sha256 fuel c described pair.public_key base_hash none
                suppress remove_placeholders)
              opened
          × Returns bound
              (decrypt_contest_with_nonce gmp sha256 fuel c described pair.public_key base_hash
                (some seed)
                suppress
                remove_placeholders)
              opened
  decrypt_contest-encrypt_contest contest described seed contest_nonce verify suppress
        remove_placeholders hc hd ids some_selection small derived hs hps =
      let d = described.description in
      let hk = public_key-is_valid_residue laws secret hx hp in
      let (
        c, real, placeholders, made, valid, same_id, same_nonce, _, same_selections, real_all,
        placeholders_all, _, _,
      ) =
        encrypt_contest-is_valid_encryption laws sha256 pair.public_key base_hash hk contest
          described seed contest_nonce verify hc hd some_selection small derived hs hps in
      (
        c,
        made,
        with_secret-Returns gmp sha256 fuel bound c described pair.public_key base_hash suppress
            remove_placeholders valid contest.object_id same_id (real ++ placeholders)
            same_selections _ secret
            (selections_by_secret contest_nonce described suppress remove_placeholders ids _ _ real
              placeholders real_all placeholders_all),
        with_nonce-Returns gmp sha256 fuel bound c described pair.public_key base_hash suppress
            remove_placeholders valid contest.object_id same_id (real ++ placeholders)
            same_selections _ none contest_nonce
            (nonce_of-kept sha256 c.nonce (contest_hash sha256 d) d.sequence_order same_nonce)
            same_nonce
            (selections_by_nonce contest_nonce described suppress remove_placeholders ids _ _ real
              placeholders real_all placeholders_all),
        with_nonce-Returns gmp sha256 fuel bound c described pair.public_key base_hash suppress
            remove_placeholders valid contest.object_id same_id (real ++ placeholders)
            same_selections _ (some seed) contest_nonce
            (nonce_of-derived sha256 c.nonce (contest_hash sha256 d) seed d.sequence_order derived)
            same_nonce
            (selections_by_nonce contest_nonce described suppress remove_placeholders ids _ _ real
              placeholders real_all placeholders_all),
      )
