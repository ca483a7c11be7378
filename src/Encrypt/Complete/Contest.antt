-- ===== src/Encrypt/Complete/Contest.antt =====
-- A valid contest is encrypted into a valid one (encrypt.py).
use electionguard_python.Prelude.{
  ◌+◌, ◌<◌, ◌≡◌, sym, subst, Bool, true, false, some, List, ◌++◌, map, length, arith,
}
use electionguard_python.Prelude.Int.{pos}
use electionguard_python.Prelude.Result.{ok}
use electionguard_python.External.{Gmp, GmpLaws, Sha256}
use electionguard_python.Group.{ElementModQ, ElementModP, is_valid_residue}
use electionguard_python.Hash.{get_item, hash_elems, elem_q, item, end, int}
use electionguard_python.Election.{ContestDescriptionWithPlaceholders, is_valid, contest_hash}
use electionguard_python.Ballot.Plaintext.{PlaintextBallotContest, is_valid_contest}
use electionguard_python.Ballot.Selection.{CiphertextBallotSelection}
use electionguard_python.Ballot.Contest.{CiphertextBallotContest, is_valid_encryption}
use electionguard_python.Encrypt.Selections.{nonces_for}
use electionguard_python.Encrypt.Contests.{encrypt_placeholders, encrypt_contest}
use electionguard_python.Encrypt.Counted.{votes, choice, placeholder_choices, placeholders-fill}
use electionguard_python.Encrypt.Complete.{
  HaveNonces, AllEncrypted, encrypt_selections-AllEncrypted, encrypt_placeholders-AllEncrypted,
}
use electionguard_python.Encrypt.Complete.Made.{
  number_elected-placeholders, cast-le-elected, verified_contest-valid, made_selections,
  made_of_all,
}

module _ {gmp : Gmp} (laws : GmpLaws gmp) (sha256 : Sha256) (key : ElementModP)
    (base_hash : ElementModQ) (hk : is_valid_residue gmp key ≡ true) where
  -- A contest that is valid for its description, which is itself valid, has one or more selections and
  -- less than 1,000,000,000 placeholders, is encrypted under any public key that is a valid residue,
  -- whether or not its proofs are to be verified, where a nonce derives for the contest and a nonce
  -- that is not zero for each selection and placeholder. What is returned is a valid contest. Its
  -- selections are, for each description in order, a valid encryption of the voter's selection with its
  -- id, or else of a vote of 0, and then encryptions for the placeholders, whose votes fill those of the
  -- voter up to the number of placeholders, which is the number elected.
  pub encrypt_contest-is_valid_encryption :
      (contest : PlaintextBallotContest) (described : ContestDescriptionWithPlaceholders)
      (seed contest_nonce : ElementModQ) (verify : Bool)
      → let d = described.description in
        is_valid_contest contest d.object_id
            (length d.ballot_selections)
            d.number_elected
            d.votes_allowed
          ≡ true
        → is_valid described ≡ true
        → 0 < length d.ballot_selections
        → length described.placeholder_selections < 1_000_000_000
        → get_item sha256 (nonces_for sha256 (contest_hash sha256 d) seed) d.sequence_order
          ≡ ok contest_nonce
        → HaveNonces sha256 contest_nonce d.ballot_selections
        → HaveNonces sha256 contest_nonce described.placeholder_selections
        → let elected = length described.placeholder_selections in
          let cast = map (choice contest.ballot_selections) d.ballot_selections in
          let filled = placeholder_choices elected described.placeholder_selections (votes cast) in
          (c : CiphertextBallotContest) × (real placeholders : List CiphertextBallotSelection)
          × (encrypt_contest gmp sha256 contest described key base_hash seed verify ≡ ok (some c))
          × (is_valid_encryption gmp sha256 c (contest_hash sha256 d) key base_hash ≡ ok true)
          × (c.object_id ≡ contest.object_id)
          × (c.nonce ≡ some contest_nonce)
          × (c.description_hash ≡ contest_hash sha256 d)
          × (c.ballot_selections ≡ real ++ placeholders)
          × AllEncrypted gmp sha256 key base_hash contest_nonce false d.ballot_selections cast real
          × AllEncrypted gmp sha256 key base_hash contest_nonce true
              described.placeholder_selections filled placeholders
          × (votes cast + votes filled ≡ elected)
          × (d.number_elected ≡ pos elected)
  unfolding encrypt_contest get_item
  encrypt_contest-is_valid_encryption contest described seed contest_nonce verify hc hd
        some_selection small derived hs hp =
      let d = described.description in
      let n = length described.placeholder_selections in
      let elected = number_elected-placeholders described hd in
      let cast = map (choice contest.ballot_selections) d.ballot_selections in
      let filled = placeholder_choices n described.placeholder_selections (votes cast) in
      let hash = contest_hash sha256 d in
      let proof_nonce =
        hash_elems sha256
          (item (elem_q (nonces_for sha256 hash seed).seed) (item (int (pos 0)) end)) in
      let (real, real_made, real_all) =
        encrypt_selections-AllEncrypted laws sha256 key base_hash contest_nonce hk
          contest.ballot_selections d.ballot_selections 0 hs in
      let (placeholders, count, placeholders_made, placeholders_all) =
        encrypt_placeholders-AllEncrypted laws sha256 key base_hash contest_nonce hk n
          described.placeholder_selections (votes cast) hp in
      let full =
        placeholders-fill n (votes cast) described.placeholder_selections
          (cast-le-elected contest described hc hd) (omega arith) in
      let (c, made, valid) =
        made_of_all laws sha256 key base_hash hk contest.object_id hash proof_nonce contest_nonce
          d.ballot_selections described.placeholder_selections cast filled real placeholders n
          some_selection real_all placeholders_all full small elected in
      let placeholders_elected =
        subst
          (λ t.
            encrypt_placeholders gmp sha256 t key base_hash contest_nonce
              described.placeholder_selections (votes cast)
            ≡ ok (some (placeholders, count)))
          (sym elected) placeholders_made in
      let from_zero : 0 + votes cast ≡ votes cast = omega arith in
      let (same_id, same_selections, same_nonce, same_hash) =
        made_selections gmp sha256 contest.object_id hash (real ++ placeholders) key base_hash
          proof_nonce d.number_elected (some contest_nonce) made in
      (
        c,
        real,
        placeholders,
        rw (hc, hd, derived, real_made, from_zero, placeholders_elected, made)
            (verified_contest-valid gmp sha256 hash key base_hash verify c valid),
        valid,
        same_id,
        same_nonce,
        same_hash,
        same_selections,
        real_all,
        placeholders_all,
        full,
        elected,
      )
