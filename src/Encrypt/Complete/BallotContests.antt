-- ===== src/Encrypt/Complete/BallotContests.antt =====
-- Valid contests are encrypted for all descriptions of a ballot's style (encrypt.py).
use mathlib.Core.List.{append-nil}
use electionguard_python.Prelude.{
  ℕ, suc, ◌<◌, ◌≡◌, refl, ap, ◌∙◌, Bool, true, false, Option, none, some, List, [], ◌∷◌, ◌++◌, map,
  length, arith,
}
use electionguard_python.Prelude.Result.{ok}
use electionguard_python.Prelude.Digits.{Text}
use electionguard_python.Prelude.Texts.{eq_text_self, eq_text→eq}
use electionguard_python.External.{Gmp, GmpLaws, Sha256}
use electionguard_python.Group.{ElementModQ, ElementModP, is_valid_residue}
use electionguard_python.Hash.{get_item}
use electionguard_python.Election.{
  SelectionDescription, ContestDescriptionWithPlaceholders, contest_hash, is_valid,
  contest_is_valid,
}
use electionguard_python.Ballot.Plaintext.{
  PlaintextBallotSelection, PlaintextBallotContest, count_from, votes_fit, is_valid_contest,
}
use electionguard_python.Ballot.Selection.{CiphertextBallotSelection}
use electionguard_python.Ballot.Contest.{CiphertextBallotContest}
use electionguard_python.Ballot.Selection
use electionguard_python.Ballot.Ciphertext.{CiphertextBallot, is_valid_encryption}
use electionguard_python.Ballot.Ciphertext.Complete.{Selections, Contests}
use electionguard_python.Encrypt.Selections.{selection_from, nonces_for}
use electionguard_python.Encrypt.Ballots.{
  contest_from, contest_with, chosen_contest, encrypt_contests, verified_ballot,
}
use electionguard_python.Encrypt.Counted.{to_int-selection_from}
use electionguard_python.Encrypt.Complete.{HaveNonces, AllEncrypted}
use electionguard_python.Encrypt.Complete.Made.{number_elected-placeholders}
use electionguard_python.Encrypt.Complete.Contest.{encrypt_contest-is_valid_encryption}

no_votes :
    (elected cast : ℕ) (ds : List SelectionDescription)
    → count_from elected cast (map (λ d. selection_from d false false) ds) ≡ (elected, cast)
unfolding count_from
no_votes elected cast [] = refl
no_votes elected cast (d ∷ ds) =
    ground (arith, to_int-selection_from d false false, no_votes elected cast ds)

length-map {ℓ κ} :
    {A : Type ℓ} {B : Type κ} (f : A → B) (xs : List A) → length (map f xs) ≡ length xs
length-map f [] = refl
length-map f (x ∷ xs) = ap suc (length-map f xs)

-- A contest without votes is valid for its own description.
contest_from-is_valid :
    (c : ContestDescriptionWithPlaceholders)
    → is_valid c ≡ true
    → let d = c.description in
      is_valid_contest
        (contest_from d)
        d.object_id
        (length d.ballot_selections)
        d.number_elected
        d.votes_allowed
      ≡ true
unfolding is_valid_contest contest_from is_valid contest_is_valid votes_fit
contest_from-is_valid c h =
    let d = c.description in
    ground (
      arith,
      no_votes 0 0 d.ballot_selections,
      length-map (λ s. selection_from s false false) d.ballot_selections,
      eq_text_self d.object_id,
      number_elected-placeholders c h,
    )

contest_with-id :
    (object_id : Text) (contests : List PlaintextBallotContest) {c : PlaintextBallotContest}
    → contest_with object_id contests ≡ some c
    → c.object_id ≡ object_id
unfolding contest_with
contest_with-id object_id [] {c} h = ground arith
contest_with-id object_id (t ∷ contests) {c} h =
    ground (arith, eq_text→eq t.object_id object_id, contest_with-id object_id contests {c = c})

-- A description for which a contest can be encrypted: it is valid, has one or more selections and less
-- than 1,000,000,000 placeholders, a nonce derives for it and a nonce that is not zero for each
-- selection and placeholder, and the voter's contest with its id is valid, where there is one.
pub record IsEncryptable (sha256 : Sha256) (seed : ElementModQ)
    (contests : List PlaintextBallotContest) (c : ContestDescriptionWithPlaceholders) : Type 0 where
  pub contest_nonce : ElementModQ
  pub derived :
      get_item sha256
        (nonces_for sha256 (contest_hash sha256 c.description) seed)
        c.description.sequence_order
      ≡ ok contest_nonce
  pub described_valid : is_valid c ≡ true
  pub some_selection : 0 < length c.description.ballot_selections
  pub few_placeholders : length c.placeholder_selections < 1_000_000_000
  pub nonces_of_selections : HaveNonces sha256 contest_nonce c.description.ballot_selections
  pub nonces_of_placeholders : HaveNonces sha256 contest_nonce c.placeholder_selections
  pub fits :
      (voted : PlaintextBallotContest)
      → contest_with c.description.object_id contests ≡ some voted
      → is_valid_contest voted c.description.object_id
          (length c.description.ballot_selections)
          c.description.number_elected
          c.description.votes_allowed
        ≡ true

abbrev pub AreEncryptable :
    Sha256
    → ElementModQ
    → List PlaintextBallotContest
    → List ContestDescriptionWithPlaceholders
    → Type 0
AreEncryptable sha256 seed contests [] = Unit
AreEncryptable sha256 seed contests (c ∷ cs) =
    IsEncryptable sha256 seed contests c × AreEncryptable sha256 seed contests cs

chosen_contest-fits :
    (sha256 : Sha256) (seed : ElementModQ) (contests : List PlaintextBallotContest)
    (c : ContestDescriptionWithPlaceholders)
    → IsEncryptable sha256 seed contests c
    → let d = c.description in
      let chosen = chosen_contest d (contest_with d.object_id contests) in
      (is_valid_contest chosen d.object_id
          (length d.ballot_selections)
          d.number_elected
          d.votes_allowed
        ≡ true)
      × (chosen.object_id ≡ d.object_id)
unfolding chosen_contest contest_from
chosen_contest-fits sha256 seed contests c e =
    go (contest_with c.description.object_id contests) refl
  where
    go :
        (found : Option PlaintextBallotContest)
        → contest_with c.description.object_id contests ≡ found
        → (is_valid_contest
              (chosen_contest c.description found)
              c.description.object_id
              (length c.description.ballot_selections)
              c.description.number_elected
              c.description.votes_allowed
            ≡ true)
          × ((chosen_contest c.description found).object_id ≡ c.description.object_id)
    go none h = (contest_from-is_valid c e.described_valid, refl)
    go (some voted) h = (e.fits voted h, contest_with-id c.description.object_id contests h)

module _ (gmp : Gmp) (sha256 : Sha256) (key : ElementModP) (base_hash seed : ElementModQ) where
  -- Encrypted selections are valid, each for its own description's hash.
  AllEncrypted-Selections :
      (placeholder : Bool) (ds : List SelectionDescription) (ss : List PlaintextBallotSelection)
      (cs more : List CiphertextBallotSelection)
      → AllEncrypted gmp sha256 key base_hash seed placeholder ds ss cs
      → Selections gmp sha256 key base_hash more
      → Selections gmp sha256 key base_hash (cs ++ more)
  AllEncrypted-Selections placeholder [] [] [] more h k = k
  AllEncrypted-Selections placeholder (d ∷ ds) (s ∷ ss) (c ∷ cs) more h k =
      let (n, e) = h.0 in
      (
        ap (λ t. Selection.is_valid_encryption gmp sha256 c t key base_hash) e.keeps_hash ∙ e.valid,
        AllEncrypted-Selections placeholder ds ss cs more h.1 k,
      )
  AllEncrypted-Selections placeholder [] [] (c ∷ cs) more h k = absurd h
  AllEncrypted-Selections placeholder [] (s ∷ ss) cs more h k = absurd h
  AllEncrypted-Selections placeholder (d ∷ ds) [] cs more h k = absurd h
  AllEncrypted-Selections placeholder (d ∷ ds) (s ∷ ss) [] more h k = absurd h

module _ {gmp : Gmp} (laws : GmpLaws gmp) (sha256 : Sha256) (key : ElementModP)
    (base_hash : ElementModQ) (hk : is_valid_residue gmp key ≡ true) where
  -- Valid contests are encrypted for all descriptions, in their order.
  pub encrypt_contests-Contests :
      (seed : ElementModQ) (contests : List PlaintextBallotContest)
      (ds : List ContestDescriptionWithPlaceholders)
      → AreEncryptable sha256 seed contests ds
      → (cs : List CiphertextBallotContest) × (encrypt_contests gmp sha256 contests key base_hash
            seed ds
          ≡ ok (some cs))
        × Contests gmp sha256 key base_hash cs
        × (map (λ c. c.object_id) cs ≡ map (λ d. d.description.object_id) ds)
  unfolding encrypt_contests
  encrypt_contests-Contests seed contests [] h = ([], refl, tt, refl)
  encrypt_contests-Contests seed contests (d ∷ ds) (e, h) =
      let (fits, chosen_id) = chosen_contest-fits sha256 seed contests d e in
      let (
        c, real, placeholders, made, valid, same_id, _, same_hash, same_selections, real_all,
        placeholders_all, _, _,
      ) =
        encrypt_contest-is_valid_encryption laws sha256 key base_hash hk
          (chosen_contest d.description (contest_with d.description.object_id contests)) d seed
          e.contest_nonce true fits e.described_valid e.some_selection e.few_placeholders e.derived
          e.nonces_of_selections e.nonces_of_placeholders in
      let (cs, rest, all, ids) = encrypt_contests-Contests seed contests ds h in
      let filled =
        AllEncrypted-Selections gmp sha256 key base_hash e.contest_nonce true
          d.placeholder_selections _ placeholders [] placeholders_all tt in
      let selections =
        AllEncrypted-Selections gmp sha256 key base_hash e.contest_nonce false
          d.description.ballot_selections _ real (placeholders ++ []) real_all filled in
      (
        c ∷ cs,
        rw (made, rest) refl,
        (rw (same_selections, ← append-nil placeholders) selections, rw same_hash valid, all),
        λ i. (same_id ∙ chosen_id) i ∷ ids i,
      )

  -- What is wanted of a ballot that is made of those contests.
  pub verified_ballot-valid :
      (hash : ElementModQ) (verify : Bool) (b : CiphertextBallot) {tracking : ElementModQ}
      → b.tracking_hash ≡ some tracking
      → is_valid_encryption gmp sha256 b hash key base_hash ≡ ok true
      → verified_ballot gmp sha256 hash key base_hash verify b ≡ ok (some b)
  unfolding verified_ballot
  verified_ballot-valid hash verify b h k = ground (arith, h, k)
