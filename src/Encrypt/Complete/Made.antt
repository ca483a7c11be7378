-- ===== src/Encrypt/Complete/Made.antt =====
-- A contest made of encrypted selections, and what a valid description says of its placeholders
-- (encrypt.py).
use mathlib.Core.List.{append-nil}
use electionguard_python.Prelude.{
  ℕ, ◌+◌, ◌≤◌, ◌<◌, ◌≡◌, ◌≢◌, refl, sym, ap, subst, ◌∙◌, Bool, true, false, Option, none, some,
  List, [], ◌∷◌, ◌++◌, map, length, arith,
}
use electionguard_python.Prelude.Int.{ℤ, pos, ==ℤ→eq}
use electionguard_python.Prelude.Result.{ok}
use electionguard_python.Prelude.Digits.{Text}
use electionguard_python.Prelude.Texts.{eq_text}
use electionguard_python.External.{Gmp, GmpLaws, Sha256}
use electionguard_python.Group.{ElementModQ, ElementModP, is_valid_residue}
use electionguard_python.Elgamal.Homomorphic.{Vote, total}
use electionguard_python.Election.{
  SelectionDescription, ContestDescriptionWithPlaceholders, is_valid, contest_is_valid,
}
use electionguard_python.Election.Distinct.{AreNew, all_new-AreNew}
use electionguard_python.Ballot.Plaintext.{
  PlaintextBallotSelection, PlaintextBallotContest, is_valid_contest,
}
use electionguard_python.Ballot.Selection.{CiphertextBallotSelection}
use electionguard_python.Ballot.Contest.{
  CiphertextBallotContest, is_valid_encryption, make_ciphertext_ballot_contest,
}
use electionguard_python.Ballot.Contest.Complete.{
  Encrypts, make_ciphertext_ballot_contest-is_valid_encryption,
}
use electionguard_python.Encrypt.Contests.{verified_contest}
use electionguard_python.Encrypt.Counted.{votes, choice, choice-le-votes, votes-le-elected}
use electionguard_python.Encrypt.Complete.{AllEncrypted, AllEncrypted-Encrypts}

-- What a valid description says of its placeholders and its selections.
pub number_elected-placeholders :
    (c : ContestDescriptionWithPlaceholders)
    → is_valid c ≡ true
    → c.description.number_elected ≡ pos (length c.placeholder_selections)
unfolding is_valid
number_elected-placeholders c h =
    ground (arith, ==ℤ→eq (pos (length c.placeholder_selections)) c.description.number_elected)

selections-AreNew :
    (c : ContestDescriptionWithPlaceholders)
    → is_valid c ≡ true
    → AreNew eq_text [] (map (λ d. d.object_id) c.description.ballot_selections)
unfolding is_valid contest_is_valid
selections-AreNew c h =
    all_new-AreNew eq_text (map (λ d. d.object_id) c.description.ballot_selections) (ground arith)

pub cast-le-elected :
    (contest : PlaintextBallotContest) (c : ContestDescriptionWithPlaceholders)
    → let d = c.description in
      is_valid_contest contest d.object_id
          (length d.ballot_selections)
          d.number_elected
          d.votes_allowed
        ≡ true
      → is_valid c ≡ true
      → votes (map (choice contest.ballot_selections) d.ballot_selections)
        ≤ length c.placeholder_selections
cast-le-elected contest c h k =
    let d = c.description in
    omega (
      arith,
      choice-le-votes contest.ballot_selections d.ballot_selections (selections-AreNew c k),
      votes-le-elected contest d.object_id (length d.ballot_selections)
          (length c.placeholder_selections) d.votes_allowed
          (subst
            (λ t.
              is_valid_contest contest d.object_id (length d.ballot_selections) t d.votes_allowed
              ≡ true)
            (number_elected-placeholders c k) h),
    )

module _ (gmp : Gmp) (sha256 : Sha256) where
  valid_contest-proof :
      (hash : ElementModQ) (key : ElementModP) (base_hash : ElementModQ)
      (c : CiphertextBallotContest)
      → is_valid_encryption gmp sha256 c hash key base_hash ≡ ok true
      → c.proof ≢ none
  unfolding is_valid_encryption
  valid_contest-proof hash key base_hash c h = ground arith

  pub verified_contest-valid :
      (hash : ElementModQ) (key : ElementModP) (base_hash : ElementModQ) (verify : Bool)
      (c : CiphertextBallotContest)
      → is_valid_encryption gmp sha256 c hash key base_hash ≡ ok true
      → verified_contest gmp sha256 hash key base_hash verify c ≡ ok (some c)
  unfolding verified_contest
  verified_contest-valid hash key base_hash verify c h =
      ground (arith, valid_contest-proof hash key base_hash c h)

  pub made_selections :
      (object_id : Text) (hash : ElementModQ) (selections : List CiphertextBallotSelection)
      (key : ElementModP) (base_hash proof_seed : ElementModQ) (elected : ℤ)
      (kept : Option ElementModQ) {c : CiphertextBallotContest}
      → make_ciphertext_ballot_contest gmp sha256 object_id hash selections key base_hash proof_seed
          elected none none kept
        ≡ ok c
      → (c.object_id ≡ object_id)
        × (c.ballot_selections ≡ selections)
        × (c.nonce ≡ kept)
        × (c.description_hash ≡ hash)
  unfolding make_ciphertext_ballot_contest
  made_selections object_id hash selections key base_hash proof_seed elected kept h = ground arith

  AllEncrypted-cons :
      (key : ElementModP) (base_hash seed : ElementModQ) (ds : List SelectionDescription)
      (ss : List PlaintextBallotSelection) (cs : List CiphertextBallotSelection)
      → 0 < length ds
      → AllEncrypted gmp sha256 key base_hash seed false ds ss cs
      → (c : CiphertextBallotSelection) × (cs' : List CiphertextBallotSelection) × (cs ≡ c ∷ cs')
  AllEncrypted-cons key base_hash seed [] ss cs h all = absurd (omega arith)
  AllEncrypted-cons key base_hash seed (d ∷ ds) [] cs h all = absurd all
  AllEncrypted-cons key base_hash seed (d ∷ ds) (s ∷ ss) [] h all = absurd all
  AllEncrypted-cons key base_hash seed (d ∷ ds) (s ∷ ss) (c ∷ cs) h all = (c, cs, refl)

no_votes : total [] ≡ 0
unfolding total
no_votes = refl

cons-append {ℓ} :
    {A : Type ℓ} {xs : List A} (ys : List A)
    → (x : A) × (xs' : List A) × (xs ≡ x ∷ xs')
    → (x : A) × (zs : List A) × (xs ++ ys ≡ x ∷ zs)
cons-append ys (x, xs', e) = (x, xs' ++ ys, ap (λ t. t ++ ys) e)

module _ {gmp : Gmp} (laws : GmpLaws gmp) (sha256 : Sha256) (key : ElementModP)
    (base_hash : ElementModQ) (hk : is_valid_residue gmp key ≡ true) where
  made_of :
      (object_id : Text) (hash proof_seed : ElementModQ) (kept : Option ElementModQ)
      (vs : List Vote) (cs : List CiphertextBallotSelection)
      → (c : CiphertextBallotSelection) × (cs' : List CiphertextBallotSelection) × (cs ≡ c ∷ cs')
      → Encrypts gmp key vs cs
      → total vs < 1_000_000_000
      → (contest : CiphertextBallotContest) × (make_ciphertext_ballot_contest gmp sha256 object_id
            hash cs key base_hash proof_seed
            (pos (total vs))
            none
            none
            kept
          ≡ ok contest)
        × (is_valid_encryption gmp sha256 contest hash key base_hash ≡ ok true)
  made_of object_id hash proof_seed kept [] cs (c, cs', e) h small =
      absurd (subst (Encrypts gmp key []) e h)
  made_of object_id hash proof_seed kept (v ∷ vs) cs cons h small =
      make_ciphertext_ballot_contest-is_valid_encryption laws sha256 object_id hash base_hash
        proof_seed key v vs cs kept hk h small

  -- A contest made from the selections of all descriptions, for the number of votes in them.
  pub made_of_all :
      (object_id : Text) (hash proof_seed contest_nonce : ElementModQ)
      (ds ps : List SelectionDescription) (cast filled : List PlaintextBallotSelection)
      (real placeholders : List CiphertextBallotSelection) (n : ℕ) {elected : ℤ}
      → 0 < length ds
      → AllEncrypted gmp sha256 key base_hash contest_nonce false ds cast real
      → AllEncrypted gmp sha256 key base_hash contest_nonce true ps filled placeholders
      → votes cast + votes filled ≡ n
      → n < 1_000_000_000
      → elected ≡ pos n
      → (contest : CiphertextBallotContest) × (make_ciphertext_ballot_contest gmp sha256 object_id
            hash
            (real ++ placeholders)
            key
            base_hash
            proof_seed
            elected
            none
            none
            (some contest_nonce)
          ≡ ok contest)
        × (is_valid_encryption gmp sha256 contest hash key base_hash ≡ ok true)
  made_of_all object_id hash proof_seed contest_nonce ds ps cast filled real placeholders n
        {elected} some_selection real_all placeholders_all full small e =
      let (us, us_encrypts, us_total) =
        AllEncrypted-Encrypts laws sha256 key base_hash contest_nonce hk true ps filled placeholders
          [] [] placeholders_all tt in
      let (vs, vs_encrypts, vs_total) =
        AllEncrypted-Encrypts laws sha256 key base_hash contest_nonce hk false ds cast real
          (placeholders ++ []) us real_all us_encrypts in
      let sum : total vs ≡ n = omega (arith, vs_total, us_total, full, no_votes) in
      let (c, made, valid) =
        made_of object_id hash proof_seed (some contest_nonce) vs (real ++ placeholders)
          (cons-append placeholders (
            AllEncrypted-cons gmp sha256 key base_hash contest_nonce ds cast real some_selection
              real_all))
          (rw append-nil at vs_encrypts) (omega (arith, sum, small)) in
      (
        c,
        subst
            (λ t.
              make_ciphertext_ballot_contest gmp sha256 object_id hash (real ++ placeholders) key
                base_hash proof_seed t none none (some contest_nonce)
              ≡ ok c)
            (ap pos sum ∙ sym e) made,
        valid,
      )
