-- ===== src/Encrypt/Complete.antt =====
-- A valid contest is encrypted into a valid one (encrypt.py).
pub mod Made
pub mod Contest
pub mod BallotContests
pub mod Ballot
use electionguard_python.Prelude.{
  ℕ, zero, suc, ◌+◌, ◌≤◌, ◌<◌, ◌≡◌, refl, sym, ap, ◌∙◌, Bool, true, false, not, ◌&&◌, Option, none,
  some, List, [], ◌∷◌, ◌++◌, map, length, arith, if◌then◌else◌,
}
use electionguard_python.Prelude.Int.{ℤ, pos, negsuc, ◌==ℤ◌}
use electionguard_python.Prelude.Result.{Result, ok, if_some, ◌>>=◌}
use electionguard_python.Prelude.Texts.{eq_text}
use electionguard_python.External.{Gmp, GmpLaws, Sha256}
use electionguard_python.Group.{ElementModQ, ElementModP, is_valid_residue}
use electionguard_python.Hash.{get_item}
use electionguard_python.Elgamal.Homomorphic.{Vote, total}
use electionguard_python.Election.{
  SelectionDescription, ContestDescriptionWithPlaceholders, is_valid, contest_is_valid,
}
use electionguard_python.Election.Distinct.{AreNew, all_new-AreNew}
use electionguard_python.Ballot.Plaintext.{
  PlaintextBallotSelection, PlaintextBallotContest, to_int, is_valid_contest,
}
use electionguard_python.Ballot.Selection.{CiphertextBallotSelection}
use electionguard_python.Ballot.Contest.{CiphertextBallotContest, is_valid_encryption}
use electionguard_python.Ballot.Contest.Complete.{
  Encrypts, make_ciphertext_ballot_contest-is_valid_encryption,
}
use electionguard_python.Encrypt.Selections.{nonces_for, selection_from, encrypt_selection}
use electionguard_python.Encrypt.Contests.{
  selection_with, chosen, counted, is_below, encrypt_selections, encrypt_placeholders,
  verified_contest, encrypt_contest,
}
use electionguard_python.Encrypt.Valid.{
  HasNonce, Encrypted, encrypt_selection-Encrypted, get_item-is_in_bounds,
}
use electionguard_python.Encrypt.Counted.{
  votes, choice, choice-is_valid, counted-chosen, selection_from-is_valid, placeholder_choices,
}

abbrev pub HaveNonces : Sha256 → ElementModQ → List SelectionDescription → Type 0
HaveNonces sha256 seed [] = Unit
HaveNonces sha256 seed (d ∷ ds) = HasNonce sha256 seed d × HaveNonces sha256 seed ds

module _ (gmp : Gmp) (sha256 : Sha256) (key : ElementModP) (base_hash seed : ElementModQ) where
  -- The selections are encryptions of the votes for the descriptions, one for each.
  abbrev pub AllEncrypted :
      Bool
      → List SelectionDescription
      → List PlaintextBallotSelection
      → List CiphertextBallotSelection
      → Type 0
  AllEncrypted placeholder [] [] [] = Unit
  AllEncrypted placeholder (d ∷ ds) (s ∷ ss) (c ∷ cs) =
      ((n : HasNonce sha256 seed d) × Encrypted gmp sha256 d key base_hash n.0 s placeholder c)
      × AllEncrypted placeholder ds ss cs
  AllEncrypted placeholder _ _ _ = ⊥

module _ {gmp : Gmp} (laws : GmpLaws gmp) (sha256 : Sha256) (key : ElementModP)
    (base_hash seed : ElementModQ) (hk : is_valid_residue gmp key ≡ true) where
  pub encrypt_selections-AllEncrypted :
      (selections : List PlaintextBallotSelection) (ds : List SelectionDescription) (count : ℕ)
      → HaveNonces sha256 seed ds
      → (cs : List CiphertextBallotSelection) × (encrypt_selections gmp sha256 selections key
            base_hash seed ds count
          ≡ ok (some (cs, count + votes (map (choice selections) ds))))
        × AllEncrypted gmp sha256 key base_hash seed false ds (map (choice selections) ds) cs
  unfolding encrypt_selections votes
  encrypt_selections-AllEncrypted selections [] count h =
      let right : count ≡ count + 0 = omega arith in ([], ap (λ t. ok (some ([], t))) right, tt)
  encrypt_selections-AllEncrypted selections (d ∷ ds) count (n, h) =
      let s = choice selections d in
      let found = selection_with d.object_id selections in
      let (c, made, encrypted) =
        encrypt_selection-Encrypted laws sha256 s d key base_hash seed false true
          (choice-is_valid selections d) hk n in
      let (cs, rest, all) =
        encrypt_selections-AllEncrypted selections ds (count + counted found) h in
      let sum : count + counted found + votes (map (choice selections) ds)
          ≡ count + (to_int s + votes (map (choice selections) ds)) =
        omega (arith, counted-chosen d found) in
      (c ∷ cs, rw (made, rest) (ap (λ t. ok (some (c ∷ cs, t))) sum), ((n, encrypted), all))

  pub encrypt_placeholders-AllEncrypted :
      (elected : ℕ) (ds : List SelectionDescription) (count : ℕ)
      → HaveNonces sha256 seed ds
      → (cs : List CiphertextBallotSelection) × (end : ℕ) × (encrypt_placeholders gmp sha256
            (pos elected)
            key
            base_hash
            seed
            ds
            count
          ≡ ok (some (cs, end)))
        × AllEncrypted gmp sha256 key base_hash seed true ds
            (placeholder_choices elected ds count)
            cs
  unfolding encrypt_placeholders placeholder_choices
  encrypt_placeholders-AllEncrypted elected [] count h = ([], count, refl, tt)
  encrypt_placeholders-AllEncrypted elected (d ∷ ds) count (n, h) =
      let selected = is_below count (pos elected) in
      let (c, made, encrypted) =
        encrypt_selection-Encrypted laws sha256 (selection_from d true selected) d key base_hash
          seed true true (selection_from-is_valid d true selected) hk n in
      let (cs, end, rest, all) =
        encrypt_placeholders-AllEncrypted elected ds (if selected then count + 1 else count) h in
      (c ∷ cs, end, rw (made, rest) refl, ((n, encrypted), all))

  -- The votes with their nonces, in front of others.
  pub AllEncrypted-Encrypts :
      (placeholder : Bool) (ds : List SelectionDescription) (ss : List PlaintextBallotSelection)
      (cs more : List CiphertextBallotSelection) (vs : List Vote)
      → AllEncrypted gmp sha256 key base_hash seed placeholder ds ss cs
      → Encrypts gmp key vs more
      → (us : List Vote) × Encrypts gmp key us (cs ++ more) × (total us ≡ votes ss + total vs)
  unfolding votes total
  AllEncrypted-Encrypts placeholder [] [] [] more vs h k = (vs, k, omega arith)
  AllEncrypted-Encrypts placeholder (d ∷ ds) (s ∷ ss) (c ∷ cs) more vs h k =
      let (us, encrypts, sum) = AllEncrypted-Encrypts placeholder ds ss cs more vs h.1 k in
      let (n, e) = h.0 in
      (
        (to_int s, n.0) ∷ us,
        (e.encrypts, e.keeps_nonce, get_item-is_in_bounds sha256 _ d.sequence_order n.1, encrypts),
        omega (arith, sum),
      )
  AllEncrypted-Encrypts placeholder [] [] (c ∷ cs) more vs h k = absurd h
  AllEncrypted-Encrypts placeholder [] (s ∷ ss) cs more vs h k = absurd h
  AllEncrypted-Encrypts placeholder (d ∷ ds) [] cs more vs h k = absurd h
  AllEncrypted-Encrypts placeholder (d ∷ ds) (s ∷ ss) [] more vs h k = absurd h
