-- ===== src/DecryptWithSecrets/RoundTrip.antt =====
-- A contest that encrypt_contest made is decrypted to the voter's votes, by the secret key and by the
-- nonces (decrypt_with_secrets.py).
use mathlib.Core.List.{append-nil}
use electionguard_python.Prelude.{
  ℕ, ◌≡◌, refl, ap, ◌∙◌, ◌||◌, Bool, true, false, not, some, List, [], ◌∷◌, ◌++◌, map, arith,
  if◌then◌else◌,
}
use electionguard_python.External.{Gmp, Sha256}
use electionguard_python.Group.{ElementModQ, ElementModP}
use electionguard_python.Election.{
  SelectionDescription, ContestDescriptionWithPlaceholders, selection_for,
}
use electionguard_python.Election.Found.{AreFound}
use electionguard_python.Ballot.Plaintext.{PlaintextBallotSelection}
use electionguard_python.Ballot.Selection.{CiphertextBallotSelection}
use electionguard_python.Encrypt.Valid.{HasNonce, Encrypted}
use electionguard_python.Encrypt.Complete.{AllEncrypted}
use electionguard_python.DecryptWithSecrets.Actions.{Action, kept, decrypt_selections}
use electionguard_python.DecryptWithSecrets.Selections.{plaintext, Returns}

-- What the loop keeps of the plaintexts of selections, in front of others.
unfoldable pub plaintexts :
    Bool
    → Bool
    → List PlaintextBallotSelection
    → List PlaintextBallotSelection
    → List PlaintextBallotSelection
plaintexts remove placeholder [] more = more
plaintexts remove placeholder (s ∷ ss) more =
    kept remove (plaintext placeholder s) (plaintexts remove placeholder ss more)

plaintexts-kept :
    (remove placeholder : Bool) (ss more : List PlaintextBallotSelection)
    → plaintexts remove placeholder ss more
      ≡ (if not remove || not placeholder then map (plaintext placeholder) ss ++ more else more)
unfolding plaintexts kept
plaintexts-kept remove placeholder [] more = ground arith
plaintexts-kept remove placeholder (s ∷ ss) more =
    ground (arith, plaintexts-kept remove placeholder ss more)

-- The real selections are kept, and the placeholders where they are not to be removed.
pub plaintexts_all :
    (remove : Bool) (ss ps : List PlaintextBallotSelection)
    → plaintexts remove false ss (plaintexts remove true ps [])
      ≡ map (plaintext false) ss ++ (if remove then [] else map (plaintext true) ps)
plaintexts_all true ss ps =
    plaintexts-kept true false ss _
    ∙ ap (λ t. map (plaintext false) ss ++ t) (plaintexts-kept true true ps [])
plaintexts_all false ss ps =
    plaintexts-kept false false ss _
    ∙ ap (λ t. map (plaintext false) ss ++ t)
        (plaintexts-kept false true ps [] ∙ append-nil (map (plaintext true) ps))

module _ {gmp : Gmp} {sha256 : Sha256} (key : ElementModP) (base_hash seed : ElementModQ)
    (bound : ℕ)
    (decrypt_one : CiphertextBallotSelection
      → SelectionDescription
      → Action PlaintextBallotSelection)
    (decrypts : (d : SelectionDescription) (n : HasNonce sha256 seed d)
        (s : PlaintextBallotSelection) (placeholder : Bool) (c : CiphertextBallotSelection)
      → Encrypted gmp sha256 d key base_hash n.0 s placeholder c
      → Returns bound (decrypt_one c d) (plaintext placeholder s))
    (described : ContestDescriptionWithPlaceholders) (remove : Bool) where
  -- The loop over encrypted selections, in front of others that it decrypts.
  pub decrypt_selections-Returns :
      (placeholder : Bool) (ds : List SelectionDescription) (ss : List PlaintextBallotSelection)
      (cs more : List CiphertextBallotSelection) (ps : List PlaintextBallotSelection)
      → AreFound described ds
      → AllEncrypted gmp sha256 key base_hash seed placeholder ds ss cs
      → Returns bound (decrypt_selections decrypt_one described remove more) ps
      → Returns bound
          (decrypt_selections decrypt_one described remove (cs ++ more))
          (plaintexts remove placeholder ss ps)
  unfolding decrypt_selections plaintexts
  decrypt_selections-Returns placeholder [] [] [] more ps f h k st ready = k st ready
  decrypt_selections-Returns placeholder (d ∷ ds) (s ∷ ss) (c ∷ cs) more ps f h k st ready =
      let (n, e) = h.0 in
      let (st', one, ready') = decrypts d n s placeholder c e st ready in
      let (st'', rest, ready'') =
        decrypt_selections-Returns placeholder ds ss cs more ps f.1 h.1 k st' ready' in
      let found : selection_for described c.object_id ≡ some d =
        ap (selection_for described) (e.keeps_id ∙ e.for_description) ∙ f.0 in
      (st'', rw (found, one, rest) refl, ready'')
  decrypt_selections-Returns placeholder [] [] (c ∷ cs) more ps f h k st ready = absurd h
  decrypt_selections-Returns placeholder [] (s ∷ ss) cs more ps f h k st ready = absurd h
  decrypt_selections-Returns placeholder (d ∷ ds) [] cs more ps f h k st ready = absurd h
  decrypt_selections-Returns placeholder (d ∷ ds) (s ∷ ss) [] more ps f h k st ready = absurd h

  -- The loop over the selections of a contest and its placeholders.
  pub decrypt_all-Returns :
      (ds es : List SelectionDescription) (ss ps : List PlaintextBallotSelection)
      (real placeholders : List CiphertextBallotSelection)
      → AreFound described ds
      → AreFound described es
      → AllEncrypted gmp sha256 key base_hash seed false ds ss real
      → AllEncrypted gmp sha256 key base_hash seed true es ps placeholders
      → Returns bound
          (decrypt_selections decrypt_one described remove (real ++ placeholders))
          (map (plaintext false) ss ++ (if remove then [] else map (plaintext true) ps))
  unfolding decrypt_selections
  decrypt_all-Returns ds es ss ps real placeholders fd fe hd he =
      let end : Returns bound (decrypt_selections decrypt_one described remove []) [] =
        λ s ready. (s, refl, ready) in
      let filled = decrypt_selections-Returns true es ps placeholders [] [] fe he end in
      rw (← plaintexts_all remove ss ps) (
        decrypt_selections-Returns false ds ss real placeholders (plaintexts remove true ps []) fd
          hd (rw append-nil at filled))
