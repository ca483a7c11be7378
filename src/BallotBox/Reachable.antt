-- ===== src/BallotBox/Reachable.antt =====
-- The stores that a ballot box reaches by cast and spoil (ballot_box.py), in any order.
use electionguard_python.Prelude.{
  ◌≡◌, refl, ap, subst, ◌∙◌, sym, true, false, not, some, inl, inr, Bool-cases,
}
use electionguard_python.Prelude.Int.{ℤ}
use electionguard_python.Prelude.Result.{ok}
use electionguard_python.Prelude.Digits.{Text}
use electionguard_python.Prelude.Texts.{eq_text, eq_text→eq}
use electionguard_python.Prelude.Dict
use electionguard_python.External.{Gmp, Sha256}
use electionguard_python.Election.Internal.{InternalElectionDescription, CiphertextElectionContext}
use electionguard_python.Ballot.Ciphertext.{CiphertextBallot}
use electionguard_python.Ballot.Accepted.{
  BallotBoxState, CiphertextAcceptedBallot, from_ciphertext_ballot,
}
use electionguard_python.Ballot.Accepted.Laws.{
  NoNonces, from_ciphertext_ballot-state, from_ciphertext_ballot-object_id,
  from_ciphertext_ballot-NoNonces,
}
use electionguard_python.BallotValidator.{ballot_is_valid_for_election}
use electionguard_python.BallotStore.{BallotStore, new, is_unknown, get, exists}
use electionguard_python.BallotStore.Laws.{stored, get-stored, exists-some}
use electionguard_python.BallotBox.{BallotBox, accept_ballot, already, cast, spoil}
use electionguard_python.BallotBox.Accept.{accept-cases}

module _ (gmp : Gmp) (sha256 : Sha256) (metadata : InternalElectionDescription)
    (context : CiphertextElectionContext) where
  abbrev pub box_of : BallotStore → BallotBox
  box_of s = record { metadata = metadata; encryption = context; store = s }

  -- Calls of cast and spoil one after the other.
  pub data Steps (s : BallotStore) : BallotStore → Type 0 where
    start : Steps s s
    and_cast :
        {u : BallotStore}
        → Steps s u
        → (now : ℤ) (b : CiphertextBallot) → Steps s (cast gmp sha256 now b (box_of u)).1.store
    and_spoil :
        {u : BallotStore}
        → Steps s u
        → (now : ℤ) (b : CiphertextBallot) → Steps s (spoil gmp sha256 now b (box_of u)).1.store

  -- What the store of the ballot box has under an id.
  pub record IsEntry (id : Text) (a : CiphertextAcceptedBallot) : Type 0 where
    pub now : ℤ
    pub source : CiphertextBallot
    pub state : BallotBoxState
    pub made : a ≡ from_ciphertext_ballot sha256 now source state
    pub valid : ballot_is_valid_for_election gmp sha256 source metadata context ≡ ok true
    pub under_its_id : a.ballot.object_id ≡ id
    pub known : is_unknown a.state ≡ false
    pub no_nonces : NoNonces a.ballot.contests

  pub IsValid : BallotStore → Type 0
  IsValid s = (id : Text) (a : CiphertextAcceptedBallot) → get id s ≡ some a → IsEntry id a

  new-IsValid : IsValid new
  unfolding IsValid get Dict.lookup
  new-IsValid id a h = cc h

  entry :
      (now : ℤ) (b : CiphertextBallot) (state : BallotBoxState)
      → is_unknown state ≡ false
      → ballot_is_valid_for_election gmp sha256 b metadata context ≡ ok true
      → IsEntry b.object_id (from_ciphertext_ballot sha256 now b state)
  entry now b state hs hv = record {
    now = now;
    source = b;
    state = state;
    made = refl;
    valid = hv;
    under_its_id = from_ciphertext_ballot-object_id sha256 now b state;
    known = ap is_unknown (from_ciphertext_ballot-state sha256 now b state) ∙ hs;
    no_nonces = from_ciphertext_ballot-NoNonces sha256 now b state;
  }

  some-injective : {a b : CiphertextAcceptedBallot} → some a ≡ some b → a ≡ b
  some-injective h = cc h

  stored-IsValid :
      (now : ℤ) (b : CiphertextBallot) (state : BallotBoxState) (s : BallotStore)
      → is_unknown state ≡ false
      → ballot_is_valid_for_election gmp sha256 b metadata context ≡ ok true
      → IsValid s
      → IsValid (stored b.object_id (from_ciphertext_ballot sha256 now b state) s)
  unfolding IsValid
  stored-IsValid now b state s hs hv valid id a h =
      let x : CiphertextAcceptedBallot = from_ciphertext_ballot sha256 now b state in
      elim (Bool-cases (eq_text b.object_id id)) [
        | inl same ↦
            let is_x : x ≡ a =
              some-injective (rw same at (sym (get-stored b.object_id id x s) ∙ h)) in
            subst (λ k. IsEntry k a) (eq_text→eq b.object_id id same)
              (subst (IsEntry b.object_id) is_x (entry now b state hs hv))
        | inr differ ↦ valid id a (rw differ at (sym (get-stored b.object_id id x s) ∙ h))
      ]

  accept-IsValid :
      (now : ℤ) (b : CiphertextBallot) (state : BallotBoxState) (s : BallotStore)
      → is_unknown state ≡ false
      → IsValid s
      → IsValid (accept_ballot gmp sha256 now b state metadata context s).1
  accept-IsValid now b state s hs valid =
      elim (accept-cases gmp sha256 now b state metadata context s hs) [
        | inl (hv, _, e) ↦
            subst IsValid (sym (ap (λ o. o.1) e)) (stored-IsValid now b state s hs hv valid)
        | inr refused ↦ subst IsValid (sym refused.unchanged) valid
      ]

  pub Steps-IsValid : (s : BallotStore) → Steps new s → IsValid s
  unfolding cast spoil is_unknown
  Steps-IsValid s start = new-IsValid
  Steps-IsValid s (and_cast {u} steps now b) =
      accept-IsValid now b BallotBoxState.cast u refl (Steps-IsValid u steps)
  Steps-IsValid s (and_spoil {u} steps now b) =
      accept-IsValid now b BallotBoxState.spoiled u refl (Steps-IsValid u steps)

  -- From the empty store, whatever sequence of calls of cast and spoil: each ballot that the store
  -- has is under its own id, in the state CAST or SPOILED, without nonces, and was made from a ballot
  -- that is valid for the election.
  pub Steps-IsEntry :
      (s : BallotStore) (id : Text) (a : CiphertextAcceptedBallot)
      → Steps new s
      → get id s ≡ some a
      → IsEntry id a
  unfolding IsValid
  Steps-IsEntry s id a steps h = Steps-IsValid s steps id a h

  present-already :
      (id : Text) (a : CiphertextAcceptedBallot) (s : BallotStore)
      → get id s ≡ some a
      → is_unknown a.state ≡ false
      → already (exists id s) ≡ true
  present-already id a s h known =
      ap already (exists-some id a s h) ∙ ap (λ t. already (not t, some a)) known

  accept-keeps :
      (now : ℤ) (b : CiphertextBallot) (state : BallotBoxState) (s : BallotStore) (id : Text)
      (a : CiphertextAcceptedBallot)
      → is_unknown state ≡ false
      → is_unknown a.state ≡ false
      → get id s ≡ some a
      → get id (accept_ballot gmp sha256 now b state metadata context s).1 ≡ some a
  accept-keeps now b state s id a hs known h =
      let x : CiphertextAcceptedBallot = from_ciphertext_ballot sha256 now b state in
      elim (accept-cases gmp sha256 now b state metadata context s hs) [
        | inr refused ↦ ap (get id) refused.unchanged ∙ h
        | inl (_, fresh, e) ↦
            ap (λ o. get id o.1) e
            ∙ get-stored b.object_id id x s
            ∙ (elim (Bool-cases (eq_text b.object_id id)) [
              | inl same ↦ absurd (
                  cc (
                    fresh,
                    present-already b.object_id a s
                        (ap (λ k. get k s) (eq_text→eq b.object_id id same) ∙ h) known,
                  ))
              | inr differ ↦ rw differ h
            ])
      ]

  -- A ballot that the store of a ballot box has, after any sequence of calls of cast and spoil on the
  -- empty store, is still there unchanged after any further sequence of such calls.
  pub Steps-keep :
      (s t : BallotStore) (id : Text) (a : CiphertextAcceptedBallot)
      → Steps new s
      → Steps s t
      → get id s ≡ some a
      → get id t ≡ some a
  unfolding cast spoil is_unknown IsValid
  Steps-keep s t id a before start h = h
  Steps-keep s t id a before (and_cast {u} steps now b) h =
      accept-keeps now b BallotBoxState.cast u id a refl (Steps-IsValid s before id a h).known
        (Steps-keep s u id a before steps h)
  Steps-keep s t id a before (and_spoil {u} steps now b) h =
      accept-keeps now b BallotBoxState.spoiled u id a refl (Steps-IsValid s before id a h).known
        (Steps-keep s u id a before steps h)
