-- ===== src/BallotBox/Accept.antt =====
-- accept_ballot of ballot_box.py: what it stores, and that it accepts no ballot id twice.
use electionguard_python.Prelude.{
  ◌≡◌, ◌≢◌, ◌⊎◌, refl, ap, ◌∙◌, sym, Bool, true, false, not, Option, none, some, inl, inr,
  Bool-cases, if◌then◌else◌,
}
use electionguard_python.Prelude.Int.{ℤ}
use electionguard_python.Prelude.Result.{Result, ok, raise, Error}
use electionguard_python.Prelude.Digits.{Text}
use electionguard_python.Prelude.Texts.{eq_text, eq_text_self}
use electionguard_python.External.{Gmp, Sha256}
use electionguard_python.Election.Internal.{InternalElectionDescription, CiphertextElectionContext}
use electionguard_python.Ballot.Ciphertext.{CiphertextBallot}
use electionguard_python.Ballot.Accepted.{
  BallotBoxState, CiphertextAcceptedBallot, from_ciphertext_ballot,
}
use electionguard_python.Ballot.Accepted.Laws.{
  from_ciphertext_ballot-state, from_ciphertext_ballot-object_id,
}
use electionguard_python.BallotValidator.{ballot_is_valid_for_election}
use electionguard_python.BallotStore.{BallotStore, is_unknown, get, exists}
use electionguard_python.BallotStore.Laws.{stored, get-set, get-stored, exists-some}
use electionguard_python.BallotBox.{Outcome, already, accept_ballot}

pub Result-cases :
    (r : Result Bool) → (r ≡ ok true) ⊎ ((r ≡ ok false) ⊎ ((e : Error) × (r ≡ raise e)))
Result-cases (ok true) = inl refl
Result-cases (ok false) = inr (inl refl)
Result-cases (raise e) = inr (inr (e, refl))

-- The ballot of a result, or a default.
abbrev accepted_or :
    CiphertextAcceptedBallot → Result (Option CiphertextAcceptedBallot) → CiphertextAcceptedBallot
accepted_or default (ok (some a)) = a
accepted_or default (ok none) = default
accepted_or default (raise e) = default

module _ (gmp : Gmp) (sha256 : Sha256) where
  module _ (now : ℤ) (b : CiphertextBallot) (state : BallotBoxState)
      (metadata : InternalElectionDescription) (context : CiphertextElectionContext)
      (s : BallotStore) where
    abbrev pub accepted : CiphertextAcceptedBallot
    accepted = from_ciphertext_ballot sha256 now b state

    abbrev pub outcome : Outcome
    outcome = accept_ballot gmp sha256 now b state metadata context s

    -- A valid ballot whose id is not there yet.
    pub accept-fresh :
        ballot_is_valid_for_election gmp sha256 b metadata context ≡ ok true
        → already (exists b.object_id s) ≡ false
        → is_unknown state ≡ false
        → outcome ≡ (ok (some accepted), stored b.object_id accepted s)
    unfolding accept_ballot
    accept-fresh hv hf hs =
        rw (hv, hf, accept_ballot)
          (get-set accepted.ballot.object_id accepted s
              (ap is_unknown (from_ciphertext_ballot-state sha256 now b state) ∙ hs)
            ∙ ap (λ o. (Result.ok (some accepted), stored o accepted s))
                (from_ciphertext_ballot-object_id sha256 now b state))

    -- What was accepted, and how the store has changed.
    pub record Accepts (a : CiphertextAcceptedBallot) (after : BallotStore) : Type 0 where
      pub valid : ballot_is_valid_for_election gmp sha256 b metadata context ≡ ok true
      pub absent : already (exists b.object_id s) ≡ false
      pub made : a ≡ accepted
      pub found : (id : Text) → get id after ≡ (if eq_text b.object_id id then some a else get id s)

    -- Nothing is accepted, and the store is as it was.
    pub record Refuses (r : Outcome) : Type 0 where
      pub nothing : (a : CiphertextAcceptedBallot) → r.0 ≢ ok (some a)
      pub unchanged : r.1 ≡ s

    refuse-by :
        (r : Result (Option CiphertextAcceptedBallot))
        → outcome ≡ (r, s)
        → ((a : CiphertextAcceptedBallot) → r ≢ ok (some a))
        → Refuses outcome
    refuse-by r e nothing = record {
      nothing = λ a h. nothing a (sym (ap (λ o. o.0) e) ∙ h);
      unchanged = ap (λ o. o.1) e;
    }

    refuse-raise :
        (e : Error)
        → ballot_is_valid_for_election gmp sha256 b metadata context ≡ raise e
        → Refuses outcome
    unfolding accept_ballot
    refuse-raise e h = refuse-by (raise e) (rw (h, accept_ballot)) (λ a eq. cc eq)

    refuse-invalid :
        ballot_is_valid_for_election gmp sha256 b metadata context ≡ ok false → Refuses outcome
    unfolding accept_ballot
    refuse-invalid h = refuse-by (ok none) (rw (h, accept_ballot)) (λ a eq. cc eq)

    refuse-already :
        ballot_is_valid_for_election gmp sha256 b metadata context ≡ ok true
        → already (exists b.object_id s) ≡ true
        → Refuses outcome
    unfolding accept_ballot
    refuse-already h k = refuse-by (ok none) (rw (h, k, accept_ballot)) (λ a eq. cc eq)

    -- The two cases of a call.
    pub accept-cases :
        is_unknown state ≡ false
        → ((ballot_is_valid_for_election gmp sha256 b metadata context ≡ ok true)
            × (already (exists b.object_id s) ≡ false)
            × (outcome ≡ (ok (some accepted), stored b.object_id accepted s)))
          ⊎ Refuses outcome
    accept-cases hs =
        elim (Result-cases (ballot_is_valid_for_election gmp sha256 b metadata context)) [
          | inl valid ↦ elim (Bool-cases (already (exists b.object_id s))) [
            | inl there ↦ inr (refuse-already valid there)
            | inr fresh ↦ inl (valid, fresh, accept-fresh valid fresh hs)
          ]
          | inr (inl invalid) ↦ inr (refuse-invalid invalid)
          | inr (inr (e, raised)) ↦ inr (refuse-raise e raised)
        ]

    -- Whatever its state, a ballot with an id that is already there is refused.
    pub accept-already : already (exists b.object_id s) ≡ true → Refuses outcome
    accept-already h =
        elim (Result-cases (ballot_is_valid_for_election gmp sha256 b metadata context)) [
          | inl valid ↦ refuse-already valid h
          | inr (inl invalid) ↦ refuse-invalid invalid
          | inr (inr (e, raised)) ↦ refuse-raise e raised
        ]

    -- A call of accept_ballot in the state CAST or SPOILED that returns a ballot was given a ballot
    -- that is valid for the election and whose id the store does not hold yet. It returns the ballot
    -- that from_ciphertext_ballot makes, it leaves the store with that ballot under the id, and what
    -- the store has under every other id stays as it was.
    pub accept_ballot-accepted :
        (a : CiphertextAcceptedBallot) (after : BallotStore)
        → is_unknown state ≡ false
        → accept_ballot gmp sha256 now b state metadata context s ≡ (ok (some a), after)
        → Accepts a after
    accept_ballot-accepted a after hs h = elim (accept-cases hs) [
      | inl (valid, fresh, e) ↦
          let same = sym e ∙ h in
          let made : accepted ≡ a = ap (λ o. accepted_or accepted o.0) same in
          record {
            valid = valid;
            absent = fresh;
            made = sym made;
            found = λ id.
                ap (λ o. get id o.1) (sym same)
                ∙ get-stored b.object_id id accepted s
                ∙ ap (λ x. if eq_text b.object_id id then some x else get id s) made;
          }
      | inr refused ↦ absurd (refused.nothing a (ap (λ o. o.0) h))
    ]

  -- Once accept_ballot has accepted a ballot in the state CAST or SPOILED, every later call on the
  -- store for a ballot with the same id returns no ballot and leaves the store as it was, whatever
  -- its contents, its state, its time, the election and the context.
  pub accept_ballot_twice :
      (now now' : ℤ) (b b' : CiphertextBallot) (state state' : BallotBoxState)
      (metadata metadata' : InternalElectionDescription)
      (context context' : CiphertextElectionContext) (s after : BallotStore)
      (a : CiphertextAcceptedBallot)
      → is_unknown state ≡ false
      → accept_ballot gmp sha256 now b state metadata context s ≡ (ok (some a), after)
      → b'.object_id ≡ b.object_id
      → ((a' : CiphertextAcceptedBallot)
          → (accept_ballot gmp sha256 now' b' state' metadata' context' after).0 ≢ ok (some a'))
        × ((accept_ballot gmp sha256 now' b' state' metadata' context' after).1 ≡ after)
  accept_ballot_twice now now' b b' state state' metadata metadata' context context' s after a hs h
        same =
      let acc = accept_ballot-accepted now b state metadata context s a after hs h in
      let found : get b.object_id after ≡ some a =
        acc.found b.object_id
        ∙ ap (λ t. if t then some a else get b.object_id s) (eq_text_self b.object_id) in
      let known : is_unknown a.state ≡ false =
        ap (λ x. is_unknown x.state) acc.made
        ∙ ap is_unknown (from_ciphertext_ballot-state sha256 now b state)
        ∙ hs in
      let there : already (exists b'.object_id after) ≡ true =
        ap already (ap (λ id. exists id after) same ∙ exists-some b.object_id a after found)
        ∙ ap (λ t. already (not t, some a)) known in
      let refused = accept-already now' b' state' metadata' context' after there in
      (refused.nothing, refused.unchanged)
