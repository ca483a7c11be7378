-- ===== src/Tally/Append.antt =====
-- append of tally.py counts each ballot id at most once.
use electionguard_python.Prelude.{
  ℕ, ◌+◌, ◌≡◌, refl, ap, ◌∙◌, sym, Bool, true, false, List, [], ◌∷◌, any, length, inl, inr,
  Bool-cases, arith, if◌then◌else◌,
}
use electionguard_python.Prelude.Result.{Result, ok, raise}
use electionguard_python.Prelude.Digits.{Text}
use electionguard_python.Prelude.Texts.{eq_text_self}
use electionguard_python.Prelude.Dict.{Dict, lookup, put, contains, lookup-put_self}
use electionguard_python.External.{Gmp, Sha256}
use electionguard_python.Ballot.Accepted.{BallotBoxState, CiphertextAcceptedBallot}
use electionguard_python.BallotValidator.{ballot_is_valid_for_election}
use electionguard_python.BallotStore.{is_unknown}
use electionguard_python.BallotBox.Accept.{Result-cases}
use electionguard_python.Tally.{CiphertextTally, member, add_id, accumulate_contests}
use electionguard_python.Tally.Ballots.{
  with_cast, with_id, add_cast, add_spoiled, is_tallied, size, append_valid, append,
}

member-add_id : (id : Text) (ids : List Text) → member id (add_id id ids) ≡ true
unfolding add_id member any
member-add_id id ids = ground (arith, eq_text_self id)

length-add_id :
    (id : Text) (ids : List Text) → member id ids ≡ false → length (add_id id ids) ≡ length ids + 1
unfolding add_id
length-add_id id ids h = rw h (omega arith)

module _ {ℓ} {A : Type ℓ} where
  contains-put_self : (key : Text) (value : A) (d : Dict A) → contains key (put key value d) ≡ true
  unfolding contains
  contains-put_self key value d = rw (lookup-put_self key value d, contains)

  length-put :
      (key : Text) (value : A) (d : Dict A)
      → contains key d ≡ false
      → length (put key value d) ≡ length d + 1
  unfolding contains lookup put
  length-put key value [] h = omega arith
  length-put key value ((k, v) ∷ d) h = ground (arith, length-put key value d)

ok-injective : {x y : Bool} → ok x ≡ ok y → x ≡ y
ok-injective h = cc h

-- What a result of append counts: 1 for True.
abbrev pub counted : Result Bool → ℕ
counted (ok true) = 1
counted (ok false) = 0
counted (raise e) = 0

module _ (gmp : Gmp) (sha256 : Sha256) (b : CiphertextAcceptedBallot) (t : CiphertextTally) where
  abbrev outcome : Result Bool × CiphertextTally
  outcome = append gmp sha256 b t

  -- The ways that a call of append ends.
  data Ends : Type 0 where
    unchanged : (r : Result Bool) → counted r ≡ 0 → outcome ≡ (r, t) → Ends
    cast : is_tallied b t ≡ false → outcome ≡ (ok (add_cast b t).0, (add_cast b t).1) → Ends
    spoiled : is_tallied b t ≡ false → outcome ≡ (ok true, add_spoiled b t) → Ends

  valid_ends :
      (st : BallotBoxState)
      → is_unknown st ≡ false
      → is_tallied b t ≡ false
      → outcome ≡ append_valid st b t
      → Ends
  unfolding append_valid is_unknown
  valid_ends BallotBoxState.cast hs ht e = cast ht e
  valid_ends BallotBoxState.spoiled hs ht e = spoiled ht e
  valid_ends BallotBoxState.unknown hs ht e = absurd (cc hs)

  ends : Ends
  unfolding append
  ends = elim (Bool-cases (is_unknown b.state)) [
    | inl unknown ↦ unchanged (ok false) refl (rw (unknown, append))
    | inr known ↦ elim (Bool-cases (is_tallied b t)) [
      | inl there ↦ unchanged (ok false) refl (rw (known, there, append))
      | inr new ↦
          elim (Result-cases
            (ballot_is_valid_for_election gmp sha256 b.ballot t.metadata t.encryption)) [
              | inl valid ↦ valid_ends b.state known new (rw (known, new, valid, append))
              | inr (inl invalid) ↦ unchanged (ok false) refl (rw (known, new, invalid, append))
              | inr (inr (error, raised)) ↦
                  unchanged (raise error) refl (rw (known, new, raised, append))
            ]
    ]
  ]

  not_cast : is_tallied b t ≡ false → member b.ballot.object_id t.cast_ballot_ids ≡ false
  unfolding is_tallied
  not_cast h = ground arith

  not_spoiled : is_tallied b t ≡ false → contains b.ballot.object_id t.spoiled_ballots ≡ false
  unfolding is_tallied
  not_spoiled h = ground arith

  add_spoiled-size : is_tallied b t ≡ false → size (add_spoiled b t) ≡ size t + 1
  unfolding add_spoiled size
  add_spoiled-size h =
      omega (arith, length-put b.ballot.object_id b t.spoiled_ballots (not_spoiled h))

  add_cast-size :
      is_tallied b t ≡ false → size (add_cast b t).1 ≡ size t + counted (ok (add_cast b t).0)
  unfolding add_cast size with_id with_cast
  add_cast-size h = elim (Bool-cases (accumulate_contests b.ballot.contests t.cast).0) [
    | inl success ↦
        rw (success, add_cast)
          (omega (arith, length-add_id b.ballot.object_id t.cast_ballot_ids (not_cast h)))
    | inr failure ↦ rw (failure, add_cast) (omega arith)
  ]

  spoiled-is_tallied : is_tallied b (add_spoiled b t) ≡ true
  unfolding is_tallied add_spoiled
  spoiled-is_tallied = ground (arith, contains-put_self b.ballot.object_id b t.spoiled_ballots)

  cast-is_tallied : (add_cast b t).0 ≡ true → is_tallied b (add_cast b t).1 ≡ true
  unfolding is_tallied add_cast with_id with_cast
  cast-is_tallied h = elim (Bool-cases (accumulate_contests b.ballot.contests t.cast).0) [
    | inl success ↦ rw (success, add_cast, member-add_id b.ballot.object_id t.cast_ballot_ids)
    | inr failure ↦ absurd (cc (rw (failure, add_cast) at h))
  ]

  -- append makes the tally one ballot longer exactly if it returns True; where it returns False or
  -- raises, the tally has as many ballots as before.
  append-size : size (append gmp sha256 b t).1 ≡ size t + counted (append gmp sha256 b t).0
  append-size = elim ends [
    | unchanged r none_counted e ↦ rw (e, none_counted) (omega arith)
    | cast new e ↦ rw e (add_cast-size new)
    | spoiled new e ↦ rw e (add_spoiled-size new)
  ]

  -- A ballot for which append returns True is contained in the tally afterwards.
  pub append-is_tallied :
      (append gmp sha256 b t).0 ≡ ok true → is_tallied b (append gmp sha256 b t).1 ≡ true
  append-is_tallied h = elim ends [
    | unchanged r none_counted e ↦
        absurd (omega (arith, sym none_counted ∙ ap counted (sym (ap (λ o. o.0) e) ∙ h)))
    | cast new e ↦ rw e (cast-is_tallied (ok-injective (sym (ap (λ o. o.0) e) ∙ h)))
    | spoiled new e ↦ rw e spoiled-is_tallied
  ]

is_tallied_cong :
    (b b' : CiphertextAcceptedBallot) (t : CiphertextTally)
    → b'.ballot.object_id ≡ b.ballot.object_id
    → is_tallied b' t ≡ is_tallied b t
unfolding is_tallied
is_tallied_cong b b' t h =
    ap (λ id. if member id t.cast_ballot_ids then true else contains id t.spoiled_ballots) h

append-already :
    (gmp : Gmp) (sha256 : Sha256) (b : CiphertextAcceptedBallot) (t : CiphertextTally)
    → is_tallied b t ≡ true
    → append gmp sha256 b t ≡ (ok false, t)
unfolding append
append-already gmp sha256 b t h = elim (Bool-cases (is_unknown b.state)) [
  | inl unknown ↦ rw (unknown, append)
  | inr known ↦ rw (known, h, append)
]

-- Once append has returned True for a ballot, it returns False for every ballot with the same id,
-- whatever its contents and its state, and leaves the tally as it was.
pub append_twice :
    (gmp : Gmp) (sha256 : Sha256) (b b' : CiphertextAcceptedBallot) (t after : CiphertextTally)
    → append gmp sha256 b t ≡ (ok true, after)
    → b'.ballot.object_id ≡ b.ballot.object_id
    → append gmp sha256 b' after ≡ (ok false, after)
append_twice gmp sha256 b b' t after h same = append-already gmp sha256 b' after (
    is_tallied_cong b b' after same
    ∙ ap (is_tallied b) (sym (ap (λ o. o.1) h))
    ∙ append-is_tallied gmp sha256 b t (ap (λ o. o.0) h))
