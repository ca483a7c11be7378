-- ===== src/KeyCeremonyMediator/Consistent/Rounds.antt =====
-- The rounds of a mediator keep its stores in order (key_ceremony_mediator.py).
use electionguard_python.Prelude.{
  ◌≡◌, ◌⊎◌, refl, true, false, Option, none, some, List, [], ◌∷◌, ◌++◌, map, Bool-cases,
  Option-cases, inl, inr,
}
use electionguard_python.Prelude.Result.{Result, ok, raise, Error}
use electionguard_python.Prelude.Digits.{Text}
use electionguard_python.Prelude.Texts.{eq_text}
use electionguard_python.External.{Gmp}
use electionguard_python.Guardian.{Guardian, share_election_partial_key_backup, share_public_keys}
use electionguard_python.Guardian.Exchange.{verify_election_partial_key_backup}
use electionguard_python.KeyCeremonyMediator.Rounds.{
  announce, share_keys, generate_all, collect_from, collect_backups, saved_backups, orchestrate,
  verify_from, verify_all, verify,
}
use electionguard_python.KeyCeremonyMediator.{
  KeyCeremonyMediator, confirm_presence_of_guardian, all_guardians_in_attendance,
}
use electionguard_python.KeyCeremonyMediator.Consistent.{
  IsConsistent, presence-IsConsistent, backup-IsConsistent, verification-IsConsistent,
  guardians-IsConsistent,
}

pub announce-IsConsistent :
    (g : Guardian) (m : KeyCeremonyMediator) → IsConsistent m → IsConsistent (announce g m)
unfolding announce
announce-IsConsistent g m h =
    let confirmed = confirm_presence_of_guardian (share_public_keys g) m in
    let m' = record confirmed { guardians = m.guardians ++ g ∷ [] } in
    let h' : IsConsistent m' =
      guardians-IsConsistent (m.guardians ++ g ∷ []) confirmed
        (presence-IsConsistent (share_public_keys g) m h) in
    elim (Bool-cases (all_guardians_in_attendance m')) [
      | inl everyone ↦
          rw (everyone, announce)
            (guardians-IsConsistent (share_keys (map share_public_keys m'.guardians) m'.guardians)
              m' h')
      | inr missing ↦ rw (missing, announce) h'
    ]

collect_from-IsConsistent :
    (sender : Guardian) (recipients : List Guardian) (m : KeyCeremonyMediator)
    → IsConsistent m
    → IsConsistent (collect_from sender recipients m).1
unfolding collect_from
collect_from-IsConsistent sender [] m h = h
collect_from-IsConsistent sender (recipient ∷ recipients) m h =
    elim (Bool-cases (eq_text sender.object_id recipient.object_id)) [
      | inl self ↦ rw (self, collect_from) (collect_from-IsConsistent sender recipients m h)
      | inr other ↦
          elim (Option-cases (share_election_partial_key_backup recipient.object_id sender)) [
            | inl missing ↦ rw (other, missing, collect_from) h
            | inr (backup, shared) ↦
                rw (other, shared, collect_from)
                  (collect_from-IsConsistent sender recipients _ (backup-IsConsistent backup m h))
          ]
    ]

collect_backups-IsConsistent :
    (senders recipients : List Guardian) (m : KeyCeremonyMediator)
    → IsConsistent m
    → IsConsistent (collect_backups senders recipients m).1
unfolding collect_backups
collect_backups-IsConsistent [] recipients m h = h
collect_backups-IsConsistent (sender ∷ senders) recipients m h =
    let h' = collect_from-IsConsistent sender recipients m h in
    elim (Bool-cases (collect_from sender recipients m).0) [
      | inl complete ↦
          rw (complete, collect_backups)
            (collect_backups-IsConsistent senders recipients (collect_from sender recipients m).1
              h')
      | inr stopped ↦ rw (stopped, collect_backups) h'
    ]

Result-either {ℓ} :
    {A : Type ℓ} (r : Result A) → ((a : A) × (r ≡ ok a)) ⊎ ((e : Error) × (r ≡ raise e))
Result-either (ok a) = inl (a, refl)
Result-either (raise e) = inr (e, refl)

module _ (gmp : Gmp) where
  pub orchestrate-IsConsistent :
      (encrypt : Text → Text → Option Text) (m : KeyCeremonyMediator)
      → IsConsistent m
      → IsConsistent (orchestrate gmp encrypt m).1
  unfolding orchestrate saved_backups
  orchestrate-IsConsistent encrypt m h = elim (Bool-cases (all_guardians_in_attendance m)) [
    | inr absent ↦ rw (absent, orchestrate) h
    | inl present ↦
        let guardians = (generate_all gmp encrypt m.guardians).1 in
        let m' = record m { guardians = guardians } in
        let h' = guardians-IsConsistent guardians m h in
        let collected = collect_backups-IsConsistent guardians guardians m' h' in
        elim (Result-either (generate_all gmp encrypt m.guardians).0) [
          | inr (e, raised) ↦ rw (present, raised, orchestrate) h'
          | inl (done, made) ↦ elim (Bool-cases (collect_backups guardians guardians m').0) [
            | inr stopped ↦ rw (present, made, stopped, orchestrate) collected
            | inl complete ↦
                rw (present, made, complete, orchestrate) (guardians-IsConsistent _ _ collected)
          ]
        ]
  ]

  verify_from-IsConsistent :
      (decrypt : Text → Text → Option Text) (recipient : Guardian) (senders : List Guardian)
      (m : KeyCeremonyMediator)
      → IsConsistent m
      → IsConsistent (verify_from gmp decrypt recipient senders m).1
  unfolding verify_from
  verify_from-IsConsistent decrypt recipient [] m h = h
  verify_from-IsConsistent decrypt recipient (sender ∷ senders) m h =
      elim (Bool-cases (eq_text sender.object_id recipient.object_id)) [
        | inl self ↦ rw (self, verify_from) (verify_from-IsConsistent decrypt recipient senders m h)
        | inr other ↦
            elim (Result-either
              (verify_election_partial_key_backup gmp sender.object_id decrypt recipient)) [
                | inr (e, raised) ↦ rw (other, raised, verify_from) h
                | inl (none, missing) ↦ rw (other, missing, verify_from) h
                | inl (some v, made) ↦
                    rw (other, made, verify_from)
                      (verify_from-IsConsistent decrypt recipient senders _
                        (verification-IsConsistent v m h))
              ]
      ]

  verify_all-IsConsistent :
      (decrypt : Text → Text → Option Text) (recipients senders : List Guardian)
      (m : KeyCeremonyMediator)
      → IsConsistent m
      → IsConsistent (verify_all gmp decrypt recipients senders m).1
  unfolding verify_all
  verify_all-IsConsistent decrypt [] senders m h = h
  verify_all-IsConsistent decrypt (recipient ∷ recipients) senders m h =
      let h' = verify_from-IsConsistent decrypt recipient senders m h in
      elim (Result-either (verify_from gmp decrypt recipient senders m).0) [
        | inr (e, raised) ↦ rw (raised, verify_all) h'
        | inl (false, stopped) ↦ rw (stopped, verify_all) h'
        | inl (true, complete) ↦
            rw (complete, verify_all)
              (verify_all-IsConsistent decrypt recipients senders
                (verify_from gmp decrypt recipient senders m).1 h')
      ]

  pub verify-IsConsistent :
      (decrypt : Text → Text → Option Text) (m : KeyCeremonyMediator)
      → IsConsistent m
      → IsConsistent (verify gmp decrypt m).1
  unfolding verify
  verify-IsConsistent decrypt m h =
      let h' = verify_all-IsConsistent decrypt m.guardians m.guardians m h in
      elim (Result-either (verify_all gmp decrypt m.guardians m.guardians m).0) [
        | inr (e, raised) ↦ rw (raised, verify) h'
        | inl (false, stopped) ↦ rw (stopped, verify) h'
        | inl (true, complete) ↦ rw (complete, verify) h'
      ]
