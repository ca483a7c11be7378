-- ===== src/KeyCeremonyMediator/Rounds.antt =====
-- key_ceremony_mediator.py: announce, orchestrate and verify, the rounds of the key ceremony over all
-- guardians.
use electionguard_python.Prelude.{
  Bool, true, false, not, ◌&&◌, Option, none, some, List, [], ◌∷◌, ◌++◌, map, if◌then◌else◌,
}
use electionguard_python.Prelude.Result.{Result, ok, raise}
use electionguard_python.Prelude.Digits.{Text}
use electionguard_python.Prelude.Texts.{eq_text}
use electionguard_python.External.{Gmp}
use electionguard_python.KeyCeremony.{ElectionPartialKeyBackup}
use electionguard_python.Guardian.{
  Guardian, PublicKeySet, share_public_keys, save_guardian_public_keys,
  share_election_partial_key_backup, save_election_partial_key_backup,
}
use electionguard_python.Guardian.Exchange.{
  generate_election_partial_key_backups, verify_election_partial_key_backup,
}
use electionguard_python.KeyCeremonyMediator.{
  KeyCeremonyMediator, confirm_presence_of_guardian, all_guardians_in_attendance,
  receive_election_partial_key_backup, share_election_partial_key_backups_to_guardian,
  receive_election_partial_key_verification, all_election_partial_key_verifications_received,
  all_election_partial_key_backups_verified,
}

-- A recipient after it has the public keys of a sender, unless it is the sender itself.
unfoldable pub save_from : PublicKeySet → Guardian → Guardian
save_from keys recipient =
    if not (eq_text keys.owner_id recipient.object_id)
    then save_guardian_public_keys keys recipient
    else recipient

-- The loop over the senders; a guardian's own public keys do not change in it.
unfoldable pub share_keys : List PublicKeySet → List Guardian → List Guardian
unfolding save_from
share_keys [] guardians = guardians
share_keys (keys ∷ senders) guardians = share_keys senders (map (save_from keys) guardians)

unfoldable pub announce : Guardian → KeyCeremonyMediator → KeyCeremonyMediator
unfolding share_keys
announce g m =
    let confirmed = confirm_presence_of_guardian (share_public_keys g) m in
    let m' = record confirmed { guardians = m.guardians ++ g ∷ [] } in
    if all_guardians_in_attendance m'
    then record m' { guardians = share_keys (map share_public_keys m'.guardians) m'.guardians }
    else m'

-- The loop over the recipients of one sender: false where the sender has no backup to share.
unfoldable pub collect_from :
    Guardian → List Guardian → KeyCeremonyMediator → Bool × KeyCeremonyMediator
collect_from sender [] m = (true, m)
collect_from sender (recipient ∷ recipients) m =
    elim (eq_text sender.object_id recipient.object_id) [
      | true ↦ collect_from sender recipients m
      | false ↦ elim (share_election_partial_key_backup recipient.object_id sender) [
        | none ↦ (false, m)
        | some backup ↦
            collect_from sender recipients (receive_election_partial_key_backup backup m).1
      ]
    ]

-- The loop over the senders.
unfoldable pub collect_backups :
    List Guardian → List Guardian → KeyCeremonyMediator → Bool × KeyCeremonyMediator
unfolding collect_from
collect_backups [] recipients m = (true, m)
collect_backups (sender ∷ senders) recipients m = elim (collect_from sender recipients m).0 [
  | false ↦ (false, (collect_from sender recipients m).1)
  | true ↦ collect_backups senders recipients (collect_from sender recipients m).1
]

unfoldable pub save_all : List ElectionPartialKeyBackup → Guardian → Guardian
save_all [] g = g
save_all (backup ∷ backups) g = save_all backups (save_election_partial_key_backup backup g)

module _ (gmp : Gmp) where
  -- The loop in which each guardian generates its backups. What it returns is not looked at; where it
  -- raises, the guardians after it are as they were.
  unfoldable pub generate_all :
      (Text → Text → Option Text) → List Guardian → Result (Unit {0}) × List Guardian
  generate_all encrypt [] = (ok tt, [])
  generate_all encrypt (g ∷ guardians) =
      let (result, g') = generate_election_partial_key_backups gmp encrypt g in
      let (rest, guardians') = generate_all encrypt guardians in
      elim result [ raise e ↦ (Result.raise e, g' ∷ guardians) | ok made ↦ (rest, g' ∷ guardians') ]

  -- From the collected backups on. The test that all are available is of a method that is not called,
  -- which is always true.
  unfoldable pub saved_backups : KeyCeremonyMediator → KeyCeremonyMediator
  unfolding save_all
  saved_backups m = record m {
    guardians =
        map (λ g. save_all (share_election_partial_key_backups_to_guardian g.object_id m) g)
          m.guardians;
  }

  unfoldable pub orchestrate :
      (Text → Text → Option Text)
      → KeyCeremonyMediator
      → Result (Option (List Guardian)) × KeyCeremonyMediator
  unfolding generate_all collect_backups saved_backups
  orchestrate encrypt m = elim (all_guardians_in_attendance m) [
    | false ↦ (ok none, m)
    | true ↦
        let (result, guardians) = generate_all encrypt m.guardians in
        let m' = record m { guardians = guardians } in
        elim result [
          | raise e ↦ (Result.raise e, m')
          | ok done ↦
              let (complete, collected) = collect_backups guardians guardians m' in
              if not complete
              then (ok none, collected)
              else (ok (some (saved_backups collected).guardians), saved_backups collected)
        ]
  ]

  -- The loop over the senders for one recipient: false where the recipient has no backup of a sender.
  unfoldable pub verify_from :
      (Text → Text → Option Text)
      → Guardian
      → List Guardian
      → KeyCeremonyMediator
      → Result Bool × KeyCeremonyMediator
  verify_from decrypt recipient [] m = (ok true, m)
  verify_from decrypt recipient (sender ∷ senders) m =
      elim (eq_text sender.object_id recipient.object_id) [
        | true ↦ verify_from decrypt recipient senders m
        | false ↦ elim (verify_election_partial_key_backup gmp sender.object_id decrypt recipient) [
          | raise e ↦ (Result.raise e, m)
          | ok verified ↦ elim verified [
            | none ↦ (ok false, m)
            | some v ↦
                verify_from decrypt recipient senders
                  (receive_election_partial_key_verification v m)
          ]
        ]
      ]

  -- The loop over the recipients.
  unfoldable pub verify_all :
      (Text → Text → Option Text)
      → List Guardian
      → List Guardian
      → KeyCeremonyMediator
      → Result Bool × KeyCeremonyMediator
  unfolding verify_from
  verify_all decrypt [] senders m = (ok true, m)
  verify_all decrypt (recipient ∷ recipients) senders m =
      elim (verify_from decrypt recipient senders m).0 [
        | raise e ↦ (Result.raise e, (verify_from decrypt recipient senders m).1)
        | ok complete ↦ elim complete [
          | false ↦ (ok false, (verify_from decrypt recipient senders m).1)
          | true ↦ verify_all decrypt recipients senders (verify_from decrypt recipient senders m).1
        ]
      ]

  unfoldable pub verify :
      (Text → Text → Option Text) → KeyCeremonyMediator → Result Bool × KeyCeremonyMediator
  unfolding verify_all
  verify decrypt m =
      let m' = (verify_all decrypt m.guardians m.guardians m).1 in
      elim (verify_all decrypt m.guardians m.guardians m).0 [
        | raise e ↦ (Result.raise e, m')
        | ok complete ↦ if not complete then (ok false, m') else (
          ok (
              all_election_partial_key_verifications_received m'
              && all_election_partial_key_backups_verified m'),
          m',
        )
      ]
