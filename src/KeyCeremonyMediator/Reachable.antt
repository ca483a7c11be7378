-- ===== src/KeyCeremonyMediator/Reachable.antt =====
-- The states that a mediator reaches by its methods, in any order (key_ceremony_mediator.py).
use electionguard_python.Prelude.{Option, List}
use electionguard_python.Prelude.Digits.{Text}
use electionguard_python.External.{Gmp}
use electionguard_python.KeyCeremony.{
  AuxiliaryPublicKey, ElectionPublicKey, ElectionPartialKeyBackup, ElectionPartialKeyVerification,
  ElectionPartialKeyChallenge,
}
use electionguard_python.Guardian.{CeremonyDetails, PublicKeySet, Guardian}
use electionguard_python.KeyCeremonyMediator.Rounds.{announce, orchestrate, verify}
use electionguard_python.KeyCeremonyMediator.{
  KeyCeremonyMediator, new_mediator, reset, receive_auxiliary_public_key,
  receive_election_public_key, confirm_presence_of_guardian, receive_election_partial_key_backup,
  receive_election_partial_key_verification, receive_election_partial_key_challenge,
}
use electionguard_python.KeyCeremonyMediator.Consistent.{
  IsConsistent, new_mediator-IsConsistent, reset-IsConsistent, election_key-IsConsistent,
  auxiliary_key-IsConsistent, presence-IsConsistent, backup-IsConsistent, verification-IsConsistent,
  challenge-IsConsistent, guardians-IsConsistent,
}
use electionguard_python.KeyCeremonyMediator.Consistent.Rounds.{
  announce-IsConsistent, orchestrate-IsConsistent, verify-IsConsistent,
}

module _ (gmp : Gmp) where
  -- Calls of the methods one after the other. Between them the guardians, which others hold as well,
  -- may change in any way.
  pub data Steps : KeyCeremonyMediator → Type 0 where
    start :
        (details : CeremonyDetails) (guardians : List Guardian)
        → Steps (new_mediator details guardians)
    and_reset :
        {m : KeyCeremonyMediator} → Steps m → (details : CeremonyDetails) → Steps (reset details m)
    and_announce : {m : KeyCeremonyMediator} → Steps m → (g : Guardian) → Steps (announce g m)
    and_orchestrate :
        {m : KeyCeremonyMediator}
        → Steps m
        → (encrypt : Text → Text → Option Text) → Steps (orchestrate gmp encrypt m).1
    and_verify :
        {m : KeyCeremonyMediator}
        → Steps m
        → (decrypt : Text → Text → Option Text) → Steps (verify gmp decrypt m).1
    and_confirm :
        {m : KeyCeremonyMediator}
        → Steps m
        → (s : PublicKeySet) → Steps (confirm_presence_of_guardian s m)
    and_auxiliary_key :
        {m : KeyCeremonyMediator}
        → Steps m
        → (key : AuxiliaryPublicKey) → Steps (receive_auxiliary_public_key key m)
    and_election_key :
        {m : KeyCeremonyMediator}
        → Steps m
        → (key : ElectionPublicKey) → Steps (receive_election_public_key key m)
    and_backup :
        {m : KeyCeremonyMediator}
        → Steps m
        → (b : ElectionPartialKeyBackup) → Steps (receive_election_partial_key_backup b m).1
    and_verification :
        {m : KeyCeremonyMediator}
        → Steps m
        → (v : ElectionPartialKeyVerification)
        → Steps (receive_election_partial_key_verification v m)
    and_challenge :
        {m : KeyCeremonyMediator}
        → Steps m
        → (c : ElectionPartialKeyChallenge) → Steps (receive_election_partial_key_challenge c m)
    and_others :
        {m : KeyCeremonyMediator}
        → Steps m
        → (guardians : List Guardian) → Steps (record m { guardians = guardians })

  -- In every state that a new mediator reaches by its methods, in any order and with any arguments,
  -- each auxiliary and each election key is filed under its owner, and no owner has two of either kind.
  -- Each backup, verification and challenge is filed under the pair of its owner and its designated
  -- guardian, and no pair has two of one kind. The owner and the designated guardian of a backup and of
  -- a verification differ.
  pub Steps-IsConsistent : {m : KeyCeremonyMediator} → Steps m → IsConsistent m
  Steps-IsConsistent (start details guardians) = new_mediator-IsConsistent details guardians
  Steps-IsConsistent (and_reset {m} s details) = reset-IsConsistent details m
  Steps-IsConsistent (and_announce {m} s g) = announce-IsConsistent g m (Steps-IsConsistent s)
  Steps-IsConsistent (and_orchestrate {m} s encrypt) =
      orchestrate-IsConsistent gmp encrypt m (Steps-IsConsistent s)
  Steps-IsConsistent (and_verify {m} s decrypt) =
      verify-IsConsistent gmp decrypt m (Steps-IsConsistent s)
  Steps-IsConsistent (and_confirm {m} s set) = presence-IsConsistent set m (Steps-IsConsistent s)
  Steps-IsConsistent (and_auxiliary_key {m} s key) =
      auxiliary_key-IsConsistent key m (Steps-IsConsistent s)
  Steps-IsConsistent (and_election_key {m} s key) =
      election_key-IsConsistent key m (Steps-IsConsistent s)
  Steps-IsConsistent (and_backup {m} s b) = backup-IsConsistent b m (Steps-IsConsistent s)
  Steps-IsConsistent (and_verification {m} s v) =
      verification-IsConsistent v m (Steps-IsConsistent s)
  Steps-IsConsistent (and_challenge {m} s c) = challenge-IsConsistent c m (Steps-IsConsistent s)
  Steps-IsConsistent (and_others {m} s guardians) =
      guardians-IsConsistent guardians m (Steps-IsConsistent s)
