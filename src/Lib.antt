-- ===== src/Lib.antt =====
-- A model of ElectionGuard in Python: end-to-end verifiable elections by homomorphic encryption. The
-- code is the package src/electionguard/ of the repository.
--
-- Ballots are encrypted by exponential ElGamal in a subgroup of prime order, proved well-formed by
-- zero-knowledge proofs, accepted by a ballot box into a ballot store, and added up under encryption
-- by a tally. Guardians share their secret keys by polynomials.
--
-- The files, from the arithmetic up. A function or a method of the source is a definition under its
-- name there, and a loop is a definition of its own beside it.
--   Prelude           texts, dicts (association lists in the order of insertion), integers with
--                     Python's %, results of calls that may raise
--   Modular           powers and remainders of natural numbers
--   External          gmpy2 and hashlib: parameters, with the laws that gmpy2 documents
--   Group             src/electionguard/group.py; Group/Hex its hexadecimal and byte forms
--   Hash              hash.py (hash_elems) and nonces.py
--   Dlog              dlog.py: its globals are the record Dlog, which each call takes and returns
--   Elgamal           elgamal.py
--   Schnorr           schnorr.py
--   ChaumPedersen     chaum_pedersen.py: records and verifiers; ChaumPedersen/Provers its provers
--   ElectionPolynomial  election_polynomial.py
--   DataStore         data_store.py: DataStore, with texts for keys (KeyCeremonyMediator/PairStore has
--                     those with pairs for keys)
--   KeyCeremony       key_ceremony.py: backups of keys, their verification and challenges; the key pairs
--                     of auxiliary.py
--   Guardian          guardian.py; Exchange has the methods that make keys, backups and challenges, Decrypt
--                     the shares of a decryption
--   KeyCeremonyMediator  key_ceremony_mediator.py; PairStore is its stores under pairs of guardians,
--                     Rounds has announce, orchestrate and verify. Guardians are values here: a method
--                     that changes those of the mediator returns the mediator with the new ones
--   Tracker           tracker.py: the hashes
--   Election          election.py: contests and selections; Election/Internal placeholders, styles
--                     and contexts
--   Ballot            ballot.py: Selection, Contest and Ciphertext are the encrypted selections,
--                     contests and ballots, Accepted the ballots of the ballot box
--   Encrypt           encrypt.py: Selections, Contests and Ballots are its three levels; the plaintext
--                     ballots are in Ballot/Plaintext
--   DecryptWithSecrets  decrypt_with_secrets.py: Secret by the secret key, Nonce by the nonces; a call
--                     takes the cache of logarithms and returns it
--   BallotValidator   ballot_validator.py
--   BallotStore       ballot_store.py: its dict is the state
--   BallotBox         ballot_box.py: a call returns its result and the store after it
--   Tally             tally.py: the tally of a contest; Tally/Ballots the tally of an election, of which a
--                     call returns its result and the tally after it; Tally/Batch is batch_append
--                     and tally_ballots
--   Examples          stand-ins for gmpy2 and SHA-256, and the theorems at concrete inputs
--
-- An element of the group holds any integer, as an mpz does: int_to_q_unchecked and its like check
-- nothing, and what is in bounds is a Boolean test, as in the source. The constants P, Q and G are
-- those of the source. A call that raises returns `raise` with the kind of its exception. What
-- randbelow, datetime.now and the user's clock return are arguments. An inherited class is a record
-- that holds its base class in a field.
--
-- The loop of discrete_log has no bound in the source. It takes fuel here: fuel for the exponents
-- between the largest so far and the one looked for is enough, where the powers of G up to a bound
-- are distinct (Dlog.Laws.Distinct). The loop of rand_range_q takes the numbers drawn as a list. Every other loop runs over a list or counts up to a number.
--
-- The log lines are left out, since no result depends on them, and so are the usage tags of proofs.
-- The scheduler maps a task over its arguments; its pools of processes and threads are taken to
-- work. Not modelled: decryption by shares beyond a guardian's own, and the whole
-- ElectionDescription; JSON, files, RSA and the table of words, which are I/O, data or calls of
-- third-party packages.
pub mod Prelude
pub mod Modular
pub mod External
pub mod Group
pub mod Hash
pub mod Dlog
pub mod Elgamal
pub mod Schnorr
pub mod ChaumPedersen
pub mod ElectionPolynomial
pub mod DataStore
pub mod KeyCeremony
pub mod Guardian
pub mod KeyCeremonyMediator
pub mod Tracker
pub mod Election
pub mod Ballot
pub mod Encrypt
pub mod DecryptWithSecrets
pub mod BallotValidator
pub mod BallotStore
pub mod BallotBox
pub mod Tally
mod Examples
