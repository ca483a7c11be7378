-- ===== src/Ballot.antt =====
-- ballot.py: selections, contests and ballots, encrypted and accepted.
pub mod Plaintext
pub mod Selection
pub mod Contest
pub mod Ciphertext
pub mod Accepted
