-- ===== src/Encrypt.antt =====
-- encrypt.py: the encryption of selections, contests and ballots, and the devices that do it.
pub mod Selections
pub mod Contests
pub mod Ballots
pub mod Valid
pub mod Chain
pub mod Counted
pub mod Complete
