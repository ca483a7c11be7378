-- ===== src/Examples.antt =====
-- The theorems at concrete inputs, over a concrete stand-in for the third-party calls.
mod Arithmetic
mod Ballots
mod Box
mod Ceremony
mod Count
mod Crypto
mod StandIns
mod Style
mod Device
mod Encryption
mod Guardians
mod Mediator
mod Unfit
mod Sum
